-- ===== src/Board/Tests.antt =====
-- The handlers of the board at concrete inputs.
use feedbase_backend.Base.{
  ℕ, suc, ◌+◌, ◌≤◌, ◌≡◌, refl, true, false, ◌&&◌, List, [], ◌∷◌, map, none, some, arith, All,
  if◌then◌else◌, keep, count, leb, ◌==◌,
}
use feedbase_backend.Env.{defaults}
use feedbase_backend.Text.{Text, codes, eq_text, is_space, trim, includes, starts_with}
use feedbase_backend.Tables.{Db, owner}
use feedbase_backend.Spam.Score.{ModerationState, published, spam}
use feedbase_backend.Spam.Normal.{
  normalize_for_compare, blank_marks, collapse, blank_links, link_length,
}
use feedbase_backend.Guard.{Platform, voter_hash}
use feedbase_backend.Board.{Post, Board, feedback, opened}
use feedbase_backend.Board.Posting.{NewPost, Up, is_duplicate, create_public_post}
use feedbase_backend.Board.Published.{Outcome, create_public_post_lem}
use feedbase_backend.Board.Votes.{
  Vote, Ballot, ballot_row, conflicts, is_open, toggle_public_vote, toggled,
}
use feedbase_backend.Board.OneVote.{votes_of, one_vote, toggle-toggle}
use feedbase_backend.Board.Reviews.{purge_spam_posts, set_post_duplicate}
use feedbase_backend.Board.Kept.{is_safe, decide, purge_spam_posts_lem, first_score_kept}
use feedbase_backend.Board.Duplicates.{IsMarkedWell, set_post_duplicate_lem}

abbrev platform : Platform
platform = record {
  lower = λ s. map (λ c. if leb b'A' c && leb c b'Z' then c + 32 else c) s;
  host_of = λ u. none;
  sign_token = λ s. s;
  sign_ip = λ s. s;
  resolve_mx = λ d. feedbase_backend.Email.failed;
}

abbrev no_db : Db
no_db = record { tenants = []; users = []; accounts = [] }

abbrev blank : Board
blank = record {
  posts = [];
  next_id = 1;
  attachments = [];
  guard = record { rows = []; hits = [] };
  notices = [];
}

abbrev all_up : Up
all_up = record { counters = true; duplicates = true; insert = true; attach = true }

abbrev wish : Text → NewPost
wish title = record {
  now = 90000000;
  tenant_id = 5;
  ip = some (codes "10.0.0.1");
  author_id = none;
  title = some title;
  description = none;
  post_type = none;
  submitter_name = none;
  submitter_email = some (codes "a@acme.io");
  guest_id = none;
  website = none;
  form_token = none;
  attachment_ids = [];
  require_auth_to_post = false;
}

abbrev a_post : ℕ → ModerationState → ℕ → Post
a_post id state score = record {
  id = id;
  tenant_id = 5;
  author_id = none;
  submitter_name = none;
  submitter_email = none;
  guest_id = none;
  voter_hash = none;
  title = codes "Buy now!!! Cheap";
  description = [];
  post_type = feedback;
  status = opened;
  priority = 3;
  duplicate_of_post_id = none;
  moderation_state = state;
  spam_score = score;
  spam_reasons = [];
  spam_reviewed_at = none;
  spam_reviewed_score = none;
  created_at = 89000;
}

create_public_post_lem_example :
    Outcome defaults all_up no_db
      (wish (codes "Dark mode"))
      blank
      (create_public_post defaults platform all_up no_db (wish (codes "Dark mode")) blank)
create_public_post_lem_example =
    create_public_post_lem defaults all_up no_db (wish (codes "Dark mode")) platform blank

abbrev ballot : Ballot
ballot = record { votes = ballot_row 5 1 (codes "g") (some (codes "h")) 1 ∷ []; next_id = 2 }

abbrev board_posts : List Post
board_posts = a_post 1 published 0 ∷ a_post 2 spam 14 ∷ []

one_vote_example :
    votes_of 5 1
      (codes "h")
      (toggle_public_vote defaults platform board_posts 5 1
        (some (codes "k"))
        (some (codes "h"))
        ballot).0
    ≤ 1
unfolding eq_text
one_vote_example =
    one_vote defaults platform board_posts 5 1 (some (codes "k")) (some (codes "h")) 5 1 (codes "h")
      ballot (omega arith)

toggle-toggle_example :
    let n = count (λ (v : Vote). v.post_id == 1) ballot.votes in
    let (once, first) =
      toggle_public_vote defaults platform board_posts 5 1 (some (codes "k")) none ballot in
    let (twice, second) =
      toggle_public_vote defaults platform board_posts 5 1 (some (codes "k")) none once in
    (first ≡ toggled true (suc n)) × (second ≡ toggled false n) × (twice.votes ≡ ballot.votes)
unfolding is_open conflicts voter_hash eq_text trim is_space
toggle-toggle_example =
    toggle-toggle defaults platform board_posts 5 1 (some (codes "k")) none ballot refl refl refl
      (omega arith, tt)

purge_spam_posts_lem_example :
    keep (is_safe 5) (purge_spam_posts 90000000 5 owner (some (1 ∷ 2 ∷ [])) 0 board_posts).0
    ≡ keep (is_safe 5) board_posts
purge_spam_posts_lem_example =
    purge_spam_posts_lem 90000000 5 owner (some (1 ∷ 2 ∷ [])) 0 board_posts

first_score_kept_test :
    (decide
      ((published, 7000) ∷ (spam, 8000) ∷ (published, 9000) ∷ [])
      (a_post 2 spam 14)).spam_reviewed_score
    ≡ some 14
first_score_kept_test =
    first_score_kept 7000 ((spam, 8000) ∷ (published, 9000) ∷ []) (a_post 2 spam 14) refl

set_post_duplicate_lem_example :
    let posts' = (set_post_duplicate 1 (some 2) 5 board_posts).0 in All (IsMarkedWell posts') posts'
set_post_duplicate_lem_example = set_post_duplicate_lem 1 5 (some 2) board_posts (tt, (tt, tt))

-- The normal form of a title drops its marks, so that the title itself does not hold it, and the
-- same submission again is no duplicate.
duplicate_test :
    is_duplicate platform
      (wish (codes "Buy now!!! Cheap"))
      (normalize_for_compare platform.lower (codes "Buy now!!! Cheap "))
      (a_post 1 published 0)
    ≡ false
unfolding is_duplicate normalize_for_compare blank_links blank_marks collapse link_length includes
    starts_with eq_text
duplicate_test = refl
