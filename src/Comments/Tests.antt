-- ===== src/Comments/Tests.antt =====
-- Comments at concrete inputs.
use feedbase_backend.Base.{suc, ◌≡◌, refl, true, List, [], ◌∷◌, none, some, arith, length}
use feedbase_backend.Env.{defaults}
use feedbase_backend.Text.{codes}
use feedbase_backend.Tables.{owner, Db}
use feedbase_backend.Guard.{Platform}
use feedbase_backend.Spam.Score.{published}
use feedbase_backend.Board.{Post, feedback, opened}
use feedbase_backend.Comments.{Comment, Author, hidden, plain, member_comment}
use feedbase_backend.Comments.Climb.{climb, above, climb-terminates}
use feedbase_backend.Comments.Creating.{NewComment, CommentUp, Thread}
use feedbase_backend.Comments.Ordered.{by_visitor, by_member, delete, IsThreaded, apply_all}
use feedbase_backend.Comments.Younger.{apply_all-IsThreaded}

abbrev platform : Platform
platform = record {
  lower = λ s. s;
  host_of = λ u. none;
  sign_token = λ s. s;
  sign_ip = λ s. s;
  resolve_mx = λ d. feedbase_backend.Email.failed;
}

abbrev no_db : Db
no_db = record { tenants = []; users = []; accounts = [] }

abbrev boss : Author
boss = record { id = 1; tenant_id = 7; role = owner }

-- A comment, a reply, and a reply to the reply, which the dashboard allows.
abbrev first_one : Comment
first_one = member_comment no_db 0 boss 3 none plain (codes "a") 1

abbrev second : Comment
second = member_comment no_db 0 boss 3 (some 1) plain (codes "b") 2

abbrev third : Comment
third = member_comment no_db 0 boss 3 (some 2) plain (codes "c") 3

abbrev rows : List Comment
rows = first_one ∷ second ∷ third ∷ []

climb_test : climb (suc (length rows)) 7 rows [] third ≡ some first_one
unfolding climb above member_comment
climb_test = refl

-- Two comments that are each other's parent end the walk as well.
abbrev loop_one : Comment
loop_one = member_comment no_db 0 boss 3 (some 2) plain (codes "a") 1

abbrev loop_two : Comment
loop_two = member_comment no_db 0 boss 3 (some 1) plain (codes "b") 2

climb-terminates_example :
    (top : Comment) × (climb 3 7 (loop_one ∷ loop_two ∷ []) [] loop_one ≡ some top)
unfolding member_comment
climb-terminates_example = climb-terminates 7 (loop_one ∷ loop_two ∷ []) loop_one refl

abbrev idea : Post
idea = record {
  id = 3;
  tenant_id = 7;
  author_id = none;
  submitter_name = none;
  submitter_email = none;
  guest_id = none;
  voter_hash = none;
  title = codes "Dark mode";
  description = [];
  post_type = feedback;
  status = opened;
  priority = 3;
  duplicate_of_post_id = none;
  moderation_state = published;
  spam_score = 0;
  spam_reasons = [];
  spam_reviewed_at = none;
  spam_reviewed_score = none;
  created_at = 0;
}

abbrev thread : Thread
thread = record {
  posts = idea ∷ [];
  comments = rows;
  next_comment = 4;
  guard = record { rows = []; hits = [] };
  notes = [];
}

abbrev reply : NewComment
reply = record {
  now = 90000000;
  tenant_id = 7;
  post_id = 3;
  ip = none;
  author = some boss;
  body = some (codes "Soon");
  submitter_name = none;
  submitter_email = none;
  guest_id = none;
  website = none;
  form_token = none;
  parent_comment_id = some 3;
  owner_mode = hidden;
}

abbrev all_up : CommentUp
all_up = record { lookup = true; counters = true; duplicates = true; insert = true }

apply_all-IsThreaded_example : IsThreaded (
    apply_all
      (by_visitor defaults platform all_up no_db reply
        ∷ by_member no_db true 0 boss 3 (some 2) plain (codes "d")
        ∷ delete 2 boss
        ∷ [])
      thread)
unfolding member_comment
apply_all-IsThreaded_example =
    apply_all-IsThreaded
      (by_visitor defaults platform all_up no_db reply
        ∷ by_member no_db true 0 boss 3 (some 2) plain (codes "d")
        ∷ delete 2 boss
        ∷ [])
      thread
      (
        ((λ p e. ground arith), omega arith),
        (((λ p e. ground arith), omega arith), (((λ p e. ground arith), omega arith), tt)),
      )
