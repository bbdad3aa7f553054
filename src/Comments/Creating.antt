-- ===== src/Comments/Creating.antt =====
-- Writing a comment on the public board: `src/main/public/createPublicComment.js`. The texts of the
-- notice to the team are left out.
use Prim.Native.Nat.{◌/◌}
use feedbase_backend.Base.{
  ℕ, suc, ◌+◌, ◌*◌, Bool, true, false, not, ◌&&◌, ◌||◌, List, [], ◌∷◌, ◌++◌, Option, none, some,
  is_some, get_or, if◌then◌else◌, take, length, find, count, ltb, ◌==◌,
}
use feedbase_backend.Base.Results.{Result, ok, err, ◌>>=◌, ◌>>◌, guard, first}
use feedbase_backend.Env.{Env}
use feedbase_backend.Text.{Text, is_empty, trim, includes}
use feedbase_backend.Tables.{Db}
use feedbase_backend.Email.{matches_email}
use feedbase_backend.Spam.Normal.{normalize_for_compare}
use feedbase_backend.Guard.{
  Platform, Submission, Ruling, GuardState, non_empty, evaluate_public_write,
}
use feedbase_backend.Board.{Post}
use feedbase_backend.Board.Posting.{is_spam}
use feedbase_backend.Board.Reviews.{is_post}
use feedbase_backend.Comments.{
  Comment, CommentError, comment_body_required, invalid_email, post_not_found, comment_not_found,
  too_many_requests, failed_to_create_comment, OwnerMode, Author, resolve_owner,
}
use feedbase_backend.Comments.Climb.{climb}

pub record NewComment : Type 0 where
  pub now : ℕ
  pub tenant_id : ℕ
  pub post_id : ℕ
  pub ip : Option Text
  pub author : Option Author
  pub body : Option Text
  pub submitter_name : Option Text
  pub submitter_email : Option Text
  pub guest_id : Option Text
  pub website : Option Text
  pub form_token : Option Text
  pub parent_comment_id : Option ℕ
  pub owner_mode : OwnerMode

-- Which of the queries succeed.
pub record CommentUp : Type 0 where
  pub lookup : Bool
  pub counters : Bool
  pub duplicates : Bool
  pub insert : Bool

-- The tables, the state of the gate, and the posts on whose account the team was notified.
pub record Thread : Type 0 where
  pub posts : List Post
  pub comments : List Comment
  pub next_comment : ℕ
  pub guard : GuardState
  pub notes : List ℕ

abbrev pub body_of : NewComment → Text
body_of r = trim (get_or r.body [])

abbrev pub guest_text : NewComment → ℕ → Option Text → Option Text
guest_text r n field =
    if is_some r.author then none else non_empty (take n (trim (get_or field [])))

abbrev pub well_formed : Option Text → Bool
well_formed none = true
well_formed (some email) = matches_email email

abbrev pub is_on : ℕ → ℕ → ℕ → Comment → Bool
is_on id post tenant c = c.id == id && c.post_id == post && c.tenant_id == tenant

-- The comment that a reply is attached to: the top of the thread of the one it names.
unfoldable pub thread_root : NewComment → Option ℕ → List Comment → Result CommentError (Option ℕ)
thread_root r none cs = ok none
thread_root r (some id) cs = do
  parent ← first (find (is_on id r.post_id r.tenant_id) cs) comment_not_found
  top ← first (climb (suc (length cs)) r.tenant_id cs [] parent) failed_to_create_comment
  ok (some top.id)

-- All that is checked before the gate.
unfoldable pub checks : Bool → NewComment → Thread → Result CommentError (Option ℕ)
checks up r t = do
  guard (not (is_empty (body_of r))) comment_body_required
  guard (well_formed (guest_text r 255 r.submitter_email)) invalid_email
  guard up failed_to_create_comment
  post ← first (find (is_post r.post_id r.tenant_id) t.posts) post_not_found
  guard (not (is_spam post.moderation_state)) post_not_found
  thread_root r r.parent_comment_id t.comments

-- A guest comment of the last day that holds the normal form of this one.
unfoldable pub repeats : Platform → NewComment → Text → Comment → Bool
repeats pf r pattern c =
    c.tenant_id == r.tenant_id
    && not (is_some c.author_id)
    && ltb (r.now / 1000) (c.created_at + 24 * 60 * 60)
    && includes pattern (pf.lower c.body)

unfoldable pub repeat_count : Platform → Bool → NewComment → List Comment → ℕ
repeat_count pf up r cs =
    let normalized = normalize_for_compare pf.lower (body_of r) in
    if is_some r.author || is_empty normalized || not up
    then 0
    else count (repeats pf r (take 80 normalized)) cs

unfoldable pub comment_submission : Platform → CommentUp → NewComment → Thread → Submission
comment_submission pf up r t = record {
  now = r.now;
  tenant_id = r.tenant_id;
  ip = r.ip;
  website = r.website;
  form_token = r.form_token;
  title = [];
  body = body_of r;
  email = guest_text r 255 r.submitter_email;
  duplicate_count = repeat_count pf up.duplicates r t.comments;
  is_authenticated = is_some r.author;
}

unfoldable pub comment_row : Db → NewComment → Ruling → Option ℕ → ℕ → Comment
comment_row db r ruling root id = record {
  id = id;
  tenant_id = r.tenant_id;
  post_id = r.post_id;
  author_id = elim r.author [ none ↦ none | some a ↦ some a.id ];
  submitter_name = guest_text r 120 r.submitter_name;
  submitter_email = guest_text r 255 r.submitter_email;
  guest_id = guest_text r 64 r.guest_id;
  voter_hash = ruling.voter_hash;
  as_owner = resolve_owner db r.owner_mode r.author r.tenant_id;
  parent_comment_id = root;
  body = body_of r;
  is_edited = false;
  moderation_state = ruling.moderation_state;
  spam_score = ruling.score;
  spam_reasons = ruling.reasons;
  spam_reviewed_at = none;
  spam_reviewed_score = none;
  created_at = r.now / 1000;
}

-- The row is inserted, and the team hears of it unless it is quarantined.
unfoldable pub written :
    Db → NewComment → Ruling → Option ℕ → Thread → Thread × Result CommentError (Option ℕ)
written db r ruling root t = (
  record t {
    comments = t.comments ++ comment_row db r ruling root t.next_comment ∷ [];
    next_comment = suc t.next_comment;
    notes = if is_spam ruling.moderation_state then t.notes else t.notes ++ r.post_id ∷ [];
  },
  ok (some t.next_comment),
)

-- What follows the gate: `discard` and `limited` are its ruling, `up` says whether the insertion
-- succeeds, which comes out as `done`.
unfoldable pub settle_write :
    (discard limited up : Bool)
    → Thread
    → Thread × Result CommentError (Option ℕ)
    → Thread × Result CommentError (Option ℕ)
settle_write discard limited up t done =
    if discard
    then (t, ok none)
    else if limited
    then (t, err too_many_requests)
    else if up
    then done
    else (t, err failed_to_create_comment)

-- A check that fails ends the request before the gate.
unfoldable pub after_checks :
    Result CommentError (Option ℕ)
    → Thread
    → (Option ℕ → Thread × Result CommentError (Option ℕ))
    → Thread × Result CommentError (Option ℕ)
after_checks (err why) t write = (t, err why)
after_checks (ok root) t write = write root

unfoldable pub create_public_comment :
    Env → Platform → CommentUp → Db → NewComment → Thread → Thread × Result CommentError (Option ℕ)
create_public_comment env pf up db r t =
    let (g, ruling) =
      evaluate_public_write env pf up.counters (comment_submission pf up r t) t.guard in
    after_checks (checks up.lookup r t) t (λ root.
      let t' = record t { guard = g } in
      settle_write ruling.discard ruling.rate_limited up.insert t' (written db r ruling root t'))
