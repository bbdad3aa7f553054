-- ===== src/Board/Reviews.antt =====
-- What the owner and the server do to stored posts: `src/main/post/updatePostModeration.js`,
-- `src/main/post/purgeSpam.js`, `src/main/post/setPostDuplicate.js` and
-- `src/common/spamRetention.js`. `now` is in milliseconds, the instants of rows are seconds. The
-- cascade of a deletion into other tables is left out.
use Prim.Native.Nat.{◌/◌}
use feedbase_backend.Base.{
  ℕ, ◌+◌, ◌*◌, Bool, true, false, not, ◌&&◌, ◌||◌, List, [], ◌∷◌, map, Option, none, some,
  if◌then◌else◌, any, keep, count, ltb, leb, ◌==◌,
}
use feedbase_backend.Env.{Env, setting}
use feedbase_backend.Tables.{Role, is_owner}
use feedbase_backend.Spam.Score.{ModerationState, published, pending, spam}
use feedbase_backend.Board.{Post}
use feedbase_backend.Board.Posting.{is_spam}

pub data Answer : Type 0 where
  ok : Answer
  deleted : ℕ → Answer
  post_not_found delete_feedback_owner_only invalid_request invalid_duplicate_target : Answer

abbrev pub is_post : ℕ → ℕ → Post → Bool
is_post id tenant p = p.id == id && p.tenant_id == tenant

-- One row of the update: publishing clears the score and keeps the first one that was reviewed.
unfoldable pub reclassify : ModerationState → ℕ → Post → Post
reclassify published now p = record p {
  moderation_state = published;
  spam_reviewed_at = some (now / 1000);
  spam_reviewed_score = elim p.spam_reviewed_score [ none ↦ some p.spam_score | some n ↦ some n ];
  spam_score = 0;
  spam_reasons = [];
}
reclassify pending now p = record p { moderation_state = pending }
reclassify spam now p = record p { moderation_state = spam }

-- `updatePostModeration`, for a state that is one of the three.
unfoldable pub update_post_moderation : ℕ → ModerationState → ℕ → ℕ → List Post → List Post × Answer
update_post_moderation now state id tenant posts =
    if any (is_post id tenant) posts
    then (map (λ p. if is_post id tenant p then reclassify state now p else p) posts, ok)
    else (posts, post_not_found)

-- Quarantined and more than `days` days old.
abbrev pub is_expired : ℕ → ℕ → ModerationState → ℕ → Bool
is_expired now days state created_at =
    is_spam state && ltb (created_at + days * (24 * 60 * 60)) (now / 1000)

-- The columns of `comments` that retention reads.
pub record Comment : Type 0 where
  pub id : ℕ
  pub moderation_state : ModerationState
  pub created_at : ℕ

abbrev pub retention_days : Env → ℕ
retention_days env = setting env.spam_retention_days 30

unfoldable pub is_enabled : Env → Bool
is_enabled env = ltb 0 (retention_days env)

-- `purgeExpiredSpam`, where both queries succeed.
unfoldable pub purge_expired_spam : Env → ℕ → List Post × List Comment → List Post × List Comment
purge_expired_spam env now (posts, comments) =
    let days = retention_days env in
    if is_enabled env
    then (
      keep (λ p. not (is_expired now days p.moderation_state p.created_at)) posts,
      keep (λ c. not (is_expired now days c.moderation_state c.created_at)) comments,
    )
    else (posts, comments)

abbrev pub min_interval_ms : ℕ
min_interval_ms = 60 * 60 * 1000

pub record Retention : Type 0 where
  pub last_run : ℕ
  pub posts : List Post
  pub comments : List Comment

-- `maybePurgeExpiredSpam`: at most one run an hour.
unfoldable pub maybe_purge_expired_spam : Env → ℕ → Retention → Retention
maybe_purge_expired_spam env now r =
    let (posts, comments) = purge_expired_spam env now (r.posts, r.comments) in
    if not (is_enabled env) || ltb now (r.last_run + min_interval_ms)
    then r
    else record { last_run = now; posts = posts; comments = comments }

-- The rows that a purge names: those of a list of ids, or those older than a number of days.
unfoldable pub is_purged : ℕ → ℕ → Option (List ℕ) → ℕ → Post → Bool
is_purged now tenant (some ids) days p =
    p.tenant_id == tenant && is_spam p.moderation_state && any (λ i. i == p.id) ids
is_purged now tenant none days p =
    p.tenant_id == tenant && is_expired now days p.moderation_state p.created_at

abbrev pub is_window : ℕ → Bool
is_window days = leb 1 days && leb days 3650

-- Whether a purge is refused: an empty list, or no list and no sane window.
unfoldable pub is_refused : Option (List ℕ) → ℕ → Bool
is_refused (some []) days = true
is_refused (some (i ∷ ids)) days = false
is_refused none days = not (is_window days)

-- `purgeSpamPosts`: `ids` are the positive numbers of the list, if one is given; `days` is 0 where
-- none is given.
unfoldable pub purge_spam_posts :
    ℕ → ℕ → Role → Option (List ℕ) → ℕ → List Post → List Post × Answer
purge_spam_posts now tenant role ids days posts =
    if not (is_owner role)
    then (posts, delete_feedback_owner_only)
    else if is_refused ids days
    then (posts, invalid_request)
    else (
      keep (λ p. not (is_purged now tenant ids days p)) posts,
      deleted (count (is_purged now tenant ids days) posts),
    )

-- `setPostDuplicate`, where `none` clears the mark.
unfoldable pub is_target : ℕ → ℕ → Option ℕ → List Post → Bool
is_target id tenant none posts = true
is_target id tenant (some target) posts = not (target == id) && any (is_post target tenant) posts

unfoldable pub set_post_duplicate : ℕ → Option ℕ → ℕ → List Post → List Post × Answer
set_post_duplicate id target tenant posts =
    if not (any (is_post id tenant) posts)
    then (posts, post_not_found)
    else if is_target id tenant target posts
    then (
      map (λ p. if is_post id tenant p then record p { duplicate_of_post_id = target } else p)
          posts,
      ok,
    )
    else (posts, invalid_duplicate_target)
