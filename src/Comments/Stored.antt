-- ===== src/Comments/Stored.antt =====
-- What `src/main/public/createPublicComment.js` stores.
use feedbase_backend.Base.{
  ℕ, ◌≡◌, ◌≢◌, true, false, List, [], ◌∷◌, ◌++◌, Option, none, some, if◌then◌else◌, any, find,
}
use feedbase_backend.Base.Results.{Result, ok}
use feedbase_backend.Env.{Env}
use feedbase_backend.Text.{is_empty}
use feedbase_backend.Tables.{Db}
use feedbase_backend.Board.Posting.{is_spam}
use feedbase_backend.Board.Reviews.{is_post}
use feedbase_backend.Comments.{Comment, CommentError, resolve_owner}
use feedbase_backend.Comments.Climb.{Ascends, HasNoParent}
use feedbase_backend.Comments.Creating.{NewComment, Thread, is_on}

-- Where a reply is attached: nowhere if it names no comment, else to the comment that is reached from
-- the named one, which is on the same post, by going from parent to parent until there is none.
abbrev pub IsFlat : NewComment → Option ℕ → List Comment → Option ℕ → Type 0
IsFlat r none cs root = root ≡ none
IsFlat r (some id) cs root =
    (named : Comment) × (top : Comment) × (find (is_on id r.post_id r.tenant_id) cs ≡ some named)
    × Ascends r.tenant_id cs named top
    × HasNoParent r.tenant_id cs top
    × (root ≡ some top.id)

-- The new row: its place in the thread, its body, its badge, and who hears of it.
pub record IsWritten (db : Db) (r : NewComment) (t t' : Thread) (row : Comment) : Type 0 where
  pub last : t'.comments ≡ t.comments ++ row ∷ []
  pub numbered : row.id ≡ t.next_comment
  pub placed : (row.tenant_id ≡ r.tenant_id) × (row.post_id ≡ r.post_id)
  pub on_board : any (is_post r.post_id r.tenant_id) t.posts ≡ true
  pub filled : is_empty row.body ≡ false
  pub flat : IsFlat r r.parent_comment_id t.comments row.parent_comment_id
  pub badged : row.as_owner ≡ resolve_owner db r.owner_mode r.author r.tenant_id
  pub heard :
      t'.notes ≡ (if is_spam row.moderation_state then t.notes else t.notes ++ r.post_id ∷ [])

abbrev pub CommentOutcome :
    Db → NewComment → Thread → Thread × Result CommentError (Option ℕ) → Type 0
CommentOutcome db r t (t', a) =
    ((id : ℕ) → a ≡ ok (some id) → (row : Comment) × (row.id ≡ id) × IsWritten db r t t' row)
    × (((id : ℕ) → a ≢ ok (some id)) → (t'.comments ≡ t.comments) × (t'.notes ≡ t.notes))
