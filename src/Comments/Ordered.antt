-- ===== src/Comments/Ordered.antt =====
-- The order of the rows that `src/main/public/createPublicComment.js` and `src/main/comment` write.
use mathlib.Core.Path.{subst}
use feedbase_backend.Base.{
  ℕ, suc, ◌<◌, ◌≡◌, inl, inr, Bool, true, List, [], ◌∷◌, ◌++◌, Option, none, some, arith, All,
  Bool-cases,
}
use feedbase_backend.Base.Results.{ok, guard-then, first-then, ok_injective}
use feedbase_backend.Base.Counts.{find-All, All-snoc}
use feedbase_backend.Env.{Env}
use feedbase_backend.Text.{Text}
use feedbase_backend.Tables.{Db}
use feedbase_backend.Guard.{Platform}
use feedbase_backend.Spam.Score.{ModerationState}
use feedbase_backend.Comments.{
  Comment, OwnerMode, Author, has_id, exists_parent, create_comment, update_comment, delete_comment,
  update_comment_moderation,
}
use feedbase_backend.Comments.Climb.{IsYounger, climb-All}
use feedbase_backend.Comments.Creating.{
  NewComment, CommentUp, Thread, is_on, thread_root, checks, create_public_comment,
}

-- All that changes the table of comments.
pub data Write : Type 0 where
  by_visitor : Env → Platform → CommentUp → Db → NewComment → Write
  by_member :
      Db
      → (post_exists : Bool) (now : ℕ) → Author
      → (post : ℕ) (parent : Option ℕ) → OwnerMode
      → Text
      → Write
  edit : (id : ℕ) → Text → Author → Write
  moderate : (now : ℕ) → ModerationState → (id : ℕ) → Author → Write
  delete : (id : ℕ) → Author → Write

abbrev pub with_comments : List Comment → Thread → Thread
with_comments cs t = record t { comments = cs }

unfoldable pub apply : Write → Thread → Thread
apply (by_visitor env pf up db r) t = (create_public_comment env pf up db r t).0
apply (by_member db e now author post parent mode body) t = record t {
  comments = (create_comment db e now author post parent mode body t.next_comment t.comments).0;
  next_comment = suc t.next_comment;
}
apply (edit id body author) t = with_comments (update_comment id body author t.comments).0 t
apply (moderate now state id author) t =
    with_comments (update_comment_moderation now state id author t.comments).0 t
apply (delete id author) t = with_comments (delete_comment id author t.comments).0 t

abbrev pub apply_all : List Write → Thread → Thread
apply_all [] t = t
apply_all (w ∷ ws) t = apply_all ws (apply w t)

-- A row whose parent is older than it, and which is older than the row that comes next.
abbrev pub IsOrdered : ℕ → Comment → Type 0
IsOrdered n c = IsYounger c × (c.id < n)

abbrev pub IsThreaded : Thread → Type 0
IsThreaded t = All (IsOrdered t.next_comment) t.comments

pub IsOrdered-suc : (n : ℕ) (c : Comment) → IsOrdered n c → IsOrdered (suc n) c
IsOrdered-suc n c (y, l) = (y, omega (arith, l))

pub weaken : (n : ℕ) (cs : List Comment) → All (IsOrdered n) cs → All (IsOrdered (suc n)) cs
weaken n [] h = tt
weaken n (c ∷ cs) (a, h) = (IsOrdered-suc n c a, weaken n cs h)

-- A new row under the next number.
abbrev pub IsOlder : ℕ → Option ℕ → Type 0
IsOlder n parent = (p : ℕ) → parent ≡ some p → p < n

pub add-IsOrdered :
    (n : ℕ) (cs : List Comment) (row : Comment)
    → row.id ≡ n
    → IsOlder n row.parent_comment_id
    → All (IsOrdered n) cs
    → All (IsOrdered (suc n)) (cs ++ row ∷ [])
add-IsOrdered n cs row e o h =
    All-snoc _ cs row (weaken n cs h) ((λ p q. ground (arith, o p q, e)), ground (arith, e))

pub exists_parent-IsOlder :
    (n : ℕ) (parent : Option ℕ) (cs : List Comment)
    → All (IsOrdered n) cs
    → exists_parent parent cs ≡ true
    → IsOlder n parent
exists_parent-IsOlder n none cs h e = λ p q. ground (arith, q)
exists_parent-IsOlder n (some i) [] h e = ground arith
exists_parent-IsOlder n (some i) (c ∷ cs) ((y, l), h) e = elim (Bool-cases (has_id i c)) [
  | inl t ↦ λ p q. ground (arith, t, l, q)
  | inr t ↦ exists_parent-IsOlder n (some i) cs h (ground (arith, e, t))
]

pub thread_root-IsOlder :
    (n : ℕ) (r : NewComment) (parent : Option ℕ) (cs : List Comment) (root : Option ℕ)
    → All (IsOrdered n) cs
    → thread_root r parent cs ≡ ok root
    → IsOlder n root
unfolding thread_root
thread_root-IsOlder n r none cs root k h =
    subst (IsOlder n) (ok_injective h) (λ p q. ground (arith, q))
thread_root-IsOlder n r (some id) cs root k h =
    let (parent, found, h1) = first-then _ _ _ h in
    let (top, end, h2) = first-then _ _ _ h1 in
    let o =
      climb-All (IsOrdered n) _ r.tenant_id cs [] parent top k
        (find-All (IsOrdered n) (is_on id r.post_id r.tenant_id) cs parent k found) end in
    subst (IsOlder n) (ok_injective h2) (λ p q. ground (arith, o.1, q))

pub checks-IsOlder :
    (n : ℕ) (up : Bool) (r : NewComment) (t : Thread) (root : Option ℕ)
    → All (IsOrdered n) t.comments
    → checks up r t ≡ ok root
    → IsOlder n root
unfolding checks
checks-IsOlder n up r t root k h =
    let (_, h1) = guard-then _ _ _ h in
    let (_, h2) = guard-then _ _ _ h1 in
    let (_, h3) = guard-then _ _ _ h2 in
    let (post, _, h4) = first-then _ _ _ h3 in
    let (_, h5) = guard-then _ _ _ h4 in
    thread_root-IsOlder n r r.parent_comment_id t.comments root k h5
