-- ===== src/Comments/Younger.antt =====
-- In `src/main/public/createPublicComment.js` and `src/main/comment`, every reply is younger than its
-- parent, whoever writes, edits, moderates and deletes.
use mathlib.Core.Path.{subst}
use feedbase_backend.Base.{
  ℕ, zero, suc, ◌≡◌, inl, inr, refl, Bool, true, false, ◌&&◌, List, [], ◌∷◌, Option, arith, All,
  Bool-cases, if◌then◌else◌, length, any,
}
use feedbase_backend.Base.Results.{Result, ok, err, guard-then, ok_injective, commit-keeps}
use feedbase_backend.Base.Counts.{All-map, All-keep}
use feedbase_backend.Env.{Env}
use feedbase_backend.Text.{Text}
use feedbase_backend.Tables.{Db}
use feedbase_backend.Guard.{Platform}
use feedbase_backend.Spam.Score.{ModerationState, published, pending, spam}
use feedbase_backend.Comments.{
  Comment, CommentError, OwnerMode, Author, exists_parent, is_in_tenant, is_editable, is_deletable,
  cascade, member_comment, create_comment, update_comment, delete_comment, reclassify_comment,
  update_comment_moderation,
}
use feedbase_backend.Comments.Creating.{
  NewComment, CommentUp, Thread, checks, comment_row, written, settle_write, after_checks,
  create_public_comment,
}
use feedbase_backend.Comments.Ordered.{
  Write, by_visitor, by_member, edit, moderate, delete, apply, apply_all, IsOrdered, IsThreaded,
  weaken, add-IsOrdered, exists_parent-IsOlder, checks-IsOlder,
}

settle-IsThreaded :
    (discard limited up : Bool) (t : Thread) (done : Thread × Result CommentError (Option ℕ))
    → IsThreaded t
    → IsThreaded done.0
    → IsThreaded (settle_write discard limited up t done).0
unfolding settle_write
settle-IsThreaded true l u t done h k = h
settle-IsThreaded false true u t done h k = h
settle-IsThreaded false false true t done h k = k
settle-IsThreaded false false false t done h k = h

after_checks-IsThreaded :
    (c : Result CommentError (Option ℕ)) (t : Thread)
    (write : Option ℕ → Thread × Result CommentError (Option ℕ))
    → IsThreaded t
    → ((root : Option ℕ) → c ≡ ok root → IsThreaded (write root).0)
    → IsThreaded (after_checks c t write).0
unfolding after_checks
after_checks-IsThreaded (err why) t write h k = h
after_checks-IsThreaded (ok root) t write h k = k root refl

visitor-IsThreaded :
    (env : Env) (pf : Platform) (up : CommentUp) (db : Db) (r : NewComment) (t : Thread)
    → IsThreaded t
    → IsThreaded (create_public_comment env pf up db r t).0
unfolding create_public_comment written comment_row
visitor-IsThreaded env pf up db r t h =
    after_checks-IsThreaded (checks up.lookup r t) t _ h (λ root e.
      settle-IsThreaded _ _ up.insert _ _ h (
        add-IsOrdered t.next_comment t.comments _ refl
          (checks-IsOlder t.next_comment up.lookup r t root h e) h))

member-IsThreaded :
    (db : Db) (e : Bool) (now : ℕ) (author : Author) (post : ℕ) (parent : Option ℕ)
    (mode : OwnerMode) (body : Text) (n : ℕ) (cs : List Comment)
    → All (IsOrdered n) cs
    → All (IsOrdered (suc n)) (create_comment db e now author post parent mode body n cs).0
unfolding create_comment member_comment
member-IsThreaded db e now author post parent mode body n cs h =
    elim (Bool-cases (e && exists_parent parent cs)) [
      | inr k ↦ rw k (weaken n cs h)
      | inl k ↦
          rw k
            (add-IsOrdered n cs _ refl (exists_parent-IsOlder n parent cs h (ground (arith, k))) h)
    ]

chosen-IsOrdered :
    (n : ℕ) (b : Bool) (c d : Comment)
    → IsOrdered n c
    → IsOrdered n d
    → IsOrdered n (if b then c else d)
chosen-IsOrdered n true c d h k = h
chosen-IsOrdered n false c d h k = k

edit-IsThreaded :
    (id : ℕ) (body : Text) (author : Author) (n : ℕ) (cs : List Comment)
    → All (IsOrdered n) cs
    → All (IsOrdered n) (update_comment id body author cs).0
unfolding update_comment
edit-IsThreaded id body author n cs h = elim (Bool-cases (any (is_editable id author) cs)) [
  | inr k ↦ rw k h
  | inl k ↦
      rw k
        (All-map (IsOrdered n) _ cs (λ c o. chosen-IsOrdered n (is_editable id author c) _ c o o) h)
]

cascade-All : (P : Comment → Type 0) (n : ℕ) (cs : List Comment) → All P cs → All P (cascade n cs)
cascade-All P zero cs h = h
cascade-All P (suc n) cs h = cascade-All P n _ (All-keep P _ cs h)

delete-IsThreaded :
    (id : ℕ) (author : Author) (n : ℕ) (cs : List Comment)
    → All (IsOrdered n) cs
    → All (IsOrdered n) (delete_comment id author cs).0
unfolding delete_comment
delete-IsThreaded id author n cs h = elim (Bool-cases (any (is_deletable id author) cs)) [
  | inr k ↦ rw k h
  | inl k ↦ rw k (cascade-All (IsOrdered n) (length cs) _ (All-keep (IsOrdered n) _ cs h))
]

moderate-IsOrdered :
    (n : ℕ) (state : ModerationState) (now : ℕ) (c : Comment)
    → IsOrdered n c
    → IsOrdered n (reclassify_comment state now c)
unfolding reclassify_comment
moderate-IsOrdered n published now c h = h
moderate-IsOrdered n pending now c h = h
moderate-IsOrdered n spam now c h = h

moderate-IsThreaded :
    (now : ℕ) (state : ModerationState) (id : ℕ) (author : Author) (n : ℕ) (cs : List Comment)
    → All (IsOrdered n) cs
    → All (IsOrdered n) (update_comment_moderation now state id author cs).0
unfolding update_comment_moderation
moderate-IsThreaded now state id author n cs h = commit-keeps (All (IsOrdered n)) cs _ h (λ t a e.
    let (_, h1) = guard-then _ _ _ e in
    let (_, h2) = guard-then _ _ _ h1 in
    subst (λ (r : List Comment × Unit {0}). All (IsOrdered n) r.0) (ok_injective h2)
      (All-map (IsOrdered n) _ cs
        (λ c o.
          chosen-IsOrdered n (is_in_tenant id author.tenant_id c) _ c
            (moderate-IsOrdered n state now c o) o)
        h))

apply-IsThreaded : (w : Write) (t : Thread) → IsThreaded t → IsThreaded (apply w t)
unfolding apply
apply-IsThreaded (by_visitor env pf up db r) t h = visitor-IsThreaded env pf up db r t h
apply-IsThreaded (by_member db e now author post parent mode body) t h =
    member-IsThreaded db e now author post parent mode body t.next_comment t.comments h
apply-IsThreaded (edit id body author) t h =
    edit-IsThreaded id body author t.next_comment t.comments h
apply-IsThreaded (moderate now state id author) t h =
    moderate-IsThreaded now state id author t.next_comment t.comments h
apply-IsThreaded (delete id author) t h = delete-IsThreaded id author t.next_comment t.comments h

-- Whoever writes, edits, moderates and deletes comments, on the board and in the dashboard, in
-- whatever order: each comment stays younger than the one it replies to, and older than the number
-- that comes next, if this holds at the start.
pub apply_all-IsThreaded :
    (ws : List Write) (t : Thread) → IsThreaded t → IsThreaded (apply_all ws t)
apply_all-IsThreaded [] t h = h
apply_all-IsThreaded (w ∷ ws) t h = apply_all-IsThreaded ws (apply w t) (apply-IsThreaded w t h)
