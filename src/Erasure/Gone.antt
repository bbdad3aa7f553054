-- ===== src/Erasure/Gone.antt =====
-- What `purgeAccount` of `src/common/accountDeletion.js` destroys, and what it leaves.
use mathlib.Core.Path.{subst}
use feedbase_backend.Base.{length, ℕ, ◌≡◌, refl, ap, ◌∙◌, Bool, true, false, not, ◌||◌, arith, any}
use feedbase_backend.Base.Results.{
  commit, guard, ◌>>=◌, ◌>>◌, ok, err, guard-then, step-then, commit-ok, commit-err, ok_injective,
}
use feedbase_backend.Erasure.Leaving.{HaveOwners, leave_all-goes}
use feedbase_backend.Text.{Text}
use feedbase_backend.Erasure.{
  Estate, PurgeError, is_account, is_platform_admin_email, owned_tenant_ids, member_rows, is_signed,
  leave_all, gone_rows, is_blocked, left, purged, purge_account,
}
use feedbase_backend.Erasure.Unsigned.{
  IsErased, purged-IsErased, kept_ids, kept_ids-leave_all, kept_ids-purged, has_row,
  leave_all-either, purged-IsUnsigned,
}

-- What a success leaves: nothing of the account, every post of the workspaces of others, and no post
-- signed by a user that the account had.
pub record IsPurged (email : Text) (s s' : Estate) : Type 0 where
  pub erased : IsErased email (owned_tenant_ids email s.db.users) s'
  pub posts_kept :
      let ids = owned_tenant_ids email s.db.users in kept_ids ids s'.posts ≡ kept_ids ids s.posts
  pub unsigned_posts :
      (id : ℕ) → any (has_row email id) s.db.users ≡ true → any (is_signed id) s'.posts ≡ false

purge_account-IsPurged :
    (allow up : Bool) (email : Text) (s : Estate) (n : ℕ × ℕ)
    → (purge_account allow up email s).1 ≡ ok n
    → IsPurged email s (purge_account allow up email s).0
      × (allow || not (is_platform_admin_email email s) ≡ true)
unfolding purge_account left
purge_account-IsPurged allow up email s n h =
    let (t, g, kept) = commit-ok s _ n h in
    let (a, h1) = guard-then _ _ _ g in
    let (_, h2) = guard-then _ _ _ h1 in
    let ids = owned_tenant_ids email s.db.users in
    let ms = member_rows email s.db.users in
    let (s', departed, h3) = step-then (leave_all ms s) _ h2 in
    let (b, h4) = guard-then _ _ _ h3 in
    let same : purged email ids s' ≡ t = ap (λ (r : Estate × (ℕ × ℕ)). r.0) (ok_injective h4) in
    (
      subst (IsPurged email s) (same ∙ kept) (record {
        erased = purged-IsErased email ids s';
        posts_kept = kept_ids-purged email ids s' ∙ kept_ids-leave_all ids ms s s' departed;
        unsigned_posts = λ id r.
            purged-IsUnsigned email id ids s' (leave_all-either email id ms s s' r departed)
              (ground (arith, b));
      }),
      a,
    )

-- Where the departures go through, nothing of the account stands in the way and the queries succeed, the
-- account is erased.
abbrev pub Succeeds : (allow up : Bool) → Text → Estate → Estate → Type 0
Succeeds allow up email s s' =
    let ids = owned_tenant_ids email s.db.users in
    (allow || not (is_platform_admin_email email s)) ≡ true
    → any (is_account email) s.db.users ≡ true
    → up ≡ true
    → is_blocked (gone_rows email ids s'.db.users) ids s' ≡ false
    → (purge_account allow up email s).1 ≡ ok (length ids, length (member_rows email s.db.users))

purge_account-goes :
    (allow up : Bool) (email : Text) (s : Estate)
    → HaveOwners (member_rows email s.db.users) s.db.users
    → (s' : Estate) × (left email s ≡ ok s') × Succeeds allow up email s s'
unfolding purge_account left commit ◌>>=◌ ◌>>◌ guard
purge_account-goes allow up email s h =
    let (s', gone) = leave_all-goes (member_rows email s.db.users) s h in
    (s', gone, λ a u w b. rw (a, u, gone, w, b) refl)

-- Erasing an account that is refused, or whose transaction fails, changes nothing. One that succeeds
-- is of no platform admin, unless that is allowed; it leaves no row that is keyed by the address and
-- no workspace that the account owned, but all posts of the other workspaces, in order, none of which
-- is signed by a user that the account had before. Where each membership is of a workspace with an
-- owner who stays, all departures go through, whatever the members wrote or made; and if the account
-- may go, exists, the queries succeed, and what its other rows wrote is not in the way, it is erased.
pub purge_account_lem :
    (allow up : Bool) (email : Text) (s : Estate)
    → let r = purge_account allow up email s in
      ((n : ℕ × ℕ)
        → r.1 ≡ ok n
        → IsPurged email s r.0 × (allow || not (is_platform_admin_email email s) ≡ true))
      × ((e : PurgeError) → r.1 ≡ err e → r.0 ≡ s)
      × (HaveOwners (member_rows email s.db.users) s.db.users
          → (s' : Estate) × (left email s ≡ ok s') × Succeeds allow up email s s')
unfolding purge_account
purge_account_lem allow up email s = (
  λ n h. purge_account-IsPurged allow up email s n h,
  λ e h. commit-err s _ e h,
  purge_account-goes allow up email s,
)
