-- ===== src/Passwords/Renewed.antt =====
-- At most one reset link of an account is open: the updates of `src/main/users/passwordReset.js`.
use mathlib.Core.Path.{subst}
use feedbase_backend.Base.{
  ℕ, ◌≤◌, ◌≡◌, inl, inr, refl, true, List, [], ◌∷◌, ◌++◌, map, Option, arith, Bool-cases, count,
  count-append,
}
use feedbase_backend.Base.Counts.{count-map-le}
use feedbase_backend.Text.{Text, eq_text}
use feedbase_backend.Text.Laws.{eq_text_sound}
use feedbase_backend.Passwords.{Reset, Vault}
use feedbase_backend.Passwords.Resetting.{is_pending_for, expire, new_reset, use_reset}
use feedbase_backend.Passwords.Shared.{IsShared}

abbrev pub IsNewest : List Reset → Type 0
IsNewest resets = (email : Text) → count (is_pending_for email) resets ≤ 1

pub record IsSound (v : Vault) : Type 0 where
  pub shared : IsShared v.db.users
  pub newest : IsNewest v.resets

-- Asking for a link ends the pending ones of the address.
pub expire-count :
    (now : ℕ) (email : Text) (rs : List Reset)
    → count (is_pending_for email) (map (expire now email) rs) ≡ 0
unfolding expire
expire-count now email [] = refl
expire-count now email (r ∷ rs) = ground (arith, expire-count now email rs)

pub expire-pending :
    (now : ℕ) (email other : Text) (r : Reset)
    → is_pending_for other (expire now email r) ≡ true
    → is_pending_for other r ≡ true
unfolding expire
expire-pending now email other r h = ground arith

pub use-pending :
    (now id : ℕ) (other : Text) (r : Reset)
    → is_pending_for other (use_reset now id r) ≡ true
    → is_pending_for other r ≡ true
unfolding use_reset
use-pending now id other r h = ground arith

pub expire-IsNewest :
    (now : ℕ) (email : Text) (rs : List Reset) → IsNewest rs → IsNewest (map (expire now email) rs)
expire-IsNewest now email rs v other =
    omega (arith, v other, count-map-le _ (expire now email) rs (expire-pending now email other))

pub issue-IsNewest :
    (sha256 : Text → Text) (now : ℕ) (email raw : Text) (ip : Option Text) (id : ℕ)
    (rs : List Reset)
    → IsNewest rs
    → IsNewest (map (expire now email) rs ++ new_reset sha256 now email raw ip id ∷ [])
unfolding new_reset
issue-IsNewest sha256 now email raw ip id rs v other =
    let grown =
      count-append (is_pending_for other) (map (expire now email) rs)
        (new_reset sha256 now email raw ip id) in
    elim (Bool-cases (eq_text email other)) [
      | inl e ↦
          let none_left =
            subst (λ a. count (is_pending_for a) (map (expire now email) rs) ≡ 0)
              (eq_text_sound email other e) (expire-count now email rs) in
          ground (arith, grown, none_left, e)
      | inr e ↦ ground (arith, grown, expire-IsNewest now email rs v other, e)
    ]
