-- ===== src/Passwords/Shared.antt =====
-- The rows of an account share one password, which `src/main/users/changeUserPassword.js` and
-- `src/main/users/passwordReset.js` change on all of them; and the requests that reach the handlers.
use mathlib.Core.Path.{subst}
use feedbase_backend.Base.{
  ℕ, ◌≡◌, inl, inr, refl, Bool, true, false, List, [], ◌∷◌, ◌++◌, map, Option, some, arith, All,
  Bool-cases, any,
}
use feedbase_backend.Base.Counts.{All-snoc}
use feedbase_backend.Text.{Text, eq_text}
use feedbase_backend.Text.Laws.{eq_text_sound}
use feedbase_backend.Tables.{User}
use feedbase_backend.Passwords.{
  Vault, has_email, set_password, pending_user, register_new_user, user_login, change_user_password,
}
use feedbase_backend.Passwords.Resetting.{ResetUp, request_password_reset, reset_password}

-- The requests that reach these handlers, each with what its outside gives it.
pub data Request : Type 0 where
  register : (hash : Text → Text) (up : Bool) (full_name email password : Text) → Request
  login :
      (compare : Text → Text → Bool) (up : Bool) (now : ℕ) (email : Text) (tenant : Option ℕ)
      (password : Text) (force : Bool) (sid : Text) (agent ip : Option Text)
      → Request
  change :
      (hash : Text → Text) (compare : Text → Text → Bool) (up : Bool) (old : Option Text)
      (new : Text) (id : ℕ) (email : Text)
      → Request
  ask :
      (lower sha256 : Text → Text) (up : ResetUp) (now : ℕ) (email : Option Text) (raw : Text)
      (forwarded remote : Option Text)
      → Request
  reset :
      (sha256 hash : Text → Text) (up sessions_up : Bool) (now : ℕ) (raw password : Text) → Request

unfoldable pub handle : Request → Vault → Vault
handle (register hash up full_name email password) v =
    (register_new_user hash up full_name email password v).0
handle (login compare up now email tenant password force sid agent ip) v =
    (user_login compare up now email tenant password force sid agent ip v).0
handle (change hash compare up old new id email) v =
    (change_user_password hash compare up old new id email v).0
handle (ask lower sha256 up now email raw forwarded remote) v =
    (request_password_reset lower sha256 up now email raw forwarded remote v).0
handle (reset sha256 hash up sessions_up now raw password) v =
    (reset_password sha256 hash up sessions_up now raw password v).0

abbrev pub serve : List Request → Vault → Vault
serve [] v = v
serve (r ∷ rs) v = serve rs (handle r v)

-- All rows with the address have the same password.
abbrev pub HasHash : Text → Option Text → User → Type 0
HasHash email h u = eq_text u.email email ≡ true → u.password_hash ≡ h

abbrev pub IsShared : List User → Type 0
IsShared users = (email : Text) → (h : Option Text) × All (HasHash email h) users

set-HasHash :
    (email hash : Text) (us : List User)
    → All (HasHash email (some hash)) (map (set_password email hash) us)
unfolding set_password
set-HasHash email hash [] = tt
set-HasHash email hash (u ∷ us) = (λ h. ground arith, set-HasHash email hash us)

set_password-other :
    (email hash other : Text) (h : Option Text) (u : User)
    → eq_text email other ≡ false
    → HasHash other h u
    → HasHash other h (set_password email hash u)
unfolding set_password
set_password-other email hash other h u n a = elim (Bool-cases (has_email email u)) [
  | inr e ↦ rw e a
  | inl e ↦
      rw e (λ t.
        let same = subst (λ x. eq_text x other ≡ true) (eq_text_sound u.email email e) t in cc)
]

set-HasHash-other :
    (email hash other : Text) (h : Option Text) (us : List User)
    → eq_text email other ≡ false
    → All (HasHash other h) us
    → All (HasHash other h) (map (set_password email hash) us)
unfolding set_password
set-HasHash-other email hash other h [] n k = tt
set-HasHash-other email hash other h (u ∷ us) n (a, k) =
    (set_password-other email hash other h u n a, set-HasHash-other email hash other h us n k)

pub set-IsShared :
    (email hash : Text) (us : List User) → IsShared us → IsShared (map (set_password email hash) us)
set-IsShared email hash us v other = elim (Bool-cases (eq_text email other)) [
  | inl e ↦ (
    some hash,
    subst (λ a. All (HasHash a (some hash)) (map (set_password email hash) us))
        (eq_text_sound email other e) (set-HasHash email hash us),
  )
  | inr e ↦ let (h, k) = v other in (h, set-HasHash-other email hash other h us e k)
]

-- A new address has no rows yet.
new-HasHash :
    (email : Text) (h : Option Text) (us : List User)
    → any (has_email email) us ≡ false
    → All (HasHash email h) us
new-HasHash email h [] n = tt
new-HasHash email h (u ∷ us) n =
    (λ e. ground (arith, n, e), new-HasHash email h us (ground (arith, n)))

pub register-IsShared :
    (name email hash : Text) (id : ℕ) (us : List User)
    → any (has_email email) us ≡ false
    → IsShared us
    → IsShared (us ++ pending_user name email hash id ∷ [])
unfolding pending_user
register-IsShared name email hash id us n v other = elim (Bool-cases (eq_text email other)) [
  | inl e ↦
      let same = eq_text_sound email other e in
      (
        some hash,
        All-snoc _ us _
            (new-HasHash other (some hash) us (subst (λ a. any (has_email a) us ≡ false) same n))
            (λ k. refl),
      )
  | inr e ↦ let (h, k) = v other in (h, All-snoc _ us _ k (λ t. cc))
]
