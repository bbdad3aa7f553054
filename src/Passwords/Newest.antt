-- ===== src/Passwords/Newest.antt =====
-- Of the reset links of an account at most one is open: `src/main/users/passwordReset.js`. With the
-- shared password of its rows this holds through every sequence of requests.
use mathlib.Core.Path.{subst}
use feedbase_backend.Base.{
  ℕ, ◌≡◌, inl, inr, Bool, true, false, ◌&&◌, List, [], ◌∷◌, Option, none, some, arith, get_or,
  Bool-cases, length, any, ltb,
}
use feedbase_backend.Base.Results.{
  Result, ok, err, guard-then, first-then, all-then, ok_injective, commit-keeps,
}
use feedbase_backend.Base.Counts.{count-map-le}
use feedbase_backend.Text.{Text, trim}
use feedbase_backend.Tables.{User}
use feedbase_backend.Email.{matches_email}
use feedbase_backend.Passwords.{
  Vault, PasswordError, has_email, register_new_user, is_correct, enter, user_login,
  change_user_password,
}
use feedbase_backend.Passwords.Resetting.{
  ResetUp, client_ip, issue_reset, request_password_reset, use_reset, consume, sign_out_all,
  reset_password,
}
use feedbase_backend.Passwords.Shared.{
  Request, handle, serve, register, login, change, ask, reset, set-IsShared, register-IsShared,
}
use feedbase_backend.Passwords.Renewed.{IsSound, use-pending, expire-IsNewest, issue-IsNewest}

register-IsSound :
    (hash : Text → Text) (up : Bool) (full_name email password : Text) (v : Vault)
    → IsSound v
    → IsSound (register_new_user hash up full_name email password v).0
unfolding register_new_user
register-IsSound hash up full_name email password v s = commit-keeps IsSound v _ s (λ t a h.
    let (_, h1) = guard-then _ _ _ h in
    let (n, h2) = guard-then _ _ _ h1 in
    subst (λ (r : Vault × Unit {0}). IsSound r.0) (ok_injective h2)
      (record {
        shared =
            register-IsShared full_name email (hash password) v.next_user v.db.users
              (ground (arith, n)) s.shared;
        newest = s.newest;
      }))

enter-IsSound :
    (compare : Text → Text → Bool) (now : ℕ) (password : Text) (force : Bool) (sid : Text)
    (agent ip : Option Text) (found : Option User) (v : Vault)
    → IsSound v
    → IsSound (enter compare now password force sid agent ip found v).0
unfolding enter
enter-IsSound compare now password force sid agent ip none v s = s
enter-IsSound compare now password force sid agent ip (some u) v s =
    elim (Bool-cases (is_correct compare password u.password_hash)) [
      | inl c ↦ rw c (record { shared = s.shared; newest = s.newest })
      | inr c ↦ rw c s
    ]

login-IsSound :
    (compare : Text → Text → Bool) (up : Bool) (now : ℕ) (email : Text) (tenant : Option ℕ)
    (password : Text) (force : Bool) (sid : Text) (agent ip : Option Text) (v : Vault)
    → IsSound v
    → IsSound (user_login compare up now email tenant password force sid agent ip v).0
unfolding user_login
login-IsSound compare up now email tenant password force sid agent ip v s =
    enter-IsSound compare now password force sid agent ip _ v s

change-IsSound :
    (hash : Text → Text) (compare : Text → Text → Bool) (up : Bool) (old : Option Text) (new : Text)
    (id : ℕ) (email : Text) (v : Vault)
    → IsSound v
    → IsSound (change_user_password hash compare up old new id email v).0
unfolding change_user_password
change-IsSound hash compare up old new id email v s = commit-keeps IsSound v _ s (λ t a h.
    let (_, h1) = guard-then _ _ _ h in
    let (_, h2) = guard-then _ _ _ h1 in
    let (me, _, h3) = first-then _ _ _ h2 in
    let h4 = all-then _ _ h3 in
    let (_, h5) = guard-then _ _ _ h4 in
    subst (λ (r : Vault × Unit {0}). IsSound r.0) (ok_injective h5)
      (record { shared = set-IsShared email (hash new) v.db.users s.shared; newest = s.newest }))

issue-IsSound :
    (sha256 : Text → Text) (up : ResetUp) (now : ℕ) (email raw : Text) (ip : Option Text)
    (v : Vault)
    → IsSound v
    → IsSound (issue_reset sha256 up now email raw ip v).0
unfolding issue_reset
issue-IsSound sha256 up now email raw ip v s = elim (Bool-cases up.expire) [
  | inr e ↦ rw e s
  | inl e ↦ elim (Bool-cases up.insert) [
    | inr i ↦
        rw (e, i)
          (record { shared = s.shared; newest = expire-IsNewest now email v.resets s.newest })
    | inl i ↦
        rw (e, i)
          (record {
            shared = s.shared;
            newest = issue-IsNewest sha256 now email raw ip v.next_reset v.resets s.newest;
          })
  ]
]

ask-IsSound :
    (lower sha256 : Text → Text) (up : ResetUp) (now : ℕ) (email : Option Text) (raw : Text)
    (forwarded remote : Option Text) (v : Vault)
    → IsSound v
    → IsSound (request_password_reset lower sha256 up now email raw forwarded remote v).0
unfolding request_password_reset issue_reset
ask-IsSound lower sha256 up now email raw forwarded remote v s =
    let normalized = lower (trim (get_or email [])) in
    elim (Bool-cases (matches_email normalized)) [
      | inr e ↦ rw e s
      | inl e ↦ elim (Bool-cases up.lookup) [
        | inr i ↦ rw (e, i) s
        | inl i ↦ elim (Bool-cases (any (λ u. has_email normalized u && u.is_active) v.db.users)) [
          | inr k ↦ rw (e, i, k) s
          | inl k ↦
              rw (e, i, k)
                (issue-IsSound sha256 up now normalized raw (client_ip forwarded remote) v s)
        ]
      ]
    ]

sign_out_all-IsSound :
    (up : Bool) (now : ℕ) (r : Vault × Result PasswordError Text)
    → IsSound r.0
    → IsSound (sign_out_all up now r).0
unfolding sign_out_all
sign_out_all-IsSound up now (v, err e) s = s
sign_out_all-IsSound false now (v, ok email) s = s
sign_out_all-IsSound true now (v, ok email) s = record { shared = s.shared; newest = s.newest }

consume-IsSound :
    (sha256 hash : Text → Text) (up : Bool) (now : ℕ) (raw password : Text) (v t : Vault) (a : Text)
    → consume sha256 hash up now raw password v ≡ ok (t, a)
    → IsSound v
    → IsSound t
unfolding consume
consume-IsSound sha256 hash up now raw password v t a h s =
    let (row, _, h1) = first-then _ _ _ h in
    let (_, h2) = guard-then _ _ _ h1 in
    subst (λ (r : Vault × Text). IsSound r.0) (ok_injective h2)
      (record {
        shared = set-IsShared row.email (hash password) v.db.users s.shared;
        newest = λ other. omega (
          arith,
          s.newest other,
          count-map-le _ (use_reset now row.id) v.resets (use-pending now row.id other),
        );
      })

reset-IsSound :
    (sha256 hash : Text → Text) (up sessions_up : Bool) (now : ℕ) (raw password : Text) (v : Vault)
    → IsSound v
    → IsSound (reset_password sha256 hash up sessions_up now raw password v).0
unfolding reset_password
reset-IsSound sha256 hash up sessions_up now raw password v s =
    elim (Bool-cases (ltb (length password) 8)) [
      | inl e ↦ rw e s
      | inr e ↦ rw e (
          sign_out_all-IsSound sessions_up now _ (
            commit-keeps IsSound v _ s
              (λ t a h. consume-IsSound sha256 hash up now raw password v t a h s)))
    ]

handle-IsSound : (r : Request) (v : Vault) → IsSound v → IsSound (handle r v)
unfolding handle
handle-IsSound (register hash up full_name email password) v s =
    register-IsSound hash up full_name email password v s
handle-IsSound (login compare up now email tenant password force sid agent ip) v s =
    login-IsSound compare up now email tenant password force sid agent ip v s
handle-IsSound (change hash compare up old new id email) v s =
    change-IsSound hash compare up old new id email v s
handle-IsSound (ask lower sha256 up now email raw forwarded remote) v s =
    ask-IsSound lower sha256 up now email raw forwarded remote v s
handle-IsSound (reset sha256 hash up sessions_up now raw password) v s =
    reset-IsSound sha256 hash up sessions_up now raw password v s

-- Whatever sign-ups, sign-ins, password changes, requests for a reset link and resets arrive, in
-- whatever order and with whatever failing, all user rows with the same address keep one password
-- among them, and each address has at most one reset link that is not used, if both hold at the start.
pub serve-IsSound : (rs : List Request) (v : Vault) → IsSound v → IsSound (serve rs v)
serve-IsSound [] v s = s
serve-IsSound (r ∷ rs) v s = serve-IsSound rs (handle r v) (handle-IsSound r v s)
