-- ===== src/Passwords/BackIn.antt =====
-- From a forgotten password back into the account: `requestPasswordReset` and `resetPassword` of
-- `src/main/users/passwordReset.js`, then `src/main/users/userLogin.js`.
use feedbase_backend.Base.{
  ℕ, suc, ◌+◌, ◌≤◌, ◌<◌, ◌≡◌, inl, inr, refl, ap, ◌∙◌, Bool, true, false, ◌&&◌, List, [], ◌∷◌, ◌++◌,
  map, Option, none, some, arith, get_or, Bool-cases, length, any, ltb,
}
use feedbase_backend.Base.Results.{ok, ◌>>=◌, ◌>>◌, guard, first, commit}
use feedbase_backend.Text.{Text, trim}
use feedbase_backend.Tables.{User, Db}
use feedbase_backend.Sessions.{Session, started, gate, start_session}
use feedbase_backend.Email.{matches_email}
use feedbase_backend.Passwords.{
  Reset, Vault, SignedIn, has_email, set_password, user_login_query, is_correct, signed_in, enter,
  user_login,
}
use feedbase_backend.Passwords.Resetting.{
  reset_ttl_ms, expire, client_ip, new_reset, issue_reset, request_password_reset, find_live_reset,
  use_reset, consume, sign_out_all, reset_password,
}
use feedbase_backend.Passwords.Issued.{
  all_up, is_of_link, has_row, asked-live, used-dead, set_password-row, set_password-new,
}

-- Each row of the account has the new password.
find-password :
    (email hash : Text) (tenant : Option ℕ) (us : List User)
    → any (has_row email tenant) us ≡ true
    → (u : User) × (user_login_query email tenant (map (set_password email hash) us) ≡ some u)
      × (u.password_hash ≡ some hash)
      × (u.email ≡ email)
unfolding user_login_query
find-password email hash tenant [] h = ground arith
find-password email hash tenant (u ∷ us) h = elim (Bool-cases (has_row email tenant u)) [
  | inl e ↦
      let (u', same, new, at) = set_password-new email hash u (ground (arith, e)) in
      let first_is : has_row email tenant (set_password email hash u) ≡ true =
        set_password-row email hash tenant u ∙ e in
      (u', rw first_is (ap some same), new, at)
  | inr e ↦
      let first_not : has_row email tenant (set_password email hash u) ≡ false =
        set_password-row email hash tenant u ∙ e in
      let (u', found, new, at) = find-password email hash tenant us (ground (arith, h, e)) in
      (u', rw first_not found, new, at)
]

forced-started :
    (db : Db) (u : User) (now : ℕ) (sid : Text) (agent ip : Option Text) (ss : List Session)
    → (start_session db u true now sid agent ip ss).1 ≡ started sid
unfolding start_session gate
forced-started db u now sid agent ip ss = ground arith

enter-forced :
    (compare : Text → Text → Bool) (now : ℕ) (password hash sid : Text) (agent ip : Option Text)
    (u : User) (v : Vault)
    → u.password_hash ≡ some hash
    → compare password hash ≡ true
    → (x : SignedIn) × ((enter compare now password true sid agent ip (some u) v).1 ≡ ok x)
      × (x.email ≡ u.email)
unfolding enter signed_in
enter-forced compare now password hash sid agent ip u v h c =
    let right : is_correct compare password u.password_hash ≡ true = rw h c in
    (
      record { id = u.id; email = u.email; tenant_id = u.tenant_id; role = u.role; sid = sid },
      rw (right, forced-started v.db u now sid agent ip v.sessions) refl,
      refl,
    )

-- What a request for an account leaves.
request-issued :
    (lower sha256 : Text → Text) (now : ℕ) (email : Option Text) (raw : Text)
    (forwarded remote : Option Text) (v : Vault)
    → let normalized = lower (trim (get_or email [])) in
      matches_email normalized ≡ true
      → any (λ u. has_email normalized u && u.is_active) v.db.users ≡ true
      → (request_password_reset lower sha256 all_up now email raw forwarded remote v).0 ≡ record v {
        resets =
            map (expire now normalized) v.resets
            ++ new_reset sha256 now normalized raw (client_ip forwarded remote) v.next_reset ∷ [];
        next_reset = suc v.next_reset;
      }
unfolding request_password_reset issue_reset
request-issued lower sha256 now email raw forwarded remote v m a = rw (m, a) refl

-- What a reset by a live link leaves.
reset-done :
    (sha256 hash : Text → Text) (now : ℕ) (raw password : Text) (v : Vault) (row : Reset)
    → find_live_reset sha256 now raw v.resets ≡ some row
    → 8 ≤ length password
    → let r = reset_password sha256 hash true true now raw password v in
      (r.1 ≡ ok tt)
      × (r.0.db.users ≡ map (set_password row.email (hash password)) v.db.users)
      × (r.0.resets ≡ map (use_reset now row.id) v.resets)
unfolding reset_password consume sign_out_all commit first guard ◌>>=◌ ◌>>◌
reset-done sha256 hash now raw password v row f l =
    let long : ltb (length password) 8 ≡ false = ground (arith, l) in
    rw (long, f) (refl, refl, refl)

login-new :
    (compare : Text → Text → Bool) (now : ℕ) (email hash : Text) (tenant : Option ℕ)
    (password sid : Text) (agent ip : Option Text) (us : List User) (v : Vault)
    → v.db.users ≡ map (set_password email hash) us
    → any (has_row email tenant) us ≡ true
    → compare password hash ≡ true
    → (x : SignedIn) × ((user_login compare true now email tenant password true sid agent ip v).1
        ≡ ok x)
      × (x.email ≡ email)
unfolding user_login
login-new compare now email hash tenant password sid agent ip us v e h c =
    let (u, found, new, at) = find-password email hash tenant us h in
    let (x, answer, same) = enter-forced compare now password hash sid agent ip u v new c in
    let found' : user_login_query email tenant v.db.users ≡ some u = rw e found in
    (x, rw found' answer, same ∙ at)

scoped-active :
    (email : Text) (tenant : Option ℕ) (us : List User)
    → any (has_row email tenant) us ≡ true
    → any (λ u. has_email email u && u.is_active) us ≡ true
scoped-active email tenant [] h = h
scoped-active email tenant (u ∷ us) h = ground (arith, h, scoped-active email tenant us)

-- A forgotten password is no loss: who asks for a link for an account with an active row (in the
-- workspace of the sign-in, where one is named), with a token whose digest no earlier link has, can
-- set a password of 8 characters or more with it before the hour is over, and then sign in by force
-- with the normalised address and that password, provided that bcrypt accepts a password against its
-- own hash and the queries succeed; and from then on the link is dead.
pub reset-login :
    (lower sha256 hash : Text → Text) (compare : Text → Text → Bool) (now later soon seconds : ℕ)
    (email : Option Text) (raw password sid : Text) (tenant : Option ℕ)
    (forwarded remote agent ip : Option Text) (v : Vault)
    → let normalized = lower (trim (get_or email [])) in
      ((p : Text) → compare p (hash p) ≡ true)
      → matches_email normalized ≡ true
      → any (has_row normalized tenant) v.db.users ≡ true
      → any (is_of_link sha256 raw) v.resets ≡ false
      → later < now + reset_ttl_ms
      → 8 ≤ length password
      → let v1 = (request_password_reset lower sha256 all_up now email raw forwarded remote v).0 in
        let r = reset_password sha256 hash true true later raw password v1 in
        (r.1 ≡ ok tt)
        × ((x : SignedIn) × ((user_login compare true seconds normalized tenant password true sid
                agent ip r.0).1
              ≡ ok x)
            × (x.email ≡ normalized))
        × (find_live_reset sha256 soon raw r.0.resets ≡ none)
unfolding new_reset
reset-login lower sha256 hash compare now later soon seconds email raw password sid tenant forwarded
      remote agent ip v c m a f l k =
    let normalized = lower (trim (get_or email [])) in
    let issued =
      request-issued lower sha256 now email raw forwarded remote v m
        (scoped-active normalized tenant v.db.users a) in
    let from = client_ip forwarded remote in
    let live = asked-live sha256 now later normalized raw from v.next_reset v.resets f l in
    let v1 : Vault = record v {
      resets =
          map (expire now normalized) v.resets
          ++ new_reset sha256 now normalized raw from v.next_reset ∷ [];
      next_reset = suc v.next_reset;
    } in
    let (answer, users, resets) = reset-done sha256 hash later raw password v1 _ live k in
    let r = reset_password sha256 hash true true later raw password v1 in
    rw issued (
      answer,
      login-new compare seconds normalized (hash password) tenant password sid agent ip v.db.users
          r.0 users a (c password),
      rw resets (used-dead sha256 now later soon normalized raw from v.next_reset v.resets f),
    )
