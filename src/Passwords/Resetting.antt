-- ===== src/Passwords/Resetting.antt =====
-- Self-service password reset: `src/main/users/passwordReset.js`. `sha256` and bcrypt's hash are
-- arguments, and the random token is one; instants are milliseconds.
use Prim.Native.Nat.{◌/◌}
use feedbase_backend.Base.{
  ℕ, zero, suc, ◌+◌, ◌-◌, ◌*◌, Bool, true, false, not, ◌&&◌, List, [], ◌∷◌, ◌++◌, map, Option, none,
  some, get_or, if◌then◌else◌, take, length, any, find, ltb, ◌==◌,
}
use feedbase_backend.Base.Results.{Result, ok, err, ◌>>=◌, ◌>>◌, guard, first, commit}
use feedbase_backend.Text.{Text, eq_text, is_empty, trim, cut}
use feedbase_backend.Email.{matches_email, split_domain}
use feedbase_backend.Sessions.{clip, revoke_sessions_for_email}
use feedbase_backend.Passwords.{
  ResetStatus, pending, used, Reset, Vault, PasswordError, something_went_wrong,
  invalid_or_expired_reset_token, password_too_short, failed_to_change_password, has_email,
  set_password, with_users,
}

abbrev pub reset_ttl_ms : ℕ
reset_ttl_ms = 60 * 60 * 1000

abbrev repeat : ℕ → ℕ → Text
repeat zero c = []
repeat (suc n) c = c ∷ repeat n c

abbrev at_least_one : ℕ → ℕ
at_least_one zero = 1
at_least_one (suc n) = suc n

-- `maskEmail`
unfoldable pub mask_email : Text → Text
mask_email email = elim (cut b'@' email) [
  | none ↦ []
  | some (user, rest) ↦
      let domain = get_or (split_domain email) [] in
      if is_empty domain
      then []
      else take 2 user ++ repeat (at_least_one (length user - 2)) b'*' ++ b'@' ∷ domain
]

abbrev pub is_unused : ResetStatus → Bool
is_unused pending = true
is_unused used = false

-- The pending rows of an address.
abbrev pub is_pending_for : Text → Reset → Bool
is_pending_for email r = eq_text r.email email && is_unused r.status

unfoldable pub expire : ℕ → Text → Reset → Reset
expire now email r =
    if is_pending_for email r then record r { status = used; used_at = some now } else r

abbrev first_part : Text → Text
first_part s = elim (cut b',' s) [ none ↦ s | some (a, b) ↦ a ]

-- The first address of the forwarding header, else the one of the socket.
unfoldable pub client_ip : Option Text → Option Text → Option Text
client_ip forwarded remote =
    let given = trim (first_part (get_or forwarded [])) in
    if is_empty given then remote else some given

-- What succeeds of a request for a link.
pub record ResetUp : Type 0 where
  pub lookup : Bool
  pub expire : Bool
  pub insert : Bool
  pub mail : Bool

unfoldable pub new_reset : (Text → Text) → ℕ → Text → Text → Option Text → ℕ → Reset
new_reset sha256 now email raw ip id = record {
  id = id;
  email = email;
  token_hash = sha256 raw;
  status = pending;
  expires_at = now + reset_ttl_ms;
  used_at = none;
  requested_ip = clip ip 64;
}

-- An account exists: the earlier links end, and then a new one begins.
unfoldable pub issue_reset :
    (Text → Text)
    → ResetUp
    → ℕ
    → Text
    → Text
    → Option Text
    → Vault
    → Vault × Result PasswordError Bool
issue_reset sha256 up now email raw ip v =
    let ended = map (expire now email) v.resets in
    if not up.expire
    then (v, err something_went_wrong)
    else if not up.insert
    then (record v { resets = ended }, err something_went_wrong)
    else (
      record v {
        resets = ended ++ new_reset sha256 now email raw ip v.next_reset ∷ [];
        next_reset = suc v.next_reset;
      },
      ok up.mail,
    )

-- `requestPasswordReset`, whose answer says whether a mail was sent.
unfoldable pub request_password_reset :
    (Text → Text)
    → (Text → Text)
    → ResetUp
    → ℕ
    → Option Text
    → Text
    → Option Text
    → Option Text
    → Vault
    → Vault × Result PasswordError Bool
request_password_reset lower sha256 up now email raw forwarded remote v =
    let normalized = lower (trim (get_or email [])) in
    if not (matches_email normalized)
    then (v, ok false)
    else if not up.lookup
    then (v, err something_went_wrong)
    else if any (λ u. has_email normalized u && u.is_active) v.db.users
    then issue_reset sha256 up now normalized raw (client_ip forwarded remote) v
    else (v, ok false)

abbrev pub is_live_reset : (Text → Text) → ℕ → Text → Reset → Bool
is_live_reset sha256 now raw r =
    eq_text r.token_hash (sha256 raw) && is_unused r.status && ltb now r.expires_at

-- `findLiveReset`
unfoldable pub find_live_reset : (Text → Text) → ℕ → Text → List Reset → Option Reset
find_live_reset sha256 now raw resets = find (is_live_reset sha256 now raw) resets

-- `validateResetToken`
unfoldable pub validate_reset_token : (Text → Text) → ℕ → Text → Vault → Result PasswordError Text
validate_reset_token sha256 now raw v = do
  row ← first (find_live_reset sha256 now raw v.resets) invalid_or_expired_reset_token
  ok (mask_email row.email)

unfoldable pub use_reset : ℕ → ℕ → Reset → Reset
use_reset now id r = if r.id == id then record r { status = used; used_at = some now } else r

-- The transaction of a reset.
unfoldable pub consume :
    (Text → Text)
    → (Text → Text)
    → Bool
    → ℕ
    → Text
    → Text
    → Vault
    → Result PasswordError (Vault × Text)
consume sha256 hash up now raw password v = do
  row ← first (find_live_reset sha256 now raw v.resets) invalid_or_expired_reset_token
  guard up failed_to_change_password
  ok (
    record (with_users (map (set_password row.email (hash password))) v) {
      resets = map (use_reset now row.id) v.resets;
    },
    row.email,
  )

-- After the commit the sessions of the account end, as far as that query succeeds.
unfoldable pub sign_out_all :
    Bool → ℕ → Vault × Result PasswordError Text → Vault × Result PasswordError (Unit {0})
sign_out_all up now (v, err e) = (v, err e)
sign_out_all false now (v, ok email) = (v, ok tt)
sign_out_all true now (v, ok email) =
    (record v { sessions = revoke_sessions_for_email (now / 1000) email v.sessions }, ok tt)

-- `resetPassword`
unfoldable pub reset_password :
    (Text → Text)
    → (Text → Text)
    → Bool
    → Bool
    → ℕ
    → Text
    → Text
    → Vault
    → Vault × Result PasswordError (Unit {0})
reset_password sha256 hash up sessions_up now raw password v =
    if ltb (length password) 8
    then (v, err password_too_short)
    else sign_out_all sessions_up now (commit v (consume sha256 hash up now raw password v))
