-- ===== src/Passwords.antt =====
-- Signing up, signing in and changing a password: `src/main/users/registerNewUser.js`,
-- `src/main/users/userLogin.js` and `src/main/users/changeUserPassword.js`. The functions of bcrypt,
-- and whether a query succeeds, are arguments.
pub mod Resetting
pub mod Shared
mod Renewed
pub mod Newest
mod Issued
pub mod BackIn
mod Tests
use feedbase_backend.Base.{
  ℕ, zero, suc, ◌+◌, ◌-◌, ◌*◌, ◌≤◌, ◌<◌, ◌≡◌, ◌≢◌, ◌↔◌, ◌⊎◌, inl, inr, refl, sym, ap, ◌∙◌, Bool,
  true, false, not, ◌&&◌, ◌||◌, List, [], ◌∷◌, ◌++◌, map, Option, none, some, arith, All, is_some,
  get_or, Bool-cases, Option-cases, if◌then◌else◌, take, length, any, keep, find, count, head?, ltb,
  leb, ◌==◌, count-append, count-any, count-keep-le, length-keep-le, length-take-le, ==_iff,
  ==_refl,
}
use feedbase_backend.Base.Results.{Result, ok, err, ◌>>=◌, ◌>>◌, guard, first, commit}
use feedbase_backend.Text.{Text, codes, eq_text, is_empty}
use feedbase_backend.Tables.{Role, user, User, Db, is_in}
use feedbase_backend.Sessions.{Session, Start, blocked, started, start_session}

pub data ResetStatus : Type 0 where
  pending used : ResetStatus

-- A row of `password_resets`; instants are milliseconds.
pub record Reset : Type 0 where
  pub id : ℕ
  pub email : Text
  pub token_hash : Text
  pub status : ResetStatus
  pub expires_at : ℕ
  pub used_at : Option ℕ
  pub requested_ip : Option Text

-- The tables `users`, `password_resets` and `user_sessions`, and the ids that come next.
pub record Vault : Type 0 where
  pub db : Db
  pub sessions : List Session
  pub resets : List Reset
  pub next_user : ℕ
  pub next_reset : ℕ

pub data PasswordError : Type 0 where
  email_has_already_exist invalid_email_or_password already_logged_in_elsewhere : PasswordError
  old_password_and_new_password_is_required user_not_found password_mismatched : PasswordError
  failed_to_change_password internal_server_error something_went_wrong : PasswordError
  invalid_or_expired_reset_token password_too_short : PasswordError

-- What the token of a sign-in says.
pub record SignedIn : Type 0 where
  pub id : ℕ
  pub email : Text
  pub tenant_id : Option ℕ
  pub role : Role
  pub sid : Text

abbrev pub has_email : Text → User → Bool
has_email email u = eq_text u.email email

-- The rows of a table after `UPDATE users SET password_hash = ? WHERE email = ?`.
unfoldable pub set_password : Text → Text → User → User
set_password email hash u = if has_email email u then record u { password_hash = some hash } else u

abbrev pub with_users : (List User → List User) → Vault → Vault
with_users f v = let db = v.db in record v { db = record db { users = f db.users } }

abbrev pub placeholder_image_path : Text
placeholder_image_path = codes "uploads/placeholder/placeholder-image.png"

unfoldable pub pending_user : Text → Text → Text → ℕ → User
pending_user full_name email hash id = record {
  id = id;
  tenant_id = none;
  email = email;
  full_name = full_name;
  avatar_url = some placeholder_image_path;
  password_hash = some hash;
  role = user;
  is_active = true;
}

-- `registerNewUser`
unfoldable pub register_new_user :
    (Text → Text) → Bool → Text → Text → Text → Vault → Vault × Result PasswordError (Unit {0})
register_new_user hash up full_name email password v = commit v (do
  guard up internal_server_error
  guard (not (any (has_email email) v.db.users)) email_has_already_exist
  ok (
    record (with_users (λ us. us ++ pending_user full_name email (hash password) v.next_user ∷ [])
        v) { next_user = suc v.next_user },
    tt,
  ))

abbrev pub is_scoped : Option ℕ → User → Bool
is_scoped none u = true
is_scoped (some tenant) u = is_in u.tenant_id tenant

-- `userLoginQuery`
unfoldable pub user_login_query : Text → Option ℕ → List User → Option User
user_login_query email tenant users =
    find (λ u. has_email email u && is_scoped tenant u && u.is_active) users

-- `bcrypt.compare` throws where the row has no hash.
abbrev pub is_correct : (Text → Text → Bool) → Text → Option Text → Bool
is_correct compare password none = false
is_correct compare password (some hash) = compare password hash

unfoldable pub signed_in : User → Start → Result PasswordError SignedIn
signed_in u (blocked live) = err already_logged_in_elsewhere
signed_in u (started sid) =
    ok (record { id = u.id; email = u.email; tenant_id = u.tenant_id; role = u.role; sid = sid })

-- The row that was found, if any, the password is compared with its hash, and the session opened.
unfoldable pub enter :
    (Text → Text → Bool)
    → ℕ
    → Text
    → Bool
    → Text
    → Option Text
    → Option Text
    → Option User
    → Vault
    → Vault × Result PasswordError SignedIn
enter compare now password force sid agent ip none v = (v, err invalid_email_or_password)
enter compare now password force sid agent ip (some u) v =
    let (sessions, start) = start_session v.db u force now sid agent ip v.sessions in
    if is_correct compare password u.password_hash
    then (record v { sessions = sessions }, signed_in u start)
    else (v, err invalid_email_or_password)

-- `userLogin`, for the number that `parseTenantId` gives.
unfoldable pub user_login :
    (Text → Text → Bool)
    → Bool
    → ℕ
    → Text
    → Option ℕ
    → Text
    → Bool
    → Text
    → Option Text
    → Option Text
    → Vault
    → Vault × Result PasswordError SignedIn
user_login compare up now email tenant password force sid agent ip v =
    enter compare now password force sid agent ip
      (if up then user_login_query email tenant v.db.users else none) v

-- A password that is set is proved; where none is set, the old one is ignored.
unfoldable pub proves :
    (Text → Text → Bool) → Option Text → Option Text → Result PasswordError (Unit {0})
proves compare old none = ok tt
proves compare old (some []) = ok tt
proves compare old (some (c ∷ hash)) = do
  given ← first old old_password_and_new_password_is_required
  guard (not (is_empty given)) old_password_and_new_password_is_required
  guard (compare given (c ∷ hash)) password_mismatched

-- `changeUserPassword`, for the id and the address of the token.
unfoldable pub change_user_password :
    (Text → Text)
    → (Text → Text → Bool)
    → Bool
    → Option Text
    → Text
    → ℕ
    → Text
    → Vault
    → Vault × Result PasswordError (Unit {0})
change_user_password hash compare up old new id email v = commit v (do
  guard (not (is_empty new)) old_password_and_new_password_is_required
  guard up internal_server_error
  me ← first (find (λ (u : User). u.id == id && u.is_active) v.db.users) user_not_found
  proves compare old me.password_hash
  guard (any (has_email email) v.db.users) failed_to_change_password
  ok (with_users (map (set_password email (hash new))) v, tt))
