-- ===== src/Team.antt =====
-- `src/main/invitations/invitations.js` over the table `invitations` of `feedboard_db.sql`: inviting
-- people to a workspace, and joining it. Instants are milliseconds. `lower`, the name service, the
-- password hash and the random values are arguments, and so is `up`, whether the writes succeed.
pub mod Joining
pub mod Effects
pub mod Seats
mod Spent
pub mod Links
pub mod Welcome
mod Tests
use Prim.Native.Nat.{◌/◌}
use feedbase_backend.Base.{
  ℕ, zero, suc, ◌+◌, ◌-◌, ◌*◌, ◌≤◌, ◌<◌, ◌≡◌, ◌≢◌, ◌↔◌, ◌⊎◌, inl, inr, refl, sym, ap, ◌∙◌, Bool,
  true, false, not, ◌&&◌, ◌||◌, List, [], ◌∷◌, ◌++◌, map, Option, none, some, arith, All, is_some,
  get_or, Bool-cases, Option-cases, if◌then◌else◌, take, length, any, keep, find, count, head?, ltb,
  leb, ◌==◌, length-keep-le, length-take-le, ==_iff, ==_refl,
}
use feedbase_backend.Base.Results.{Result, ok, err, ◌>>=◌, ◌>>◌, guard, first, commit}
use feedbase_backend.Text.{Text, codes, eq_text, is_empty, trim}
use feedbase_backend.Plans.{Limit, Limits, get_plan_limits}
use feedbase_backend.Plans.Usage.{below, get_tenant_plan}
use feedbase_backend.Tables.{Role, is_owner, Tenant, User, Db, is_in}
use feedbase_backend.Email.{Lookup, Hit, is_deliverable_email}
use feedbase_backend.Sessions.{Session}

pub data InviteStatus : Type 0 where
  pending accepted revoked : InviteStatus

pub record Invitation : Type 0 where
  pub id : ℕ
  pub tenant_id : ℕ
  pub email : Text
  pub token : Text
  pub invited_by : ℕ
  pub status : InviteStatus
  pub expires_at : ℕ
  pub accepted_at : Option ℕ
  pub accepted_by_user_id : Option ℕ

-- The tables, the ids that come next, and the cache of exchanger lookups.
pub record Team : Type 0 where
  pub db : Db
  pub invitations : List Invitation
  pub sessions : List Session
  pub next_user : ℕ
  pub next_invitation : ℕ
  pub hits : List Hit

-- What the token of a signed-in user says.
pub record Auth : Type 0 where
  pub id : ℕ
  pub email : Text
  pub tenant_id : ℕ
  pub role : Role
  pub sid : Text

pub data TeamError : Type 0 where
  insufficient_permissions invalid_email already_a_member invitation_already_sent : TeamError
  plan_limit_seats failed_to_send_invitation invitation_not_found : TeamError
  full_name_required password_too_short invitation_invalid : TeamError
  account_exists_please_login failed_to_accept_invitation invitation_wrong_account : TeamError
  plan_limit_workspaces_join internal_server_error : TeamError

abbrev pub is_pending : InviteStatus → Bool
is_pending pending = true
is_pending accepted = false
is_pending revoked = false

-- Pending and not expired.
unfoldable pub is_open : ℕ → Invitation → Bool
is_open now i = is_pending i.status && ltb now i.expires_at

-- The two counts of the seat limit; the owner takes no seat.
unfoldable pub is_member : ℕ → User → Bool
is_member tenant u = is_in u.tenant_id tenant && u.is_active && not (is_owner u.role)

unfoldable pub is_outstanding : ℕ → ℕ → Invitation → Bool
is_outstanding now tenant i = i.tenant_id == tenant && is_open now i

abbrev pub members : ℕ → Team → ℕ
members tenant s = count (is_member tenant) s.db.users

abbrev pub outstanding : ℕ → ℕ → Team → ℕ
outstanding now tenant s = count (is_outstanding now tenant) s.invitations

abbrev pub seats : Team → ℕ → Limit
seats s tenant = (get_plan_limits (get_tenant_plan s.db tenant)).seats

abbrev pub is_user_of : ℕ → Text → User → Bool
is_user_of tenant email u = is_in u.tenant_id tenant && eq_text u.email email

abbrev pub is_invited : ℕ → ℕ → Text → Invitation → Bool
is_invited now tenant email i = is_outstanding now tenant i && eq_text i.email email

abbrev pub invite_ttl_ms : ℕ
invite_ttl_ms = 7 * 24 * 60 * 60 * 1000

unfoldable pub new_invitation : ℕ → Auth → Text → Text → ℕ → Invitation
new_invitation now auth email token id = record {
  id = id;
  tenant_id = auth.tenant_id;
  email = email;
  token = token;
  invited_by = auth.id;
  status = pending;
  expires_at = now + invite_ttl_ms;
  accepted_at = none;
  accepted_by_user_id = none;
}

unfoldable pub placed : ℕ → Auth → Text → Text → Team → Team × Invitation
placed now auth email token s =
    let row = new_invitation now auth email token s.next_invitation in
    (
      record s { invitations = s.invitations ++ row ∷ []; next_invitation = suc s.next_invitation },
      row,
    )

-- The row of a new invitation, where all checks pass.
unfoldable pub place_invitation :
    Bool → ℕ → Auth → Text → Text → Team → Result TeamError (Team × Invitation)
place_invitation up now auth email token s = do
  let tenant = auth.tenant_id
  guard (not (any (is_user_of tenant email) s.db.users)) already_a_member
  guard (not (any (is_invited now tenant email) s.invitations)) invitation_already_sent
  guard (below (members tenant s + outstanding now tenant s) (seats s tenant)) plan_limit_seats
  guard up failed_to_send_invitation
  ok (placed now auth email token s)

-- `createInvitation`; the mail that follows never throws.
unfoldable pub create_invitation :
    (Text → Text)
    → (Text → Lookup)
    → Bool
    → ℕ
    → Auth
    → Option Text
    → Text
    → Team
    → Team × Result TeamError Invitation
create_invitation lower resolve_mx up now auth email token s =
    let address = lower (trim (get_or email [])) in
    let (hits, deliverable) = is_deliverable_email resolve_mx now address s.hits in
    let s' = record s { hits = hits } in
    if not (is_owner auth.role)
    then (s, err insufficient_permissions)
    else if not deliverable
    then (s', err invalid_email)
    else commit s' (place_invitation up now auth address token s')

-- `listInvitations`, without the order by time.
unfoldable pub list_invitations : Auth → Team → List Invitation
list_invitations auth s =
    keep (λ i. i.tenant_id == auth.tenant_id && is_pending i.status) s.invitations

abbrev pub is_revocable : ℕ → ℕ → Invitation → Bool
is_revocable id tenant i = i.id == id && i.tenant_id == tenant && is_pending i.status

unfoldable pub revoke_row : ℕ → ℕ → Invitation → Invitation
revoke_row id tenant i = if is_revocable id tenant i then record i { status = revoked } else i

-- `revokeInvitation`
unfoldable pub revoke_invitation : ℕ → Auth → Team → Team × Result TeamError (Unit {0})
revoke_invitation id auth s = commit s (do
  guard (is_owner auth.role) insufficient_permissions
  guard (any (is_revocable id auth.tenant_id) s.invitations) invitation_not_found
  ok (record s { invitations = map (revoke_row id auth.tenant_id) s.invitations }, tt))
