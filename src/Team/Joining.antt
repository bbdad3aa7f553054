-- ===== src/Team/Joining.antt =====
-- Accepting an invitation: the second half of `src/main/invitations/invitations.js`.
use Prim.Native.Nat.{◌/◌}
use feedbase_backend.Base.{
  ℕ, suc, Bool, true, false, not, ◌&&◌, [], ◌∷◌, ◌++◌, map, Option, none, some, get_or,
  if◌then◌else◌, length, any, find, ltb, ◌==◌,
}
use feedbase_backend.Base.Results.{Result, ok, err, ◌>>=◌, ◌>>◌, guard, first, commit}
use feedbase_backend.Text.{Text, eq_text, is_empty, trim}
use feedbase_backend.Plans.Usage.{get_account_workspace_usage}
use feedbase_backend.Tables.{user, Tenant, User}
use feedbase_backend.Sessions.{create_session}
use feedbase_backend.Team.{
  pending, accepted, revoked, Invitation, Team, Auth, TeamError, full_name_required,
  password_too_short, invitation_invalid, account_exists_please_login, failed_to_accept_invitation,
  invitation_wrong_account, already_a_member, plan_limit_workspaces_join, is_pending, is_open,
  is_user_of,
}

abbrev pub has_token : Text → Invitation → Bool
has_token token i = eq_text i.token token

-- The invitation of a link, which joins its workspace.
unfoldable pub find_by_token : Text → Team → Option Invitation
find_by_token token s =
    find (λ i. has_token token i && any (λ (t : Tenant). t.id == i.tenant_id) s.db.tenants)
      s.invitations

-- Why a link cannot be used.
pub data Reason : Type 0 where
  not_found already_accepted was_revoked expired : Reason

unfoldable pub reason_of : ℕ → Invitation → Option Reason
reason_of now i = if is_open now i then none else elim i.status [
  | accepted ↦ some already_accepted
  | revoked ↦ some was_revoked
  | pending ↦ some expired
]

pub record Description : Type 0 where
  pub reason : Option Reason
  pub email : Text
  pub has_account : Bool

abbrev pub has_email : Text → User → Bool
has_email email u = eq_text u.email email

-- `getInvitation`; a link is valid where no reason is given.
unfoldable pub get_invitation : ℕ → Text → Team → Description
get_invitation now token s = elim (find_by_token token s) [
  | none ↦ record { reason = some not_found; email = []; has_account = false }
  | some i ↦ record {
    reason = reason_of now i;
    email = i.email;
    has_account = any (has_email i.email) s.db.users;
  }
]

-- The row that an acceptance locks.
unfoldable pub find_usable : ℕ → Text → Team → Option Invitation
find_usable now token s =
    find
      (λ i.
        has_token token i
        && is_open now i
        && any (λ (t : Tenant). t.id == i.tenant_id) s.db.tenants)
      s.invitations

unfoldable pub accept_row : ℕ → ℕ → ℕ → Invitation → Invitation
accept_row now id member i =
    if i.id == id && is_pending i.status
    then record i { status = accepted; accepted_at = some now; accepted_by_user_id = some member }
    else i

unfoldable pub member_row : Invitation → Text → Option Text → Option Text → ℕ → User
member_row inv full_name password_hash avatar_url id = record {
  id = id;
  tenant_id = some inv.tenant_id;
  email = inv.email;
  full_name = full_name;
  avatar_url = avatar_url;
  password_hash = password_hash;
  role = user;
  is_active = true;
}

-- `joinWorkspace`
unfoldable pub join_workspace : ℕ → Invitation → Text → Option Text → Option Text → Team → Team
join_workspace now inv full_name password_hash avatar_url s =
    let db = s.db in
    record s {
      db = record db {
        users = db.users ++ member_row inv full_name password_hash avatar_url s.next_user ∷ [];
      };
      next_user = suc s.next_user;
      invitations = map (accept_row now inv.id s.next_user) s.invitations;
    }

-- What the token that is issued says.
unfoldable pub member_auth : Invitation → ℕ → Text → Auth
member_auth inv id sid = record {
  id = id;
  email = inv.email;
  tenant_id = inv.tenant_id;
  role = user;
  sid = sid;
}

-- The transaction of `acceptInvitationAsNewUser`.
unfoldable pub new_member :
    Bool → ℕ → Text → Text → Text → Team → Result TeamError (Team × Invitation)
new_member up now token full_name hash s = do
  inv ← first (find_usable now token s) invitation_invalid
  guard (not (any (has_email inv.email) s.db.users)) account_exists_please_login
  guard up failed_to_accept_invitation
  ok (join_workspace now inv full_name (some hash) none s, inv)

-- After the commit the device session is opened; where that throws, the answer is an error though
-- the member has joined.
unfoldable pub sign_in :
    Bool
    → ℕ
    → Text
    → Option Text
    → Option Text
    → ℕ
    → Team × Result TeamError Invitation
    → Team × Result TeamError Auth
sign_in up now sid agent ip member (s, err e) = (s, err e)
sign_in false now sid agent ip member (s, ok inv) = (s, err failed_to_accept_invitation)
sign_in true now sid agent ip member (s, ok inv) = (
  record s { sessions = create_session (now / 1000) sid inv.email agent ip s.sessions },
  ok (member_auth inv member sid),
)

-- `acceptInvitationAsNewUser`
unfoldable pub accept_invitation_as_new_user :
    (Text → Text)
    → Bool
    → Bool
    → ℕ
    → Text
    → Option Text
    → Text
    → Text
    → Option Text
    → Option Text
    → Team
    → Team × Result TeamError Auth
accept_invitation_as_new_user hash up session_up now token full_name password sid agent ip s =
    let name = trim (get_or full_name []) in
    if is_empty name
    then (s, err full_name_required)
    else if ltb (length password) 8
    then (s, err password_too_short)
    else sign_in session_up now sid agent ip s.next_user
        (commit s (new_member up now token name (hash password) s))

-- The transaction of `acceptInvitationAsExistingUser`, with the user's own row.
unfoldable pub existing_member :
    (Text → Text) → Bool → ℕ → Text → Auth → Team → Result TeamError (Team × Auth)
existing_member lower up now token auth s = do
  inv ← first (find_usable now token s) invitation_invalid
  guard (eq_text (lower auth.email) (lower inv.email)) invitation_wrong_account
  guard (not (any (is_user_of inv.tenant_id inv.email) s.db.users)) already_a_member
  guard ((get_account_workspace_usage s.db inv.email).can_join) plan_limit_workspaces_join
  me ← first (find (λ (u : User). u.id == auth.id) s.db.users) failed_to_accept_invitation
  guard up failed_to_accept_invitation
  ok (
    join_workspace now inv me.full_name me.password_hash me.avatar_url s,
    member_auth inv s.next_user auth.sid,
  )

-- `acceptInvitationAsExistingUser`
unfoldable pub accept_invitation_as_existing_user :
    (Text → Text) → Bool → ℕ → Text → Auth → Team → Team × Result TeamError Auth
accept_invitation_as_existing_user lower up now token auth s =
    commit s (existing_member lower up now token auth s)
