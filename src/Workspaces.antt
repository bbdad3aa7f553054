-- ===== src/Workspaces.antt =====
-- The workspaces of an account: `src/main/users/workspaces.js`. Lower-casing is an argument, and so
-- is `up`, whether the writes of the transaction succeed.
mod Created
mod Names
mod Cap
mod Switching
mod Tests
use feedbase_backend.Base.{
  ℕ, zero, suc, ◌+◌, ◌-◌, ◌*◌, ◌≤◌, ◌<◌, ◌≡◌, ◌≢◌, ◌↔◌, ◌⊎◌, inl, inr, refl, sym, ap, ◌∙◌, Bool,
  true, false, not, ◌&&◌, ◌||◌, List, [], ◌∷◌, ◌++◌, map, Option, none, some, arith, All, is_some,
  get_or, Bool-cases, Option-cases, if◌then◌else◌, take, length, any, keep, find, count, head?, ltb,
  leb, ◌==◌, count-append, count-any, count-keep-le, length-keep-le, length-take-le, ==_iff,
  ==_refl,
}
use feedbase_backend.Base.Results.{Result, ok, err, ◌>>=◌, ◌>>◌, guard, first, commit}
use feedbase_backend.Text.{Text, codes, eq_text, is_empty, is_digit, trim}
use feedbase_backend.Plans.Usage.{Usage, tenant_active, workspaces_of, get_account_workspace_usage}
use feedbase_backend.Tables.{Role, owner, Tenant, User, Db, is_in}
use feedbase_backend.Accounts.{free_billing, insert_account, mirror_account_to_tenants}

-- A row of `roadmap_columns`.
pub record Column : Type 0 where
  pub tenant_id : ℕ
  pub name : Text
  pub column_key : Text
  pub sort_order : ℕ

-- The tables, and the ids that come next.
pub record Site : Type 0 where
  pub db : Db
  pub next_tenant : ℕ
  pub next_user : ℕ
  pub columns : List Column

-- What the token of a signed-in user says, and the one that is issued.
pub record Token : Type 0 where
  pub id : ℕ
  pub email : Text
  pub tenant_id : Option ℕ
  pub role : Role
  pub sid : Text

pub data WorkspaceError : Type 0 where
  workspace_name_required invalid_subdomain plan_limit_workspaces_own subdomain_taken :
      WorkspaceError
  user_not_found failed_to_create_tenant workspace_not_found : WorkspaceError

abbrev pub reserved_subdomains : List Text
reserved_subdomains =
    codes "www"
    ∷ codes "app"
    ∷ codes "admin"
    ∷ codes "dashboard"
    ∷ codes "api"
    ∷ codes "public"
    ∷ []

-- `[a-z0-9]`
abbrev is_alnum : ℕ → Bool
is_alnum c = is_digit c || (leb b'a' c && leb c b'z')

abbrev ends_alnum : Text → Bool
ends_alnum [] = false
ends_alnum (c ∷ s) = if is_empty s then is_alnum c else ends_alnum s

abbrev pub all_inner : Text → Bool
all_inner s = not (any (λ c. not (is_alnum c || c == b'-')) s)

-- `SUBDOMAIN_RE`: one unit, or three to forty that begin and end with a letter or a digit.
unfoldable pub matches_subdomain : Text → Bool
matches_subdomain [] = false
matches_subdomain (c ∷ s) =
    is_alnum c
    && (is_empty s || (leb 2 (length s) && leb (length s) 39 && all_inner s && ends_alnum s))

unfoldable pub is_subdomain : Text → Bool
is_subdomain s = matches_subdomain s && not (any (eq_text s) reserved_subdomains)

abbrev pub takes : Text → Tenant → Bool
takes s t = eq_text t.subdomain s || eq_text t.slug s

-- `checkSubdomain`: whether the name is valid, and whether it is available.
unfoldable pub check_subdomain : (Text → Text) → Option Text → Site → Bool × Bool
check_subdomain lower raw site =
    let s = lower (trim (get_or raw [])) in
    if is_subdomain s then (true, not (any (takes s) site.db.tenants)) else (false, false)

-- `getWorkspaces`, without the order by name: the active rows of the account in active workspaces,
-- and its usage.
unfoldable pub get_workspaces : Text → Site → List User × Usage
get_workspaces email site = (workspaces_of site.db email, get_account_workspace_usage site.db email)

unfoldable pub new_tenant : Text → Text → Option Text → ℕ → Tenant
new_tenant name subdomain website id = record {
  id = id;
  name = name;
  slug = subdomain;
  subdomain = subdomain;
  website = website;
  billing = free_billing;
  stripe_customer_id = none;
  stripe_subscription_id = none;
  is_active = true;
}

-- The row of a pending account becomes the owner's row of its first workspace.
unfoldable pub claim : ℕ → ℕ → User → User
claim id tenant u = if u.id == id then record u { tenant_id = some tenant; role = owner } else u

unfoldable pub owner_row : User → ℕ → ℕ → User
owner_row me tenant id = record me {
  id = id;
  tenant_id = some tenant;
  role = owner;
  is_active = true;
}

-- The owner's row, its id, and the id that comes next: a pending account, which is in no workspace,
-- claims its row.
unfoldable pub settle_owner : Option ℕ → User → ℕ → ℕ → List User → List User × ℕ × ℕ
settle_owner none me tenant next users = (map (claim me.id tenant) users, me.id, next)
settle_owner (some other) me tenant next users =
    (users ++ owner_row me tenant next ∷ [], next, suc next)

abbrev pub default_columns : ℕ → List Column
default_columns tenant =
    record {
      tenant_id = tenant;
      name = codes "Planned";
      column_key = codes "planned";
      sort_order = 1;
    }
    ∷ record {
      tenant_id = tenant;
      name = codes "In Progress";
      column_key = codes "in_progress";
      sort_order = 2;
    }
    ∷ record {
      tenant_id = tenant;
      name = codes "Completed";
      column_key = codes "completed";
      sort_order = 3;
    }
    ∷ []

-- The writes of the transaction, for the row of the user who asks.
unfoldable pub founded : Text → Text → Option Text → Text → User → Site → Site × Token
founded name subdomain website sid me site =
    let db = site.db in
    let tenant = site.next_tenant in
    let (users, owner_id, next) = settle_owner me.tenant_id me tenant site.next_user db.users in
    let tenants = db.tenants ++ new_tenant name subdomain website tenant ∷ [] in
    (
      record {
        db =
            mirror_account_to_tenants me.email
              (insert_account me.email (record db { tenants = tenants; users = users }));
        next_tenant = suc tenant;
        next_user = next;
        columns = site.columns ++ default_columns tenant;
      },
      record { id = owner_id; email = me.email; tenant_id = some tenant; role = owner; sid = sid },
    )

abbrev pub or_null : Text → Option Text
or_null [] = none
or_null (c ∷ s) = some (c ∷ s)

-- `createWorkspace`
unfoldable pub create_workspace :
    (Text → Text)
    → Bool
    → Token
    → (name subdomain website : Option Text) → Site
    → Site × Result WorkspaceError Token
create_workspace lower up auth name subdomain website site =
    let title = trim (get_or name []) in
    let domain = lower (trim (get_or subdomain [])) in
    commit site (do
      guard (not (is_empty title)) workspace_name_required
      guard (is_subdomain domain) invalid_subdomain
      guard ((get_account_workspace_usage site.db auth.email).can_create) plan_limit_workspaces_own
      guard (not (any (takes domain) site.db.tenants)) subdomain_taken
      me ← first (find (λ (u : User). u.id == auth.id) site.db.users) user_not_found
      guard (not (is_empty me.email)) failed_to_create_tenant
      guard up failed_to_create_tenant
      ok (founded title domain (or_null (trim (get_or website []))) auth.sid me site))

-- An active row of the account in an active workspace.
unfoldable pub is_membership : Db → Text → ℕ → User → Bool
is_membership db email tenant u =
    eq_text u.email email && is_in u.tenant_id tenant && u.is_active && tenant_active db u

-- `switchWorkspace`
unfoldable pub switch_workspace : Token → ℕ → Site → Result WorkspaceError Token
switch_workspace auth tenant site = do
  u ← first (find (is_membership site.db auth.email tenant) site.db.users) workspace_not_found
  ok (record { id = u.id; email = u.email; tenant_id = u.tenant_id; role = u.role; sid = auth.sid })
