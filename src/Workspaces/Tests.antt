-- ===== src/Workspaces/Tests.antt =====
-- Workspaces at concrete inputs.
use feedbase_backend.Base.{◌≤◌, ◌≡◌, refl, true, false, [], ◌∷◌, none, some, arith}
use feedbase_backend.Base.Results.{ok}
use feedbase_backend.Text.{codes, eq_text}
use feedbase_backend.Plans.{get_plan_limits}
use feedbase_backend.Plans.Usage.{
  get_account_workspace_usage, get_account_tier, workspaces_of, tenant_active,
}
use feedbase_backend.Tables.{user, User, is_in}
use feedbase_backend.Workspaces.{
  Site, Token, matches_subdomain, is_subdomain, create_workspace, switch_workspace,
}
use feedbase_backend.Workspaces.Names.{AreDistinct, create-AreDistinct}
use feedbase_backend.Workspaces.Cap.{create-cap}
use feedbase_backend.Workspaces.Switching.{is_listed, switch-listed}

-- A pending account: one row, in no workspace.
abbrev ann : User
ann = record {
  id = 1;
  tenant_id = none;
  email = codes "ann@a.io";
  full_name = codes "Ann";
  avatar_url = none;
  password_hash = none;
  role = user;
  is_active = true;
}

abbrev site : Site
site = record {
  db = record { tenants = []; users = ann ∷ []; accounts = [] };
  next_tenant = 7;
  next_user = 2;
  columns = [];
}

abbrev token : Token
token = record { id = 1; email = codes "ann@a.io"; tenant_id = none; role = user; sid = codes "d1" }

-- Two units are too few, though one is enough.
subdomain_test :
    (matches_subdomain (codes "a") ≡ true)
    × (matches_subdomain (codes "ab") ≡ false)
    × (matches_subdomain (codes "a-b") ≡ true)
    × (matches_subdomain (codes "ab-") ≡ false)
    × (is_subdomain (codes "www") ≡ false)
unfolding matches_subdomain is_subdomain eq_text
subdomain_test = (refl, refl, refl, refl, refl)

create-AreDistinct_example :
    AreDistinct
      (create_workspace
        (λ s. s)
        true
        token
        (some (codes "Acme"))
        (some (codes "acme"))
        none
        site).0.db.tenants
create-AreDistinct_example =
    create-AreDistinct (λ s. s) true token (some (codes "Acme")) (some (codes "acme")) none site
      (λ name. omega arith)

create-cap_example :
    (get_account_workspace_usage
      (create_workspace
        (λ s. s)
        true
        token
        (some (codes "Acme"))
        (some (codes "acme"))
        none
        site).0.db
      (codes "ann@a.io")).owned_count
    ≤ 1
unfolding get_account_workspace_usage get_account_tier get_plan_limits workspaces_of tenant_active
    eq_text
create-cap_example =
    create-cap (λ s. s) true token (some (codes "Acme")) (some (codes "acme")) none site 1 refl
      (omega arith) refl (omega arith)

switch-listed_example :
    (is_listed (codes "ann@a.io") 7 site ≡ true
      → (t : Token) × (switch_workspace token 7 site ≡ ok t)
        × (is_in t.tenant_id 7 ≡ true)
        × (t.sid ≡ codes "d1")
        × (eq_text t.email (codes "ann@a.io") ≡ true))
    × ((t : Token)
        → switch_workspace token 7 site ≡ ok t
        → is_listed (codes "ann@a.io") 7 site ≡ true)
switch-listed_example = switch-listed token 7 site
