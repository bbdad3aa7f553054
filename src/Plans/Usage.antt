-- ===== src/Plans/Usage.antt =====
-- common/planGuard.js: the plan of a workspace or an account, and the caps that follow from it.
use feedbase_backend.Base.{
  ℕ, ◌<◌, ◌-◌, ◌+◌, length-keep-le, Bool, true, ◌&&◌, List, none, some, ltb, ◌==◌, if◌then◌else◌,
  length, find, keep, any, ◌≡◌, ◌↔◌, arith,
}
use feedbase_backend.Text.{Text, eq_text, is_empty}
use feedbase_backend.Plans.{Limit, at_most, unlimited, key, free, get_plan_limits}
use feedbase_backend.Tables.{User, Db, is_owner, is_in}

-- `getTenantPlan`
unfoldable pub get_tenant_plan : Db → ℕ → Text
get_tenant_plan db tenant_id = elim (find (λ t. t.id == tenant_id) db.tenants) [
  | none ↦ key free
  | some t ↦ if is_empty t.billing.plan_name then key free else t.billing.plan_name
]

-- `getAccountTier`
unfoldable pub get_account_tier : Db → Text → Text
unfolding eq_text
get_account_tier db email =
    if is_empty email then key free else elim (find (λ a. eq_text a.email email) db.accounts) [
      | none ↦ key free
      | some a ↦ if is_empty a.billing.plan_name then key free else a.billing.plan_name
    ]

-- The tenant of a user row is active.
unfoldable pub tenant_active : Db → User → Bool
tenant_active db u = any (λ t. is_in u.tenant_id t.id && t.is_active) db.tenants

-- The rows that `getAccountWorkspaceUsage` reads.
unfoldable pub workspaces_of : Db → Text → List User
unfolding eq_text tenant_active
workspaces_of db email =
    keep (λ u. eq_text u.email email && u.is_active && tenant_active db u) db.users

abbrev pub IsBelow : ℕ → Limit → Type 0
IsBelow n unlimited = Unit
IsBelow n (at_most m) = n < m

-- `!Number.isFinite(limit) || n < limit`
abbrev pub below : ℕ → Limit → Bool
below n unlimited = true
below n (at_most m) = ltb n m

pub record Usage : Type 0 where
  pub tier : Text
  pub owned_count : ℕ
  pub member_count : ℕ
  pub own_limit : Limit
  pub join_limit : Limit
  pub can_create : Bool
  pub can_join : Bool

-- `getAccountWorkspaceUsage`
unfoldable pub get_account_workspace_usage : Db → Text → Usage
get_account_workspace_usage db email =
    let rows = workspaces_of db email in
    let owned = length (keep (λ u. is_owner u.role) rows) in
    let members = length rows - owned in
    let tier = get_account_tier db email in
    let limits = get_plan_limits tier in
    record {
      tier = tier;
      owned_count = owned;
      member_count = members;
      own_limit = limits.own_workspaces;
      join_limit = limits.join_workspaces;
      can_create = below owned limits.own_workspaces;
      can_join = below members limits.join_workspaces;
    }

-- An account may create a workspace exactly while it owns fewer than its tier allows, and the
-- owned and the joined workspaces together are all of its active ones.
pub usage_lem :
    (db : Db) (email : Text)
    → let u = get_account_workspace_usage db email in
      (u.owned_count + u.member_count ≡ length (workspaces_of db email))
      × ((u.can_create ≡ true)
          ↔ IsBelow u.owned_count (get_plan_limits (get_account_tier db email)).own_workspaces)
      × ((u.can_join ≡ true)
          ↔ IsBelow u.member_count (get_plan_limits (get_account_tier db email)).join_workspaces)
unfolding get_account_workspace_usage
usage_lem db email =
    ground (arith, length-keep-le (λ (u : User). is_owner u.role) (workspaces_of db email))
