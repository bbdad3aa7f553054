-- ===== src/Tables.antt =====
-- The rows of the tables that the account-level code reads and writes, with the columns that the
-- modelled code uses, and the database that holds them. A table is a list of rows in the order of
-- their ids; times are seconds. Texts are compared exactly: the collation of MySQL, which ignores
-- case, is not modelled.
use feedbase_backend.Base.{ℕ, Bool, true, false, List, Option, none, some, ◌==◌}
use feedbase_backend.Text.{Text}
use feedbase_backend.Plans.{Interval}

pub data Role : Type 0 where
  owner user : Role

abbrev pub is_owner : Role → Bool
is_owner owner = true
is_owner user = false

-- The billing columns that `billing_accounts` and its mirror in `tenants` have in common.
pub record Billing : Type 0 where
  pub plan_name : Text
  pub subscription_status : Option Text
  pub billing_interval : Option Interval
  pub current_period_end : Option ℕ
  pub pending_plan : Option Text
  pub pending_interval : Option Interval
  pub pending_effective_at : Option ℕ

pub record Tenant : Type 0 where
  pub id : ℕ
  pub name : Text
  pub slug : Text
  pub subdomain : Text
  pub website : Option Text
  pub billing : Billing
  pub stripe_customer_id : Option Text
  pub stripe_subscription_id : Option Text
  pub is_active : Bool

pub record User : Type 0 where
  pub id : ℕ
  pub tenant_id : Option ℕ
  pub email : Text
  pub full_name : Text
  pub avatar_url : Option Text
  pub password_hash : Option Text
  pub role : Role
  pub is_active : Bool

pub record Account : Type 0 where
  pub email : Text
  pub billing : Billing
  pub stripe_customer_id : Option Text
  pub stripe_subscription_id : Option Text
  pub paddle_customer_id : Option Text
  pub paddle_subscription_id : Option Text

pub record Db : Type 0 where
  pub tenants : List Tenant
  pub users : List User
  pub accounts : List Account

abbrev pub is_in : Option ℕ → ℕ → Bool
is_in none t = false
is_in (some s) t = s == t
