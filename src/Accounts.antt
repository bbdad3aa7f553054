-- ===== src/Accounts.antt =====
-- common/accountBilling.js: the account's billing row, and its mirror in the workspaces it owns.
-- A transaction is run on a copy of the database that is kept only if every query succeeds; which
-- queries fail is the parameter `fails`.
mod Rows
pub mod Shown
pub mod Mirror
pub mod Subscriptions
mod Tests
use feedbase_backend.Base.{
  ℕ, Bool, true, false, ◌&&◌, ◌||◌, List, [], ◌∷◌, ◌++◌, map, Option, none, some, ◌==◌,
  if◌then◌else◌, find, any, is_some,
}
use feedbase_backend.Text.{Text, codes, eq_text, is_empty}
use feedbase_backend.Plans.{Interval, key, free}
use feedbase_backend.Tables.{Billing, Tenant, User, Account, Db, is_owner, is_in}

abbrev pub free_billing : Billing
free_billing = record {
  plan_name = key free;
  subscription_status = none;
  billing_interval = none;
  current_period_end = none;
  pending_plan = none;
  pending_interval = none;
  pending_effective_at = none;
}

abbrev pub new_account : Text → Account
new_account email = record {
  email = email;
  billing = free_billing;
  stripe_customer_id = none;
  stripe_subscription_id = none;
  paddle_customer_id = none;
  paddle_subscription_id = none;
}

unfoldable pub find_account : List Account → Text → Option Account
unfolding eq_text
find_account accounts email = find (λ a. eq_text a.email email) accounts

-- `getAccount`, with the synthesized default for an account without a row.
unfoldable pub get_account : Db → Text → Account
get_account db email = elim (find_account db.accounts email) [
  | none ↦ new_account email
  | some a ↦ a
]

-- The INSERT IGNORE with which `ensureAccount` and `setAccountPlan` begin.
unfoldable pub insert_account : Text → Db → Db
insert_account email db =
    if is_some (find_account db.accounts email)
    then db
    else record db { accounts = db.accounts ++ new_account email ∷ [] }

-- `x || null`, for a text.
abbrev pub or_null : Option Text → Option Text
or_null none = none
or_null (some []) = none
or_null (some (c ∷ s)) = some (c ∷ s)

-- The values that the mirror writes.
abbrev pub mirrored : Billing → Billing
mirrored b = record {
  plan_name = if is_empty b.plan_name then key free else b.plan_name;
  subscription_status = or_null b.subscription_status;
  billing_interval = b.billing_interval;
  current_period_end = b.current_period_end;
  pending_plan = or_null b.pending_plan;
  pending_interval = b.pending_interval;
  pending_effective_at = b.pending_effective_at;
}

-- An active workspace with an active owner row of the account.
unfoldable pub owned_by : List User → Text → Tenant → Bool
unfolding eq_text
owned_by users email t =
    t.is_active
    && any (λ u. is_in u.tenant_id t.id && is_owner u.role && u.is_active && eq_text u.email email)
        users

unfoldable pub mirror_row : List User → Text → Billing → Tenant → Tenant
unfolding owned_by
mirror_row users email b t =
    if owned_by users email t
    then record t { billing = mirrored b; stripe_customer_id = none; stripe_subscription_id = none }
    else t

-- `mirrorAccountToTenants`
unfoldable pub mirror_account_to_tenants : Text → Db → Db
mirror_account_to_tenants email db = record db {
  tenants = map (mirror_row db.users email (get_account db email).billing) db.tenants;
}

-- The `fields` argument: `none` is an absent key, which leaves the column as it is.
pub record Fields : Type 0 where
  pub plan_name : Option Text
  pub stripe_customer_id : Option (Option Text)
  pub stripe_subscription_id : Option (Option Text)
  pub paddle_customer_id : Option (Option Text)
  pub paddle_subscription_id : Option (Option Text)
  pub subscription_status : Option (Option Text)
  pub billing_interval : Option (Option Interval)
  pub current_period_end : Option (Option ℕ)
  pub pending_plan : Option (Option Text)
  pub pending_interval : Option (Option Interval)
  pub pending_effective_at : Option (Option ℕ)

abbrev pub updated {ℓ} : {A : Type ℓ} → Option A → A → A
updated none old = old
updated (some new) old = new

unfoldable pub apply_fields : Fields → Account → Account
apply_fields f a = record {
  email = a.email;
  billing = record {
    plan_name = updated f.plan_name a.billing.plan_name;
    subscription_status = updated f.subscription_status a.billing.subscription_status;
    billing_interval = updated f.billing_interval a.billing.billing_interval;
    current_period_end = updated f.current_period_end a.billing.current_period_end;
    pending_plan = updated f.pending_plan a.billing.pending_plan;
    pending_interval = updated f.pending_interval a.billing.pending_interval;
    pending_effective_at = updated f.pending_effective_at a.billing.pending_effective_at;
  };
  stripe_customer_id = updated f.stripe_customer_id a.stripe_customer_id;
  stripe_subscription_id = updated f.stripe_subscription_id a.stripe_subscription_id;
  paddle_customer_id = updated f.paddle_customer_id a.paddle_customer_id;
  paddle_subscription_id = updated f.paddle_subscription_id a.paddle_subscription_id;
}

-- The UPDATE of the row; with no field given it is not sent, and would change nothing.
unfoldable pub update_account : Text → Fields → Db → Db
unfolding eq_text apply_fields
update_account email f db = record db {
  accounts = map (λ a. if eq_text a.email email then apply_fields f a else a) db.accounts;
}

-- The queries of `setAccountPlan`, in the order in which they are sent.
pub data Query : Type 0 where
  insert_row update_row read_row mirror_rows commit : Query

-- What a call leaves in the database, and whether it returned (`true`) or threw.
abbrev pub Outcome : Type 0
Outcome = Db × Bool

unfoldable pub set_account_plan : (Query → Bool) → Text → Fields → Db → Outcome
set_account_plan fails email f db =
    if is_empty email
      || fails insert_row
      || fails update_row
      || fails read_row
      || fails mirror_rows
      || fails commit
    then (db, false)
    else (mirror_account_to_tenants email (update_account email f (insert_account email db)), true)

abbrev pub no_fields : Fields
no_fields = record {
  plan_name = none;
  stripe_customer_id = none;
  stripe_subscription_id = none;
  paddle_customer_id = none;
  paddle_subscription_id = none;
  subscription_status = none;
  billing_interval = none;
  current_period_end = none;
  pending_plan = none;
  pending_interval = none;
  pending_effective_at = none;
}

-- The fields of `resetAccountToFree`.
abbrev pub free_fields : Option Text → Fields
free_fields status = record no_fields {
  plan_name = some (key free);
  subscription_status = some status;
  billing_interval = some none;
  stripe_subscription_id = some none;
  current_period_end = some none;
  pending_plan = some none;
  pending_interval = some none;
  pending_effective_at = some none;
}

unfoldable pub reset_account_to_free : (Query → Bool) → Text → Option Text → Db → Outcome
reset_account_to_free fails email status db = set_account_plan fails email (free_fields status) db
