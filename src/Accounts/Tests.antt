-- ===== src/Accounts/Tests.antt =====
-- A run of `setAccountPlan`, and the theorems about it at concrete inputs.
use feedbase_backend.Base.{ℕ, ◌≡◌, ◌≢◌, ◌⊎◌, refl, Bool, true, false, [], ◌∷◌, none, some}
use feedbase_backend.Text.{Text, codes, eq_text}
use feedbase_backend.Text.Laws.{ne_of_eq_text}
use feedbase_backend.Plans.{key, pro}
use feedbase_backend.Tables.{Db, Tenant, User, owner}
use feedbase_backend.Accounts.{
  free_billing, get_account, find_account, insert_account, update_account, owned_by, mirror_row,
  mirror_account_to_tenants, Fields, no_fields, Query, set_account_plan,
}
use feedbase_backend.Accounts.Shown.{foreign, IsUpdated, mirrored-Shows, InSync, OneOwner}
use feedbase_backend.Accounts.Mirror.{set_account_plan_lem, set_account_plan-InSync_other}

abbrev ann : Text
ann = codes "ann"

abbrev bob : Text
bob = codes "bob"

abbrev row : ℕ → ℕ → Text → User
row id tenant email = record {
  id = id;
  tenant_id = some tenant;
  email = email;
  full_name = email;
  avatar_url = none;
  password_hash = none;
  role = owner;
  is_active = true;
}

abbrev shop : ℕ → Tenant
shop id = record {
  id = id;
  name = codes "shop";
  slug = [];
  subdomain = [];
  website = none;
  billing = free_billing;
  stripe_customer_id = none;
  stripe_subscription_id = none;
  is_active = true;
}

abbrev start : Db
start = record {
  tenants = shop 1 ∷ shop 2 ∷ [];
  users = row 1 1 ann ∷ row 2 2 bob ∷ [];
  accounts = [];
}

abbrev to_pro : Fields
to_pro = record no_fields { plan_name = some (key pro) }

abbrev never : Query → Bool
never q = false

run_test :
    (set_account_plan never ann to_pro start).0.tenants
    ≡ record (shop 1) { billing = record free_billing { plan_name = key pro } } ∷ shop 2 ∷ []
unfolding set_account_plan insert_account update_account mirror_account_to_tenants get_account
    find_account mirror_row
run_test = refl

set_account_plan_lem_example :
    (((set_account_plan never ann to_pro start).1 ≡ false)
      × ((set_account_plan never ann to_pro start).0 ≡ start))
    ⊎ (((set_account_plan never ann to_pro start).1 ≡ true)
        × IsUpdated to_pro
            (get_account start ann)
            (get_account (set_account_plan never ann to_pro start).0 ann)
        × InSync (set_account_plan never ann to_pro start).0 ann
        × ((set_account_plan never ann to_pro start).0.users ≡ start.users)
        × (foreign start.users ann (set_account_plan never ann to_pro start).0.tenants
            ≡ foreign start.users ann start.tenants))
set_account_plan_lem_example = set_account_plan_lem never ann to_pro start

bob-ne-ann : bob ≢ ann
unfolding eq_text
bob-ne-ann = ne_of_eq_text bob ann refl

start-OneOwner : OneOwner start bob ann
unfolding owned_by
start-OneOwner = ((λ h. cc), ((λ h. refl), tt))

start-InSync : InSync start bob
unfolding owned_by get_account find_account
start-InSync = ((λ h. cc), ((λ h. mirrored-Shows free_billing (shop 2)), tt))

set_account_plan-InSync_other_example : InSync (set_account_plan never ann to_pro start).0 bob
set_account_plan-InSync_other_example =
    set_account_plan-InSync_other never ann to_pro start bob bob-ne-ann start-OneOwner start-InSync
