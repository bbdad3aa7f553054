-- ===== src/Plans/Tests.antt =====
-- Runs of the plan tables, and the theorems about them at concrete inputs.
use feedbase_backend.Base.{
  ◌+◌, ◌≤◌, ◌≡◌, ◌↔◌, ◌⊎◌, refl, true, [], ◌∷◌, none, some, arith, All, any, length, List, ◌<◌,
}
use feedbase_backend.Text.{Text, codes, eq_text}
use feedbase_backend.Text.Laws.{texts_apart}
use feedbase_backend.Plans.Direction.{
  upgrade, downgrade, direction_of, offer_rank, direction_of_lem,
}
use feedbase_backend.Plans.{
  free, pro, business, month, year, limits, key, rank, max_plan_from, max_plan, list_price,
  get_plan_limits, PriceIds, plan_price_id, plan_by_price_id, interval_by_price_id,
}
use feedbase_backend.Plans.Laws.{
  LimitsLe, limits_mono, max_plan-greatest, AreDistinct, price_id-round_trip,
}
use feedbase_backend.Plans.Usage.{
  IsBelow, get_account_tier, workspaces_of, get_account_workspace_usage, usage_lem,
}
use feedbase_backend.Tables.{Db, owner}

price_test :
    (list_price (codes "pro") year ≡ 96)
    × (list_price (codes "business") year ≡ 144)
    × (list_price (codes "gold") month ≡ 0)
unfolding list_price
price_test = (refl, refl, refl)

abbrev names : List Text
names = codes "free" ∷ codes "business" ∷ codes "pro" ∷ []

max_plan_test : max_plan names ≡ key business
unfolding max_plan max_plan_from rank
max_plan_test = refl

abbrev ids : PriceIds
ids = record {
  pro_monthly = some (codes "pm");
  pro_yearly = some (codes "py");
  business_monthly = some (codes "bm");
  business_yearly = none;
}

ids-AreDistinct : AreDistinct ids
unfolding eq_text
ids-AreDistinct = record {
  pro_pro = λ id. texts_apart (codes "pm") (codes "py") id refl;
  business_business = λ id p q. cc;
  monthly_monthly = λ id. texts_apart (codes "pm") (codes "bm") id refl;
  monthly_yearly = λ id p q. cc;
  yearly_monthly = λ id. texts_apart (codes "py") (codes "bm") id refl;
  yearly_yearly = λ id p q. cc;
}

limits_mono_test : LimitsLe (limits free) (limits business)
limits_mono_test = limits_mono free business (omega arith)

max_plan-greatest_test :
    All (λ p. rank p ≤ rank (max_plan names)) names
    × ((max_plan names ≡ key free) ⊎ (any (eq_text (max_plan names)) names ≡ true))
max_plan-greatest_test = max_plan-greatest names

price_id-round_trip_test :
    (plan_by_price_id ids (some (codes "py")) ≡ some pro)
    × (interval_by_price_id ids (some (codes "py")) ≡ some year)
unfolding plan_price_id
price_id-round_trip_test = price_id-round_trip ids pro year (codes "py") ids-AreDistinct refl

abbrev ann : Text
ann = codes "ann@x.io"

abbrev small : Db
small = record {
  tenants = [];
  users =
      record {
        id = 1;
        tenant_id = none;
        email = ann;
        full_name = codes "Ann";
        avatar_url = none;
        password_hash = none;
        role = owner;
        is_active = true;
      }
      ∷ [];
  accounts = [];
}

usage_lem_test :
    let u = get_account_workspace_usage small ann in
    (u.owned_count + u.member_count ≡ length (workspaces_of small ann))
    × ((u.can_create ≡ true)
        ↔ IsBelow u.owned_count (get_plan_limits (get_account_tier small ann)).own_workspaces)
    × ((u.can_join ≡ true)
        ↔ IsBelow u.member_count (get_plan_limits (get_account_tier small ann)).join_workspaces)
usage_lem_test = usage_lem small ann

direction_of_lem_example :
    ((direction_of (key business) year (key pro) month ≡ upgrade)
      ↔ (offer_rank business year < offer_rank pro month))
    × ((direction_of (key business) year (key pro) month ≡ downgrade)
        ↔ (offer_rank pro month < offer_rank business year))
direction_of_lem_example = direction_of_lem business pro year month
