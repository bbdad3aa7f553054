-- ===== src/Plans.antt =====
-- consts/plans.js: the plans, their limits and prices, and the price ids of the two providers.
-- The price ids come from the environment (`PriceIds`); an unset one is `none`. Unknown plan names
-- have no entry; names inherited from `Object.prototype` are not modelled.
pub mod Laws
pub mod Usage
mod Direction
mod Tests
use feedbase_backend.Base.{
  ℕ, ◌+◌, ◌*◌, ◌/◌, Bool, true, false, ◌&&◌, ◌||◌, List, [], ◌∷◌, Option, none, some, ltb, leb,
  if◌then◌else◌,
}
use feedbase_backend.Text.{Text, codes, eq_text}

pub data Plan : Type 0 where
  free pro business : Plan

pub data Interval : Type 0 where
  month year : Interval

-- A cap; `unlimited` is `Infinity`.
pub data Limit : Type 0 where
  at_most : ℕ → Limit
  unlimited : Limit

pub record Limits : Type 0 where
  pub seats : Limit
  pub own_workspaces : Limit
  pub join_workspaces : Limit
  pub custom_domain : Bool
  pub integrations : Bool
  pub delete_feedback : Bool
  pub attachments : Bool
  pub contact_submitter : Bool
  pub multi_device : Bool
  pub owner_badge : Bool
  pub owner_privacy : Bool
  pub restrict_anonymous_posting : Bool

unfoldable pub limits : Plan → Limits
limits free = record {
  seats = at_most 2;
  own_workspaces = at_most 1;
  join_workspaces = at_most 1;
  custom_domain = false;
  integrations = false;
  delete_feedback = false;
  attachments = false;
  contact_submitter = false;
  multi_device = false;
  owner_badge = false;
  owner_privacy = false;
  restrict_anonymous_posting = false;
}
limits pro = record {
  seats = at_most 5;
  own_workspaces = at_most 3;
  join_workspaces = at_most 3;
  custom_domain = true;
  integrations = true;
  delete_feedback = true;
  attachments = true;
  contact_submitter = true;
  multi_device = false;
  owner_badge = true;
  owner_privacy = false;
  restrict_anonymous_posting = true;
}
limits business = record {
  seats = unlimited;
  own_workspaces = unlimited;
  join_workspaces = unlimited;
  custom_domain = true;
  integrations = true;
  delete_feedback = true;
  attachments = true;
  contact_submitter = true;
  multi_device = true;
  owner_badge = true;
  owner_privacy = true;
  restrict_anonymous_posting = true;
}

abbrev pub monthly_price : Plan → ℕ
monthly_price free = 0
monthly_price pro = 10
monthly_price business = 15

abbrev pub key : Plan → Text
key free = codes "free"
key pro = codes "pro"
key business = codes "business"

-- `PLANS[name]`
unfoldable pub plan_named : Text → Option Plan
unfolding eq_text
plan_named name =
    if eq_text name (key free)
    then some free
    else if eq_text name (key pro)
    then some pro
    else if eq_text name (key business)
    then some business
    else none

abbrev pub plan_rank : Plan → ℕ
plan_rank free = 0
plan_rank pro = 1
plan_rank business = 2

-- `PLAN_RANK[name] ?? 0`
unfoldable pub rank : Text → ℕ
unfolding plan_named
rank name = elim (plan_named name) [ none ↦ 0 | some p ↦ plan_rank p ]

-- The loop of `maxPlan`, from `best` on.
unfoldable pub max_plan_from : Text → List Text → Text
max_plan_from best [] = best
max_plan_from best (p ∷ ps) = max_plan_from (if ltb (rank best) (rank p) then p else best) ps

unfoldable pub max_plan : List Text → Text
max_plan names = max_plan_from (key free) names

-- `Math.round(monthly * (1 - 0.2)) * 12` for the year.
unfoldable pub list_price : Text → Interval → ℕ
unfolding plan_named
list_price name interval =
    let monthly : ℕ = elim (plan_named name) [ none ↦ 0 | some p ↦ monthly_price p ] in
    elim interval [ month ↦ monthly | year ↦ (monthly * 8 + 5) / 10 * 12 ]

-- `getPlanLimits`
unfoldable pub get_plan_limits : Text → Limits
unfolding plan_named limits
get_plan_limits name = elim (plan_named name) [ none ↦ limits free | some p ↦ limits p ]

-- The price ids of one provider, for the paid plans.
pub record PriceIds : Type 0 where
  pub pro_monthly : Option Text
  pub pro_yearly : Option Text
  pub business_monthly : Option Text
  pub business_yearly : Option Text

-- `found === id`, where a missing id equals no text.
abbrev pub is_id : Option Text → Text → Bool
is_id none id = false
is_id (some found) id = eq_text found id

module _ (ids : PriceIds) where
  unfoldable pub plan_price_id : Plan → Interval → Option Text
  plan_price_id free interval = none
  plan_price_id pro month = ids.pro_monthly
  plan_price_id pro year = ids.pro_yearly
  plan_price_id business month = ids.business_monthly
  plan_price_id business year = ids.business_yearly

  -- `priceIdFor` and `paddlePriceIdFor`
  unfoldable pub price_id_for : Text → Interval → Option Text
  unfolding plan_named plan_price_id
  price_id_for name interval = elim (plan_named name) [
    | none ↦ none
    | some p ↦ plan_price_id p interval
  ]

  -- `planByPriceId` and `planByPaddlePriceId`
  unfoldable pub plan_by_price_id : Option Text → Option Plan
  plan_by_price_id none = none
  plan_by_price_id (some id) =
      if is_id ids.pro_monthly id || is_id ids.pro_yearly id
      then some pro
      else if is_id ids.business_monthly id || is_id ids.business_yearly id
      then some business
      else none

  -- `intervalByPriceId` and `intervalByPaddlePriceId`
  unfoldable pub interval_by_price_id : Option Text → Option Interval
  interval_by_price_id none = none
  interval_by_price_id (some id) =
      if is_id ids.pro_yearly id || is_id ids.business_yearly id then some year else some month
