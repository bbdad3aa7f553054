-- ===== src/Plans/Direction.antt =====
-- `directionOf` of `src/main/billing/changePlan.js`: whether a change of plan is paid now or
-- scheduled for the end of the period.
use feedbase_backend.Base.{
  ℕ, ◌+◌, ◌*◌, ◌<◌, ◌≡◌, ◌↔◌, refl, Bool, true, false, not, ◌&&◌, arith, if◌then◌else◌, ltb, ◌==◌,
}
use feedbase_backend.Text.{Text, eq_text}
use feedbase_backend.Plans.{
  Plan, free, pro, business, Interval, month, year, key, rank, plan_rank, plan_named,
}

pub data Direction : Type 0 where
  upgrade downgrade same : Direction

abbrev pub is_year : Interval → Bool
is_year month = false
is_year year = true

abbrev pub eq_interval : Interval → Interval → Bool
eq_interval month i = not (is_year i)
eq_interval year i = is_year i

unfoldable pub direction_of : Text → Interval → Text → Interval → Direction
direction_of cur_plan cur_interval new_plan new_interval =
    if eq_text cur_plan new_plan && eq_interval cur_interval new_interval
    then same
    else if ltb (rank cur_plan) (rank new_plan)
    then upgrade
    else if ltb (rank new_plan) (rank cur_plan)
    then downgrade
    else if is_year new_interval
    then upgrade
    else downgrade

abbrev pub interval_rank : Interval → ℕ
interval_rank month = 0
interval_rank year = 1

-- The place of a plan and an interval in the order of all offers.
abbrev pub offer_rank : Plan → Interval → ℕ
offer_rank p i = 2 * plan_rank p + interval_rank i

rank-key : (p : Plan) → rank (key p) ≡ plan_rank p
unfolding rank plan_named eq_text
rank-key free = refl
rank-key pro = refl
rank-key business = refl

eq_text-key : (p q : Plan) → eq_text (key p) (key q) ≡ (plan_rank p == plan_rank q)
unfolding eq_text
eq_text-key free free = refl
eq_text-key free pro = refl
eq_text-key free business = refl
eq_text-key pro free = refl
eq_text-key pro pro = refl
eq_text-key pro business = refl
eq_text-key business free = refl
eq_text-key business pro = refl
eq_text-key business business = refl

-- The direction, with the ranks of the plans in place of their names.
direction_of-key :
    (p q : Plan) (i j : Interval)
    → direction_of (key p) i (key q) j ≡ (
        if (plan_rank p == plan_rank q) && eq_interval i j
        then same
        else if ltb (plan_rank p) (plan_rank q)
        then upgrade
        else if ltb (plan_rank q) (plan_rank p)
        then downgrade
        else if is_year j
        then upgrade
        else downgrade)
unfolding direction_of
direction_of-key p q i j = rw (eq_text-key p q, rank-key p, rank-key q) refl

-- Between two of the three plans a change is an upgrade exactly when the new plan and interval stand
-- higher, the plan counting before the interval, a downgrade exactly when they stand lower, and so
-- the way back from an upgrade is a downgrade.
pub direction_of_lem :
    (p q : Plan) (i j : Interval)
    → ((direction_of (key p) i (key q) j ≡ upgrade) ↔ (offer_rank p i < offer_rank q j))
      × ((direction_of (key p) i (key q) j ≡ downgrade) ↔ (offer_rank q j < offer_rank p i))
direction_of_lem p q i j = rw (direction_of-key p q i j) (ground arith)
