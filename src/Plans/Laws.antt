-- ===== src/Plans/Laws.antt =====
-- The order of the plans, and the price ids as codes for plan and interval.
use mathlib.Core.Path.{subst, ap}
use native.Mathlib.Nat.{le_refl, le_trans}
use feedbase_backend.Base.{
  ◌≤◌, ◌≡◌, ◌≢◌, ◌⊎◌, ◌↔◌, inl, inr, refl, sym, Bool, true, false, List, [], ◌∷◌, Option, none,
  some, All, arith, ltb, if◌then◌else◌, Bool-cases, any,
}
use feedbase_backend.Text.{Text, eq_text}
use feedbase_backend.Text.Laws.{eq_text_iff}
use feedbase_backend.Plans.{
  Plan, free, Interval, Limit, at_most, unlimited, Limits, limits, plan_rank, rank, key,
  max_plan_from, max_plan, PriceIds, is_id, plan_price_id, plan_by_price_id, interval_by_price_id,
}

abbrev pub LimitLe : Limit → Limit → Type 0
LimitLe l unlimited = Unit
LimitLe unlimited (at_most n) = ⊥
LimitLe (at_most m) (at_most n) = m ≤ n

-- `b` is granted wherever `a` is.
abbrev pub Implies : Bool → Bool → Type 0
Implies a b = (a ≡ false) ⊎ (b ≡ true)

-- Every cap and every capability of the one plan is within the other's.
pub record LimitsLe (a b : Limits) : Type 0 where
  pub seats : LimitLe a.seats b.seats
  pub own_workspaces : LimitLe a.own_workspaces b.own_workspaces
  pub join_workspaces : LimitLe a.join_workspaces b.join_workspaces
  pub custom_domain : Implies a.custom_domain b.custom_domain
  pub integrations : Implies a.integrations b.integrations
  pub delete_feedback : Implies a.delete_feedback b.delete_feedback
  pub attachments : Implies a.attachments b.attachments
  pub contact_submitter : Implies a.contact_submitter b.contact_submitter
  pub multi_device : Implies a.multi_device b.multi_device
  pub owner_badge : Implies a.owner_badge b.owner_badge
  pub owner_privacy : Implies a.owner_privacy b.owner_privacy
  pub restrict_anonymous_posting : Implies a.restrict_anonymous_posting b.restrict_anonymous_posting

-- A plan of a higher rank never lowers a cap or takes a capability away.
pub limits_mono : (p q : Plan) → plan_rank p ≤ plan_rank q → LimitsLe (limits p) (limits q)
unfolding limits
limits_mono p q h = ground arith

better : Text → Text → Text
better best p = if ltb (rank best) (rank p) then p else best

better-ge : (best p : Text) → (rank best ≤ rank (better best p)) × (rank p ≤ rank (better best p))
unfolding better
better-ge best p = elim (Bool-cases (ltb (rank best) (rank p))) [
  | inl e ↦ rw e (ground arith)
  | inr e ↦ rw e (ground arith)
]

max_plan_from-ge :
    (best : Text) (names : List Text)
    → (rank best ≤ rank (max_plan_from best names))
      × All (λ p. rank p ≤ rank (max_plan_from best names)) names
unfolding max_plan_from better
max_plan_from-ge best [] = (le_refl _, tt)
max_plan_from-ge best (p ∷ ps) =
    let (low, rest) = max_plan_from-ge (if ltb (rank best) (rank p) then p else best) ps in
    let (was, new) = better-ge best p in (le_trans was low, (le_trans new low, rest))

any-here : (r p : Text) (ps : List Text) → r ≡ p → any (eq_text r) (p ∷ ps) ≡ true
any-here r p ps e = ground (arith, eq_text_iff r p)

any-later :
    (r p : Text) (ps : List Text) → any (eq_text r) ps ≡ true → any (eq_text r) (p ∷ ps) ≡ true
any-later r p ps h = ground arith

-- `r` is where the loop started or one of the names.
abbrev Chosen : Text → Text → List Text → Type 0
Chosen r best names = (r ≡ best) ⊎ (any (eq_text r) names ≡ true)

Chosen-new : (r best p : Text) (ps : List Text) → Chosen r p ps → Chosen r best (p ∷ ps)
Chosen-new r best p ps (inl q) = inr (any-here r p ps q)
Chosen-new r best p ps (inr q) = inr (any-later r p ps q)

Chosen-old : (r best p : Text) (ps : List Text) → Chosen r best ps → Chosen r best (p ∷ ps)
Chosen-old r best p ps (inl q) = inl q
Chosen-old r best p ps (inr q) = inr (any-later r p ps q)

max_plan_from-Chosen :
    (best : Text) (names : List Text) → Chosen (max_plan_from best names) best names
unfolding max_plan_from
max_plan_from-Chosen best [] = inl refl
max_plan_from-Chosen best (p ∷ ps) =
    let step = λ (b : Bool). max_plan_from (if b then p else best) ps in
    elim (Bool-cases (ltb (rank best) (rank p))) [
      | inl e ↦
          subst (λ r. Chosen r best (p ∷ ps)) (sym (ap step e))
            (Chosen-new _ best p ps (max_plan_from-Chosen p ps))
      | inr e ↦
          subst (λ r. Chosen r best (p ∷ ps)) (sym (ap step e))
            (Chosen-old _ best p ps (max_plan_from-Chosen best ps))
    ]

-- The result ranks at least as high as every name of the list, and it is one of them or "free".
pub max_plan-greatest :
    (names : List Text)
    → All (λ p. rank p ≤ rank (max_plan names)) names
      × ((max_plan names ≡ key free) ⊎ (any (eq_text (max_plan names)) names ≡ true))
unfolding max_plan
max_plan-greatest names =
    ((max_plan_from-ge (key free) names).1, max_plan_from-Chosen (key free) names)

-- The two paid plans have four different price ids.
pub record AreDistinct (ids : PriceIds) : Type 0 where
  pub pro_pro : (id : Text) → ids.pro_monthly ≡ some id → ids.pro_yearly ≢ some id
  pub business_business :
      (id : Text) → ids.business_monthly ≡ some id → ids.business_yearly ≢ some id
  pub monthly_monthly : (id : Text) → ids.pro_monthly ≡ some id → ids.business_monthly ≢ some id
  pub monthly_yearly : (id : Text) → ids.pro_monthly ≡ some id → ids.business_yearly ≢ some id
  pub yearly_monthly : (id : Text) → ids.pro_yearly ≡ some id → ids.business_monthly ≢ some id
  pub yearly_yearly : (id : Text) → ids.pro_yearly ≡ some id → ids.business_yearly ≢ some id

pub is_id_iff : (o : Option Text) (id : Text) → (is_id o id ≡ true) ↔ (o ≡ some id)
is_id_iff none id = ground arith
is_id_iff (some t) id = ground (arith, eq_text_iff t id)

-- If the four configured price ids differ, the id of a plan and interval leads back to both.
pub price_id-round_trip :
    (ids : PriceIds) (p : Plan) (interval : Interval) (id : Text)
    → AreDistinct ids
    → plan_price_id ids p interval ≡ some id
    → (plan_by_price_id ids (some id) ≡ some p)
      × (interval_by_price_id ids (some id) ≡ some interval)
unfolding plan_price_id plan_by_price_id interval_by_price_id
price_id-round_trip ids p interval id d h = ground (
  arith,
  is_id_iff ids.pro_monthly id,
  is_id_iff ids.pro_yearly id,
  is_id_iff ids.business_monthly id,
  is_id_iff ids.business_yearly id,
  d.pro_pro id,
  d.business_business id,
  d.monthly_monthly id,
  d.monthly_yearly id,
  d.yearly_monthly id,
  d.yearly_yearly id,
)
