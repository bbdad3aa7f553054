-- ===== src/Accounts/Shown.antt =====
-- What the workspaces of an account show of it after `mirrorAccountToTenants` of
-- src/common/accountBilling.js, and what `setAccountPlan` writes, column by column.
use feedbase_backend.Base.{
  ◌≡◌, inl, inr, refl, sym, ◌∙◌, Bool, true, false, List, [], ◌∷◌, map, none, some, All, arith,
  Bool-cases, Option, if◌then◌else◌, any, keep, not, ◌&&◌,
}
use feedbase_backend.Text.{Text, codes, is_empty, eq_text}
use feedbase_backend.Plans.{key, free}
use feedbase_backend.Tables.{Billing, Tenant, User, Account, Db, is_owner, is_in}
use feedbase_backend.Accounts.{
  get_account, or_null, updated, mirrored, owned_by, mirror_row, Fields, apply_fields,
}

-- A column that shows a text: a missing or an empty one as NULL.
abbrev pub ShowsText : Option Text → Option Text → Type 0
ShowsText none shown = shown ≡ none
ShowsText (some []) shown = shown ≡ none
ShowsText (some (c ∷ s)) shown = shown ≡ some (c ∷ s)

-- A column that shows the name of a plan: free where there is none.
abbrev pub ShowsPlan : Text → Text → Type 0
ShowsPlan [] shown = shown ≡ codes "free"
ShowsPlan (c ∷ s) shown = shown ≡ c ∷ s

-- A workspace shows the billing of an account, column by column, and has no ids of its own.
pub record Shows (b : Billing) (t : Tenant) : Type 0 where
  pub plan : ShowsPlan b.plan_name t.billing.plan_name
  pub status : ShowsText b.subscription_status t.billing.subscription_status
  pub interval : t.billing.billing_interval ≡ b.billing_interval
  pub ends : t.billing.current_period_end ≡ b.current_period_end
  pub pending : ShowsText b.pending_plan t.billing.pending_plan
  pub pending_at : t.billing.pending_effective_at ≡ b.pending_effective_at
  pub pending_by : t.billing.pending_interval ≡ b.pending_interval
  pub no_customer : t.stripe_customer_id ≡ none
  pub no_subscription : t.stripe_subscription_id ≡ none

or_null-ShowsText : (o : Option Text) → ShowsText o (or_null o)
or_null-ShowsText none = refl
or_null-ShowsText (some []) = refl
or_null-ShowsText (some (c ∷ s)) = refl

plan-ShowsPlan : (s : Text) → ShowsPlan s (if is_empty s then key free else s)
plan-ShowsPlan [] = refl
plan-ShowsPlan (c ∷ s) = refl

pub mirrored-Shows :
    (b : Billing) (t : Tenant)
    → Shows b (record t {
      billing = mirrored b;
      stripe_customer_id = none;
      stripe_subscription_id = none;
    })
mirrored-Shows b t = record {
  plan = plan-ShowsPlan b.plan_name;
  status = or_null-ShowsText b.subscription_status;
  interval = refl;
  ends = refl;
  pending = or_null-ShowsText b.pending_plan;
  pending_at = refl;
  pending_by = refl;
  no_customer = refl;
  no_subscription = refl;
}

-- A column of an UPDATE: it gets the value that is given, and keeps its own where none is.
abbrev pub Sets : {A : Type 0} → Option A → A → A → Type 0
Sets none old new = new ≡ old
Sets (some v) old new = new ≡ v

-- An account is another one with the given fields.
pub record IsUpdated (f : Fields) (a a' : Account) : Type 0 where
  pub email : a'.email ≡ a.email
  pub plan_name : Sets f.plan_name a.billing.plan_name a'.billing.plan_name
  pub subscription_status :
      Sets f.subscription_status a.billing.subscription_status a'.billing.subscription_status
  pub billing_interval :
      Sets f.billing_interval a.billing.billing_interval a'.billing.billing_interval
  pub current_period_end :
      Sets f.current_period_end a.billing.current_period_end a'.billing.current_period_end
  pub pending_plan : Sets f.pending_plan a.billing.pending_plan a'.billing.pending_plan
  pub pending_interval :
      Sets f.pending_interval a.billing.pending_interval a'.billing.pending_interval
  pub pending_effective_at :
      Sets f.pending_effective_at a.billing.pending_effective_at a'.billing.pending_effective_at
  pub stripe_customer_id : Sets f.stripe_customer_id a.stripe_customer_id a'.stripe_customer_id
  pub stripe_subscription_id :
      Sets f.stripe_subscription_id a.stripe_subscription_id a'.stripe_subscription_id
  pub paddle_customer_id : Sets f.paddle_customer_id a.paddle_customer_id a'.paddle_customer_id
  pub paddle_subscription_id :
      Sets f.paddle_subscription_id a.paddle_subscription_id a'.paddle_subscription_id

updated-Sets : {A : Type 0} (o : Option A) (old : A) → Sets o old (updated o old)
updated-Sets none old = refl
updated-Sets (some v) old = refl

pub apply_fields-IsUpdated : (f : Fields) (a : Account) → IsUpdated f a (apply_fields f a)
unfolding apply_fields
apply_fields-IsUpdated f a = record {
  email = refl;
  plan_name = updated-Sets f.plan_name _;
  subscription_status = updated-Sets f.subscription_status _;
  billing_interval = updated-Sets f.billing_interval _;
  current_period_end = updated-Sets f.current_period_end _;
  pending_plan = updated-Sets f.pending_plan _;
  pending_interval = updated-Sets f.pending_interval _;
  pending_effective_at = updated-Sets f.pending_effective_at _;
  stripe_customer_id = updated-Sets f.stripe_customer_id _;
  stripe_subscription_id = updated-Sets f.stripe_subscription_id _;
  paddle_customer_id = updated-Sets f.paddle_customer_id _;
  paddle_subscription_id = updated-Sets f.paddle_subscription_id _;
}

-- An active workspace that has an active owner with the address.
abbrev pub is_owned : List User → Text → Tenant → Bool
is_owned users email t =
    t.is_active
    && any (λ u. is_in u.tenant_id t.id && is_owner u.role && u.is_active && eq_text u.email email)
        users

-- Every active workspace that the account owns shows the account's billing.
abbrev pub InSync : Db → Text → Type 0
InSync db email =
    All (λ t. is_owned db.users email t ≡ true → Shows (get_account db email).billing t) db.tenants

-- No workspace has two owners.
abbrev pub OneOwner : Db → Text → Text → Type 0
OneOwner db e e' =
    All (λ t. is_owned db.users e t ≡ true → is_owned db.users e' t ≡ false) db.tenants

-- The workspaces that the account does not own.
abbrev pub foreign : List User → Text → List Tenant → List Tenant
foreign users email ts = keep (λ t. not (is_owned users email t)) ts

module _ (users : List User) (email : Text) (b : Billing) where
  mirror_row-Shows :
      (t : Tenant)
      → owned_by users email (mirror_row users email b t) ≡ true
      → Shows b (mirror_row users email b t)
  unfolding mirror_row
  mirror_row-Shows t h = elim (Bool-cases (owned_by users email t)) [
    | inl e ↦ rw e (mirrored-Shows b t)
    | inr e ↦ ground arith
  ]

  pub map-Shows :
      (ts : List Tenant)
      → All (λ t. owned_by users email t ≡ true → Shows b t) (map (mirror_row users email b) ts)
  map-Shows [] = tt
  map-Shows (t ∷ ts) = (mirror_row-Shows t, map-Shows ts)

  owned_by-mirror_row :
      (other : Text) (t : Tenant)
      → owned_by users other (mirror_row users email b t) ≡ owned_by users other t
  unfolding mirror_row
  owned_by-mirror_row other t = elim (Bool-cases (owned_by users email t)) [
    | inl e ↦ rw e refl
    | inr e ↦ rw e refl
  ]

  mirror_row-same : (t : Tenant) → owned_by users email t ≡ false → mirror_row users email b t ≡ t
  unfolding mirror_row
  mirror_row-same t e = rw e refl

  -- The rows of the other workspaces stay.
  keep-mirror_row :
      (ts : List Tenant)
      → keep (λ t. not (owned_by users email t)) (map (mirror_row users email b) ts)
        ≡ keep (λ t. not (owned_by users email t)) ts
  keep-mirror_row [] = refl
  keep-mirror_row (t ∷ ts) = elim (Bool-cases (owned_by users email t)) [
    | inl e ↦ rw (owned_by-mirror_row email t ∙ e, e) (keep-mirror_row ts)
    | inr e ↦ rw (mirror_row-same t e, e, keep-mirror_row ts) refl
  ]

  pub foreign-map :
      (ts : List Tenant)
      → foreign users email (map (mirror_row users email b) ts) ≡ foreign users email ts
  unfolding owned_by
  foreign-map ts = keep-mirror_row ts

  mirror_row-others :
      (other : Text) (c : Billing) (t : Tenant)
      → (owned_by users other t ≡ true → owned_by users email t ≡ false)
      → (owned_by users other t ≡ true → Shows c t)
      → owned_by users other (mirror_row users email b t) ≡ true
      → Shows c (mirror_row users email b t)
  unfolding mirror_row
  mirror_row-others other c t o p h =
      let own = sym (owned_by-mirror_row other t) ∙ h in rw (o own) (p own)

  -- Where the account is no owner the row stays as it is.
  pub map-others :
      (other : Text) (c : Billing) (ts : List Tenant)
      → All (λ t. owned_by users other t ≡ true → owned_by users email t ≡ false) ts
      → All (λ t. owned_by users other t ≡ true → Shows c t) ts
      → All (λ t. owned_by users other t ≡ true → Shows c t) (map (mirror_row users email b) ts)
  map-others other c [] one h = tt
  map-others other c (t ∷ ts) (o, one) (p, h) =
      (mirror_row-others other c t o p, map-others other c ts one h)
