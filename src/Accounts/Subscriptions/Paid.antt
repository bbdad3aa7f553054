-- ===== src/Accounts/Subscriptions/Paid.antt =====
-- Reconciling an account with Stripe in src/common/accountBilling.js: the plan that is paid for.
use mathlib.Core.Path.{subst}
use feedbase_backend.Base.{
  ℕ, ◌≡◌, inl, inr, refl, sym, ap, ◌∙◌, Bool, true, false, List, [], some, is_some, get_or,
  Bool-cases, if◌then◌else◌, ◌⊎◌, Option, none, All, ◌||◌, arith,
}
use feedbase_backend.Text.{Text, codes, eq_text, is_empty}
use feedbase_backend.Plans.{PriceIds, key, free, is_id, plan_by_price_id}
use feedbase_backend.Plans.Laws.{is_id_iff}
use feedbase_backend.Tables.{Db}
use feedbase_backend.Accounts.{
  get_account, Fields, free_fields, or_null, Query, Outcome, set_account_plan,
  reset_account_to_free,
}
use feedbase_backend.Accounts.Shown.{Sets}
use feedbase_backend.Accounts.Mirror.{set_account_plan_lem}
use feedbase_backend.Accounts.Subscriptions.{
  Failures, stop_if, Subscription, is_due, is_paid, is_ended, plan_name_of, subscription_fields,
  apply_account_subscription, choose, and_then, pending_cleared, clear_pending, settle_subscription,
  reconcile_account,
}
use feedbase_backend.Accounts.Subscriptions.Reconciled.{IsOwn, known, apply-own, choose-All}
use feedbase_backend.Accounts.Subscriptions.Newest.{
  IsLive, IsNewestPaid, IsLive-is_paid, IsLive-is_ended, choose-newest, choose-unpaid,
}

abbrev plan_in : Text → Db → Text
plan_in email db = (get_account db email).billing.plan_name

set-plan :
    (fails : Query → Bool) (email : Text) (f : Fields) (db : Db)
    → (set_account_plan fails email f db).1 ≡ true
    → Sets f.plan_name (plan_in email db) (plan_in email (set_account_plan fails email f db).0)
set-plan fails email f db h = elim (set_account_plan_lem fails email f db) [
  | inl (e, same) ↦ cc
  | inr (e, same, _, _, _) ↦ same.plan_name
]

clear-plan :
    (fails : Failures) (email : Text) (has_schedule : Bool) (db : Db)
    → (clear_pending fails email has_schedule db).1 ≡ true
    → plan_in email (clear_pending fails email has_schedule db).0 ≡ plan_in email db
unfolding clear_pending
clear-plan fails email has_schedule db =
    let b = (get_account db email).billing in
    elim (Bool-cases (is_due (or_null b.pending_plan) b.plan_name has_schedule)) [
      | inl e ↦ rw e (
          stop_if-plan fails.reread email db _
            (λ h. set-plan fails.clear email pending_cleared db h))
      | inr e ↦ rw e (stop_if-plan fails.reread email db (db, true) (λ h. refl))
    ]
  where
    stop_if-plan :
        (b : Bool) (email : Text) (db : Db) (o : Outcome)
        → (o.1 ≡ true → plan_in email o.0 ≡ plan_in email db)
        → (stop_if b db o).1 ≡ true
        → plan_in email (stop_if b db o).0 ≡ plan_in email db
    stop_if-plan true email db o h i = cc
    stop_if-plan false email db o h i = h i

and_then-ok :
    (o : Outcome) (f : Db → Outcome)
    → (and_then o f).1 ≡ true
    → (o.1 ≡ true) × (and_then o f ≡ f o.0)
unfolding and_then
and_then-ok (db, true) f h = (refl, refl)
and_then-ok (db, false) f h = cc

-- The plan that a subscription gives.
abbrev plan_paid : PriceIds → Subscription → Text
plan_paid prices c = if is_ended c then key free else plan_name_of prices c

either-plan :
    (b : Bool) (email : Text) (x y : Outcome) (p q : Text)
    → (x.1 ≡ true → plan_in email x.0 ≡ p)
    → (y.1 ≡ true → plan_in email y.0 ≡ q)
    → (if b then x else y).1 ≡ true
    → plan_in email (if b then x else y).0 ≡ (if b then p else q)
either-plan true email x y p q f g h = f h
either-plan false email x y p q f g h = g h

settle-plan :
    (fails : Failures) (prices : PriceIds) (email : Text) (c : Subscription) (db : Db)
    → IsOwn email c
    → (settle_subscription fails prices email (some c) db).1 ≡ true
    → plan_in email (settle_subscription fails prices email (some c) db).0 ≡ plan_paid prices c
unfolding settle_subscription reset_account_to_free subscription_fields plan_name_of is_paid
settle-plan fails prices email c db own h =
    let applied = apply-own fails.write prices (known email c) email db (ap some own) in
    let o : Outcome =
      if is_ended c
      then set_account_plan fails.write email (free_fields (some c.status)) db
      else apply_account_subscription fails.write prices (known email c) db in
    let (returned, same) = and_then-ok o (clear_pending fails email c.has_schedule) h in
    let cleared : plan_in email (clear_pending fails email c.has_schedule o.0).0
        ≡ plan_in email o.0 =
      clear-plan fails email c.has_schedule o.0 (ap (λ (x : Outcome). x.1) (sym same) ∙ h) in
    let first_step : plan_in email o.0 ≡ (if is_ended c then key free else plan_name_of prices c) =
      either-plan (is_ended c) email _ _ (key free) (plan_name_of prices c)
        (λ r. set-plan fails.write email (free_fields (some c.status)) db r)
        (subst (λ (x : Outcome). x.1 ≡ true → plan_in email x.0 ≡ plan_name_of prices c)
          (sym applied)
          (λ r. set-plan fails.write email (subscription_fields prices (known email c)) db r))
        returned in
    ap (λ (x : Outcome). plan_in email x.0) same ∙ cleared ∙ first_step

-- The two prices of a plan.
abbrev pub IsPro : PriceIds → Text → Type 0
IsPro prices id = (prices.pro_monthly ≡ some id) ⊎ (prices.pro_yearly ≡ some id)

abbrev pub IsBusiness : PriceIds → Text → Type 0
IsBusiness prices id = (prices.business_monthly ≡ some id) ⊎ (prices.business_yearly ≡ some id)

-- The plan that a price stands for: free, where it is the price of none.
abbrev pub IsPriced : PriceIds → Option Text → Text → Type 0
IsPriced prices none plan = plan ≡ codes "free"
IsPriced prices (some id) plan =
    (IsPro prices id × (plan ≡ codes "pro"))
    ⊎ (¬ IsPro prices id × IsBusiness prices id × (plan ≡ codes "business"))
    ⊎ (¬ IsPro prices id × ¬ IsBusiness prices id × (plan ≡ codes "free"))

-- The plan of the subscription that is paid for, and free where there is none.
abbrev pub IsDue : PriceIds → Option Subscription → Text → Type 0
IsDue prices none plan = plan ≡ codes "free"
IsDue prices (some c) plan = IsPriced prices c.price_id plan

is_id-either :
    (a b : Option Text) (id : Text)
    → (((is_id a id || is_id b id) ≡ true) → (a ≡ some id) ⊎ (b ≡ some id))
      × (((is_id a id || is_id b id) ≡ false) → ¬ ((a ≡ some id) ⊎ (b ≡ some id)))
is_id-either a b id = (
  λ h. elim (Bool-cases (is_id a id)) [
    | inl e ↦ inl ((is_id_iff a id).0 e)
    | inr e ↦ inr ((is_id_iff b id).0 (ground (arith, h, e)))
  ],
  λ h k. elim k [
    | inl e ↦ ground (arith, h, (is_id_iff a id).1 e)
    | inr e ↦ ground (arith, h, (is_id_iff b id).1 e)
  ],
)

plan_by_price_id-IsPriced :
    (prices : PriceIds) (o : Option Text)
    → IsPriced prices o (elim (plan_by_price_id prices o) [ none ↦ key free | some p ↦ key p ])
unfolding plan_by_price_id
plan_by_price_id-IsPriced prices none = refl
plan_by_price_id-IsPriced prices (some id) =
    let p = is_id-either prices.pro_monthly prices.pro_yearly id in
    let b = is_id-either prices.business_monthly prices.business_yearly id in
    elim (Bool-cases (is_id prices.pro_monthly id || is_id prices.pro_yearly id)) [
      | inl e ↦ rw e (inl (p.0 e, refl))
      | inr e ↦
          elim (Bool-cases (is_id prices.business_monthly id || is_id prices.business_yearly id)) [
            | inl f ↦ rw (e, f) (inr (inl (p.1 e, b.0 f, refl)))
            | inr f ↦ rw (e, f) (inr (inr (p.1 e, b.1 f, refl)))
          ]
    ]

paid-IsPriced :
    (prices : PriceIds) (c : Subscription)
    → IsLive c
    → IsPriced prices c.price_id (plan_paid prices c)
unfolding plan_name_of
paid-IsPriced prices c live =
    rw (IsLive-is_ended c live, IsLive-is_paid c live) (plan_by_price_id-IsPriced prices c.price_id)

unpaid-free :
    (prices : PriceIds) (c : Subscription) → is_paid c ≡ false → plan_paid prices c ≡ codes "free"
unfolding plan_name_of
unpaid-free prices c p = elim (Bool-cases (is_ended c)) [
  | inl e ↦ rw e refl
  | inr e ↦ rw (e, p) refl
]

-- What is chosen gives the plan that is due.
chosen-IsDue :
    (fails : Failures) (prices : PriceIds) (email : Text) (subs : List Subscription)
    (due chosen : Option Subscription) (db : Db)
    → choose subs ≡ chosen
    → IsNewestPaid subs due
    → All (IsOwn email) subs
    → (settle_subscription fails prices email chosen db).1 ≡ true
    → IsDue prices due (plan_in email (settle_subscription fails prices email chosen db).0)
unfolding settle_subscription reset_account_to_free
chosen-IsDue fails prices email subs (some c) chosen db h newest own r =
    let found = choose-newest subs c newest in
    let same : chosen ≡ some c = sym h ∙ found in
    let mine = choose-All (IsOwn email) subs c own found in
    subst
      (λ o.
        (settle_subscription fails prices email o db).1 ≡ true
        → IsDue prices (some c) (plan_in email (settle_subscription fails prices email o db).0))
      (sym same)
      (λ k.
        subst (IsPriced prices c.price_id) (sym (settle-plan fails prices email c db mine k))
          (paid-IsPriced prices c newest.3))
      r
chosen-IsDue fails prices email subs none none db h newest own r =
    set-plan fails.write email (free_fields none) db r
chosen-IsDue fails prices email subs none (some c) db h newest own r =
    let mine = choose-All (IsOwn email) subs c own h in
    let unpaid = choose-All (λ s. is_paid s ≡ false) subs c (choose-unpaid subs newest) h in
    settle-plan fails prices email c db mine r ∙ unpaid-free prices c unpaid

-- Where an account that is no comp is a customer of the provider, which lists subscriptions that name
-- no other account, and the call returns, then the account has the plan of the price of the newest
-- listed subscription that is paid for, and the free plan where none is or its price is of no plan.
pub reconcile_account-plan :
    (fails : Failures) (prices : PriceIds) (now : ℕ) (email : Text) (subs : List Subscription)
    (due : Option Subscription) (db : Db)
    → is_empty email ≡ false
    → eq_text (get_or (get_account db email).billing.subscription_status []) (codes "comped")
      ≡ false
    → is_some (or_null (get_account db email).stripe_customer_id) ≡ true
    → IsNewestPaid subs due
    → All (IsOwn email) subs
    → (reconcile_account fails prices now email (some subs) db).1 ≡ true
    → IsDue prices due
        (get_account
          (reconcile_account fails prices now email (some subs) db).0
          email).billing.plan_name
unfolding reconcile_account
reconcile_account-plan fails prices now email subs due db e k n newest own =
    rw (e, k, n)
      (stop_if-IsDue fails.read prices email due db _
        (chosen-IsDue fails prices email subs due (choose subs) db refl newest own))
  where
    stop_if-IsDue :
        (b : Bool) (prices : PriceIds) (email : Text) (due : Option Subscription) (db : Db)
        (o : Outcome)
        → (o.1 ≡ true → IsDue prices due (plan_in email o.0))
        → (stop_if b db o).1 ≡ true
        → IsDue prices due (plan_in email (stop_if b db o).0)
    stop_if-IsDue true prices email due db o h i = cc
    stop_if-IsDue false prices email due db o h i = h i
