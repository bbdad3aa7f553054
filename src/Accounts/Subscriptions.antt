-- ===== src/Accounts/Subscriptions.antt =====
-- The subscriptions of Stripe in src/common/accountBilling.js: `applyAccountSubscription`, and
-- `reconcileAccount` where Stripe is the provider. What `subscriptions.list` gives is an argument; a
-- missing text and an empty one are both falsy, and `none` stands for them.
mod Reconciled
mod Newest
mod Paid
mod Tests
use feedbase_backend.Base.{
  ℕ, zero, suc, ◌+◌, ◌-◌, ◌*◌, ◌≤◌, ◌<◌, ◌≡◌, ◌≢◌, ◌↔◌, ◌⊎◌, inl, inr, refl, sym, ap, ◌∙◌, Bool,
  true, false, not, ◌&&◌, ◌||◌, List, [], ◌∷◌, ◌++◌, map, Option, none, some, arith, All, is_some,
  get_or, Bool-cases, Option-cases, if◌then◌else◌, take, length, any, keep, find, count, head?, ltb,
  leb, ◌==◌, count-append, count-any, count-keep-le, length-keep-le, length-take-le, ==_iff,
  ==_refl,
}
use feedbase_backend.Text.{Text, codes, eq_text, is_empty}
use feedbase_backend.Plans.{Plan, Interval, PriceIds, key, free, plan_by_price_id}
use feedbase_backend.Tables.{Role, is_owner, User, Account, Db, is_in}
use feedbase_backend.Accounts.{
  get_account, mirror_account_to_tenants, Fields, no_fields, or_null, Query, Outcome,
  set_account_plan, reset_account_to_free,
}

pub record Subscription : Type 0 where
  pub id : Text
  pub status : Text
  pub price_id : Option Text
  pub interval : Interval
  pub customer : Option Text
  pub account_email : Option Text
  pub tenant_id : Option ℕ
  pub current_period_end : Option ℕ
  pub created : ℕ
  pub has_schedule : Bool

abbrev pub live_statuses : List Text
live_statuses = codes "active" ∷ codes "trialing" ∷ codes "past_due" ∷ []

abbrev pub ended_statuses : List Text
ended_statuses = codes "canceled" ∷ codes "incomplete_expired" ∷ []

unfoldable pub is_paid : Subscription → Bool
is_paid s = any (eq_text s.status) live_statuses

unfoldable pub is_ended : Subscription → Bool
is_ended s = any (eq_text s.status) ended_statuses

-- `planName`
unfoldable pub plan_name_of : PriceIds → Subscription → Text
plan_name_of prices s =
    if is_paid s
    then elim (plan_by_price_id prices s.price_id) [ none ↦ key free | some p ↦ key p ]
    else key free

unfoldable pub subscription_fields : PriceIds → Subscription → Fields
subscription_fields prices s = record no_fields {
  plan_name = some (plan_name_of prices s);
  subscription_status = some (some s.status);
  billing_interval = some (if is_paid s then some s.interval else none);
  stripe_customer_id = some s.customer;
  stripe_subscription_id = some (some s.id);
  current_period_end = some (if is_paid s then s.current_period_end else none);
}

-- `ownerEmailOfTenant`
unfoldable pub owner_email_of_tenant : ℕ → List User → Option Text
owner_email_of_tenant tenant users =
    elim (find (λ u. is_in u.tenant_id tenant && is_owner u.role && u.is_active) users) [
      | none ↦ none
      | some u ↦ some u.email
    ]

abbrev is_customer : Text → Account → Bool
is_customer id a = elim a.stripe_customer_id [ none ↦ false | some c ↦ eq_text c id ]

abbrev pub or_else : Option Text → Option Text → Option Text
or_else none o = o
or_else (some a) o = some a

abbrev pub customer_email : Option Text → List Account → Option Text
customer_email none accounts = none
customer_email (some id) accounts = elim (find (is_customer id) accounts) [
  | none ↦ none
  | some a ↦ some a.email
]

abbrev pub tenant_email : Option ℕ → List User → Option Text
tenant_email none users = none
tenant_email (some t) users = owner_email_of_tenant t users

-- The account that a subscription belongs to.
unfoldable pub account_of : Subscription → Db → Option Text
account_of s db =
    or_else s.account_email
      (or_else (tenant_email s.tenant_id db.users) (customer_email s.customer db.accounts))

abbrev pub apply_to : (Query → Bool) → PriceIds → Subscription → Option Text → Db → Outcome
apply_to fails prices s none db = (db, true)
apply_to fails prices s (some email) db =
    set_account_plan fails email (subscription_fields prices s) db

-- `applyAccountSubscription`
unfoldable pub apply_account_subscription : (Query → Bool) → PriceIds → Subscription → Db → Outcome
apply_account_subscription fails prices s db = apply_to fails prices s (account_of s db) db

-- Newest first, and those of one instant in their order.
unfoldable pub insert_newest : Subscription → List Subscription → List Subscription
insert_newest s [] = s ∷ []
insert_newest s (t ∷ ts) =
    let rest = insert_newest s ts in if leb t.created s.created then s ∷ t ∷ ts else t ∷ rest

unfoldable pub newest_first : List Subscription → List Subscription
newest_first [] = []
newest_first (s ∷ ss) = insert_newest s (newest_first ss)

-- The newest that is paid, else the newest.
unfoldable pub choose : List Subscription → Option Subscription
choose subs =
    let ranked = newest_first subs in
    elim (find is_paid ranked) [ none ↦ head? ranked | some s ↦ some s ]

-- Go on where the last call returned.
unfoldable pub and_then : Outcome → (Db → Outcome) → Outcome
and_then (db, true) f = f db
and_then (db, false) f = (db, false)

abbrev pub pending_cleared : Fields
pending_cleared = record no_fields {
  pending_plan = some none;
  pending_interval = some none;
  pending_effective_at = some none;
}

abbrev pub is_due : Option Text → Text → Bool → Bool
is_due none plan has_schedule = false
is_due (some p) plan has_schedule = eq_text plan p || not has_schedule

-- Which queries of a reconciliation fail: the first look at the account, the mirroring of a comp, the
-- write of the plan, the second look, and the write that clears what is pending.
pub record Failures : Type 0 where
  pub read : Bool
  pub mirror : Bool
  pub write : Query → Bool
  pub reread : Bool
  pub clear : Query → Bool

-- A query that fails ends the call.
abbrev pub stop_if : Bool → Db → Outcome → Outcome
stop_if true db rest = (db, false)
stop_if false db rest = rest

-- A downgrade that has taken effect is no longer pending.
unfoldable pub clear_pending : Failures → Text → Bool → Db → Outcome
clear_pending fails email has_schedule db =
    let b = (get_account db email).billing in
    stop_if fails.reread db (
      if is_due (or_null b.pending_plan) b.plan_name has_schedule
      then set_account_plan fails.clear email pending_cleared db
      else (db, true))

abbrev pub is_past : ℕ → Option ℕ → Bool
is_past now none = false
is_past now (some end) = ltb end now

-- What follows for the subscription that was chosen.
unfoldable pub settle_subscription : Failures → PriceIds → Text → Option Subscription → Db → Outcome
settle_subscription fails prices email none db = reset_account_to_free fails.write email none db
settle_subscription fails prices email (some c) db =
    let known = record c { account_email = some (get_or (or_null c.account_email) email) } in
    and_then
      (if is_ended c
        then reset_account_to_free fails.write email (some c.status) db
        else apply_account_subscription fails.write prices known db)
      (clear_pending fails email c.has_schedule)

-- The list of the provider, `none` where the call fails.
abbrev pub settle_listed : Failures → PriceIds → Text → Option (List Subscription) → Db → Outcome
settle_listed fails prices email none db = (db, false)
settle_listed fails prices email (some subs) db =
    settle_subscription fails prices email (choose subs) db

-- `reconcileAccount`; a comp stays until it ends.
unfoldable pub reconcile_account :
    Failures → PriceIds → ℕ → Text → Option (List Subscription) → Db → Outcome
reconcile_account fails prices now email listed db =
    let account = get_account db email in
    if is_empty email
    then (db, true)
    else stop_if fails.read db (
        if eq_text (get_or account.billing.subscription_status []) (codes "comped")
        then if is_past now account.billing.current_period_end
          then reset_account_to_free fails.write email none db
          else stop_if fails.mirror db (mirror_account_to_tenants email db, true)
        else if is_some (or_null account.stripe_customer_id)
        then settle_listed fails prices email listed db
        else (db, true))
