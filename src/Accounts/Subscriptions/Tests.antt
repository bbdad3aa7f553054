-- ===== src/Accounts/Subscriptions/Tests.antt =====
-- Reconciling at concrete inputs.
use feedbase_backend.Base.{◌≡◌, inl, arith, refl, true, false, List, [], ◌∷◌, none, some}
use feedbase_backend.Text.{codes, eq_text}
use feedbase_backend.Plans.{PriceIds, month, plan_by_price_id}
use feedbase_backend.Tables.{Db}
use feedbase_backend.Accounts.{
  get_account, find_account, new_account, set_account_plan, insert_account, update_account,
  apply_fields, mirror_account_to_tenants,
}
use feedbase_backend.Accounts.Shown.{InSync}
use feedbase_backend.Accounts.Subscriptions.{
  Failures, Subscription, is_paid, is_ended, plan_name_of, subscription_fields, choose,
  newest_first, insert_newest, and_then, clear_pending, settle_subscription, reconcile_account,
  apply_account_subscription, account_of,
}
use feedbase_backend.Accounts.Subscriptions.Reconciled.{reconcile_account-InSync}
use feedbase_backend.Accounts.Subscriptions.Newest.{IsNewestPaid, IsLive-is_paid}
use feedbase_backend.Accounts.Subscriptions.Paid.{IsPriced, reconcile_account-plan}

abbrev prices : PriceIds
prices = record {
  pro_monthly = some (codes "p1");
  pro_yearly = none;
  business_monthly = none;
  business_yearly = none;
}

abbrev paid : Subscription
paid = record {
  id = codes "s1";
  status = codes "active";
  price_id = some (codes "p1");
  interval = month;
  customer = some (codes "c1");
  account_email = none;
  tenant_id = none;
  current_period_end = some 90;
  created = 5;
  has_schedule = false;
}

-- A newer one that has ended does not count beside a paid one.
abbrev listed : List Subscription
listed = record paid { id = codes "s2"; status = codes "canceled"; created = 7 } ∷ paid ∷ []

abbrev db : Db
db = record {
  tenants = [];
  users = [];
  accounts = record (new_account (codes "ann")) { stripe_customer_id = some (codes "c1") } ∷ [];
}

choose_test : choose listed ≡ some paid
unfolding choose newest_first insert_newest is_paid eq_text
choose_test = refl

abbrev no_failure : Failures
no_failure = record {
  read = false;
  mirror = false;
  write = λ q. false;
  reread = false;
  clear = λ q. false;
}

reconcile_test : (reconcile_account no_failure prices 9 (codes "ann") (some listed) db).1 ≡ true
unfolding reconcile_account settle_subscription choose newest_first insert_newest is_paid is_ended
    eq_text get_account find_account and_then clear_pending apply_account_subscription account_of
    set_account_plan mirror_account_to_tenants update_account insert_account apply_fields
    subscription_fields plan_name_of plan_by_price_id
reconcile_test = refl

listed-IsNewestPaid : IsNewestPaid listed (some paid)
unfolding is_paid eq_text
listed-IsNewestPaid = (
  record paid { id = codes "s2"; status = codes "canceled"; created = 7 } ∷ [],
  [],
  refl,
  inl refl,
  (
    (λ live. ground (
      arith,
      IsLive-is_paid (record paid { id = codes "s2"; status = codes "canceled"; created = 7 }) live,
    )),
    tt,
  ),
  tt,
)

reconcile_account-plan_example :
    IsPriced prices
      (some (codes "p1"))
      (get_account
        (reconcile_account no_failure prices 9 (codes "ann") (some listed) db).0
        (codes "ann")).billing.plan_name
unfolding get_account find_account eq_text
reconcile_account-plan_example =
    reconcile_account-plan no_failure prices 9 (codes "ann") listed (some paid) db refl refl refl
      listed-IsNewestPaid (refl, (refl, tt)) reconcile_test

reconcile_account-InSync_example :
    InSync (reconcile_account no_failure prices 9 (codes "ann") (some listed) db).0 (codes "ann")
reconcile_account-InSync_example =
    reconcile_account-InSync no_failure prices 9 (codes "ann") (some listed) db (refl, (refl, tt))
      (inl tt)
