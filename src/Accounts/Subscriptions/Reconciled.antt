-- ===== src/Accounts/Subscriptions/Reconciled.antt =====
-- Reconciling an account with Stripe in src/common/accountBilling.js: the mirror stays in step.
use mathlib.Core.Path.{subst}
use feedbase_backend.Base.{
  ℕ, ◌≡◌, inl, inr, refl, sym, ap, Bool, true, false, List, [], ◌∷◌, Option, none, some, arith, All,
  is_some, get_or, Bool-cases, Option-cases, if◌then◌else◌, find, head?, leb, ◌⊎◌, not, ◌&&◌, ◌||◌,
}
use feedbase_backend.Base.Counts.{find-All}
use feedbase_backend.Text.{Text, codes, eq_text, is_empty}
use feedbase_backend.Plans.{PriceIds}
use feedbase_backend.Tables.{Account, Db}
use feedbase_backend.Accounts.{
  get_account, Fields, no_fields, free_fields, or_null, Query, Outcome, set_account_plan,
  reset_account_to_free,
}
use feedbase_backend.Accounts.Shown.{InSync}
use feedbase_backend.Accounts.Mirror.{mirror-InSync, set_account_plan_lem}
use feedbase_backend.Accounts.Subscriptions.{
  Failures, Subscription, stop_if, or_else, tenant_email, customer_email, apply_to, is_due, is_past,
  settle_listed, is_paid, is_ended, subscription_fields, account_of, apply_account_subscription,
  insert_newest, newest_first, choose, and_then, pending_cleared, clear_pending,
  settle_subscription, reconcile_account,
}

-- The subscription names the account, or none.
abbrev pub IsOwn : Text → Subscription → Type 0
IsOwn email s = get_or (or_null s.account_email) email ≡ email

-- What a call leaves is in step, if the database was or the call returned.
abbrev Heals : Text → Db → Outcome → Type 0
Heals email db o = InSync db email ⊎ (o.1 ≡ true) → InSync o.0 email

set-Heals :
    (fails : Query → Bool) (email : Text) (f : Fields) (db : Db)
    → Heals email db (set_account_plan fails email f db)
set-Heals fails email f db (inl h) = elim (set_account_plan_lem fails email f db) [
  | inl (e, same) ↦ subst (λ d. InSync d email) (sym same) h
  | inr (e, same, sync, _, _) ↦ sync
]
set-Heals fails email f db (inr h) = elim (set_account_plan_lem fails email f db) [
  | inl (e, same) ↦ ground (arith, e, h)
  | inr (e, same, sync, _, _) ↦ sync
]

and_then-Heals :
    (email : Text) (db : Db) (o : Outcome) (f : Db → Outcome)
    → Heals email db o
    → ((d : Db) → InSync d email → InSync (f d).0 email)
    → Heals email db (and_then o f)
unfolding and_then
and_then-Heals email db (d, true) f h k i = k d (h (inr refl))
and_then-Heals email db (d, false) f h k i = h i

stop_if-Heals :
    (b : Bool) (email : Text) (db : Db) (o : Outcome)
    → Heals email db o
    → Heals email db (stop_if b db o)
stop_if-Heals true email db o h (inl i) = i
stop_if-Heals true email db o h (inr i) = cc
stop_if-Heals false email db o h i = h i

clear-InSync :
    (fails : Failures) (email : Text) (has_schedule : Bool) (db : Db)
    → InSync db email
    → InSync (clear_pending fails email has_schedule db).0 email
unfolding clear_pending
clear-InSync fails email has_schedule db h =
    let b = (get_account db email).billing in
    let cleared : Heals email db (
        if is_due (or_null b.pending_plan) b.plan_name has_schedule
        then set_account_plan fails.clear email pending_cleared db
        else (db, true)) =
      elim (Bool-cases (is_due (or_null b.pending_plan) b.plan_name has_schedule)) [
        | inl e ↦ rw e (set-Heals fails.clear email pending_cleared db)
        | inr e ↦ rw e (λ i. h)
      ] in
    stop_if-Heals fails.reread email db _ cleared (inl h)

pub apply-own :
    (fails : Query → Bool) (prices : PriceIds) (s : Subscription) (email : Text) (db : Db)
    → s.account_email ≡ some email
    → apply_account_subscription fails prices s db
      ≡ set_account_plan fails email (subscription_fields prices s) db
unfolding apply_account_subscription account_of
apply-own fails prices s email db h =
    ap
      (λ o.
        apply_to fails prices s
          (or_else o
            (or_else (tenant_email s.tenant_id db.users) (customer_email s.customer db.accounts)))
          db)
      h

-- The subscription as it is applied.
abbrev pub known : Text → Subscription → Subscription
known email c = record c { account_email = some (get_or (or_null c.account_email) email) }

settle-Heals :
    (fails : Failures) (prices : PriceIds) (email : Text) (chosen : Option Subscription) (db : Db)
    → ((c : Subscription) → chosen ≡ some c → IsOwn email c)
    → Heals email db (settle_subscription fails prices email chosen db)
unfolding settle_subscription reset_account_to_free
settle-Heals fails prices email none db own = set-Heals fails.write email (free_fields none) db
settle-Heals fails prices email (some c) db own =
    let applied = apply-own fails.write prices (known email c) email db (ap some (own c refl)) in
    let first_step : Heals email db (
        if is_ended c
        then set_account_plan fails.write email (free_fields (some c.status)) db
        else apply_account_subscription fails.write prices (known email c) db) =
      elim (Bool-cases (is_ended c)) [
        | inl e ↦ rw e (set-Heals fails.write email (free_fields (some c.status)) db)
        | inr e ↦
            rw (e, applied)
              (set-Heals fails.write email (subscription_fields prices (known email c)) db)
      ] in
    and_then-Heals email db _ (clear_pending fails email c.has_schedule) first_step
      (clear-InSync fails email c.has_schedule)

pub insert-All :
    (P : Subscription → Type 0) (s : Subscription) (ts : List Subscription)
    → P s
    → All P ts
    → All P (insert_newest s ts)
unfolding insert_newest
insert-All P s [] p h = (p, tt)
insert-All P s (t ∷ ts) p (a, h) = elim (Bool-cases (leb t.created s.created)) [
  | inl e ↦ rw e (p, (a, h))
  | inr e ↦ rw e (a, insert-All P s ts p h)
]

pub newest-All :
    (P : Subscription → Type 0) (ss : List Subscription) → All P ss → All P (newest_first ss)
unfolding newest_first
newest-All P [] h = tt
newest-All P (s ∷ ss) (a, h) = insert-All P s (newest_first ss) a (newest-All P ss h)

head-All :
    (P : Subscription → Type 0) (ss : List Subscription) (s : Subscription)
    → All P ss
    → head? ss ≡ some s
    → P s
head-All P [] s h e = ground arith
head-All P (t ∷ ts) s (a, h) e = let same : t ≡ s = ground (arith, e) in subst P same a

pub choose-All :
    (P : Subscription → Type 0) (ss : List Subscription) (c : Subscription)
    → All P ss
    → choose ss ≡ some c
    → P c
unfolding choose
choose-All P ss c h e =
    let ranked = newest-All P ss h in
    elim (Option-cases (find is_paid (newest_first ss))) [
      | inl n ↦ head-All P (newest_first ss) c ranked (ground (arith, e, n))
      | inr (d, f) ↦ find-All P is_paid (newest_first ss) c ranked (ground (arith, e, f))
    ]

abbrev pub AreOwn : Text → Option (List Subscription) → Type 0
AreOwn email none = Unit
AreOwn email (some subs) = All (IsOwn email) subs

listed-Heals :
    (fails : Failures) (prices : PriceIds) (email : Text) (listed : Option (List Subscription))
    (db : Db)
    → AreOwn email listed
    → Heals email db (settle_listed fails prices email listed db)
listed-Heals fails prices email none db own = λ h. elim h [ inl i ↦ i | inr i ↦ cc ]
listed-Heals fails prices email (some subs) db own =
    settle-Heals fails prices email (choose subs) db (λ c e. choose-All (IsOwn email) subs c own e)

-- An account that reconciling looks after: a comp, or a customer of the provider.
abbrev pub is_followed : Text → Account → Bool
is_followed email a =
    not (is_empty email)
    && (eq_text (get_or a.billing.subscription_status []) (codes "comped")
        || is_some (or_null a.stripe_customer_id))

-- Reconciling an account with its provider, whatever the provider lists and whatever fails on the way,
-- leaves every active workspace that the account owns showing the account's billing, column by
-- column, if it did before, or if the account is a comp or a customer and the call returned; where no
-- listed subscription names another account.
pub reconcile_account-InSync :
    (fails : Failures) (prices : PriceIds) (now : ℕ) (email : Text)
    (listed : Option (List Subscription)) (db : Db)
    → AreOwn email listed
    → InSync db email
      ⊎ ((is_followed email (get_account db email)
            && (reconcile_account fails prices now email listed db).1)
          ≡ true)
    → InSync (reconcile_account fails prices now email listed db).0 email
unfolding reconcile_account reset_account_to_free
reconcile_account-InSync fails prices now email listed db own =
    let account = get_account db email in
    let comped = eq_text (get_or account.billing.subscription_status []) (codes "comped") in
    elim (Bool-cases (is_empty email)) [
      | inl e ↦ rw e (λ h. elim h [ inl i ↦ i | inr i ↦ cc ])
      | inr e ↦ elim (Bool-cases comped) [
        | inl k ↦ elim (Bool-cases (is_past now account.billing.current_period_end)) [
          | inl p ↦
              rw (e, k, p)
                (stop_if-Heals fails.read email db _
                  (set-Heals fails.write email (free_fields none) db))
          | inr p ↦
              rw (e, k, p)
                (stop_if-Heals fails.read email db _ (
                  stop_if-Heals fails.mirror email db _
                    (λ h. mirror-InSync (λ q. false) email no_fields db db)))
        ]
        | inr k ↦ elim (Bool-cases (is_some (or_null account.stripe_customer_id))) [
          | inl c ↦
              rw (e, k, c)
                (stop_if-Heals fails.read email db _
                  (listed-Heals fails prices email listed db own))
          | inr c ↦
              rw (e, k, c)
                (λ h. elim h [
                  | inl i ↦ stop_if-Heals fails.read email db (db, true) (λ x. i) (inl i)
                  | inr i ↦ cc
                ])
        ]
      ]
    ]
