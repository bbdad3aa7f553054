-- ===== src/Promo/Grants.antt =====
-- What redeeming a code does to the account (`src/main/billing/redeemPromo.js`).
use mathlib.Core.Path.{subst}
use feedbase_backend.Base.{
  ℕ, zero, suc, ◌+◌, ◌*◌, ◌≤◌, ◌≡◌, ◌≢◌, ◌⊎◌, inl, inr, refl, sym, ap, Bool, false, ◌&&◌, [],
  Option, none, some, arith, get_or, Bool-cases, any, find,
}
use feedbase_backend.Text.{Text, codes, trim, is_empty, eq_text}
use feedbase_backend.Tables.{Role, is_owner, Account, Db}
use feedbase_backend.Accounts.{Query, get_account}
use feedbase_backend.Accounts.Shown.{InSync, IsUpdated}
use feedbase_backend.Accounts.Mirror.{set_account_plan_lem}
use feedbase_backend.Promo.{
  Duration, once, repeating, forever, Promo, PromoType, free_plan, percent_off, Promos,
  PromoRefusal, PromoReply, plan_redeemed, is_of, pre_check, claim_redemption, release_redemption,
  period_end, comp_fields, grant, unless, honour, plan_of, until_of, redeem, redeem_row,
  redeem_promo,
}

-- When a grant ends: never, or after as many months of 30 days as the code says, one at least.
abbrev pub months : Option ℕ → ℕ
months none = 1
months (some zero) = 1
months (some (suc m)) = suc m

abbrev pub EndsAt : Duration → ℕ → Option ℕ → Option ℕ → Type 0
EndsAt forever now m end = end ≡ none
EndsAt once now m end = end ≡ some (now + months m * 2592000000)
EndsAt repeating now m end = end ≡ some (now + months m * 2592000000)

-- An account is a comp with the plan of a code, its former ids of customer kept and nothing pending.
pub record IsComp (now : ℕ) (p : Promo) (before after : Account) : Type 0 where
  pub plan : after.billing.plan_name ≡ get_or p.plan_grant []
  pub comped : after.billing.subscription_status ≡ some (codes "comped")
  pub no_interval : after.billing.billing_interval ≡ none
  pub ends : EndsAt p.duration now p.duration_months after.billing.current_period_end
  pub no_pending : after.billing.pending_plan ≡ none
  pub no_pending_interval : after.billing.pending_interval ≡ none
  pub no_pending_at : after.billing.pending_effective_at ≡ none
  pub no_stripe : after.stripe_subscription_id ≡ none
  pub no_paddle : after.paddle_subscription_id ≡ none
  pub stripe_kept : after.stripe_customer_id ≡ before.stripe_customer_id
  pub paddle_kept : after.paddle_customer_id ≡ before.paddle_customer_id

-- The code that a request names: the first active one with that text, which brings a plan, has not
-- expired, and was not redeemed by the account before.
pub record IsNamed (upper : Text → Text) (now : ℕ) (email : Text) (code : Option Text) (s : Promos)
    (p : Promo) : Type 0 where
  pub named :
      find
        (λ (q : Promo). eq_text q.code (upper (trim (get_or code []))) && q.is_active)
        s.promo_codes
      ≡ some p
  pub plan_code : p.type ≡ free_plan
  pub current : (e : ℕ) → p.expires_at ≡ some e → now ≤ e
  pub unused : any (is_of p.id email) s.redemptions ≡ false

-- The accounts are as they were and no plan is announced, or the plan of a code that the request may
-- redeem is announced, the account is a comp with it, and its workspaces show it.
abbrev pub IsHonest : (Promo → Type 0) → ℕ → Text → Db → Promos × PromoReply → Type 0
IsHonest Named now email db r =
    ((r.0.db ≡ db) × ((plan : Option Text) → r.1 ≢ plan_redeemed plan))
    ⊎ ((p : Promo) × Named p
        × (r.1 ≡ plan_redeemed p.plan_grant)
        × IsComp now p (get_account db email) (get_account r.0.db email)
        × InSync r.0.db email)

months-end :
    (now : ℕ) (m : Option ℕ)
    → now + (elim m [ none ↦ 1 | some zero ↦ 1 | some (suc m) ↦ suc m ]) * 30 * 24 * 60 * 60 * 1000
      ≡ now + months m * 2592000000
months-end now none = refl
months-end now (some zero) = refl
months-end now (some (suc m)) = omega arith

period_end-EndsAt :
    (now : ℕ) (d : Duration) (p : Promo)
    → p.duration ≡ d
    → EndsAt d now p.duration_months (period_end now p)
unfolding period_end
period_end-EndsAt now forever p e = rw e refl
period_end-EndsAt now once p e = rw e (ap (λ x. some x) (months-end now p.duration_months))
period_end-EndsAt now repeating p e = rw e (ap (λ x. some x) (months-end now p.duration_months))

comp_fields-IsComp :
    (now : ℕ) (p : Promo) (before after : Account)
    → IsUpdated (comp_fields p.plan_grant (period_end now p)) before after
    → IsComp now p before after
unfolding comp_fields
comp_fields-IsComp now p before after u = record {
  plan = u.plan_name;
  comped = u.subscription_status;
  no_interval = u.billing_interval;
  ends =
      subst (EndsAt p.duration now p.duration_months) (sym u.current_period_end)
        (period_end-EndsAt now p.duration p refl);
  no_pending = u.pending_plan;
  no_pending_interval = u.pending_interval;
  no_pending_at = u.pending_effective_at;
  no_stripe = u.stripe_subscription_id;
  no_paddle = u.paddle_subscription_id;
  stripe_kept = u.stripe_customer_id;
  paddle_kept = u.paddle_customer_id;
}

pre_check-IsNamed :
    (upper : Text → Text) (now : ℕ) (email : Text) (code : Option Text) (s : Promos) (p : Promo)
    → find
        (λ (q : Promo). eq_text q.code (upper (trim (get_or code []))) && q.is_active)
        s.promo_codes
      ≡ some p
    → pre_check now email p s.redemptions ≡ none
    → p.type ≡ free_plan
    → IsNamed upper now email code s p
unfolding pre_check
pre_check-IsNamed upper now email code s p f h t = record {
  named = f;
  plan_code = t;
  current = λ e x. ground (arith, h, x);
  unused = ground (arith, h);
}

module _ (Named : Promo → Type 0) (now : ℕ) (email : Text) (db : Db) where
  unless-IsHonest :
      (o : Option PromoRefusal) (s : Promos) (rest : Promos × PromoReply)
      → s.db ≡ db
      → (o ≡ none → IsHonest Named now email db rest)
      → IsHonest Named now email db (unless o s rest)
  unfolding unless
  unless-IsHonest none s rest e h = h refl
  unless-IsHonest (some why) s rest e h = inl (e, (λ plan q. ground arith))

module _ (Named : Promo → Type 0) (cancelled : Bool) (fails : Query → Bool) (now : ℕ)
    (email : Text) where
  grant-IsHonest :
      (p : Promo) (s : Promos)
      → Named p
      → IsHonest Named now email s.db (grant cancelled fails now email p s)
  unfolding grant release_redemption
  grant-IsHonest p s named =
      let fields = comp_fields p.plan_grant (period_end now p) in
      elim (Bool-cases cancelled) [
        | inr c ↦ rw c (inl (refl, (λ plan q. ground arith)))
        | inl c ↦ elim (set_account_plan_lem fails email fields s.db) [
          | inl (threw, same) ↦ rw (c, threw) (inl (refl, (λ plan q. ground arith)))
          | inr (returned, account, mirror, _, _) ↦
              rw (c, returned)
                (inr (
                  p,
                  named,
                  refl,
                  comp_fields-IsComp now p (get_account s.db email) _ account,
                  mirror,
                ))
        ]
      ]

  honour-IsHonest :
      (t : PromoType) (p : Promo) (s : Promos)
      → (t ≡ free_plan → Named p)
      → IsHonest Named now email s.db (honour t cancelled fails now email p s)
  unfolding honour
  honour-IsHonest free_plan p s named = grant-IsHonest p s (named refl)
  honour-IsHonest percent_off p s named = inl (refl, (λ plan q. ground arith))

  claim-db :
      (id : ℕ) (plan : Option Text) (until : Option ℕ) (s : Promos)
      → (claim_redemption now id email plan until s).0.db ≡ s.db
  unfolding claim_redemption
  claim-db id plan until s = ground arith

  redeem-IsHonest :
      (p : Promo) (s : Promos)
      → (p.type ≡ free_plan → Named p)
      → IsHonest Named now email s.db (redeem cancelled fails now email p s)
  unfolding redeem
  redeem-IsHonest p s named =
      let same = claim-db p.id (plan_of p.type p) (until_of p.type now p) s in
      let s' = (claim_redemption now p.id email (plan_of p.type p) (until_of p.type now p) s).0 in
      unless-IsHonest Named now email s.db _ s' _ same (λ none_refused.
        subst (λ d. IsHonest Named now email d (honour p.type cancelled fails now email p s')) same
          (honour-IsHonest p.type p s' named))

  redeem_row-IsHonest :
      (o : Option Promo) (s : Promos)
      → ((p : Promo)
          → o ≡ some p
          → pre_check now email p s.redemptions ≡ none
          → p.type ≡ free_plan
          → Named p)
      → IsHonest Named now email s.db (redeem_row o cancelled fails now email s)
  unfolding redeem_row
  redeem_row-IsHonest none s named = inl (refl, (λ plan q. ground arith))
  redeem_row-IsHonest (some p) s named =
      unless-IsHonest Named now email s.db _ s _ refl
        (λ passed. redeem-IsHonest p s (named p refl passed))

-- A request to redeem a code, whatever fails on the way, leaves all accounts and workspaces as they
-- were and announces no plan; or it announces the plan of the first active code of that text, which
-- has not expired and was not redeemed by the account before, and then the account is a comp with that
-- plan and nothing pending, for as long as the code says, without ids of subscriptions but with its
-- ids of customer, and every active workspace that it owns shows it.
pub redeem_promo_lem :
    (cancelled : Bool) (fails : Query → Bool) (now : ℕ) (email : Text) (upper : Text → Text)
    (role : Role) (code : Option Text) (s : Promos)
    → IsHonest
        (IsNamed upper now email code s)
        now
        email
        s.db
        (redeem_promo upper cancelled fails now role email code s)
unfolding redeem_promo
redeem_promo_lem cancelled fails now email upper role code s =
    let normalized = upper (trim (get_or code [])) in
    let row =
      redeem_row-IsHonest (IsNamed upper now email code s) cancelled fails now email
        (find (λ (p : Promo). eq_text p.code normalized && p.is_active) s.promo_codes) s
        (λ p f. pre_check-IsNamed upper now email code s p f) in
    elim (Bool-cases (is_owner role)) [
      | inr e ↦ rw e (inl (refl, (λ plan q. ground arith)))
      | inl e ↦ elim (Bool-cases (is_empty normalized)) [
        | inl q ↦ rw (e, q) (inl (refl, (λ plan q. ground arith)))
        | inr q ↦ rw (e, q) row
      ]
    ]
