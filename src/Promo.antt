-- ===== src/Promo.antt =====
-- `src/main/billing/redeemPromo.js` over `promo_codes` and `promo_redemptions` of
-- `feedboard_db.sql`. Instants are milliseconds. Cancelling the subscription that a grant replaces
-- is a call of the payment provider: the model knows only whether it throws.
mod Claims
mod Grants
mod Tests
use feedbase_backend.Base.{
  ℕ, zero, suc, ◌+◌, ◌-◌, ◌*◌, ◌≤◌, ◌<◌, ◌≡◌, ◌≢◌, ◌↔◌, ◌⊎◌, inl, inr, refl, sym, ap, ◌∙◌, Bool,
  true, false, not, ◌&&◌, ◌||◌, List, [], ◌∷◌, ◌++◌, map, Option, none, some, arith, All, is_some,
  get_or, Bool-cases, Option-cases, if◌then◌else◌, take, length, any, keep, find, count, head?, ltb,
  leb, ◌==◌, length-keep-le, length-take-le, ==_iff, ==_refl,
}
use feedbase_backend.Text.{Text, codes, eq_text, is_empty, trim}
use feedbase_backend.Tables.{Role, is_owner, Db}
use feedbase_backend.Accounts.{Fields, no_fields, Query, set_account_plan}

pub data Duration : Type 0 where
  once repeating forever : Duration

pub data PromoType : Type 0 where
  percent_off free_plan : PromoType

pub record Promo : Type 0 where
  pub id : ℕ
  pub code : Text
  pub type : PromoType
  pub plan_grant : Option Text
  pub duration : Duration
  pub duration_months : Option ℕ
  pub max_redemptions : Option ℕ
  pub times_redeemed : ℕ
  pub expires_at : Option ℕ
  pub is_active : Bool

pub record Redemption : Type 0 where
  pub promo_code_id : ℕ
  pub account_email : Text
  pub plan_granted : Option Text
  pub expires_at : Option ℕ

pub record Promos : Type 0 where
  pub promo_codes : List Promo
  pub redemptions : List Redemption
  pub db : Db

pub data PromoRefusal : Type 0 where
  billing_forbidden promo_code_invalid promo_code_expired promo_code_exhausted : PromoRefusal
  promo_already_redeemed internal_server_error : PromoRefusal

pub data PromoReply : Type 0 where
  promo_refused : PromoRefusal → PromoReply
  plan_redeemed : Option Text → PromoReply
  discount_valid : Promo → PromoReply

-- The condition of the conditional UPDATE.
abbrev pub can_claim : ℕ → ℕ → Promo → Bool
can_claim now id p =
    p.id == id
    && p.is_active
    && (elim p.expires_at [ none ↦ true | some e ↦ ltb now e ])
    && (elim p.max_redemptions [ none ↦ true | some m ↦ ltb p.times_redeemed m ])

unfoldable pub is_of : ℕ → Text → Redemption → Bool
is_of id email r = r.promo_code_id == id && eq_text r.account_email email

abbrev pub count_up : ℕ → ℕ → Promo → Promo
count_up now id p =
    if can_claim now id p then record p { times_redeemed = suc p.times_redeemed } else p

-- `claimRedemption`: the reason why it is not granted, if it is not. The unique key on the code and
-- the account rejects a second row, and the transaction is rolled back.
unfoldable pub claim_redemption :
    ℕ → ℕ → Text → Option Text → Option ℕ → Promos → Promos × Option PromoRefusal
claim_redemption now id email plan expires s =
    if not (any (can_claim now id) s.promo_codes)
    then (s, some promo_code_exhausted)
    else if any (is_of id email) s.redemptions
    then (s, some promo_already_redeemed)
    else (
      record s {
        promo_codes = map (count_up now id) s.promo_codes;
        redemptions =
            s.redemptions
            ++ record {
              promo_code_id = id;
              account_email = email;
              plan_granted = plan;
              expires_at = expires;
            }
              ∷ [];
      },
      none,
    )

abbrev pub count_down : ℕ → Promo → Promo
count_down id p = if p.id == id then record p { times_redeemed = p.times_redeemed - 1 } else p

-- `releaseRedemption`, where both statements succeed; a failure is only logged.
unfoldable pub release_redemption : ℕ → Text → Promos → Promos
release_redemption id email s = record s {
  redemptions = keep (λ r. not (is_of id email r)) s.redemptions;
  promo_codes = map (count_down id) s.promo_codes;
}

-- `promo.duration_months || 1` months of 30 days.
unfoldable pub period_end : ℕ → Promo → Option ℕ
period_end now p =
    let months : ℕ = elim p.duration_months [ none ↦ 1 | some zero ↦ 1 | some (suc m) ↦ suc m ] in
    elim p.duration [
      | forever ↦ none
      | once ↦ some (now + months * 30 * 24 * 60 * 60 * 1000)
      | repeating ↦ some (now + months * 30 * 24 * 60 * 60 * 1000)
    ]

unfoldable pub comp_fields : Option Text → Option ℕ → Fields
comp_fields plan until = record no_fields {
  plan_name = some (get_or plan []);
  subscription_status = some (some (codes "comped"));
  billing_interval = some none;
  stripe_subscription_id = some none;
  paddle_subscription_id = some none;
  current_period_end = some until;
  pending_plan = some none;
  pending_interval = some none;
  pending_effective_at = some none;
}

-- The checks before the claim, for the row that the code names.
unfoldable pub pre_check : ℕ → Text → Promo → List Redemption → Option PromoRefusal
pre_check now email p rs =
    if elim p.expires_at [ none ↦ false | some e ↦ ltb e now ]
    then some promo_code_expired
    else if elim p.max_redemptions [
      | none ↦ false
      | some zero ↦ false
      | some (suc m) ↦ leb (suc m) p.times_redeemed
    ]
    then some promo_code_exhausted
    else if any (is_of p.id email) rs
    then some promo_already_redeemed
    else none

-- The grant of a claimed plan; where it throws, the claim is given back.
unfoldable pub grant : Bool → (Query → Bool) → ℕ → Text → Promo → Promos → Promos × PromoReply
grant cancelled fails now email p s =
    let (db, returned) =
      set_account_plan fails email (comp_fields p.plan_grant (period_end now p)) s.db in
    if cancelled && returned
    then (record s { db = db }, plan_redeemed p.plan_grant)
    else (release_redemption p.id email s, promo_refused internal_server_error)

-- A check that fails ends the request.
unfoldable pub unless : Option PromoRefusal → Promos → Promos × PromoReply → Promos × PromoReply
unless none s rest = rest
unless (some why) s rest = (s, promo_refused why)

-- What a claimed code brings.
unfoldable pub honour :
    PromoType → Bool → (Query → Bool) → ℕ → Text → Promo → Promos → Promos × PromoReply
honour free_plan cancelled fails now email p s = grant cancelled fails now email p s
honour percent_off cancelled fails now email p s = (s, discount_valid p)

abbrev pub plan_of : PromoType → Promo → Option Text
plan_of free_plan p = p.plan_grant
plan_of percent_off p = none

abbrev pub until_of : PromoType → ℕ → Promo → Option ℕ
until_of free_plan now p = period_end now p
until_of percent_off now p = none

unfoldable pub redeem : Bool → (Query → Bool) → ℕ → Text → Promo → Promos → Promos × PromoReply
redeem cancelled fails now email p s =
    let (s', refused) =
      claim_redemption now p.id email (plan_of p.type p) (until_of p.type now p) s in
    unless refused s' (honour p.type cancelled fails now email p s')

-- The row that the code names, if there is one.
unfoldable pub redeem_row :
    Option Promo → Bool → (Query → Bool) → ℕ → Text → Promos → Promos × PromoReply
redeem_row none cancelled fails now email s = (s, promo_refused promo_code_invalid)
redeem_row (some p) cancelled fails now email s =
    unless (pre_check now email p s.redemptions) s (redeem cancelled fails now email p s)

-- `redeemPromo`: `upper` is `toUpperCase`.
unfoldable pub redeem_promo :
    (Text → Text)
    → Bool
    → (Query → Bool)
    → ℕ
    → Role
    → Text
    → Option Text
    → Promos
    → Promos × PromoReply
redeem_promo upper cancelled fails now role email code s =
    let normalized = upper (trim (get_or code [])) in
    let p = find (λ (p : Promo). eq_text p.code normalized && p.is_active) s.promo_codes in
    if not (is_owner role)
    then (s, promo_refused billing_forbidden)
    else if is_empty normalized
    then (s, promo_refused promo_code_invalid)
    else redeem_row p cancelled fails now email s
