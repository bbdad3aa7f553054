-- ===== src/Promo/Tests.antt =====
-- Promo codes at concrete inputs.
use feedbase_backend.Base.{true, false, [], ◌∷◌, none, some, arith}
use feedbase_backend.Text.{codes}
use feedbase_backend.Tables.{owner}
use feedbase_backend.Promo.{Promo, free_plan, once, Promos, redeem_promo}
use feedbase_backend.Promo.Claims.{claim, release, run, IsFair, run-IsFair}
use feedbase_backend.Promo.Grants.{IsNamed, IsHonest, redeem_promo_lem}

abbrev launch : Promo
launch = record {
  id = 1;
  code = codes "LAUNCH";
  type = free_plan;
  plan_grant = some (codes "pro");
  duration = once;
  duration_months = some 2;
  max_redemptions = some 1;
  times_redeemed = 0;
  expires_at = none;
  is_active = true;
}

abbrev market : Promos
market = record {
  promo_codes = launch ∷ [];
  redemptions = [];
  db = record { tenants = []; users = []; accounts = [] };
}

run-IsFair_example : IsFair 1 (codes "a@x.io") (
    run
      (claim 7 1 (codes "a@x.io") none none
        ∷ claim 8 1 (codes "b@x.io") none none
        ∷ release 1 (codes "a@x.io")
        ∷ [])
      market)
run-IsFair_example =
    run-IsFair 1 (codes "a@x.io")
      (claim 7 1 (codes "a@x.io") none none
        ∷ claim 8 1 (codes "b@x.io") none none
        ∷ release 1 (codes "a@x.io")
        ∷ [])
      market ((λ m e. omega arith, tt), omega arith)

redeem_promo_lem_example :
    IsHonest
      (IsNamed (λ s. s) 7 (codes "a@x.io") (some (codes "LAUNCH")) market)
      7
      (codes "a@x.io")
      market.db
      (redeem_promo
        (λ s. s)
        true
        (λ q. false)
        7
        owner
        (codes "a@x.io")
        (some (codes "LAUNCH"))
        market)
redeem_promo_lem_example =
    redeem_promo_lem true (λ q. false) 7 (codes "a@x.io") (λ s. s) owner (some (codes "LAUNCH"))
      market
