-- ===== src/Counters/Tests.antt =====
-- The burst caps at concrete inputs, with a cap of two writes an hour.
use feedbase_backend.Base.{ℕ, ◌-◌, ◌≤◌, ◌≡◌, refl, [], ◌∷◌, none, some, take, List}
use feedbase_backend.Env.{Env, defaults}
use feedbase_backend.Text.{codes, eq_text}
use feedbase_backend.Text.Decimal.{to_decimal}
use feedbase_backend.Counters.{
  Request, per_tenant_hour, window_start, upsert, bump, tenant_key, voter_checks, tenant_check,
  domain_checks, run_checks, charge_public_write,
}
use feedbase_backend.Counters.Cap.{hits_of, admitted, hour_cap}

abbrev two : Env
two = record defaults { spam_cap_tenant_hour = some 2 }

abbrev ask : ℕ → Request
ask now = record { now = now; tenant_id = 5; voter_hash = none; email_domain = some (codes "x.io") }

abbrev asks : List Request
asks = ask 10 ∷ ask 20 ∷ ask 30 ∷ []

charging : Unit {0}
unfolding charge_public_write run_checks voter_checks tenant_check domain_checks bump upsert
    window_start admitted hits_of eq_text to_decimal
charging = tt

admitted_test : admitted two asks [] ≡ 2
unfolding charging
admitted_test = refl

hour_cap_example :
    admitted two asks [] ≤ per_tenant_hour two - hits_of (take 100 (tenant_key 5)) 0 []
unfolding window_start
hour_cap_example = hour_cap two 5 0 asks [] ((refl, refl), ((refl, refl), ((refl, refl), tt)))
