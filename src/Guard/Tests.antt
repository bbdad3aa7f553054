-- ===== src/Guard/Tests.antt =====
-- The gate at concrete inputs, with stand-ins for what the platform provides.
use feedbase_backend.Base.{
  ℕ, ◌-◌, ◌≤◌, ◌≡◌, ◌↔◌, refl, true, false, ◌||◌, [], ◌∷◌, Option, none, some, take,
}
use feedbase_backend.Env.{defaults}
use feedbase_backend.Text.{Text, codes}
use feedbase_backend.Counters.{per_tenant_hour, window_start, tenant_key}
use feedbase_backend.Counters.Cap.{hits_of}
use feedbase_backend.Email.{failed}
use feedbase_backend.Guard.{Platform, GuardState, Submission, is_filled, evaluate_public_write}
use feedbase_backend.Guard.Rulings.{FollowsScore, evaluate_public_write_lem}
use feedbase_backend.Guard.Cap.{passed, guard_cap}

abbrev pub stand_in : Platform
stand_in = record {
  lower = λ s. s;
  host_of = λ u. none;
  sign_token = λ s. s;
  sign_ip = λ s. s;
  resolve_mx = λ d. failed;
}

abbrev pub calm : GuardState
calm = record { rows = []; hits = [] }

abbrev visit : ℕ → Option Text → Submission
visit now website = record {
  now = now;
  tenant_id = 5;
  ip = some (codes "10.0.0.1");
  website = website;
  form_token = none;
  title = codes "Dark mode";
  body = [];
  email = some (codes "a@acme.io");
  duplicate_count = 0;
  is_authenticated = false;
}

evaluate_public_write_lem_example :
    let s = visit 40 (some (codes "x")) in
    let (g', r) = evaluate_public_write defaults stand_in true s calm in
    FollowsScore defaults r
    × ((r.discard ≡ true) ↔ (is_filled s.website ≡ true))
    × ((is_filled s.website || s.is_authenticated ≡ true)
        → (g' ≡ calm) × (r.score ≡ 0) × (r.rate_limited ≡ false))
    × ((r.rate_limited ≡ true) → (r.score ≡ 0) × (g'.hits ≡ calm.hits))
evaluate_public_write_lem_example =
    evaluate_public_write_lem defaults stand_in true (visit 40 (some (codes "x"))) calm

guard_cap_example :
    passed defaults stand_in (visit 10 none ∷ visit 20 none ∷ []) calm
    ≤ per_tenant_hour defaults - hits_of (take 100 (tenant_key 5)) 0 calm.rows
unfolding window_start
guard_cap_example =
    guard_cap defaults stand_in 5 0 (visit 10 none ∷ visit 20 none ∷ []) calm
      ((refl, refl, refl), ((refl, refl, refl), tt))
