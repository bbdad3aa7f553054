-- ===== src/Guard/Cap.antt =====
-- The hourly cap of a workspace (`src/common/writeCounters.js`) at the gate of
-- `src/common/publicWriteGuard.js`.
use feedbase_backend.Base.{
  ℕ, suc, ◌-◌, ◌≤◌, ◌<◌, ◌≡◌, ◌⊎◌, inl, inr, refl, ap, ◌∙◌, Bool, true, false, not, ◌&&◌, List, [],
  ◌∷◌, arith, All, is_some, Bool-cases, Option-cases, if◌then◌else◌, take,
}
use feedbase_backend.Env.{Env}
use feedbase_backend.Counters.{
  hour_ms, per_tenant_hour, window_start, tenant_key, charge_public_write,
}
use feedbase_backend.Counters.Cap.{hits_of, charge-hits}
use feedbase_backend.Guard.Rulings.{evaluate-dropped, evaluate-open}
use feedbase_backend.Guard.{
  Platform, GuardState, Submission, Ruling, is_filled, charged, charge_and_score, ruled,
  evaluate_public_write,
}

-- A write passes the gate when it is neither dropped nor over a cap.
abbrev pub passes : Ruling → Bool
passes r = not r.discard && not r.rate_limited

module _ (env : Env) (pf : Platform) where
  -- How many of a sequence of writes pass, each at the state that the one before it leaves.
  unfoldable pub passed : List Submission → GuardState → ℕ
  passed [] g = 0
  passed (s ∷ ss) g =
      let (g', r) = evaluate_public_write env pf true s g in
      let rest = passed ss g' in if passes r then suc rest else rest

  charge-rows :
      (s : Submission) (g : GuardState)
      → let (g', r) = charge_and_score env pf true s g in
        let (rows, scope) = charge_public_write env true (charged env pf s) g.rows in
        (g'.rows ≡ rows) × (passes r ≡ not (is_some scope))
  unfolding charge_and_score ruled
  charge-rows s g = elim (Option-cases (charge_public_write env true (charged env pf s) g.rows).1) [
    | inl e ↦ rw e (refl, refl)
    | inr (scope, e) ↦ rw e (refl, refl)
  ]

  -- One write of a visitor: it does not pass and the count stays or grows, or it passes, the count
  -- was under the cap, and it grows by one.
  step-hits :
      (tenant start : ℕ) (s : Submission) (g : GuardState)
      → s.tenant_id ≡ tenant
      → window_start hour_ms s.now ≡ start
      → s.is_authenticated ≡ false
      → let (g', r) = evaluate_public_write env pf true s g in
        let before = hits_of (take 100 (tenant_key tenant)) start g.rows in
        let after = hits_of (take 100 (tenant_key tenant)) start g'.rows in
        ((passes r ≡ false) × (before ≤ after))
        ⊎ ((passes r ≡ true) × (after ≡ suc before) × (before < per_tenant_hour env))
  unfolding charged
  step-hits tenant start s g t w a =
      let (counted, within) = charge-hits env tenant start (charged env pf s) g.rows t w in
      let (same, verdict) = charge-rows s g in
      elim (Bool-cases (is_filled s.website)) [
        | inl e ↦ rw (evaluate-dropped env pf true s g e) (inl (refl, omega arith))
        | inr e ↦ elim (Option-cases (charge_public_write env true (charged env pf s) g.rows).1) [
          | inl q ↦
              rw (evaluate-open env pf true s g e a, same)
                (inr (verdict ∙ ap (λ o. not (is_some o)) q, counted, within q))
          | inr (scope, q) ↦
              rw (evaluate-open env pf true s g e a, same)
                (inl (verdict ∙ ap (λ o. not (is_some o)) q, omega (arith, counted)))
        ]
      ]

  -- In one window of an hour, with the counters in reach, the writes of visitors that pass the gate
  -- on one workspace are at most the cap less the writes already counted.
  pub guard_cap :
      (tenant start : ℕ) (ss : List Submission) (g : GuardState)
      → All
          (λ s.
            (s.tenant_id ≡ tenant)
            × (window_start hour_ms s.now ≡ start)
            × (s.is_authenticated ≡ false))
          ss
      → passed ss g ≤ per_tenant_hour env - hits_of (take 100 (tenant_key tenant)) start g.rows
  unfolding passed
  guard_cap tenant start [] g h = omega arith
  guard_cap tenant start (s ∷ ss) g ((t, w, a), h) =
      let rest = guard_cap tenant start ss (evaluate_public_write env pf true s g).0 h in
      elim (step-hits tenant start s g t w a) [
        | inl (e, grown) ↦ rw e (omega (arith, rest, grown))
        | inr (e, counted, within) ↦ rw e (omega (arith, rest, counted, within))
      ]
