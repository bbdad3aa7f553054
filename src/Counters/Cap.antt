-- ===== src/Counters/Cap.antt =====
-- The hourly cap of a workspace.
use feedbase_backend.Base.{
  ℕ, suc, ◌-◌, ◌≤◌, ◌<◌, ◌≡◌, ◌≢◌, inl, inr, refl, ◌∙◌, ap, true, List, [], ◌∷◌, ◌++◌, Option, none,
  some, arith, All, is_some, Bool-cases, Option-cases, if◌then◌else◌, take,
}
use feedbase_backend.Env.{Env}
use feedbase_backend.Text.{Text}
use feedbase_backend.Text.Laws.{eq_text_iff, eq_text_refl}
use feedbase_backend.Counters.{
  Row, is_row, hour_ms, per_tenant_hour, window_start, upsert, bump, Check, Request, tenant_key,
  voter_checks, tenant_check, domain_checks, run_checks, charge_public_write,
}

-- The count of a scope in a window, 0 without a row.
unfoldable pub hits_of : Text → ℕ → List Row → ℕ
hits_of key start [] = 0
hits_of key start (r ∷ rs) =
    let rest = hits_of key start rs in if is_row key start r then r.hits else rest

upsert_self :
    (key : Text) (start : ℕ) (rows : List Row)
    → ((upsert key start rows).1 ≡ suc (hits_of key start rows))
      × (hits_of key start (upsert key start rows).0 ≡ suc (hits_of key start rows))
unfolding upsert hits_of
upsert_self key start [] = ground (arith, eq_text_refl key)
upsert_self key start (r ∷ rs) = elim (Bool-cases (is_row key start r)) [
  | inl e ↦ rw (e, e) (refl, refl)
  | inr e ↦ rw (e, e) (upsert_self key start rs)
]

upsert-other :
    (key other : Text) (start at : ℕ) (rows : List Row)
    → key ≢ other
    → hits_of other at (upsert key start rows).0 ≡ hits_of other at rows
unfolding upsert hits_of
upsert-other key other start at [] ne = ground (arith, eq_text_iff key other)
upsert-other key other start at (r ∷ rs) ne = elim (Bool-cases (is_row key start r)) [
  | inl e ↦ ground (arith, e, eq_text_iff r.scope_key key, eq_text_iff r.scope_key other)
  | inr e ↦ ground (arith, e, upsert-other key other start at rs ne)
]

abbrev stored : Text → Text
stored key = take 100 key

run_checks-other :
    (now : ℕ) (cs : List Check) (other : Text) (at : ℕ) (rows : List Row)
    → All (λ c. stored c.key ≢ other) cs
    → hits_of other at (run_checks now cs rows).0 ≡ hits_of other at rows
unfolding run_checks bump
run_checks-other now [] other at rows ne = refl
run_checks-other now (c ∷ cs) other at rows (n, ne) =
    run_checks-other now cs other at _ ne
    ∙ upsert-other (stored c.key) other (window_start c.size now) at rows n

voter-ne-tenant :
    (env : Env) (t u : ℕ) (h : Option Text)
    → All (λ c. stored c.key ≢ stored (tenant_key u)) (voter_checks env t h)
unfolding voter_checks
voter-ne-tenant env t u none = tt
voter-ne-tenant env t u (some []) = tt
voter-ne-tenant env t u (some (c ∷ s)) = (λ e. ground arith, tt)

domain-ne-tenant :
    (env : Env) (t u : ℕ) (h : Option Text)
    → All (λ c. stored c.key ≢ stored (tenant_key u)) (domain_checks env t h)
unfolding domain_checks
domain-ne-tenant env t u none = tt
domain-ne-tenant env t u (some []) = tt
domain-ne-tenant env t u (some (c ∷ s)) = (λ e. ground arith, tt)

-- The count of a check's own scope, in the window of its time.
abbrev own_hits : ℕ → Check → List Row → ℕ
own_hits now c rows = hits_of (stored c.key) (window_start c.size now) rows

-- Whatever checks stand before and after the one on `c`, its counter goes up by one, and the
-- request passes only within its cap.
run_checks-middle :
    (now : ℕ) (before after : List Check) (c : Check) (rows : List Row)
    → All (λ d. stored d.key ≢ stored c.key) before
    → All (λ d. stored d.key ≢ stored c.key) after
    → (own_hits now c (run_checks now (before ++ c ∷ after) rows).0 ≡ suc (own_hits now c rows))
      × (((run_checks now (before ++ c ∷ after) rows).1 ≡ none) → own_hits now c rows < c.max)
unfolding run_checks bump
run_checks-middle now [] after c rows b a =
    let (n, up) = upsert_self (stored c.key) (window_start c.size now) rows in
    (
      run_checks-other now after (stored c.key) (window_start c.size now) _ a ∙ up,
      λ h. ground (arith, n),
    )
run_checks-middle now (d ∷ before) after c rows (n, b) a =
    let start = window_start c.size now in
    let same = upsert-other (stored d.key) (stored c.key) (window_start d.size now) start rows n in
    let (up, within) = run_checks-middle now before after c _ b a in
    (up ∙ ap suc same, λ h. ground (arith, within, same))

module _ (env : Env) where
  charge-tenant :
      (r : Request) (rows : List Row)
      → let c = tenant_check env r.tenant_id in
        (own_hits r.now c (charge_public_write env true r rows).0 ≡ suc (own_hits r.now c rows))
        × (((charge_public_write env true r rows).1 ≡ none) → own_hits r.now c rows < c.max)
  unfolding charge_public_write tenant_check
  charge-tenant r rows =
      run_checks-middle r.now (voter_checks env r.tenant_id r.voter_hash)
        (domain_checks env r.tenant_id r.email_domain) (tenant_check env r.tenant_id) rows
        (voter-ne-tenant env r.tenant_id r.tenant_id r.voter_hash)
        (domain-ne-tenant env r.tenant_id r.tenant_id r.email_domain)

  pub charge-hits :
      (tenant start : ℕ) (r : Request) (rows : List Row)
      → r.tenant_id ≡ tenant
      → window_start hour_ms r.now ≡ start
      → (hits_of (take 100 (tenant_key tenant)) start (charge_public_write env true r rows).0
          ≡ suc (hits_of (take 100 (tenant_key tenant)) start rows))
        × (((charge_public_write env true r rows).1 ≡ none)
            → hits_of (take 100 (tenant_key tenant)) start rows < per_tenant_hour env)
  unfolding tenant_check
  charge-hits tenant start r rows t w = rw (← t, ← w) (charge-tenant r rows)

  -- How many of a sequence of writes pass.
  unfoldable pub admitted : List Request → List Row → ℕ
  admitted [] rows = 0
  admitted (r ∷ rs) rows =
      let (rows', v) = charge_public_write env true r rows in
      let rest = admitted rs rows' in if is_some v then rest else suc rest

  -- In one window of an hour the writes that pass on one workspace, from whatever visitors and
  -- addresses, are at most the cap less the writes already counted.
  pub hour_cap :
      (tenant start : ℕ) (rs : List Request) (rows : List Row)
      → All (λ r. (r.tenant_id ≡ tenant) × (window_start hour_ms r.now ≡ start)) rs
      → admitted rs rows ≤ per_tenant_hour env - hits_of (take 100 (tenant_key tenant)) start rows
  unfolding admitted
  hour_cap tenant start [] rows h = omega arith
  hour_cap tenant start (r ∷ rs) rows ((t, w), h) =
      let (counted, within) = charge-hits tenant start r rows t w in
      let rest = hour_cap tenant start rs (charge_public_write env true r rows).0 h in
      elim (Option-cases (charge_public_write env true r rows).1) [
        | inl e ↦ rw e (omega (arith, within e, rest, counted))
        | inr (s, e) ↦ rw e (omega (arith, rest, counted))
      ]
