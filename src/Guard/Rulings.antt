-- ===== src/Guard/Rulings.antt =====
-- What the gate of `src/common/publicWriteGuard.js` rules.
use feedbase_backend.Base.{
  ◌≡◌, ◌↔◌, inl, inr, refl, sym, ap, Bool, true, false, ◌||◌, arith, Bool-cases, Option-cases,
  if◌then◌else◌,
}
use feedbase_backend.Env.{Env, setting-pos}
use feedbase_backend.Counters.{charge_public_write}
use feedbase_backend.Spam.Score.{published, moderation_state_for, is_flagged}
use feedbase_backend.Guard.{
  Platform, GuardState, Submission, Ruling, charged, is_filled, charge_and_score, ruled, clean,
  voter_hash, evaluate_public_write,
}

-- No score at all is under both thresholds, which are never 0.
zero-published : (env : Env) → (moderation_state_for env 0 ≡ published) × (is_flagged env 0 ≡ false)
unfolding moderation_state_for is_flagged
zero-published env =
    let hide = setting-pos env.spam_score_hide 12 (omega arith) in
    let flag = setting-pos env.spam_score_flag 6 (omega arith) in ground arith

-- A ruling is the one of its own score.
abbrev pub FollowsScore : Env → Ruling → Type 0
FollowsScore env r =
    (r.moderation_state ≡ moderation_state_for env r.score) × (r.flagged ≡ is_flagged env r.score)

module _ (env : Env) (pf : Platform) (up : Bool) (s : Submission) (g : GuardState) where
  charge_and_score-FollowsScore :
      let (g', r) = charge_and_score env pf up s g in
      FollowsScore env r
      × (r.discard ≡ false)
      × ((r.rate_limited ≡ true) → (r.score ≡ 0) × (g'.hits ≡ g.hits))
  unfolding charge_and_score ruled
  charge_and_score-FollowsScore =
      let (p, q) = zero-published env in
      elim (Option-cases (charge_public_write env up (charged env pf s) g.rows).1) [
        | inl e ↦ rw e ((refl, refl), refl, (λ h. ground arith))
        | inr (scope, e) ↦ rw e ((sym p, sym q), refl, (λ h. (refl, refl)))
      ]

  pub evaluate-dropped :
      is_filled s.website ≡ true
      → evaluate_public_write env pf up s g
        ≡ (g, record (clean (voter_hash env pf s.ip)) { discard = true })
  unfolding evaluate_public_write
  evaluate-dropped e = rw e refl

  evaluate-signed :
      is_filled s.website ≡ false
      → s.is_authenticated ≡ true
      → evaluate_public_write env pf up s g ≡ (g, clean (voter_hash env pf s.ip))
  unfolding evaluate_public_write
  evaluate-signed e a = rw e (
      ap (λ b. if b then (g, clean (voter_hash env pf s.ip)) else charge_and_score env pf up s g) a)

  pub evaluate-open :
      is_filled s.website ≡ false
      → s.is_authenticated ≡ false
      → evaluate_public_write env pf up s g ≡ charge_and_score env pf up s g
  unfolding evaluate_public_write
  evaluate-open e a = rw e (
      ap (λ b. if b then (g, clean (voter_hash env pf s.ip)) else charge_and_score env pf up s g) a)

  -- Whatever way a write takes through the gate, it is hidden and flagged exactly as its score says;
  -- it is dropped exactly when the hidden field is filled; a dropped write and one of a signed-in
  -- author change nothing and score 0; a write over a cap scores 0 and costs no lookup.
  pub evaluate_public_write_lem :
      let (g', r) = evaluate_public_write env pf up s g in
      FollowsScore env r
      × ((r.discard ≡ true) ↔ (is_filled s.website ≡ true))
      × ((is_filled s.website || s.is_authenticated ≡ true)
          → (g' ≡ g) × (r.score ≡ 0) × (r.rate_limited ≡ false))
      × ((r.rate_limited ≡ true) → (r.score ≡ 0) × (g'.hits ≡ g.hits))
  evaluate_public_write_lem =
      let (p, q) = zero-published env in
      let (f, d, l) = charge_and_score-FollowsScore in
      elim (Bool-cases (is_filled s.website)) [
        | inl e ↦
            rw (evaluate-dropped e)
              ((sym p, sym q), (λ h. e, λ h. refl), (λ h. (refl, refl, refl)), (λ h. ground arith))
        | inr e ↦ elim (Bool-cases s.is_authenticated) [
          | inl a ↦ rw (evaluate-signed e a) (
            (sym p, sym q),
            (λ h. ground arith, λ h. ground arith),
            (λ h. (refl, refl, refl)),
            (λ h. ground arith),
          )
          | inr a ↦
              rw (evaluate-open e a)
                (f, (λ h. ground (arith, d), λ h. ground arith), (λ h. ground arith), l)
        ]
      ]
