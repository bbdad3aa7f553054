-- ===== src/Promo/Claims.antt =====
-- Claims on promo codes in any order (`src/main/billing/redeemPromo.js`).
use feedbase_backend.Base.{
  count-keep-le, count-append, count-any, ℕ, ◌≤◌, ◌≡◌, inl, inr, refl, false, not, List, [], ◌∷◌,
  ◌++◌, map, Option, some, arith, All, Bool-cases, any, count,
}
use feedbase_backend.Text.{Text}
use feedbase_backend.Text.Laws.{eq_text_iff}
use feedbase_backend.Promo.{
  Promo, Redemption, Promos, can_claim, is_of, count_up, count_down, claim_redemption,
  release_redemption,
}

-- The transactions of concurrent requests, each of which runs as a whole.
pub data Step : Type 0 where
  claim : ℕ → ℕ → Text → Option Text → Option ℕ → Step
  release : ℕ → Text → Step

unfoldable pub step : Step → Promos → Promos
step (claim now id email plan expires) s = (claim_redemption now id email plan expires s).0
step (release id email) s = release_redemption id email s

unfoldable pub run : List Step → Promos → Promos
run [] s = s
run (t ∷ ts) s = run ts (step t s)

abbrev pub IsCapped : Promo → Type 0
IsCapped p = (m : ℕ) → p.max_redemptions ≡ some m → p.times_redeemed ≤ m

-- No code is over its cap, and the account has redeemed the code once at most.
abbrev pub IsFair : ℕ → Text → Promos → Type 0
IsFair id email s = All IsCapped s.promo_codes × (count (is_of id email) s.redemptions ≤ 1)

count_up-IsCapped : (now id : ℕ) (p : Promo) → IsCapped p → IsCapped (count_up now id p)
count_up-IsCapped now id p h m e = ground (arith, h m)

count_down-IsCapped : (id : ℕ) (p : Promo) → IsCapped p → IsCapped (count_down id p)
count_down-IsCapped id p h m e = ground (arith, h m)

map-IsCapped :
    (f : Promo → Promo) (ps : List Promo)
    → ((p : Promo) → IsCapped p → IsCapped (f p))
    → All IsCapped ps
    → All IsCapped (map f ps)
map-IsCapped f [] k h = tt
map-IsCapped f (p ∷ ps) k (a, h) = (k p a, map-IsCapped f ps k h)

-- A new row counts for an account on a code only if it is the row of both, and then there was none.
add-single :
    (id i : ℕ) (email t : Text) (r : Redemption) (rs : List Redemption)
    → r.promo_code_id ≡ i
    → r.account_email ≡ t
    → any (is_of i t) rs ≡ false
    → count (is_of id email) rs ≤ 1
    → count (is_of id email) (rs ++ r ∷ []) ≤ 1
unfolding is_of
add-single id i email t r rs ei et none_yet u =
    let grown = count-append (is_of id email) rs r in
    elim (Bool-cases (is_of id email r)) [
      | inr e ↦ ground (arith, grown, e)
      | inl e ↦
          let x : i ≡ id = ground (arith, ei) in
          let y : t ≡ email = ground (arith, et, eq_text_iff r.account_email email) in
          let zero_yet : count (is_of id email) rs ≡ 0 =
            rw (← x, ← y) (count-any (is_of i t) rs none_yet) in
          ground (arith, grown, zero_yet)
    ]

claim-IsFair :
    (id : ℕ) (email : Text) (now i : ℕ) (e : Text) (plan : Option Text) (expires : Option ℕ)
    (s : Promos)
    → IsFair id email s
    → IsFair id email (claim_redemption now i e plan expires s).0
unfolding claim_redemption
claim-IsFair id email now i e plan expires s (capped, single) =
    elim (Bool-cases (any (can_claim now i) s.promo_codes)) [
      | inr q ↦ rw q (capped, single)
      | inl q ↦ elim (Bool-cases (any (is_of i e) s.redemptions)) [
        | inl d ↦ rw (q, d) (capped, single)
        | inr d ↦
            rw (q, d)
              (
                map-IsCapped (count_up now i) s.promo_codes (count_up-IsCapped now i) capped,
                add-single id i email e _ s.redemptions refl refl d single,
              )
      ]
    ]

step-IsFair :
    (id : ℕ) (email : Text) (t : Step) (s : Promos) → IsFair id email s → IsFair id email (step t s)
unfolding step release_redemption
step-IsFair id email (release i e) s (capped, single) = (
  map-IsCapped (count_down i) s.promo_codes (count_down-IsCapped i) capped,
  omega (
    arith,
    count-keep-le (is_of id email) (λ (r : Redemption). not (is_of i e r)) s.redemptions,
    single,
  ),
)
step-IsFair id email (claim now i e plan expires) s h =
    claim-IsFair id email now i e plan expires s h

-- In whatever order requests claim codes and give claims back, from tables where no code is
-- redeemed over its cap and the account has the code once at most, both stay so.
pub run-IsFair :
    (id : ℕ) (email : Text) (ts : List Step) (s : Promos)
    → IsFair id email s
    → IsFair id email (run ts s)
unfolding run
run-IsFair id email [] s h = h
run-IsFair id email (t ∷ ts) s h = run-IsFair id email ts (step t s) (step-IsFair id email t s h)
