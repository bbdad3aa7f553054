-- ===== src/Spam/Shape.antt =====
-- The measures of how a text looks, of common/spamScore.js. A ratio is a pair, numerator first.
use native.Mathlib.Decide.{dec_le}
use mathlib.Core.Path.{subst}
use feedbase_backend.Base.{
  ◌-◌, sym, ◌<◌, ◌≢◌, Bool-cases, ==_iff, ℕ, zero, suc, ◌*◌, ◌≤◌, Bool, not, ◌&&◌, ◌||◌, [], ◌∷◌,
  ltb, leb, ◌==◌, if◌then◌else◌, length, keep, ◌≡◌, ◌↔◌, refl, arith, ◌⊎◌, inl, inr,
}
use feedbase_backend.Text.{Text, is_space}

abbrev pub is_upper : ℕ → Bool
is_upper c = leb b'A' c && leb c b'Z'

abbrev pub is_letter : ℕ → Bool
is_letter c = (leb b'a' c && leb c b'z') || is_upper c

unfoldable pub caps_ratio : Text → ℕ × ℕ
caps_ratio text =
    let letters = keep is_letter text in
    if ltb (length letters) 12 then (0, 1) else (length (keep is_upper letters), length letters)

-- `ratio > tenths / 10`
abbrev pub above : ℕ → ℕ × ℕ → Bool
above tenths r = ltb (tenths * r.1) (10 * r.0)

-- The loop of `longestRepeatRun`, at the unit after `prev`.
run_loop : ℕ → ℕ → ℕ → Text → ℕ
run_loop prev best run [] = best
run_loop prev best run (c ∷ s) =
    let repeated = run_loop c (if ltb best (suc run) then suc run else best) (suc run) s in
    let fresh = run_loop c best 1 s in if c == prev then repeated else fresh

unfoldable pub longest_repeat_run : Text → ℕ
unfolding run_loop
longest_repeat_run [] = 0
longest_repeat_run (c ∷ s) = run_loop c 0 1 s

-- The range of LATIN_RANGE_RE.
abbrev pub is_latin : ℕ → Bool
is_latin c = (leb 0x20 c && leb c 0x24f) || (leb 0x2000 c && leb c 0x206f)

unfoldable pub non_latin_ratio : Text → ℕ × ℕ
unfolding is_space
non_latin_ratio text =
    let s = keep (λ c. not (is_space c)) text in
    if ltb (length s) 20 then (0, 1) else (length (keep (λ c. not (is_latin c)) s), length s)

-- `k` equal units stand side by side at the head of the text, the first being `c`.
abbrev pub StartsRun : ℕ → ℕ → Text → Type 0
StartsRun c zero s = Unit
StartsRun c (suc k) [] = ⊥
StartsRun c (suc k) (d ∷ s) = (d ≡ c) × StartsRun c k s

-- Somewhere in the text `k` equal units stand side by side.
abbrev pub HasRun : ℕ → Text → Type 0
HasRun k [] = ⊥
HasRun k (c ∷ s) = StartsRun c k (c ∷ s) ⊎ HasRun k s

StartsRun-cons :
    (c k run : ℕ) (s : Text) → StartsRun c (k - suc run) s → StartsRun c (k - run) (c ∷ s)
StartsRun-cons c k run s h = elim (dec_le k run) [
  | yes p ↦ let e : k - run ≡ 0 = omega arith in rw e tt
  | no p ↦ let e : k - run ≡ suc (k - suc run) = omega arith in rw e (refl, h)
]

StartsRun-tail :
    (c d k run : ℕ) (s : Text) → StartsRun c (k - run) (d ∷ s) → StartsRun c (k - suc run) s
StartsRun-tail c d k run s r = elim (dec_le k run) [
  | yes p ↦ let e : k - suc run ≡ 0 = omega arith in rw e tt
  | no p ↦ let e : k - run ≡ suc (k - suc run) = omega arith in (rw e at r).1
]

StartsRun-head : (c d k run : ℕ) (s : Text) → run < k → StartsRun c (k - run) (d ∷ s) → d ≡ c
StartsRun-head c d k run s h r = let e : k - run ≡ suc (k - suc run) = omega arith in (rw e at r).0

StartsRun-full : (c k : ℕ) (s : Text) → StartsRun c (k - 1) s → StartsRun c k (c ∷ s)
StartsRun-full c k s r =
    let e : k - 0 ≡ k = omega arith in
    subst (λ n. StartsRun c n (c ∷ s)) e (StartsRun-cons c k 0 s r)

StartsRun-rest : (c k : ℕ) (s : Text) → StartsRun c k (c ∷ s) → StartsRun c (k - 1) s
StartsRun-rest c k s r =
    let e : k ≡ k - 0 = omega arith in
    StartsRun-tail c c k 0 s (subst (λ n. StartsRun c n (c ∷ s)) e r)

StartsRun-le : (c m n : ℕ) (s : Text) → m ≤ n → StartsRun c n s → StartsRun c m s
StartsRun-le c zero n s h r = tt
StartsRun-le c (suc m) zero s h r = absurd (omega arith)
StartsRun-le c (suc m) (suc n) [] h r = r
StartsRun-le c (suc m) (suc n) (d ∷ s) h (e, r) = (e, StartsRun-le c m n s (omega arith) r)

-- What the rest of the loop still finds: a best so far, the current run, or a later one.
abbrev Finds : ℕ → ℕ → ℕ → ℕ → Text → Type 0
Finds k prev best run s = (k ≤ best) ⊎ StartsRun prev (k - run) s ⊎ HasRun k s

abbrev better : ℕ → ℕ → ℕ
better best run = if ltb best run then run else best

Finds-same_back :
    (k c best run : ℕ) (s : Text)
    → Finds k c (better best (suc run)) (suc run) s
    → Finds k c best run (c ∷ s)
Finds-same_back k c best run s (inl h) = elim (dec_le k best) [
  | yes p ↦ inl p
  | no p ↦ let e : k - suc run ≡ 0 = ground arith in inr (inl (StartsRun-cons c k run s (rw e tt)))
]
Finds-same_back k c best run s (inr (inl r)) = inr (inl (StartsRun-cons c k run s r))
Finds-same_back k c best run s (inr (inr h)) = inr (inr (inr h))

Finds-same_on :
    (k c best run : ℕ) (s : Text)
    → Finds k c best run (c ∷ s)
    → Finds k c (better best (suc run)) (suc run) s
Finds-same_on k c best run s (inl h) = inl (ground arith)
Finds-same_on k c best run s (inr (inl r)) = inr (inl (StartsRun-tail c c k run s r))
Finds-same_on k c best run s (inr (inr (inl r))) =
    inr (inl (StartsRun-le c _ (k - 1) s (omega arith) (StartsRun-rest c k s r)))
Finds-same_on k c best run s (inr (inr (inr h))) = inr (inr h)

Finds-new_back :
    (k prev c best run : ℕ) (s : Text) → Finds k c best 1 s → Finds k prev best run (c ∷ s)
Finds-new_back k prev c best run s (inl h) = inl h
Finds-new_back k prev c best run s (inr (inl r)) = inr (inr (inl (StartsRun-full c k s r)))
Finds-new_back k prev c best run s (inr (inr h)) = inr (inr (inr h))

Finds-new_on :
    (k prev c best run : ℕ) (s : Text)
    → 2 ≤ k
    → c ≢ prev
    → (run ≤ best) ⊎ (run ≡ 1)
    → Finds k prev best run (c ∷ s)
    → Finds k c best 1 s
Finds-new_on k prev c best run s two ne known (inl h) = inl h
Finds-new_on k prev c best run s two ne known (inr (inl r)) = elim (dec_le k run) [
  | yes p ↦ inl (omega arith)
  | no p ↦ absurd (ne (StartsRun-head prev c k run s (omega arith) r))
]
Finds-new_on k prev c best run s two ne known (inr (inr (inl r))) =
    inr (inl (StartsRun-rest c k s r))
Finds-new_on k prev c best run s two ne known (inr (inr (inr h))) = inr (inr h)

run_loop_sound :
    (k prev best run : ℕ) (s : Text) → k ≤ run_loop prev best run s → Finds k prev best run s
unfolding run_loop
run_loop_sound k prev best run [] h = inl h
run_loop_sound k prev best run (c ∷ s) h = elim (Bool-cases (c == prev)) [
  | inl e ↦
      let same = (==_iff c prev).0 e in
      subst (λ p. Finds k p best run (c ∷ s)) same
        (Finds-same_back k c best run s (run_loop_sound k c _ (suc run) s (rw e at h)))
  | inr e ↦ Finds-new_back k prev c best run s (run_loop_sound k c best 1 s (rw e at h))
]

run_loop_complete :
    (k prev best run : ℕ) (s : Text)
    → 2 ≤ k
    → (run ≤ best) ⊎ (run ≡ 1)
    → Finds k prev best run s
    → k ≤ run_loop prev best run s
unfolding run_loop
run_loop_complete k prev best run [] two known (inl h) = h
run_loop_complete k prev best run [] two known (inr (inl r)) = elim (dec_le k run) [
  | yes p ↦ omega arith
  | no p ↦ let e : k - run ≡ suc (k - suc run) = omega arith in absurd (rw e at r)
]
run_loop_complete k prev best run [] two known (inr (inr h)) = absurd h
run_loop_complete k prev best run (c ∷ s) two known f = elim (Bool-cases (c == prev)) [
  | inl e ↦
      let same = (==_iff c prev).0 e in
      rw e (
        run_loop_complete k c _ (suc run) s two (inl (ground arith))
          (Finds-same_on k c best run s (subst (λ p. Finds k p best run (c ∷ s)) (sym same) f)))
  | inr e ↦ rw e (
      run_loop_complete k c best 1 s two (inr refl)
        (Finds-new_on k prev c best run s two (λ q. ground (arith, ==_iff c prev)) known f))
]

-- From two on, the result reaches `k` exactly when the text has `k` equal units side by side.
pub longest_repeat_run_iff : (k : ℕ) (s : Text) → 2 ≤ k → (k ≤ longest_repeat_run s) ↔ HasRun k s
unfolding longest_repeat_run
longest_repeat_run_iff k [] two = (λ h. omega arith, λ h. absurd h)
longest_repeat_run_iff k (c ∷ s) two = (there, back)
  where
    there : k ≤ run_loop c 0 1 s → HasRun k (c ∷ s)
    there h = ground (arith, run_loop_sound k c 0 1 s h, StartsRun-full c k s)

    back : HasRun k (c ∷ s) → k ≤ run_loop c 0 1 s
    back (inl r) = run_loop_complete k c 0 1 s two (inr refl) (inr (inl (StartsRun-rest c k s r)))
    back (inr h) = run_loop_complete k c 0 1 s two (inr refl) (inr (inr h))
