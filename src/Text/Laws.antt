-- ===== src/Text/Laws.antt =====
-- Equality of texts, and cutting a text at a unit.
use feedbase_backend.Base.{
  ℕ, ◌≡◌, ◌≢◌, ◌↔◌, refl, ap, true, false, [], ◌∷◌, ◌++◌, some, arith, All, Bool-cases,
  Option-cases, inl, inr, ◌==◌, ==_iff,
}
use feedbase_backend.Text.{Text, is_empty, eq_text, cut, trim, trim_start, trim_end, is_space}

pub eq_text_sound : (s t : Text) → eq_text s t ≡ true → s ≡ t
unfolding eq_text
eq_text_sound [] [] h = refl
eq_text_sound (a ∷ s) (b ∷ t) h = ground (arith, eq_text_sound s t)
eq_text_sound [] (b ∷ t) h = cc
eq_text_sound (a ∷ s) [] h = cc

pub eq_text_refl : (s : Text) → eq_text s s ≡ true
unfolding eq_text
eq_text_refl [] = refl
eq_text_refl (a ∷ s) = ground (arith, eq_text_refl s)

pub eq_text_iff : (s t : Text) → (eq_text s t ≡ true) ↔ (s ≡ t)
eq_text_iff s t = (eq_text_sound s t, λ e. rw e (eq_text_refl t))

-- A text without the unit is cut exactly at the unit that follows it.
pub cut-append : (d : ℕ) (s t : Text) → All (λ c. c ≢ d) s → cut d (s ++ d ∷ t) ≡ some (s, t)
unfolding cut
cut-append d [] t h = ground arith
cut-append d (c ∷ s) t (n, h) = ground (arith, cut-append d s t h)

pub cut_sound : (d : ℕ) (s a b : Text) → cut d s ≡ some (a, b) → s ≡ a ++ d ∷ b
unfolding cut
cut_sound d [] a b h = cc
cut_sound d (c ∷ s) a b h = elim (Bool-cases (c == d)) [
  | inl e ↦ ground (arith, ==_iff c d)
  | inr e ↦ elim (Option-cases (cut d s)) [
    | inl m ↦ ground arith
    | inr (p, m) ↦ ground (arith, cut_sound d s p.0 p.1)
  ]
]

trim_start_id : (s : Text) → All (λ c. is_space c ≡ false) s → trim_start s ≡ s
unfolding trim_start
trim_start_id [] h = refl
trim_start_id (c ∷ s) (p, h) = rw p

trim_end_id : (s : Text) → All (λ c. is_space c ≡ false) s → trim_end s ≡ s
unfolding trim_end
trim_end_id [] h = refl
trim_end_id (c ∷ s) (p, h) = rw p (ap (λ t. c ∷ t) (trim_end_id s h))

-- Trimming leaves a text without white space as it is.
pub trim_id : (s : Text) → All (λ c. is_space c ≡ false) s → trim s ≡ s
unfolding trim
trim_id s h = rw (trim_start_id s h) (trim_end_id s h)

pub All-append {ℓ} : (P : ℕ → Type ℓ) (s t : Text) → All P s → All P t → All P (s ++ t)
All-append P [] t h k = k
All-append P (c ∷ s) t (p, h) k = (p, All-append P s t h k)

pub is_empty-append : (s : Text) (d : ℕ) (t : Text) → is_empty (s ++ d ∷ t) ≡ false
is_empty-append [] d t = refl
is_empty-append (c ∷ s) d t = refl

pub ne_of_eq_text : (s t : Text) → eq_text s t ≡ false → s ≢ t
ne_of_eq_text s t h e = ground (arith, eq_text_iff s t)

-- No text is two that the test tells apart.
pub texts_apart : (s t id : Text) → eq_text s t ≡ false → some s ≡ some id → some t ≢ some id
texts_apart s t id h p q = ground (arith, eq_text_iff s t)
