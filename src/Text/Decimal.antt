-- ===== src/Text/Decimal.antt =====
-- Decimal numerals: `String(n)` for a non-negative integer and `Number(s)` for a text of digits.
use feedbase_backend.Base.{
  ℕ, ◌+◌, ◌-◌, ◌*◌, ◌/◌, ◌%◌, ◌<◌, suc, zero, ◌≡◌, refl, ◌∙◌, ap, ◌≢◌, Bool, true, false, not, ◌&&◌,
  [], ◌∷◌, arith, All, ltb, if◌then◌else◌, Bool-cases, inl, inr,
}
use feedbase_backend.Text.{Text, is_digit, is_empty, is_space}

-- The digits of `n`, put before `rest`. `f` bounds their number; `n` is more than enough.
digits_onto : ℕ → ℕ → Text → Text
digits_onto zero n rest = rest
digits_onto (suc f) n rest =
    let rest' = (b'0' + n % 10) ∷ rest in
    let more = digits_onto f (n / 10) rest' in if ltb n 10 then rest' else more

unfoldable pub to_decimal : ℕ → Text
unfolding digits_onto
to_decimal n = digits_onto (suc n) n []

value_from : ℕ → Text → ℕ
value_from acc [] = acc
value_from acc (c ∷ s) = value_from (acc * 10 + (c - b'0')) s

-- `Number(s)`, for a text of digits below 2 ^ 53.
unfoldable pub of_decimal : Text → ℕ
unfolding value_from
of_decimal s = value_from 0 s

unfoldable pub all_digits : Text → Bool
all_digits [] = true
all_digits (c ∷ s) = is_digit c && all_digits s

-- `/^\d+$/.test(s)`
unfoldable pub is_numeral : Text → Bool
unfolding all_digits
is_numeral s = not (is_empty s) && all_digits s

digit-not_space : (d : ℕ) → d < 10 → is_space (b'0' + d) ≡ false
unfolding is_space
digit-not_space d h = ground arith

module _ {ℓ} (P : Text → Type ℓ)
    (put : (d : ℕ) (s : Text) → d < 10 → P s → P ((b'0' + d) ∷ s)) where
  -- A property that every digit in front keeps.
  digits_onto-keeps : (f n : ℕ) (rest : Text) → P rest → P (digits_onto f n rest)
  unfolding digits_onto
  digits_onto-keeps zero n rest h = h
  digits_onto-keeps (suc f) n rest h = elim (Bool-cases (ltb n 10)) [
    | inl e ↦ rw e (put (n % 10) rest (omega arith) h)
    | inr e ↦ rw e (digits_onto-keeps f (n / 10) _ (put (n % 10) rest (omega arith) h))
  ]

pub to_decimal-is_numeral : (n : ℕ) → is_numeral (to_decimal n) ≡ true
unfolding is_numeral to_decimal
to_decimal-is_numeral n = ground (arith, digits, full)
  where
    digits : all_digits (digits_onto (suc n) n []) ≡ true
    digits =
        digits_onto-keeps (λ s. all_digits s ≡ true) (λ d s h k. ground arith) (suc n) n [] refl

    full : is_empty (digits_onto (suc n) n []) ≡ false
    full = elim (Bool-cases (ltb n 10)) [
      | inl e ↦ rw e
      | inr e ↦ rw e (digits_onto-keeps (λ s. is_empty s ≡ false) (λ d s h k. refl) n _ _ refl)
    ]

-- No digit is another character.
pub to_decimal-All-ne : (n d : ℕ) → d < b'0' → All (λ c. c ≢ d) (to_decimal n)
unfolding to_decimal
to_decimal-All-ne n d h =
    digits_onto-keeps (All (λ c. c ≢ d)) (λ k s p q. (omega arith, q)) (suc n) n [] tt

-- No digit is white space.
pub to_decimal-All-not_space : (n : ℕ) → All (λ c. is_space c ≡ false) (to_decimal n)
unfolding to_decimal
to_decimal-All-not_space n =
    digits_onto-keeps (All (λ c. is_space c ≡ false)) (λ k s p q. (digit-not_space k p, q)) (suc n)
      n [] tt

value_from-digits_onto :
    (f n : ℕ) (rest : Text) → n < f → value_from 0 (digits_onto f n rest) ≡ value_from n rest
unfolding value_from digits_onto
value_from-digits_onto zero n rest h = elim h [ ]
value_from-digits_onto (suc f) n rest h = elim (Bool-cases (ltb n 10)) [
  | inl e ↦ rw e (ap (λ k. value_from k rest) (ground arith))
  | inr e ↦ rw e (
      value_from-digits_onto f (n / 10) _ (ground arith)
      ∙ ap (λ k. value_from k rest) (omega arith))
]

-- Reading back what was printed.
pub of_decimal-to_decimal : (n : ℕ) → of_decimal (to_decimal n) ≡ n
unfolding of_decimal to_decimal
of_decimal-to_decimal n = value_from-digits_onto (suc n) n [] (omega arith)

print_test : to_decimal 1048 ≡ b'1' ∷ b'0' ∷ b'4' ∷ b'8' ∷ []
unfolding to_decimal
print_test = refl
