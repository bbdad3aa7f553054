-- ===== src/FormToken/Verdicts.antt =====
-- Which tokens are accepted.
use feedbase_backend.Base.{
  ℕ, ◌+◌, ◌≤◌, ◌≡◌, ◌↔◌, refl, true, false, [], ◌∷◌, ◌++◌, Option, some, arith, All, get_or,
  Option-cases, inl, inr,
}
use feedbase_backend.Env.{Env}
use feedbase_backend.Text.{Text, is_space, trim, cut}
use feedbase_backend.Text.Laws.{
  eq_text_iff, eq_text_refl, is_empty-append, cut-append, cut_sound, trim_id, All-append,
}
use feedbase_backend.Text.Decimal.{
  to_decimal, of_decimal, is_numeral, to_decimal-is_numeral, to_decimal-All-ne,
  to_decimal-All-not_space, of_decimal-to_decimal,
}
use feedbase_backend.FormToken.{
  min_age_ms, max_age_ms, issue_form_token, judge_age, judge_parts, verify_form_token,
}

module _ (env : Env) (hmac : Text → Text) where
  judge_age-valid_iff :
      (issued now : ℕ)
      → ((judge_age env hmac issued now).valid ≡ true)
        ↔ ((issued + min_age_ms env ≤ now) × (now ≤ issued + max_age_ms env))
  unfolding judge_age
  judge_age-valid_iff issued now = ground arith

  trim-issue :
      (n : ℕ)
      → All (λ c. is_space c ≡ false) (hmac (to_decimal n))
      → trim (issue_form_token env hmac n) ≡ to_decimal n ++ b'.' ∷ hmac (to_decimal n)
  unfolding issue_form_token is_space
  trim-issue n hex =
      let plain : ℕ → Type 0 = λ c. is_space c ≡ false in
      trim_id _ (All-append plain (to_decimal n) _ (to_decimal-All-not_space n) (refl, hex))

  verify-issue :
      (n now : ℕ)
      → All (λ c. is_space c ≡ false) (hmac (to_decimal n))
      → verify_form_token env hmac (some (issue_form_token env hmac n)) now
        ≡ judge_age env hmac n now
  unfolding verify_form_token is_numeral
  verify-issue n now hex =
      let parts =
        cut-append b'.' (to_decimal n) (hmac (to_decimal n))
          (to_decimal-All-ne n b'.' (omega arith)) in
      ground (
        arith,
        trim-issue n hex,
        is_empty-append (to_decimal n) b'.' (hmac (to_decimal n)),
        parts,
        to_decimal-is_numeral n,
        of_decimal-to_decimal n,
        eq_text_refl (hmac (to_decimal n)),
      )

  -- A token that was issued is accepted exactly while its age is within the two bounds, both
  -- included, provided that the digest holds no white space.
  pub verify-issue_iff :
      (issued now : ℕ)
      → All (λ c. is_space c ≡ false) (hmac (to_decimal issued))
      → ((verify_form_token env hmac (some (issue_form_token env hmac issued)) now).valid ≡ true)
        ↔ ((issued + min_age_ms env ≤ now) × (now ≤ issued + max_age_ms env))
  verify-issue_iff issued now hex =
      rw (verify-issue issued now hex) (judge_age-valid_iff issued now)

  judge_parts_sound :
      (a b : Text) (now : ℕ)
      → (judge_parts env hmac a b now).valid ≡ true
      → (b ≡ hmac a)
        × (is_numeral a ≡ true)
        × (of_decimal a + min_age_ms env ≤ now)
        × (now ≤ of_decimal a + max_age_ms env)
  unfolding judge_parts judge_age
  judge_parts_sound a b now h = ground (arith, eq_text_iff b (hmac a))

  -- Every token that is accepted is, up to white space around it, a numeral, a dot and the digest
  -- of that numeral, and the time that the numeral names lies within the two bounds.
  pub verify_sound :
      (token : Option Text) (now : ℕ)
      → (verify_form_token env hmac token now).valid ≡ true
      → (issued_at : Text) × (trim (get_or token []) ≡ issued_at ++ b'.' ∷ hmac issued_at)
        × (is_numeral issued_at ≡ true)
        × (of_decimal issued_at + min_age_ms env ≤ now)
        × (now ≤ of_decimal issued_at + max_age_ms env)
  unfolding verify_form_token
  verify_sound token now h = elim (Option-cases (cut b'.' (trim (get_or token [])))) [
    | inl e ↦ ground arith
    | inr ((a, b), e) ↦
        let (sig, numeral, from, to) = judge_parts_sound a b now (ground arith) in
        (a, rw (← sig) (cut_sound b'.' _ a b e), numeral, from, to)
  ]
