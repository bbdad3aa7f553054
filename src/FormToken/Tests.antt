-- ===== src/FormToken/Tests.antt =====
-- Runs of the form token, with the constant digest "ab", and the theorems at concrete inputs.
use feedbase_backend.Base.{◌≡◌, ◌↔◌, ◌≤◌, ◌+◌, refl, true, [], ◌++◌, ◌∷◌, none, some, get_or}
use feedbase_backend.Env.{defaults}
use feedbase_backend.Text.{Text, codes, is_space, trim, eq_text, cut}
use feedbase_backend.Text.Decimal.{is_numeral, of_decimal}
use feedbase_backend.FormToken.{
  min_age_ms, max_age_ms, missing, malformed, bad_signature, too_fast, issue_form_token, judge_age,
  verify_form_token,
}
use feedbase_backend.FormToken.Verdicts.{verify-issue_iff, verify_sound}

abbrev ab : Text → Text
ab s = codes "ab"

reasons_test :
    ((verify_form_token defaults ab none 9000).reason ≡ some missing)
    × ((verify_form_token defaults ab (some (codes "7x.ab")) 9000).reason ≡ some malformed)
    × ((verify_form_token defaults ab (some (codes "7.cd")) 9000).reason ≡ some bad_signature)
    × ((verify_form_token defaults ab (some (codes " 7000.ab ")) 9000).reason ≡ some too_fast)
    × ((verify_form_token defaults ab (some (codes "6000.ab")) 9000).valid ≡ true)
unfolding verify_form_token judge_age trim eq_text cut is_numeral of_decimal is_space
reasons_test = (refl, refl, refl, refl, refl)

verify-issue_iff_example :
    ((verify_form_token defaults ab (some (issue_form_token defaults ab 6000)) 9000).valid ≡ true)
    ↔ ((6000 + min_age_ms defaults ≤ 9000) × (9000 ≤ 6000 + max_age_ms defaults))
unfolding is_space
verify-issue_iff_example = verify-issue_iff defaults ab 6000 9000 (refl, (refl, tt))

verify_sound_example :
    (issued_at : Text) × (trim (get_or (some (codes "6000.ab")) [])
      ≡ issued_at ++ b'.' ∷ ab issued_at)
    × (is_numeral issued_at ≡ true)
    × (of_decimal issued_at + min_age_ms defaults ≤ 9000)
    × (9000 ≤ of_decimal issued_at + max_age_ms defaults)
unfolding verify_form_token judge_age trim eq_text cut is_numeral of_decimal is_space
verify_sound_example = verify_sound defaults ab (some (codes "6000.ab")) 9000 refl
