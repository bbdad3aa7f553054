-- ===== src/FormToken.antt =====
-- common/formToken.js: signed tokens that show that a form was loaded, and when.
-- `crypto.createHmac("sha256", SECRET)` with its hex digest is the parameter `hmac`; times are
-- milliseconds. A timestamp is exact below 2 ^ 53, as a JavaScript number is.
pub mod Verdicts
mod Tests
use feedbase_backend.Base.{
  ℕ, ◌+◌, ◌*◌, Bool, true, false, not, ◌||◌, [], ◌∷◌, ◌++◌, Option, none, some, ltb, if◌then◌else◌,
  get_or,
}
use feedbase_backend.Base.Int.{ℤ, sub_ℕ}
use feedbase_backend.Env.{Env, setting}
use feedbase_backend.Text.{Text, eq_text, is_empty, trim, cut}
use feedbase_backend.Text.Decimal.{to_decimal, of_decimal, is_numeral}

pub data Reason : Type 0 where
  missing malformed bad_signature too_fast expired : Reason

pub record Verdict : Type 0 where
  pub valid : Bool
  pub reason : Option Reason
  pub age_ms : Option ℤ

abbrev pub min_age_ms : Env → ℕ
min_age_ms env = setting env.form_token_min_age_ms 3000

abbrev pub max_age_ms : Env → ℕ
max_age_ms env = setting env.form_token_max_age_ms (24 * 60 * 60 * 1000)

abbrev rejected : Reason → Verdict
rejected r = record { valid = false; reason = some r; age_ms = none }

module _ (env : Env) (hmac : Text → Text) where
  unfoldable pub issue_form_token : ℕ → Text
  issue_form_token now = to_decimal now ++ b'.' ∷ hmac (to_decimal now)

  -- The two tests on the age, `now - Number(issuedAt)`, which may be negative.
  unfoldable pub judge_age : ℕ → ℕ → Verdict
  judge_age issued now =
      let age = sub_ℕ now issued in
      if ltb now (issued + min_age_ms env)
      then record { valid = false; reason = some too_fast; age_ms = some age }
      else if ltb (issued + max_age_ms env) now
      then record { valid = false; reason = some expired; age_ms = some age }
      else record { valid = true; reason = none; age_ms = some age }

  judge_parts : Text → Text → ℕ → Verdict
  judge_parts issued_at sig now =
      if is_empty issued_at || not (is_numeral issued_at)
      then rejected malformed
      else if not (eq_text sig (hmac issued_at))
      then rejected bad_signature
      else judge_age (of_decimal issued_at) now

  unfoldable pub verify_form_token : Option Text → ℕ → Verdict
  unfolding judge_parts
  verify_form_token token now =
      let raw = trim (get_or token []) in
      if is_empty raw then rejected missing else elim (cut b'.' raw) [
        | none ↦ rejected malformed
        | some (issued_at, sig) ↦ judge_parts issued_at sig now
      ]
