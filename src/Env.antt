-- ===== src/Env.antt =====
-- The numeric settings that the server reads from `process.env` when it starts, each in the form
-- `Number(process.env.NAME) || fallback`. `none` is a variable that is unset or not a number;
-- negative and fractional settings are not modelled.
use feedbase_backend.Base.{ℕ, zero, suc, ◌<◌, Option, none, some, arith}

pub record Env : Type 0 where
  pub form_token_min_age_ms : Option ℕ
  pub form_token_max_age_ms : Option ℕ
  pub spam_score_hide : Option ℕ
  pub spam_score_flag : Option ℕ
  pub spam_cap_voter_hour : Option ℕ
  pub spam_cap_tenant_hour : Option ℕ
  pub spam_cap_domain_day : Option ℕ
  pub spam_retention_days : Option ℕ
  pub cache_max_entries : Option ℕ
  pub max_items_per_page : Option ℕ
  pub max_page_number : Option ℕ

-- `Number(x) || fallback`: zero is falsy too.
abbrev pub setting : Option ℕ → ℕ → ℕ
setting none fallback = fallback
setting (some zero) fallback = fallback
setting (some (suc n)) fallback = suc n

pub setting-pos : (o : Option ℕ) (n : ℕ) → 0 < n → 0 < setting o n
setting-pos none n h = h
setting-pos (some zero) n h = h
setting-pos (some (suc m)) n h = omega arith

-- No variable is set.
abbrev pub defaults : Env
defaults = record {
  form_token_min_age_ms = none;
  form_token_max_age_ms = none;
  spam_score_hide = none;
  spam_score_flag = none;
  spam_cap_voter_hour = none;
  spam_cap_tenant_hour = none;
  spam_cap_domain_day = none;
  spam_retention_days = none;
  cache_max_entries = none;
  max_items_per_page = none;
  max_page_number = none;
}
