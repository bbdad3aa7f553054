-- ===== src/Counters.antt =====
-- common/writeCounters.js: fixed-window burst caps on public writes. The table holds a count for a
-- scope key and a window start; times are milliseconds, and a window start, which the server
-- formats as a date, is kept as a number. The upserts of one request run one after the other.
pub mod Cap
mod Tests
use feedbase_backend.Base.{
  ℕ, suc, ◌+◌, ◌*◌, ◌/◌, Bool, true, false, ◌&&◌, List, [], ◌∷◌, ◌++◌, Option, none, some, ltb,
  ◌==◌, if◌then◌else◌, take, find,
}
use feedbase_backend.Env.{Env, setting}
use feedbase_backend.Text.{Text, codes, eq_text}
use feedbase_backend.Text.Decimal.{to_decimal}

pub record Row : Type 0 where
  pub scope_key : Text
  pub window_start : ℕ
  pub hits : ℕ

abbrev pub hour_ms : ℕ
hour_ms = 60 * 60 * 1000

abbrev pub day_ms : ℕ
day_ms = 24 * 60 * 60 * 1000

abbrev pub per_voter_per_tenant_hour : Env → ℕ
per_voter_per_tenant_hour env = setting env.spam_cap_voter_hour 10

abbrev pub per_tenant_hour : Env → ℕ
per_tenant_hour env = setting env.spam_cap_tenant_hour 60

abbrev pub per_email_domain_day : Env → ℕ
per_email_domain_day env = setting env.spam_cap_domain_day 30

unfoldable pub window_start : ℕ → ℕ → ℕ
window_start size now = now / size * size

abbrev pub is_row : Text → ℕ → Row → Bool
is_row key start r = eq_text r.scope_key key && r.window_start == start

-- INSERT … ON DUPLICATE KEY UPDATE, for the primary key (scope_key, window_start): the new table
-- and the count that includes this request.
unfoldable pub upsert : Text → ℕ → List Row → List Row × ℕ
upsert key start [] = (record { scope_key = key; window_start = start; hits = 1 } ∷ [], 1)
upsert key start (r ∷ rs) =
    let (rs', n) = upsert key start rs in
    if is_row key start r then (record r { hits = suc r.hits } ∷ rs, suc r.hits) else (r ∷ rs', n)

unfoldable pub bump : ℕ → Text → ℕ → List Row → List Row × ℕ
bump now key size rows = upsert (take 100 key) (window_start size now) rows

pub data Scope : Type 0 where
  voter_hour tenant_hour domain_day : Scope

pub record Check : Type 0 where
  pub key : Text
  pub size : ℕ
  pub max : ℕ
  pub scope : Scope

pub record Request : Type 0 where
  pub now : ℕ
  pub tenant_id : ℕ
  pub voter_hash : Option Text
  pub email_domain : Option Text

abbrev pub tenant_key : ℕ → Text
tenant_key tenant_id = codes "t:" ++ to_decimal tenant_id

-- An empty text is falsy, like a missing one.
unfoldable pub voter_checks : Env → ℕ → Option Text → List Check
voter_checks env tenant_id none = []
voter_checks env tenant_id (some []) = []
voter_checks env tenant_id (some (c ∷ s)) =
    record {
      key = codes "v:" ++ (c ∷ s) ++ codes ":" ++ to_decimal tenant_id;
      size = hour_ms;
      max = per_voter_per_tenant_hour env;
      scope = voter_hour;
    }
    ∷ []

unfoldable pub tenant_check : Env → ℕ → Check
tenant_check env tenant_id = record {
  key = tenant_key tenant_id;
  size = hour_ms;
  max = per_tenant_hour env;
  scope = tenant_hour;
}

unfoldable pub domain_checks : Env → ℕ → Option Text → List Check
domain_checks env tenant_id none = []
domain_checks env tenant_id (some []) = []
domain_checks env tenant_id (some (c ∷ s)) =
    record {
      key = codes "d:" ++ (c ∷ s) ++ codes ":" ++ to_decimal tenant_id;
      size = day_ms;
      max = per_email_domain_day env;
      scope = domain_day;
    }
    ∷ []

-- Every counter is bumped; the first check whose count exceeds its cap is reported.
unfoldable pub run_checks : ℕ → List Check → List Row → List Row × Option Scope
run_checks now [] rows = (rows, none)
run_checks now (c ∷ cs) rows =
    let (rows', n) = bump now c.key c.size rows in
    let (rows'', later) = run_checks now cs rows' in
    (rows'', if ltb c.max n then some c.scope else later)

-- `chargePublicWrite`: the table and the scope that tripped, `none` for `ok`. Where the table is
-- out of reach (`up` is false) it fails open.
unfoldable pub charge_public_write : Env → Bool → Request → List Row → List Row × Option Scope
charge_public_write env up r rows =
    let checks =
      voter_checks env r.tenant_id r.voter_hash
      ++ tenant_check env r.tenant_id ∷ domain_checks env r.tenant_id r.email_domain in
    if up then run_checks r.now checks rows else (rows, none)
