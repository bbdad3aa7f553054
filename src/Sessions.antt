-- ===== src/Sessions.antt =====
-- common/sessions.js: device sessions, and "one device at a time". Times are seconds, `now` is
-- `NOW()`, and `sid` is the id that `crypto.randomBytes` gives. A request's user agent and address
-- are arguments.
pub mod OneDevice
mod Tests
use feedbase_backend.Base.{
  ℕ, suc, ◌+◌, ◌*◌, Bool, true, false, not, ◌&&◌, List, [], ◌∷◌, ◌++◌, map, Option, none, some, ltb,
  if◌then◌else◌, keep, count, any, take, is_some,
}
use feedbase_backend.Text.{Text, eq_text, is_empty}
use feedbase_backend.Plans.{get_plan_limits}
use feedbase_backend.Plans.Usage.{get_tenant_plan}
use feedbase_backend.Tables.{Db, User}

pub record Session : Type 0 where
  pub session_id : Text
  pub email : Text
  pub user_agent : Option Text
  pub ip_address : Option Text
  pub last_seen_at : ℕ
  pub revoked_at : Option ℕ

abbrev pub idle_seconds : ℕ
idle_seconds = 15 * 60

abbrev pub is_unrevoked : Session → Bool
is_unrevoked s = not (is_some s.revoked_at)

-- LIVE_WHERE
unfoldable pub is_live : ℕ → Session → Bool
is_live now s = is_unrevoked s && ltb now (s.last_seen_at + idle_seconds)

-- `clip`
abbrev pub clip : Option Text → ℕ → Option Text
clip none n = none
clip (some []) n = none
clip (some (c ∷ s)) n = some (take n (c ∷ s))

-- ORDER BY last_seen_at DESC LIMIT 1
unfoldable pub latest : List Session → Option Session
latest [] = none
latest (s ∷ ss) = elim (latest ss) [
  | none ↦ some s
  | some t ↦ some (if ltb s.last_seen_at t.last_seen_at then t else s)
]

unfoldable pub get_live_session_for_email : ℕ → Text → List Session → Option Session
get_live_session_for_email now email ss =
    latest (keep (λ s. eq_text s.email email && is_live now s) ss)

abbrev pub revoke : ℕ → Session → Session
revoke now s = record s { revoked_at = some now }

unfoldable pub revoke_sessions_for_email : ℕ → Text → List Session → List Session
revoke_sessions_for_email now email ss =
    map (λ s. if eq_text s.email email && is_unrevoked s then revoke now s else s) ss

unfoldable pub revoke_session : ℕ → Text → List Session → List Session
revoke_session now sid ss =
    if is_empty sid
    then ss
    else map (λ s. if eq_text s.session_id sid && is_unrevoked s then revoke now s else s) ss

unfoldable pub create_session :
    ℕ → Text → Text → Option Text → Option Text → List Session → List Session
create_session now sid email agent ip ss =
    ss
    ++ record {
      session_id = sid;
      email = email;
      user_agent = clip agent 255;
      ip_address = clip ip 64;
      last_seen_at = now;
      revoked_at = none;
    }
      ∷ []

unfoldable pub is_session_active : Text → List Session → Bool
is_session_active sid ss =
    not (is_empty sid) && any (λ s. eq_text s.session_id sid && is_unrevoked s) ss

unfoldable pub touch_session : ℕ → Text → List Session → List Session
touch_session now sid ss =
    if is_empty sid
    then ss
    else map
        (λ s.
          if eq_text s.session_id sid && is_unrevoked s && ltb (s.last_seen_at + 60) now
          then record s { last_seen_at = now }
          else s)
        ss

unfoldable pub allows_multi_device : Db → Option ℕ → Bool
allows_multi_device db none = false
allows_multi_device db (some tenant_id) =
    (get_plan_limits (get_tenant_plan db tenant_id)).multi_device

-- What `startSession` resolves to.
pub data Start : Type 0 where
  blocked : Session → Start
  started : Text → Start

module _ (db : Db) (user : User) (force : Bool) (now : ℕ) (sid : Text)
    (agent ip : Option Text) where
  -- The sessions once the gate has let the sign-in pass, or the session that blocks it.
  unfoldable pub gate : List Session → List Session × Option Session
  gate ss =
      if allows_multi_device db user.tenant_id
      then (ss, none)
      else if force
      then (revoke_sessions_for_email now user.email ss, none)
      else elim (get_live_session_for_email now user.email ss) [
        | some live ↦ (ss, some live)
        | none ↦ (revoke_sessions_for_email now user.email ss, none)
      ]

  unfoldable pub start_session : List Session → List Session × Start
  start_session ss =
      let (ss', live) = gate ss in
      elim live [
        | some s ↦ (ss', blocked s)
        | none ↦ (create_session now sid user.email agent ip ss', started sid)
      ]
