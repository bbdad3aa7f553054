-- ===== src/Sessions/Tests.antt =====
-- Sign-ins on the free plan: one that is blocked, one after the idle time, and one that is forced.
use feedbase_backend.Base.{◌≡◌, ◌⊎◌, refl, true, false, [], ◌∷◌, none}
use feedbase_backend.Text.{codes, eq_text}
use feedbase_backend.Plans.{get_plan_limits}
use feedbase_backend.Plans.Usage.{get_tenant_plan}
use feedbase_backend.Tables.{Db, User, owner}
use feedbase_backend.Sessions.{
  Session, is_live, latest, get_live_session_for_email, revoke_sessions_for_email, create_session,
  is_session_active, allows_multi_device, blocked, started, gate, start_session,
}
use feedbase_backend.Sessions.OneDevice.{open_sessions, others, start_session-one_device}

abbrev db : Db
db = record { tenants = []; users = []; accounts = [] }

abbrev ann : User
ann = record {
  id = 1;
  tenant_id = none;
  email = codes "ann";
  full_name = codes "Ann";
  avatar_url = none;
  password_hash = none;
  role = owner;
  is_active = true;
}

abbrev phone : Session
phone = record {
  session_id = codes "s1";
  email = codes "ann";
  user_agent = none;
  ip_address = none;
  last_seen_at = 100;
  revoked_at = none;
}

gating : Unit {0}
unfolding start_session gate allows_multi_device get_live_session_for_email latest is_live
    revoke_sessions_for_email create_session is_session_active eq_text get_plan_limits
    get_tenant_plan
gating = tt

sign_in_test :
    ((start_session db ann false 999 (codes "s2") none none (phone ∷ [])).1 ≡ blocked phone)
    × ((start_session db ann false 1000 (codes "s2") none none (phone ∷ [])).1
        ≡ started (codes "s2"))
    × ((start_session db ann true 999 (codes "s2") none none (phone ∷ [])).1 ≡ started (codes "s2"))
unfolding gating
sign_in_test = (refl, refl, refl)

start_session-one_device_example :
    let c = start_session db ann true 999 (codes "s2") none none (phone ∷ []) in
    (((live : Session) × (c.1 ≡ blocked live) × (c.0 ≡ phone ∷ []) × (true ≡ false))
      ⊎ ((c.1 ≡ started (codes "s2"))
          × (open_sessions (codes "ann") c.0 ≡ 1)
          × (is_session_active (codes "s2") c.0 ≡ true)))
    × (others (codes "ann") c.0 ≡ others (codes "ann") (phone ∷ []))
unfolding allows_multi_device
start_session-one_device_example =
    start_session-one_device db ann true 999 (codes "s2") none none (phone ∷ []) refl refl
