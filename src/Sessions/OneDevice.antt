-- ===== src/Sessions/OneDevice.antt =====
-- One device at a time: what a sign-in leaves.
use feedbase_backend.Base.{
  ℕ, suc, ◌≡◌, ◌⊎◌, inl, inr, refl, ◌∙◌, ap, Bool, true, false, List, [], ◌∷◌, Option, none, some,
  arith, count, keep, Bool-cases, Option-cases, not, ◌&&◌,
}
use feedbase_backend.Text.{Text, eq_text, is_empty}
use feedbase_backend.Text.Laws.{eq_text_refl}
use feedbase_backend.Tables.{Db, User}
use feedbase_backend.Sessions.{
  Session, is_unrevoked, get_live_session_for_email, revoke_sessions_for_email, create_session,
  is_session_active, allows_multi_device, Start, blocked, started, gate, start_session,
}

-- How many sessions of an account are not revoked.
abbrev pub open_sessions : Text → List Session → ℕ
open_sessions email ss = count (λ s. eq_text s.email email && is_unrevoked s) ss

-- The sessions of every other account.
abbrev pub others : Text → List Session → List Session
others email ss = keep (λ s. not (eq_text s.email email)) ss

open_sessions-revoke :
    (now : ℕ) (email : Text) (ss : List Session)
    → open_sessions email (revoke_sessions_for_email now email ss) ≡ 0
unfolding revoke_sessions_for_email
open_sessions-revoke now email [] = refl
open_sessions-revoke now email (s ∷ ss) = ground (arith, open_sessions-revoke now email ss)

others-revoke :
    (now : ℕ) (email : Text) (ss : List Session)
    → others email (revoke_sessions_for_email now email ss) ≡ others email ss
unfolding revoke_sessions_for_email
others-revoke now email [] = refl
others-revoke now email (s ∷ ss) = ground (arith, others-revoke now email ss)

module _ (now : ℕ) (sid email : Text) (agent ip : Option Text) where
  open_sessions-create :
      (ss : List Session)
      → open_sessions email (create_session now sid email agent ip ss)
        ≡ suc (open_sessions email ss)
  unfolding create_session
  open_sessions-create [] = ground (arith, eq_text_refl email)
  open_sessions-create (s ∷ ss) = ground (arith, open_sessions-create ss)

  others-create :
      (ss : List Session)
      → others email (create_session now sid email agent ip ss) ≡ others email ss
  unfolding create_session
  others-create [] = ground (arith, eq_text_refl email)
  others-create (s ∷ ss) = ground (arith, others-create ss)

  is_session_active-create :
      (ss : List Session)
      → is_empty sid ≡ false
      → is_session_active sid (create_session now sid email agent ip ss) ≡ true
  unfolding is_session_active create_session
  is_session_active-create [] h = ground (arith, eq_text_refl sid)
  is_session_active-create (s ∷ ss) h = ground (arith, is_session_active-create ss h)

module _ (db : Db) (user : User) (force : Bool) (now : ℕ) (sid : Text) (agent ip : Option Text)
    (ss : List Session) where
  abbrev call : List Session × Start
  call = start_session db user force now sid agent ip ss

  abbrev taken_over : List Session
  taken_over =
      create_session now sid user.email agent ip (revoke_sessions_for_email now user.email ss)

  gate_cases :
      allows_multi_device db user.tenant_id ≡ false
      → ((live : Session) × (gate db user force now sid agent ip ss ≡ (ss, some live))
          × (force ≡ false))
        ⊎ (gate db user force now sid agent ip ss
            ≡ (revoke_sessions_for_email now user.email ss, none))
  unfolding gate
  gate_cases single = elim (Bool-cases force) [
    | inl e ↦ inr (rw (single, e) refl)
    | inr e ↦ elim (Option-cases (get_live_session_for_email now user.email ss)) [
      | inl q ↦ inr (ground arith)
      | inr (live, q) ↦ inl (live, ground arith, e)
    ]
  ]

  start_cases :
      allows_multi_device db user.tenant_id ≡ false
      → ((live : Session) × (call ≡ (ss, blocked live)) × (force ≡ false))
        ⊎ (call ≡ (taken_over, started sid))
  unfolding start_session
  start_cases single = elim (gate_cases single) [
    | inl (live, e, f) ↦ inl (live, ground (arith, e), f)
    | inr e ↦ inr (ground (arith, e))
  ]

  -- On a single-device plan a sign-in either is blocked, which changes nothing and happens only
  -- without `force`, or leaves exactly one session of the account that is not revoked, and the new
  -- session is active. The sessions of other accounts stay as they are.
  pub start_session-one_device :
      allows_multi_device db user.tenant_id ≡ false
      → is_empty sid ≡ false
      → (((live : Session) × (call.1 ≡ blocked live) × (call.0 ≡ ss) × (force ≡ false))
          ⊎ ((call.1 ≡ started sid)
              × (open_sessions user.email call.0 ≡ 1)
              × (is_session_active sid call.0 ≡ true)))
        × (others user.email call.0 ≡ others user.email ss)
  start_session-one_device single full = elim (start_cases single) [
    | inl (live, e, f) ↦
        (inl (live, ap (λ p. p.1) e, ap (λ p. p.0) e, f), ap (λ p. others user.email p.0) e)
    | inr e ↦
        let revoked = revoke_sessions_for_email now user.email ss in
        rw e (
          inr (
            refl,
            open_sessions-create now sid user.email agent ip revoked
                ∙ ap suc (open_sessions-revoke now user.email ss),
            is_session_active-create now sid user.email agent ip revoked full,
          ),
          others-create now sid user.email agent ip revoked ∙ others-revoke now user.email ss,
        )
  ]
