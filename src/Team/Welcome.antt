-- ===== src/Team/Welcome.antt =====
-- From `createInvitation` to `acceptInvitationAsNewUser` in `src/main/invitations/invitations.js`: the
-- link that is mailed opens the workspace to its addressee.
use mathlib.Core.Path.{subst}
use feedbase_backend.Base.{
  ℕ, ◌+◌, ◌≤◌, ◌<◌, ◌≡◌, inl, inr, refl, ap, ◌∙◌, Bool, true, false, List, [], ◌∷◌, ◌++◌, Option,
  none, some, arith, get_or, Bool-cases, length, any, ltb, ◌==◌,
}
use feedbase_backend.Base.Results.{
  Result, ok, ◌>>=◌, ◌>>◌, guard, first, commit, guard-then, commit-ok, ok_injective,
}
use feedbase_backend.Base.Counts.{any-implies, any-last, find-snoc}
use feedbase_backend.Text.{Text, trim, is_empty}
use feedbase_backend.Text.Laws.{eq_text_refl}
use feedbase_backend.Tables.{Tenant, is_owner}
use feedbase_backend.Email.{Lookup, Hit, is_deliverable_email}
use feedbase_backend.Team.{
  Invitation, Team, Auth, TeamError, is_open, is_user_of, new_invitation, placed, place_invitation,
  invite_ttl_ms, create_invitation,
}
use feedbase_backend.Team.Joining.{
  has_token, has_email, find_usable, member_row, join_workspace, new_member, sign_in,
  accept_invitation_as_new_user, member_auth,
}

-- What a success of `createInvitation` has done.
create_invitation_lem :
    (lower : Text → Text) (resolve_mx : Text → Lookup) (up : Bool) (now : ℕ) (auth : Auth)
    (email : Option Text) (token : Text) (s : Team) (i : Invitation)
    → let r = create_invitation lower resolve_mx up now auth email token s in
      r.1 ≡ ok i
      → (hits : List Hit) × (address : Text) × (placed now auth address token
            (record s { hits = hits })
          ≡ (r.0, i))
unfolding create_invitation place_invitation
create_invitation_lem lower resolve_mx up now auth email token s i =
    let address = lower (trim (get_or email [])) in
    let looked = is_deliverable_email resolve_mx now address s.hits in
    let s' : Team = record s { hits = looked.0 } in
    elim (Bool-cases (is_owner auth.role)) [
      | inr e ↦ rw e (λ h. cc)
      | inl e ↦ elim (Bool-cases looked.1) [
        | inr d ↦ rw (e, d) (λ h. cc)
        | inl d ↦
            rw (e, d)
              (λ h.
                let (t, g, kept) =
                  commit-ok s' (place_invitation up now auth address token s') i h in
                let (_, h1) = guard-then _ _ _ g in
                let (_, h2) = guard-then _ _ _ h1 in
                let (_, h3) = guard-then _ _ _ h2 in
                let (_, h4) = guard-then _ _ _ h3 in
                (looked.0, address, ok_injective h4 ∙ ap (λ x. (x, i)) kept))
      ]
    ]

-- The transaction of a new user succeeds where its checks pass.
new_member-ok :
    (now : ℕ) (token name hash : Text) (s : Team) (i : Invitation)
    → find_usable now token s ≡ some i
    → any (has_email i.email) s.db.users ≡ false
    → new_member true now token name hash s ≡ ok (join_workspace now i name (some hash) none s, i)
unfolding new_member first guard ◌>>=◌ ◌>>◌
new_member-ok now token name hash s i f e = rw (f, e) refl

new_user-in :
    (hash : Text → Text) (now : ℕ) (token : Text) (full_name : Option Text) (password sid : Text)
    (agent ip : Option Text) (s : Team) (i : Invitation)
    → find_usable now token s ≡ some i
    → any (has_email i.email) s.db.users ≡ false
    → is_empty (trim (get_or full_name [])) ≡ false
    → 8 ≤ length password
    → let r =
        accept_invitation_as_new_user hash true true now token full_name password sid agent ip s in
      (r.1 ≡ ok (member_auth i s.next_user sid))
      × (r.0.db.users
          ≡ s.db.users
            ++ member_row i (trim (get_or full_name [])) (some (hash password)) none s.next_user
              ∷ [])
unfolding accept_invitation_as_new_user sign_in commit join_workspace
new_user-in hash now token full_name password sid agent ip s i f e n l =
    let long : ltb (length password) 8 ≡ false = ground (arith, l) in
    let joined = new_member-ok now token (trim (get_or full_name [])) (hash password) s i f e in
    rw (n, long, joined) (refl, refl)

fresh-usable :
    (now later : ℕ) (auth : Auth) (address token : Text) (s : Team)
    → any (has_token token) s.invitations ≡ false
    → any (λ (t : Tenant). t.id == auth.tenant_id) s.db.tenants ≡ true
    → later < now + invite_ttl_ms
    → let r = placed now auth address token s in find_usable later token r.0 ≡ some r.1
unfolding placed new_invitation find_usable is_open
fresh-usable now later auth address token s f t l =
    find-snoc _ s.invitations _
      (any-implies _ (has_token token) s.invitations (λ i h. ground (arith, h)) f)
      (ground (arith, eq_text_refl token, t, l))

member_row-of :
    (i : Invitation) (name : Text) (hash avatar : Option Text) (id : ℕ)
    → is_user_of i.tenant_id i.email (member_row i name hash avatar id) ≡ true
unfolding member_row
member_row-of i name hash avatar id = ground (arith, eq_text_refl i.email)

-- Its addressee has joined: the answer and the row.
abbrev pub IsIn : ℕ → Text → Team × Invitation → Team × Result TeamError Auth → Type 0
IsIn tenant sid (t, i) a =
    (a.1 ≡ ok (member_auth i t.next_user sid))
    × (i.tenant_id ≡ tenant)
    × (any (is_user_of tenant i.email) a.0.db.users ≡ true)

placed-joins :
    (hash : Text → Text) (now later : ℕ) (auth : Auth) (full_name : Option Text)
    (address token password sid : Text) (agent ip : Option Text) (s : Team)
    → any (has_token token) s.invitations ≡ false
    → any (λ (t : Tenant). t.id == auth.tenant_id) s.db.tenants ≡ true
    → later < now + invite_ttl_ms
    → is_empty (trim (get_or full_name [])) ≡ false
    → 8 ≤ length password
    → any (has_email (placed now auth address token s).1.email) s.db.users ≡ false
    → let p = placed now auth address token s in
      IsIn auth.tenant_id sid p (
        accept_invitation_as_new_user hash true true later token full_name password sid agent ip
          p.0)
unfolding placed new_invitation
placed-joins hash now later auth full_name address token password sid agent ip s f t l n k e =
    let p = placed now auth address token s in
    let name = trim (get_or full_name []) in
    let u = fresh-usable now later auth address token s f t l in
    let (answer, users) =
      new_user-in hash later token full_name password sid agent ip p.0 p.1 u e n k in
    (
      answer,
      refl,
      rw users (
          any-last _ s.db.users _
            (member_row-of p.1 name (some (hash password)) none p.0.next_user)),
    )

-- Whoever is sent an invitation can use it: where `createInvitation` succeeds with a token that no
-- other invitation has, in a workspace that exists, for an address without an account, then at any
-- time before the seven days are over a name that is not blank and a password of 8 characters or more
-- are accepted with it (while the database answers), the answer signs the new user in to that
-- workspace, and a member row of the workspace with the address is there.
pub invited-joins :
    (lower hash : Text → Text) (resolve_mx : Text → Lookup) (up : Bool) (now later : ℕ)
    (auth : Auth) (email full_name : Option Text) (token password sid : Text)
    (agent ip : Option Text) (s : Team) (i : Invitation)
    → let r = create_invitation lower resolve_mx up now auth email token s in
      r.1 ≡ ok i
      → any (has_token token) s.invitations ≡ false
      → any (λ (t : Tenant). t.id == auth.tenant_id) s.db.tenants ≡ true
      → any (has_email i.email) s.db.users ≡ false
      → later < now + invite_ttl_ms
      → is_empty (trim (get_or full_name [])) ≡ false
      → 8 ≤ length password
      → let a =
          accept_invitation_as_new_user hash true true later token full_name password sid agent ip
            r.0 in
        IsIn auth.tenant_id sid (r.0, i) a
invited-joins lower hash resolve_mx up now later auth email full_name token password sid agent ip s
      i h f t e l n k =
    let (hits, address, same) =
      create_invitation_lem lower resolve_mx up now auth email token s i h in
    let s' : Team = record s { hits = hits } in
    let joins =
      placed-joins hash now later auth full_name address token password sid agent ip s' f t l n k in
    subst
      (λ (p : Team × Invitation).
        any (has_email p.1.email) s.db.users ≡ false
        → IsIn auth.tenant_id sid p (
            accept_invitation_as_new_user hash true true later token full_name password sid agent ip
              p.0))
      same joins e
