-- ===== src/Team/Effects.antt =====
-- What the handlers of `src/main/invitations/invitations.js` can do to a team: the steps, and what
-- holds through any sequence of them.
use mathlib.Core.Path.{subst}
use feedbase_backend.Base.{
  ℕ, ◌+◌, ◌≤◌, ◌≡◌, inl, inr, ap, Bool, true, false, List, [], map, Option, none, some, get_or,
  Bool-cases, length, ltb,
}
use feedbase_backend.Base.Results.{
  Result, ok, err, guard-then, first-then, ok_injective, commit-keeps,
}
use feedbase_backend.Text.{Text, trim, is_empty}
use feedbase_backend.Plans.Usage.{below}
use feedbase_backend.Tables.{User, is_owner}
use feedbase_backend.Email.{Lookup, Hit, is_deliverable_email}
use feedbase_backend.Sessions.{Session}
use feedbase_backend.Team.{
  Invitation, Team, Auth, TeamError, members, outstanding, seats, placed, place_invitation,
  create_invitation, revoke_row, revoke_invitation,
}
use feedbase_backend.Team.Joining.{
  find_usable, join_workspace, new_member, sign_in, accept_invitation_as_new_user, existing_member,
  accept_invitation_as_existing_user,
}

-- A team at an instant.
pub record Moment : Type 0 where
  pub now : ℕ
  pub team : Team

-- What can happen: time passes, or one of the handlers runs as a whole.
pub data Step (m : Moment) : Moment → Type 0 where
  wait : (later : ℕ) → m.now ≤ later → Step m (record m { now = later })
  invite :
      (lower : Text → Text) (resolve_mx : Text → Lookup) (up : Bool) (auth : Auth)
      (email : Option Text) (token : Text)
      → Step m (record m {
        team = (create_invitation lower resolve_mx up m.now auth email token m.team).0;
      })
  revoke :
      (id : ℕ) (auth : Auth) → Step m (record m { team = (revoke_invitation id auth m.team).0 })
  join_new :
      (hash : Text → Text) (up session_up : Bool) (token : Text) (full_name : Option Text)
      (password sid : Text) (agent ip : Option Text)
      → Step m (record m {
        team =
            (accept_invitation_as_new_user hash up session_up m.now token full_name password sid
              agent ip m.team).0;
      })
  join_existing :
      (lower : Text → Text) (up : Bool) (token : Text) (auth : Auth)
      → Step m (record m {
        team = (accept_invitation_as_existing_user lower up m.now token auth m.team).0;
      })

pub data Reach (m : Moment) : Moment → Type 0 where
  here : Reach m m
  next : {n k : Moment} → Reach m n → Step n k → Reach m k

-- What a success of either transaction has found and done.
pub new_member_lem :
    (up : Bool) (now : ℕ) (token name hash : Text) (s s' : Team) (i : Invitation)
    → new_member up now token name hash s ≡ ok (s', i)
    → (inv : Invitation) × (find_usable now token s ≡ some inv)
      × (inv ≡ i)
      × (join_workspace now inv name (some hash) none s ≡ s')
unfolding new_member
new_member_lem up now token name hash s s' i h =
    let (inv, found, h1) = first-then _ _ _ h in
    let (_, h2) = guard-then _ _ _ h1 in
    let (_, h3) = guard-then _ _ _ h2 in
    (
      inv,
      found,
      ap (λ (r : Team × Invitation). r.1) (ok_injective h3),
      ap (λ (r : Team × Invitation). r.0) (ok_injective h3),
    )

pub existing_member_lem :
    (lower : Text → Text) (up : Bool) (now : ℕ) (token : Text) (auth : Auth) (s s' : Team)
    (a : Auth)
    → existing_member lower up now token auth s ≡ ok (s', a)
    → (inv : Invitation) × (me : User) × (find_usable now token s ≡ some inv)
      × (join_workspace now inv me.full_name me.password_hash me.avatar_url s ≡ s')
unfolding existing_member
existing_member_lem lower up now token auth s s' a h =
    let (inv, found, h1) = first-then _ _ _ h in
    let (_, h2) = guard-then _ _ _ h1 in
    let (_, h3) = guard-then _ _ _ h2 in
    let (_, h4) = guard-then _ _ _ h3 in
    let (me, _, h5) = first-then _ _ _ h4 in
    let (_, h6) = guard-then _ _ _ h5 in
    (inv, me, found, ap (λ (r : Team × Auth). r.0) (ok_injective h6))

-- Where an invitation is sent, the link's token is one of `F`.
abbrev pub Mints : (F : Text → Type 0) {m k : Moment} → Step m k → Type 0
Mints F (wait later h) = Unit
Mints F (invite lower resolve_mx up auth email token) = F token
Mints F (revoke id auth) = Unit
Mints F (join_new hash up session_up token full_name password sid agent ip) = Unit
Mints F (join_existing lower up token auth) = Unit

abbrev pub AllMint : (F : Text → Type 0) {m k : Moment} → Reach m k → Type 0
AllMint F here = Unit
AllMint F (next r st) = AllMint F r × Mints F st

pub AllMint-any : {m k : Moment} (r : Reach m k) → AllMint (λ t. Unit) r
AllMint-any here = tt
AllMint-any (next r (wait later h)) = (AllMint-any r, tt)
AllMint-any (next r (invite lower resolve_mx up auth email token)) = (AllMint-any r, tt)
AllMint-any (next r (revoke id auth)) = (AllMint-any r, tt)
AllMint-any (next r (join_new hash up session_up token full_name password sid agent ip)) =
    (AllMint-any r, tt)
AllMint-any (next r (join_existing lower up token auth)) = (AllMint-any r, tt)

-- A predicate that each of the changes a handler makes keeps.
pub record IsKept (F : Text → Type 0) (P : ℕ → Team → Type 0) : Type 0 where
  pub on_wait : (now later : ℕ) (s : Team) → now ≤ later → P now s → P later s
  pub on_hits : (now : ℕ) (hits : List Hit) (s : Team) → P now s → P now (record s { hits = hits })
  pub on_sessions :
      (now : ℕ) (sessions : List Session) (s : Team)
      → P now s
      → P now (record s { sessions = sessions })
  pub on_placed :
      (now : ℕ) (auth : Auth) (email token : Text) (s : Team)
      → F token
      → below (members auth.tenant_id s + outstanding now auth.tenant_id s) (seats s auth.tenant_id)
        ≡ true
      → P now s
      → P now (placed now auth email token s).0
  pub on_revoked :
      (now id tenant : ℕ) (s : Team)
      → P now s
      → P now (record s { invitations = map (revoke_row id tenant) s.invitations })
  pub on_joined :
      (now : ℕ) (token : Text) (inv : Invitation) (name : Text) (hash avatar : Option Text)
      (s : Team)
      → find_usable now token s ≡ some inv
      → P now s
      → P now (join_workspace now inv name hash avatar s)

module _ (F : Text → Type 0) (P : ℕ → Team → Type 0) (K : IsKept F P) where
  place-keeps :
      (up : Bool) (now : ℕ) (auth : Auth) (email token : Text) (s s' : Team) (i : Invitation)
      → F token
      → place_invitation up now auth email token s ≡ ok (s', i)
      → P now s
      → P now s'
  unfolding place_invitation
  place-keeps up now auth email token s s' i f h v =
      let (_, h1) = guard-then _ _ _ h in
      let (_, h2) = guard-then _ _ _ h1 in
      let (b, h3) = guard-then _ _ _ h2 in
      let (_, h4) = guard-then _ _ _ h3 in
      subst (λ (r : Team × Invitation). P now r.0) (ok_injective h4)
        (K.on_placed now auth email token s f b v)

  invite-keeps :
      (lower : Text → Text) (resolve_mx : Text → Lookup) (up : Bool) (now : ℕ) (auth : Auth)
      (email : Option Text) (token : Text) (s : Team)
      → F token
      → P now s
      → P now (create_invitation lower resolve_mx up now auth email token s).0
  unfolding create_invitation
  invite-keeps lower resolve_mx up now auth email token s f v =
      let address = lower (trim (get_or email [])) in
      let looked = is_deliverable_email resolve_mx now address s.hits in
      let s' : Team = record s { hits = looked.0 } in
      let v' : P now s' = K.on_hits now looked.0 s v in
      elim (Bool-cases (is_owner auth.role)) [
        | inr e ↦ rw e v
        | inl e ↦ elim (Bool-cases looked.1) [
          | inr d ↦ rw (e, d) v'
          | inl d ↦
              rw (e, d)
                (commit-keeps (P now) s' (place_invitation up now auth address token s') v'
                  (λ t i h. place-keeps up now auth address token s' t i f h v'))
        ]
      ]

  revoke-keeps :
      (now id : ℕ) (auth : Auth) (s : Team) → P now s → P now (revoke_invitation id auth s).0
  unfolding revoke_invitation
  revoke-keeps now id auth s v = commit-keeps (P now) s _ v (λ t i h.
      let (_, h1) = guard-then _ _ _ h in
      let (_, h2) = guard-then _ _ _ h1 in
      subst (λ (r : Team × Unit {0}). P now r.0) (ok_injective h2)
        (K.on_revoked now id auth.tenant_id s v))

  sign_in-keeps :
      (up : Bool) (now member : ℕ) (sid : Text) (agent ip : Option Text)
      (r : Team × Result TeamError Invitation)
      → P now r.0
      → P now (sign_in up now sid agent ip member r).0
  unfolding sign_in
  sign_in-keeps up now member sid agent ip (s, err e) v = v
  sign_in-keeps false now member sid agent ip (s, ok inv) v = v
  sign_in-keeps true now member sid agent ip (s, ok inv) v = K.on_sessions now _ s v

  join_new-keeps :
      (hash : Text → Text) (up session_up : Bool) (now : ℕ) (token : Text) (full_name : Option Text)
      (password sid : Text) (agent ip : Option Text) (s : Team)
      → P now s
      → P now
          (accept_invitation_as_new_user hash up session_up now token full_name password sid agent
            ip s).0
  unfolding accept_invitation_as_new_user
  join_new-keeps hash up session_up now token full_name password sid agent ip s v =
      let name = trim (get_or full_name []) in
      let joined =
        commit-keeps (P now) s (new_member up now token name (hash password) s) v (λ t i h.
          let (inv, found, _, same) = new_member_lem up now token name (hash password) s t i h in
          subst (P now) same
            (K.on_joined now token inv name (some (hash password)) none s found v)) in
      elim (Bool-cases (is_empty name)) [
        | inl e ↦ rw e v
        | inr e ↦ elim (Bool-cases (ltb (length password) 8)) [
          | inl d ↦ rw (e, d) v
          | inr d ↦ rw (e, d) (sign_in-keeps session_up now s.next_user sid agent ip _ joined)
        ]
      ]

  join_existing-keeps :
      (lower : Text → Text) (up : Bool) (now : ℕ) (token : Text) (auth : Auth) (s : Team)
      → P now s
      → P now (accept_invitation_as_existing_user lower up now token auth s).0
  unfolding accept_invitation_as_existing_user
  join_existing-keeps lower up now token auth s v =
      commit-keeps (P now) s (existing_member lower up now token auth s) v (λ t a h.
        let (inv, me, found, same) = existing_member_lem lower up now token auth s t a h in
        subst (P now) same
          (K.on_joined now token inv me.full_name me.password_hash me.avatar_url s found v))

  Step-keeps : {m k : Moment} (st : Step m k) → Mints F st → P m.now m.team → P k.now k.team
  Step-keeps {m} (wait later h) f v = K.on_wait m.now later m.team h v
  Step-keeps {m} (invite lower resolve_mx up auth email token) f v =
      invite-keeps lower resolve_mx up m.now auth email token m.team f v
  Step-keeps {m} (revoke id auth) f v = revoke-keeps m.now id auth m.team v
  Step-keeps {m} (join_new hash up session_up token full_name password sid agent ip) f v =
      join_new-keeps hash up session_up m.now token full_name password sid agent ip m.team v
  Step-keeps {m} (join_existing lower up token auth) f v =
      join_existing-keeps lower up m.now token auth m.team v

  -- What each change keeps, every sequence of steps keeps.
  pub Reach-keeps : {m k : Moment} (r : Reach m k) → AllMint F r → P m.now m.team → P k.now k.team
  Reach-keeps here f v = v
  Reach-keeps (next r st) (fr, f) v = Step-keeps st f (Reach-keeps r fr v)
