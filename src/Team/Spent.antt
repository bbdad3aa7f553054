-- ===== src/Team/Spent.antt =====
-- Links that nobody can use in `src/main/invitations/invitations.js`: what makes a link one, and what
-- it then does.
use feedbase_backend.Base.{
  ℕ, ◌≤◌, ◌≡◌, ◌≢◌, inl, inr, refl, ap, ◌∙◌, Bool, true, false, ◌&&◌, List, [], ◌∷◌, map, Option,
  none, some, arith, All, get_or, Bool-cases, length, any, count, ltb,
}
use feedbase_backend.Base.Results.{Result, ok, err, commit, commit-ok}
use feedbase_backend.Base.Counts.{any-map-le, any-snoc, any-implies, count-le, only-map, find-any}
use feedbase_backend.Text.{Text, trim, is_empty, eq_text}
use feedbase_backend.Team.{
  Invitation, Team, Auth, TeamError, is_pending, is_open, new_invitation, placed, is_revocable,
  revoke_row,
}
use feedbase_backend.Team.Joining.{
  has_token, find_usable, accept_row, join_workspace, sign_in, accept_invitation_as_new_user,
  existing_member, accept_invitation_as_existing_user,
}
use feedbase_backend.Team.Effects.{Moment, IsKept, new_member_lem, existing_member_lem}

-- Rows that a link with this token could still use, some day.
abbrev pub is_unspent : Text → Invitation → Bool
is_unspent token i = has_token token i && is_pending i.status

abbrev pub IsSpent : Text → Team → Type 0
IsSpent token s = any (is_unspent token) s.invitations ≡ false

abbrev pub IsOther : Text → Text → Type 0
IsOther token t = eq_text t token ≡ false

pub revoke_row-unspent :
    (token : Text) (id t : ℕ) (i : Invitation)
    → is_unspent token (revoke_row id t i) ≡ true
    → is_unspent token i ≡ true
unfolding revoke_row
revoke_row-unspent token id t i h = ground arith

pub accept_row-unspent :
    (token : Text) (now id member : ℕ) (i : Invitation)
    → is_unspent token (accept_row now id member i) ≡ true
    → is_unspent token i ≡ true
unfolding accept_row
accept_row-unspent token now id member i h = ground arith

pub accept_row-spends :
    (token : Text) (now member : ℕ) (i : Invitation)
    → is_unspent token (accept_row now i.id member i) ≡ false
unfolding accept_row
accept_row-spends token now member i = ground arith

pub placed-IsSpent :
    (now : ℕ) (auth : Auth) (email token t : Text) (s : Team)
    → IsOther token t
    → IsSpent token s
    → IsSpent token (placed now auth email t s).0
unfolding placed new_invitation
placed-IsSpent now auth email token t s f v =
    any-snoc (is_unspent token) s.invitations _ v (ground (arith, f))

pub join-IsSpent :
    (token : Text) (now : ℕ) (inv : Invitation) (name : Text) (hash avatar : Option Text) (s : Team)
    → IsSpent token s
    → IsSpent token (join_workspace now inv name hash avatar s)
unfolding join_workspace
join-IsSpent token now inv name hash avatar s v =
    any-map-le _ (accept_row now inv.id s.next_user) s.invitations
      (accept_row-unspent token now inv.id s.next_user) v

pub IsSpent-kept : (token : Text) → IsKept (IsOther token) (λ now s. IsSpent token s)
IsSpent-kept token = record {
  on_wait = λ now later s h v. v;
  on_hits = λ now hits s v. v;
  on_sessions = λ now sessions s v. v;
  on_placed = λ now auth email t s f b v. placed-IsSpent now auth email token t s f v;
  on_revoked = λ now id t s v.
      any-map-le _ (revoke_row id t) s.invitations (revoke_row-unspent token id t) v;
  on_joined = λ now t inv name hash avatar s h v. join-IsSpent token now inv name hash avatar s v;
}

pub usable-unspent :
    (token : Text) (now : ℕ) (b : Bool) (i : Invitation)
    → has_token token i && is_open now i && b ≡ true
    → is_unspent token i ≡ true
unfolding is_open
usable-unspent token now b i h = ground arith

-- The acceptance itself spends the link, where no other row has its token.
pub use-IsSpent :
    (token : Text) (now : ℕ) (inv : Invitation) (name : Text) (hash avatar : Option Text) (s : Team)
    → find_usable now token s ≡ some inv
    → count (has_token token) s.invitations ≤ 1
    → IsSpent token (join_workspace now inv name hash avatar s)
unfolding join_workspace find_usable
use-IsSpent token now inv name hash avatar s h c =
    only-map (is_unspent token) _ (accept_row now inv.id s.next_user) s.invitations inv h
      (λ i. usable-unspent token now _ i) (accept_row-unspent token now inv.id s.next_user)
      (accept_row-spends token now s.next_user inv)
      (omega (
        arith,
        c,
        count-le (is_unspent token) (has_token token) s.invitations (λ i e. ground (arith, e)),
      ))

pub spent-unusable :
    (token : Text) (now : ℕ) (s : Team) → IsSpent token s → find_usable now token s ≡ none
unfolding find_usable
spent-unusable token now s v =
    find-any _ s.invitations
      (any-implies _ (is_unspent token) s.invitations (λ i. usable-unspent token now _ i) v)

-- A spent link lets nobody in, by either handler.
abbrev pub LetsNobodyIn : Text → Moment → Type 0
LetsNobodyIn token m =
    ((hash : Text → Text) (up session_up : Bool) (full_name : Option Text) (password sid : Text)
        (agent ip : Option Text) (a : Auth)
      → (accept_invitation_as_new_user hash up session_up m.now token full_name password sid agent
          ip m.team).1
        ≢ ok a)
    × ((lower : Text → Text) (up : Bool) (auth a : Auth)
        → (accept_invitation_as_existing_user lower up m.now token auth m.team).1 ≢ ok a)

pub sign_in-ok :
    (up : Bool) (now : ℕ) (sid : Text) (agent ip : Option Text) (member : ℕ) (s : Team)
    (r : Result TeamError (Team × Invitation)) (a : Auth)
    → (sign_in up now sid agent ip member (commit s r)).1 ≡ ok a
    → (s' : Team) × (i : Invitation) × (r ≡ ok (s', i))
      × (s'.invitations ≡ (sign_in up now sid agent ip member (commit s r)).0.invitations)
unfolding sign_in commit
sign_in-ok up now sid agent ip member s (err e) a h = cc
sign_in-ok false now sid agent ip member s (ok (s', i)) a h = cc
sign_in-ok true now sid agent ip member s (ok (s', i)) a h = (s', i, refl, refl)

-- What a successful `acceptInvitationAsNewUser` has found.
pub join_new-ok :
    (hash : Text → Text) (up session_up : Bool) (now : ℕ) (token : Text) (full_name : Option Text)
    (password sid : Text) (agent ip : Option Text) (s : Team) (a : Auth)
    → let r =
        accept_invitation_as_new_user hash up session_up now token full_name password sid agent ip
          s in
      r.1 ≡ ok a
      → (inv : Invitation) × (find_usable now token s ≡ some inv)
        × ((join_workspace now inv
              (trim (get_or full_name []))
              (some (hash password))
              none
              s).invitations
            ≡ r.0.invitations)
unfolding accept_invitation_as_new_user
join_new-ok hash up session_up now token full_name password sid agent ip s a =
    let name = trim (get_or full_name []) in
    elim (Bool-cases (is_empty name)) [
      | inl e ↦ rw e (λ h. cc)
      | inr e ↦ elim (Bool-cases (ltb (length password) 8)) [
        | inl d ↦ rw (e, d) (λ h. cc)
        | inr d ↦
            rw (e, d)
              (λ h.
                let (s', i, g, same) = sign_in-ok session_up now sid agent ip s.next_user s _ a h in
                let (inv, found, _, joined) =
                  new_member_lem up now token name (hash password) s s' i g in
                (inv, found, ap (λ (t : Team). t.invitations) joined ∙ same))
      ]
    ]

pub spent-nobody : (token : Text) (m : Moment) → IsSpent token m.team → LetsNobodyIn token m
unfolding accept_invitation_as_existing_user
spent-nobody token m v =
    let none_found = spent-unusable token m.now m.team v in
    (
      λ hash up session_up full_name password sid agent ip a h.
          let (inv, found, _) =
            join_new-ok hash up session_up m.now token full_name password sid agent ip m.team a h in
          cc,
      λ lower up auth a h.
          let (s', g, _) =
            commit-ok m.team (existing_member lower up m.now token auth m.team) a h in
          let (inv, me, found, _) = existing_member_lem lower up m.now token auth m.team s' a g in
          cc,
    )

pub revoke_row-spends :
    (token : Text) (id tenant : ℕ) (i : Invitation)
    → (is_unspent token i ≡ true → is_revocable id tenant i ≡ true)
    → is_unspent token (revoke_row id tenant i) ≡ false
unfolding revoke_row
revoke_row-spends token id tenant i h = ground arith

pub revoke-IsSpent :
    (token : Text) (id tenant : ℕ) (is : List Invitation)
    → All (λ i. is_unspent token i ≡ true → is_revocable id tenant i ≡ true) is
    → any (is_unspent token) (map (revoke_row id tenant) is) ≡ false
revoke-IsSpent token id tenant [] h = refl
revoke-IsSpent token id tenant (i ∷ is) (a, h) =
    rw (revoke_row-spends token id tenant i a) (revoke-IsSpent token id tenant is h)
