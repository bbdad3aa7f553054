-- ===== src/Team/Links.antt =====
-- The life of an invitation's link in `src/main/invitations/invitations.js`: it lets its addressee in
-- until it expires, and once used or revoked it never works again.
use feedbase_backend.Base.{ℕ, ◌≤◌, ◌≡◌, ap, ◌∙◌, Bool, true, false, List, Option, All, any, count}
use feedbase_backend.Base.Results.{ok, guard-then, commit-ok, ok_injective}
use feedbase_backend.Text.{Text}
use feedbase_backend.Team.{Invitation, Team, Auth, is_revocable, revoke_invitation}
use feedbase_backend.Team.Joining.{
  has_token, accept_invitation_as_new_user, existing_member, accept_invitation_as_existing_user,
}
use feedbase_backend.Team.Effects.{Moment, Reach, AllMint, Reach-keeps, existing_member_lem}
use feedbase_backend.Team.Spent.{
  is_unspent, IsSpent, IsOther, IsSpent-kept, use-IsSpent, LetsNobodyIn, join_new-ok, spent-nobody,
  revoke-IsSpent,
}

-- The three ways to spend a link: its invitation is accepted, as a new user or as a known one, or
-- the owner revokes it, each with success.
pub data Spends (token : Text) (m : Moment) : Team → Type 0 where
  by_new :
      (hash : Text → Text) (up session_up : Bool) (full_name : Option Text) (password sid : Text)
      (agent ip : Option Text) (a : Auth)
      → (accept_invitation_as_new_user hash up session_up m.now token full_name password sid agent
          ip m.team).1
        ≡ ok a
      → Spends token m
          (accept_invitation_as_new_user hash up session_up m.now token full_name password sid agent
            ip m.team).0
  by_existing :
      (lower : Text → Text) (up : Bool) (auth a : Auth)
      → (accept_invitation_as_existing_user lower up m.now token auth m.team).1 ≡ ok a
      → Spends token m (accept_invitation_as_existing_user lower up m.now token auth m.team).0
  by_revoke :
      (id : ℕ) (auth : Auth)
      → All
          (λ i. is_unspent token i ≡ true → is_revocable id auth.tenant_id i ≡ true)
          m.team.invitations
      → (revoke_invitation id auth m.team).1 ≡ ok tt
      → Spends token m (revoke_invitation id auth m.team).0

-- `IsSpent` reads the invitations alone.
same-IsSpent :
    (token : Text) (is js : List Invitation)
    → is ≡ js
    → any (is_unspent token) is ≡ false
    → any (is_unspent token) js ≡ false
same-IsSpent token is js e h = cc

Spends-IsSpent :
    (token : Text) (m : Moment) (s : Team)
    → count (has_token token) m.team.invitations ≤ 1
    → Spends token m s
    → IsSpent token s
unfolding accept_invitation_as_existing_user revoke_invitation
Spends-IsSpent token m s c (by_new hash up session_up full_name password sid agent ip a h) =
    let (inv, found, same) =
      join_new-ok hash up session_up m.now token full_name password sid agent ip m.team a h in
    same-IsSpent token _ _ same (use-IsSpent token m.now inv _ _ _ m.team found c)
Spends-IsSpent token m s c (by_existing lower up auth a h) =
    let (s', g, kept) = commit-ok m.team (existing_member lower up m.now token auth m.team) a h in
    let (inv, me, found, same) = existing_member_lem lower up m.now token auth m.team s' a g in
    same-IsSpent token _ _ (ap (λ (t : Team). t.invitations) (same ∙ kept))
      (use-IsSpent token m.now inv _ _ _ m.team found c)
Spends-IsSpent token m s c (by_revoke id auth k h) =
    let (s', g, kept) = commit-ok m.team _ tt h in
    let (_, h1) = guard-then _ _ _ g in
    let (_, h2) = guard-then _ _ _ h1 in
    same-IsSpent token _ _
      (ap (λ (r : Team × Unit {0}). r.0.invitations) (ok_injective h2)
        ∙ ap (λ (t : Team). t.invitations) kept)
      (revoke-IsSpent token id auth.tenant_id m.team.invitations k)

-- A link that has been used to join, or whose invitation the owner has revoked, never works again:
-- where at most one invitation has its token, then whatever happens afterwards, in whatever order,
-- as long as no new invitation gets the same token, neither a new nor a known user gets in with it.
pub link-once :
    (token : Text) {m k : Moment} {s : Team}
    → count (has_token token) m.team.invitations ≤ 1
    → Spends token m s
    → (r : Reach (record m { team = s }) k) → AllMint (IsOther token) r
    → LetsNobodyIn token k
link-once token {m} {k} {s} c u r f = spent-nobody token k (
    Reach-keeps (IsOther token) (λ now t. IsSpent token t) (IsSpent-kept token) r f
      (Spends-IsSpent token m s c u))
