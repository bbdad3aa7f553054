-- ===== src/Team/Seats.antt =====
-- The seat limit of `src/main/invitations/invitations.js` through all that can happen to a team.
use mathlib.Core.Path.{subst}
use feedbase_backend.Base.{
  ℕ, ◌+◌, ◌≤◌, ◌≡◌, inl, inr, ◌∙◌, true, false, map, Option, some, arith, Bool-cases, ◌==◌,
  count-append,
}
use feedbase_backend.Base.Counts.{count-le, count-map-le, count-map-lt, find_sound}
use feedbase_backend.Text.{Text}
use feedbase_backend.Plans.{at_most}
use feedbase_backend.Plans.Usage.{below, get_tenant_plan}
use feedbase_backend.Team.{
  Invitation, Team, Auth, is_open, is_member, is_outstanding, members, outstanding, seats,
  new_invitation, placed, revoke_row,
}
use feedbase_backend.Team.Joining.{find_usable, accept_row, member_row, join_workspace}
use feedbase_backend.Team.Effects.{Moment, Reach, IsKept, AllMint-any, Reach-keeps}

-- The workspace has `n` seats, which members and outstanding invitations do not exceed.
pub record IsSeated (tenant n now : ℕ) (s : Team) : Type 0 where
  pub limited : seats s tenant ≡ at_most n
  pub within : members tenant s + outstanding now tenant s ≤ n

-- A row of another workspace takes no seat.
new-outstanding :
    (tenant now : ℕ) (auth : Auth) (email token : Text) (id : ℕ)
    → is_outstanding now tenant (new_invitation now auth email token id)
      ≡ (auth.tenant_id == tenant)
unfolding is_outstanding new_invitation is_open
new-outstanding tenant now auth email token id = ground arith

module _ (tenant n : ℕ) where
  placed-IsSeated :
      (now : ℕ) (auth : Auth) (email token : Text) (s : Team)
      → below (members auth.tenant_id s + outstanding now auth.tenant_id s) (seats s auth.tenant_id)
        ≡ true
      → IsSeated tenant n now s
      → IsSeated tenant n now (placed now auth email token s).0
  unfolding placed
  placed-IsSeated now auth email token s b v =
      let row = new_invitation now auth email token s.next_invitation in
      let grown = count-append (is_outstanding now tenant) s.invitations row in
      let which = new-outstanding tenant now auth email token s.next_invitation in
      record {
        limited = v.limited;
        within = elim (Bool-cases (auth.tenant_id == tenant)) [
          | inr e ↦ ground (arith, grown, which, v.within)
          | inl e ↦
              let same : auth.tenant_id ≡ tenant = ground (arith, e) in
              let room : below (members tenant s + outstanding now tenant s) (at_most n) ≡ true =
                subst (λ l. below (members tenant s + outstanding now tenant s) l ≡ true) v.limited
                  (subst (λ t. below (members t s + outstanding now t s) (seats s t) ≡ true) same
                    b) in
              ground (arith, grown, which, room)
        ];
      }

  revoke_row-outstanding :
      (now id t : ℕ) (i : Invitation)
      → is_outstanding now tenant (revoke_row id t i) ≡ true
      → is_outstanding now tenant i ≡ true
  unfolding is_outstanding is_open revoke_row
  revoke_row-outstanding now id t i h = ground arith

  outstanding_before :
      (now later : ℕ) (i : Invitation)
      → now ≤ later
      → is_outstanding later tenant i ≡ true
      → is_outstanding now tenant i ≡ true
  unfolding is_outstanding is_open
  outstanding_before now later i h k = ground arith

  accept_row-outstanding :
      (now id member : ℕ) (i : Invitation)
      → is_outstanding now tenant (accept_row now id member i) ≡ true
      → is_outstanding now tenant i ≡ true
  unfolding is_outstanding is_open accept_row
  accept_row-outstanding now id member i h = ground arith

  joined-outstanding :
      (now member : ℕ) (inv : Invitation)
      → is_open now inv ≡ true
      → (is_outstanding now tenant inv ≡ (inv.tenant_id == tenant))
        × (is_outstanding now tenant (accept_row now inv.id member inv) ≡ false)
  unfolding is_outstanding is_open accept_row
  joined-outstanding now member inv h = ground arith

  joined-member :
      (inv : Invitation) (name : Text) (hash avatar : Option Text) (id : ℕ)
      → is_member tenant (member_row inv name hash avatar id) ≡ (inv.tenant_id == tenant)
  unfolding is_member member_row
  joined-member inv name hash avatar id = ground arith

  join-IsSeated :
      (now : ℕ) (token : Text) (inv : Invitation) (name : Text) (hash avatar : Option Text)
      (s : Team)
      → find_usable now token s ≡ some inv
      → IsSeated tenant n now s
      → IsSeated tenant n now (join_workspace now inv name hash avatar s)
  unfolding join_workspace find_usable get_tenant_plan
  join-IsSeated now token inv name hash avatar s h v =
      let usable = find_sound _ s.invitations inv h in
      let live : is_open now inv ≡ true = ground arith in
      let (before, after) = joined-outstanding now s.next_user inv live in
      let more =
        count-append (is_member tenant) s.db.users (member_row inv name hash avatar s.next_user) in
      let which = joined-member inv name hash avatar s.next_user in
      let mono = accept_row-outstanding now inv.id s.next_user in
      record {
        limited = v.limited;
        within = elim (Bool-cases (inv.tenant_id == tenant)) [
          | inr e ↦ ground (
            arith,
            more,
            which,
            v.within,
            count-map-le (is_outstanding now tenant) (accept_row now inv.id s.next_user)
                s.invitations mono,
          )
          | inl e ↦ ground (
            arith,
            more,
            which,
            v.within,
            count-map-lt _ (is_outstanding now tenant) (accept_row now inv.id s.next_user)
                s.invitations inv mono h (before ∙ e) after,
          )
        ];
      }

  revoke-IsSeated :
      (now id t : ℕ) (s : Team)
      → IsSeated tenant n now s
      → IsSeated tenant n now (record s { invitations = map (revoke_row id t) s.invitations })
  unfolding revoke_row
  revoke-IsSeated now id t s v = record {
    limited = v.limited;
    within = ground (
      arith,
      v.within,
      count-map-le (is_outstanding now tenant) (revoke_row id t) s.invitations
          (revoke_row-outstanding now id t),
    );
  }

  wait-IsSeated :
      (now later : ℕ) (s : Team) → now ≤ later → IsSeated tenant n now s → IsSeated tenant n later s
  wait-IsSeated now later s h v = record {
    limited = v.limited;
    within = omega (
      arith,
      v.within,
      count-le (is_outstanding later tenant) (is_outstanding now tenant) s.invitations
          (λ i. outstanding_before now later i h),
    );
  }

  seats_kept : IsKept (λ t. Unit) (IsSeated tenant n)
  seats_kept = record {
    on_wait = wait-IsSeated;
    on_hits = λ now hits s v. record { limited = v.limited; within = v.within };
    on_sessions = λ now sessions s v. record { limited = v.limited; within = v.within };
    on_placed = λ now auth email token s f b v. placed-IsSeated now auth email token s b v;
    on_revoked = revoke-IsSeated;
    on_joined = join-IsSeated;
  }

  -- While a workspace keeps a plan of `n` seats, whatever invitations are sent, revoked, left to
  -- expire and accepted, in whatever order and by whomever, its members beside the owner and its
  -- outstanding invitations together stay at most `n`, if they are at the start.
  pub Reach-IsSeated :
      {m k : Moment} → Reach m k → IsSeated tenant n m.now m.team → IsSeated tenant n k.now k.team
  Reach-IsSeated r v = Reach-keeps _ (IsSeated tenant n) seats_kept r (AllMint-any r) v
