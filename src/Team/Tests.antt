-- ===== src/Team/Tests.antt =====
-- Invitations at concrete inputs.
use feedbase_backend.Base.{◌≡◌, refl, true, [], ◌∷◌, none, some, arith}
use feedbase_backend.Base.Results.{Result, ok, ◌>>=◌, ◌>>◌, guard, commit}
use feedbase_backend.Text.{Text, codes, eq_text, trim, is_space, cut}
use feedbase_backend.Plans.{get_plan_limits}
use feedbase_backend.Plans.Usage.{get_tenant_plan}
use feedbase_backend.Accounts.{free_billing}
use feedbase_backend.Tables.{owner, Tenant}
use feedbase_backend.Email.{
  cache_get, judge_hit, find_hit, Lookup, is_deliverable_email, is_valid_email_format,
  matches_email, dot_inside, is_disposable_email, email_domain, split_domain, has_exchanger,
}
use feedbase_backend.Team.{
  Invitation, Team, Auth, TeamError, is_member, is_outstanding, new_invitation, placed,
  place_invitation, create_invitation,
}
use feedbase_backend.Team.Joining.{member_auth, accept_invitation_as_new_user}
use feedbase_backend.Team.Effects.{wait, invite, here, next}
use feedbase_backend.Team.Seats.{IsSeated, Reach-IsSeated}
use feedbase_backend.Team.Spent.{LetsNobodyIn}
use feedbase_backend.Team.Links.{by_new, link-once}
use feedbase_backend.Team.Welcome.{IsIn, invited-joins}

abbrev acme : Tenant
acme = record {
  id = 7;
  name = codes "Acme";
  slug = codes "acme";
  subdomain = codes "acme";
  website = none;
  billing = free_billing;
  stripe_customer_id = none;
  stripe_subscription_id = none;
  is_active = true;
}

abbrev team : Team
team = record {
  db = record { tenants = acme ∷ []; users = []; accounts = [] };
  invitations = [];
  sessions = [];
  next_user = 2;
  next_invitation = 1;
  hits = [];
}

abbrev anna : Auth
anna = record { id = 1; email = codes "o@a.io"; tenant_id = 7; role = owner; sid = codes "d" }

-- Every domain has an exchanger, and lower case is the identity.
abbrev service : Text → Lookup
service d = Lookup.records 1

abbrev sent : Team × Result TeamError Invitation
sent = create_invitation (λ s. s) service true 0 anna (some (codes "b@b.io")) (codes "t1") team

abbrev link : Invitation
link = new_invitation 0 anna (codes "b@b.io") (codes "t1") 1

sent_test : sent.1 ≡ ok link
unfolding create_invitation place_invitation placed new_invitation is_deliverable_email
    is_valid_email_format matches_email dot_inside is_disposable_email email_domain split_domain
    has_exchanger eq_text trim is_space cut commit guard ◌>>=◌ ◌>>◌ is_member is_outstanding
    get_tenant_plan get_plan_limits cache_get judge_hit find_hit
sent_test = refl

invited-joins_example :
    IsIn 7
      (codes "d2")
      (sent.0, link)
      (accept_invitation_as_new_user
        (λ s. s)
        true
        true
        60
        (codes "t1")
        (some (codes "Bo"))
        (codes "password1")
        (codes "d2")
        none
        none
        sent.0)
unfolding eq_text trim is_space
invited-joins_example =
    invited-joins (λ s. s) (λ s. s) service true 0 60 anna (some (codes "b@b.io"))
      (some (codes "Bo")) (codes "t1") (codes "password1") (codes "d2") none none team link
      sent_test refl refl refl (omega arith) refl (omega arith)

Reach-IsSeated_example : IsSeated 7 2 60 sent.0
unfolding get_tenant_plan get_plan_limits
Reach-IsSeated_example =
    Reach-IsSeated 7 2
      (next (next here (invite (λ s. s) service true anna (some (codes "b@b.io")) (codes "t1")))
        (wait 60 (omega arith)))
      (record { limited = refl; within = omega arith })

abbrev used : Team × Result TeamError Auth
used =
    accept_invitation_as_new_user (λ s. s) true true 60 (codes "t1") (some (codes "Bo"))
      (codes "password1") (codes "d2") none none sent.0

used_test : used.1 ≡ ok (member_auth link sent.0.next_user (codes "d2"))
used_test = invited-joins_example.0

link-once_example : LetsNobodyIn (codes "t1") (record { now = 90; team = used.0 })
unfolding create_invitation place_invitation placed new_invitation is_deliverable_email
    is_valid_email_format matches_email dot_inside is_disposable_email email_domain split_domain
    has_exchanger eq_text trim is_space cut commit guard ◌>>=◌ ◌>>◌ is_member is_outstanding
    get_tenant_plan get_plan_limits cache_get judge_hit find_hit
link-once_example =
    link-once (codes "t1") {m = record { now = 60; team = sent.0 }} (omega arith)
      (by_new (λ s. s) true true (some (codes "Bo")) (codes "password1") (codes "d2") none none
        (member_auth link sent.0.next_user (codes "d2")) used_test)
      (next here (wait 90 (omega arith))) (tt, tt)
