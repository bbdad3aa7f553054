-- ===== src/Erasure/Tests.antt =====
-- Erasing accounts at concrete inputs.
use feedbase_backend.Base.{ℕ, ◌≡◌, refl, true, false, not, ◌||◌, [], ◌∷◌, none, some}
use feedbase_backend.Base.Results.{ok, err, ◌>>=◌, ◌>>◌, guard, commit}
use feedbase_backend.Text.{codes, eq_text}
use feedbase_backend.Tables.{owner, user, Tenant, User}
use feedbase_backend.Accounts.{free_billing}
use feedbase_backend.Spam.Score.{published}
use feedbase_backend.Board.{Post, feedback, opened}
use feedbase_backend.Erasure.{
  Estate, PurgeError, failed_to_delete_account, is_platform_admin_email, owned_tenant_ids,
  member_rows, leave, leave_all, gone_rows, is_blocked, left, purged, purge_account, is_held,
  handed_over, without_user,
}
use feedbase_backend.Erasure.Leaving.{HaveOwners}
use feedbase_backend.Erasure.Gone.{IsPurged, Succeeds, purge_account_lem}

abbrev acme : ℕ → Tenant
acme id = record {
  id = id;
  name = codes "Acme";
  slug = codes "acme";
  subdomain = codes "acme";
  website = none;
  billing = free_billing;
  stripe_customer_id = none;
  stripe_subscription_id = none;
  is_active = true;
}

-- Ann owns workspace 7 and is a member of workspace 8.
abbrev ann : User
ann = record {
  id = 1;
  tenant_id = some 7;
  email = codes "ann@a.io";
  full_name = codes "Ann";
  avatar_url = none;
  password_hash = none;
  role = owner;
  is_active = true;
}

-- Bob owns workspace 8.
abbrev bob : User
bob = record ann { id = 9; tenant_id = some 8; email = codes "bob@b.io" }

abbrev post_by : ℕ → Post
post_by author = record {
  id = 3;
  tenant_id = 8;
  author_id = some author;
  submitter_name = none;
  submitter_email = none;
  guest_id = none;
  voter_hash = none;
  title = codes "Dark mode";
  description = [];
  post_type = feedback;
  status = opened;
  priority = 3;
  duplicate_of_post_id = none;
  moderation_state = published;
  spam_score = 0;
  spam_reasons = [];
  spam_reviewed_at = none;
  spam_reviewed_score = none;
  created_at = 0;
}

abbrev estate : ℕ → Estate
estate author = record {
  db = record {
    tenants = acme 7 ∷ acme 8 ∷ [];
    users = ann ∷ record ann { id = 2; tenant_id = some 8; role = user } ∷ bob ∷ [];
    accounts = [];
  };
  posts = post_by author ∷ [];
  comments = [];
  changelog = [];
  api_keys = [];
  uploads = [];
  sessions = [];
  resets = [];
  invitations = [];
  oauth = codes "ann@a.io" ∷ [];
  admins = [];
}

-- The post that she wrote as a member stays, without its author.
left_test : (purge_account false true (codes "ann@a.io") (estate 2)).1 ≡ ok (1, 1)
unfolding purge_account is_platform_admin_email owned_tenant_ids member_rows left leave_all leave
    is_held handed_over without_user gone_rows is_blocked purged eq_text commit guard ◌>>=◌ ◌>>◌
left_test = refl

-- A post that she wrote on the board of workspace 8 while signed in to her own stands in the way.
blocked_test :
    (purge_account false true (codes "ann@a.io") (estate 1)).1 ≡ err failed_to_delete_account
unfolding purge_account is_platform_admin_email owned_tenant_ids member_rows left leave_all leave
    is_held handed_over without_user gone_rows is_blocked purged eq_text commit guard ◌>>=◌ ◌>>◌
blocked_test = refl

purge_account_lem_example :
    let r = purge_account false true (codes "ann@a.io") (estate 2) in
    ((n : ℕ × ℕ)
      → r.1 ≡ ok n
      → IsPurged (codes "ann@a.io") (estate 2) r.0
        × (false || not (is_platform_admin_email (codes "ann@a.io") (estate 2)) ≡ true))
    × ((e : PurgeError) → r.1 ≡ err e → r.0 ≡ estate 2)
    × (HaveOwners (member_rows (codes "ann@a.io") (estate 2).db.users) (estate 2).db.users
        → (s' : Estate) × (left (codes "ann@a.io") (estate 2) ≡ ok s')
          × Succeeds false true (codes "ann@a.io") (estate 2) s')
purge_account_lem_example = purge_account_lem false true (codes "ann@a.io") (estate 2)

-- A key that she made in a workspace without an owner stands in the way.
held_test :
    (purge_account false true (codes "ann@a.io") (record (estate 2) {
      db = record (estate 2).db {
        users = ann ∷ record ann { id = 2; tenant_id = some 8; role = user } ∷ [];
      };
      api_keys = record { tenant_id = 8; created_by = 2 } ∷ [];
    })).1
    ≡ err failed_to_delete_account
unfolding purge_account is_platform_admin_email owned_tenant_ids member_rows left leave_all leave
    is_held handed_over without_user gone_rows is_blocked purged eq_text commit guard ◌>>=◌ ◌>>◌
held_test = refl
