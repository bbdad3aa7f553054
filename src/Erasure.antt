-- ===== src/Erasure.antt =====
-- Erasing an account: `src/common/accountDeletion.js`, and `deleteAccount` of
-- `src/main/users/deleteAccount.js`. The call of the payment provider that goes before is left out: it
-- writes no table. `up` says whether the transaction succeeds, and is an argument, as is bcrypt.
mod Leaving
mod Unsigned
mod Gone
mod Tests
use feedbase_backend.Base.{
  ℕ, zero, suc, ◌+◌, ◌-◌, ◌*◌, ◌≤◌, ◌<◌, ◌≡◌, ◌≢◌, ◌↔◌, ◌⊎◌, inl, inr, refl, sym, ap, ◌∙◌, Bool,
  true, false, not, ◌&&◌, ◌||◌, List, [], ◌∷◌, ◌++◌, map, Option, none, some, arith, All, is_some,
  get_or, Bool-cases, Option-cases, if◌then◌else◌, take, length, any, keep, find, count, head?, ltb,
  leb, ◌==◌, count-append, count-any, count-keep-le, length-keep-le, length-take-le, ==_iff,
  ==_refl,
}
use feedbase_backend.Base.Results.{Result, ok, err, ◌>>=◌, ◌>>◌, guard, first, commit}
use feedbase_backend.Text.{Text, eq_text, is_empty}
use feedbase_backend.Tables.{is_owner, Tenant, User, Account, Db, is_in}
use feedbase_backend.Sessions.{Session}
use feedbase_backend.Board.{Post}
use feedbase_backend.Comments.{Comment, cascade}
use feedbase_backend.Team.{Invitation}
use feedbase_backend.Passwords.{Reset}

-- A row of `changelog_entries`, `api_keys` or `file_uploads`, with its workspace and its maker.
pub record Made : Type 0 where
  pub tenant_id : ℕ
  pub created_by : ℕ

-- The tables that an erasure writes, the addresses of social sign-ins, and the users that are platform
-- admins.
pub record Estate : Type 0 where
  pub db : Db
  pub posts : List Post
  pub comments : List Comment
  pub changelog : List Made
  pub api_keys : List Made
  pub uploads : List Made
  pub sessions : List Session
  pub resets : List Reset
  pub invitations : List Invitation
  pub oauth : List Text
  pub admins : List ℕ

pub data PurgeError : Type 0 where
  platform_admin_undeletable user_not_found failed_to_delete_account : PurgeError
  password_required incorrect_password : PurgeError

abbrev pub is_account : Text → User → Bool
is_account email u = eq_text u.email email

abbrev is_admin : List ℕ → User → Bool
is_admin admins u = any (λ i. i == u.id) admins

-- `isPlatformAdminEmail`
unfoldable pub is_platform_admin_email : Text → Estate → Bool
is_platform_admin_email email s = any (λ u. is_account email u && is_admin s.admins u) s.db.users

abbrev tenants_of : List User → List ℕ
tenants_of [] = []
tenants_of (u ∷ us) =
    let rest = tenants_of us in elim u.tenant_id [ none ↦ rest | some t ↦ t ∷ rest ]

-- The workspaces that the account owns, and its rows in others.
unfoldable pub owned_tenant_ids : Text → List User → List ℕ
owned_tenant_ids email users = tenants_of (keep (λ u. is_account email u && is_owner u.role) users)

unfoldable pub member_rows : Text → List User → List User
member_rows email users =
    keep (λ u. is_account email u && not (is_owner u.role) && is_some u.tenant_id) users

-- Authorship that ends.
abbrev pub unsigned : ℕ → Option ℕ → Option ℕ
unsigned id none = none
unsigned id (some a) = if a == id then none else some a

abbrev pub unsign_post : ℕ → Post → Post
unsign_post id p = record p { author_id = unsigned id p.author_id }

abbrev pub is_signed : ℕ → Post → Bool
is_signed id p = elim p.author_id [ none ↦ false | some a ↦ a == id ]

abbrev pub unsign_comment : ℕ → Comment → Comment
unsign_comment id c = record c { author_id = unsigned id c.author_id }

abbrev pub owns_with : Option ℕ → User → Bool
owns_with none u = false
owns_with (some t) u = is_in u.tenant_id t && is_owner u.role

abbrev pub hand_over : Option User → ℕ → Made → Made
hand_over none id m = m
hand_over (some o) id m = if m.created_by == id then record m { created_by = o.id } else m

-- The foreign keys that forbid the deletion of a row of `users`: what it made, or posted.
unfoldable pub is_held : ℕ → Estate → Bool
is_held id s =
    any (λ (m : Made). m.created_by == id) s.changelog
    || any (λ (m : Made). m.created_by == id) s.api_keys
    || any (λ (m : Made). m.created_by == id) s.uploads
    || any (is_signed id) s.posts

-- The UPDATEs of one membership.
unfoldable pub handed_over : User → Estate → Estate
handed_over m s =
    let owner = find (owns_with m.tenant_id) s.db.users in
    record s {
      posts = map (unsign_post m.id) s.posts;
      comments = map (unsign_comment m.id) s.comments;
      changelog = map (hand_over owner m.id) s.changelog;
      api_keys = map (hand_over owner m.id) s.api_keys;
      uploads = map (hand_over owner m.id) s.uploads;
    }

unfoldable pub without_user : ℕ → Estate → Estate
without_user id s =
    let db = s.db in record s { db = record db { users = keep (λ u. not (u.id == id)) db.users } }

-- Leaving one workspace.
unfoldable pub leave : User → Estate → Result PurgeError Estate
leave m s =
    let s' = handed_over m s in
    (do guard (not (is_held m.id s')) failed_to_delete_account; ok (without_user m.id s'))

unfoldable pub leave_all : List User → Estate → Result PurgeError Estate
leave_all [] s = ok s
leave_all (m ∷ ms) s = do s' ← leave m s; leave_all ms s'

abbrev pub is_of : List ℕ → ℕ → Bool
is_of ids t = any (λ i. i == t) ids

abbrev pub is_in_any : List ℕ → User → Bool
is_in_any ids u = any (λ i. is_in u.tenant_id i) ids

-- A comment on a post of one of the workspaces.
abbrev pub is_on_any : List ℕ → ℕ → List Post → Bool
is_on_any ids post posts = any (λ p. p.id == post && is_of ids p.tenant_id) posts

-- The workspaces go, with all rows that hang on them.
unfoldable pub drop_tenants : List ℕ → Estate → Estate
drop_tenants ids s =
    let db = s.db in
    record s {
      db = record db {
        tenants = keep (λ (t : Tenant). not (is_of ids t.id)) db.tenants;
        users = keep (λ u. not (is_in_any ids u)) db.users;
      };
      posts = keep (λ p. not (is_of ids p.tenant_id)) s.posts;
      comments =
          cascade (length s.comments)
            (keep (λ c. not (is_of ids c.tenant_id || is_on_any ids c.post_id s.posts)) s.comments);
      changelog = keep (λ m. not (is_of ids m.tenant_id)) s.changelog;
      api_keys = keep (λ m. not (is_of ids m.tenant_id)) s.api_keys;
      uploads = keep (λ m. not (is_of ids m.tenant_id)) s.uploads;
      invitations = keep (λ i. not (is_of ids i.tenant_id)) s.invitations;
    }

-- Everything that is keyed by the address.
unfoldable pub erase_email : Text → Estate → Estate
erase_email email s =
    let db = s.db in
    record s {
      db = record db {
        users = keep (λ u. not (is_account email u)) db.users;
        accounts = keep (λ (a : Account). not (eq_text a.email email)) db.accounts;
      };
      sessions = keep (λ r. not (eq_text r.email email)) s.sessions;
      resets = keep (λ r. not (eq_text r.email email)) s.resets;
      invitations = keep (λ i. not (eq_text i.email email)) s.invitations;
      oauth = keep (λ e. not (eq_text e email)) s.oauth;
    }

-- The rows of `users` that the deletions reach, and who wrote what.
unfoldable pub gone_rows : Text → List ℕ → List User → List User
gone_rows email ids users = keep (λ u. is_in_any ids u || is_account email u) users

abbrev pub is_by_any : List User → Option ℕ → Bool
is_by_any us none = false
is_by_any us (some a) = any (λ (u : User). u.id == a) us

-- `fk_comments_author`, and `fk_comments_parent`: the comments of a deleted row go with it, and so do the
-- replies to them.
unfoldable pub drop_authors : List User → Estate → Estate
drop_authors gone s = record s {
  comments = cascade (length s.comments) (keep (λ c. not (is_by_any gone c.author_id)) s.comments);
}

-- The other foreign keys: what a deleted row wrote in a workspace that stays forbids its deletion.
unfoldable pub is_blocked : List User → List ℕ → Estate → Bool
is_blocked gone ids s =
    any (λ p. not (is_of ids p.tenant_id) && is_by_any gone p.author_id) s.posts
    || any (λ m. not (is_of ids m.tenant_id) && is_by_any gone (some m.created_by)) s.changelog
    || any (λ m. not (is_of ids m.tenant_id) && is_by_any gone (some m.created_by)) s.api_keys
    || any (λ m. not (is_of ids m.tenant_id) && is_by_any gone (some m.created_by)) s.uploads

-- The account has left the workspaces of others.
unfoldable pub left : Text → Estate → Result PurgeError Estate
left email s = leave_all (member_rows email s.db.users) s

-- The deletions of the transaction.
unfoldable pub purged : Text → List ℕ → Estate → Estate
purged email ids s =
    erase_email email (drop_tenants ids (drop_authors (gone_rows email ids s.db.users) s))

-- `purgeAccount`, which answers with how many workspaces it deleted and how many it left.
unfoldable pub purge_account : Bool → Bool → Text → Estate → Estate × Result PurgeError (ℕ × ℕ)
purge_account allow up email s = commit s (do
  guard (allow || not (is_platform_admin_email email s)) platform_admin_undeletable
  guard (any (is_account email) s.db.users) user_not_found
  let ids = owned_tenant_ids email s.db.users
  s' ← left email s
  guard (up && not (is_blocked (gone_rows email ids s'.db.users) ids s')) failed_to_delete_account
  ok (purged email ids s', (length ids, length (member_rows email s.db.users))))

-- A password that is set is asked for again.
unfoldable pub reauthenticate :
    (Text → Text → Bool) → Text → Option Text → Result PurgeError (Unit {0})
reauthenticate compare password none = ok tt
reauthenticate compare password (some []) = ok tt
reauthenticate compare password (some (c ∷ hash)) = do
  guard (not (is_empty password)) password_required
  guard (compare password (c ∷ hash)) incorrect_password

-- The answer to the customer: of the errors of a purge only one has its own message.
abbrev relabel : Estate × Result PurgeError (ℕ × ℕ) → Estate × Result PurgeError (ℕ × ℕ)
relabel (s, ok n) = (s, ok n)
relabel (s, err platform_admin_undeletable) = (s, err platform_admin_undeletable)
relabel (s, err e) = (s, err failed_to_delete_account)

abbrev after :
    Result PurgeError (Unit {0})
    → Estate
    → Estate × Result PurgeError (ℕ × ℕ)
    → Estate × Result PurgeError (ℕ × ℕ)
after (ok u) s done = done
after (err e) s done = (s, err e)

-- `deleteAccount`
unfoldable pub delete_account :
    (Text → Text → Bool) → Bool → Text → ℕ → Text → Estate → Estate × Result PurgeError (ℕ × ℕ)
delete_account compare up password id email s =
    after
      (do
        me ← first (find (λ (u : User). u.id == id) s.db.users) user_not_found
        reauthenticate compare password me.password_hash)
      s (relabel (purge_account false up email s))
