-- ===== src/Workspaces/Cap.antt =====
-- The cap on owned workspaces under `createWorkspace` of `src/main/users/workspaces.js`.
use mathlib.Core.Path.{subst}
use feedbase_backend.Base.{
  ℕ, suc, ◌≤◌, ◌<◌, ◌≡◌, inl, inr, refl, sym, ap, ◌∙◌, Bool, true, false, ◌&&◌, ◌||◌, List, [], ◌∷◌,
  ◌++◌, Option, none, some, arith, Bool-cases, if◌then◌else◌, any, find, count, ◌==◌, count-append,
  count-any,
}
use feedbase_backend.Base.Results.{Result-cases}
use feedbase_backend.Base.Counts.{
  count-sum, count-map-sum, any-map, any-snoc-or, length-keep-keep, find_sound,
}
use feedbase_backend.Text.{Text, eq_text}
use feedbase_backend.Plans.{at_most}
use feedbase_backend.Plans.Usage.{below, tenant_active, workspaces_of, get_account_workspace_usage}
use feedbase_backend.Tables.{Role, owner, is_owner, Tenant, User, Db, is_in}
use feedbase_backend.Accounts.{get_account, insert_account, mirror_row, mirror_account_to_tenants}
use feedbase_backend.Workspaces.{
  Site, Token, new_tenant, claim, owner_row, settle_owner, founded, create_workspace,
}
use feedbase_backend.Workspaces.Created.{create_workspace_ok, create-refused}
use feedbase_backend.Workspaces.Names.{tenants-insert}

-- The rows that the cap counts.
abbrev is_owned : Db → Text → User → Bool
is_owned db email u =
    (eq_text u.email email && u.is_active && tenant_active db u) && is_owner u.role

owned-count :
    (db : Db) (email : Text)
    → (get_account_workspace_usage db email).owned_count ≡ count (is_owned db email) db.users
unfolding get_account_workspace_usage workspaces_of
owned-count db email =
    length-keep-keep (λ (u : User). is_owner u.role)
      (λ (u : User). eq_text u.email email && u.is_active && tenant_active db u) db.users

abbrev houses : User → Tenant → Bool
houses u t = is_in u.tenant_id t.id && t.is_active

mirror_row-houses :
    (users : List User) (email : Text) (b : feedbase_backend.Tables.Billing) (u : User) (t : Tenant)
    → houses u (mirror_row users email b t) ≡ houses u t
unfolding mirror_row
mirror_row-houses users email b u t = ground arith

mirror-active :
    (email : Text) (db : Db) (u : User)
    → tenant_active (mirror_account_to_tenants email db) u ≡ tenant_active db u
unfolding tenant_active mirror_account_to_tenants
mirror-active email db u =
    let b = (get_account db email).billing in
    any-map (houses u) (mirror_row db.users email b) db.tenants
      (mirror_row-houses db.users email b u)

insert-active :
    (email : Text) (db : Db) (u : User)
    → tenant_active (insert_account email db) u ≡ tenant_active db u
unfolding tenant_active
insert-active email db u = ap (any (houses u)) (tenants-insert email db)

new-active :
    (title domain : Text) (website : Option Text) (id : ℕ) (users : List User) (db : Db) (u : User)
    → tenant_active
        (record db {
          tenants = db.tenants ++ new_tenant title domain website id ∷ [];
          users = users;
        })
        u
      ≡ (tenant_active db u || is_in u.tenant_id id)
unfolding tenant_active new_tenant
new-active title domain website id users db u =
    any-snoc-or (houses u) db.tenants (new_tenant title domain website id)
    ∙ ap (λ b. any (houses u) db.tenants || b) (ground arith)

-- Who is in an active workspace afterwards was in one before, or is in the new one.
founded-active :
    (title domain : Text) (website : Option Text) (sid : Text) (me : User) (s : Site) (u : User)
    → tenant_active (founded title domain website sid me s).0.db u
      ≡ (tenant_active s.db u || is_in u.tenant_id s.next_tenant)
unfolding founded
founded-active title domain website sid me s u =
    mirror-active me.email _ u
    ∙ insert-active me.email _ u
    ∙ new-active title domain website s.next_tenant _ s.db u

-- A row that counts afterwards counted before, or is in the new workspace.
founded-owned :
    (title domain : Text) (website : Option Text) (sid : Text) (me : User) (s : Site) (email : Text)
    (u : User)
    → is_owned (founded title domain website sid me s).0.db email u ≡ true
    → (is_owned s.db email u || is_in u.tenant_id s.next_tenant) ≡ true
founded-owned title domain website sid me s email u h =
    ground (arith, h, founded-active title domain website sid me s u)

-- The rows of the users after a success.
users-founded :
    (title domain : Text) (website : Option Text) (sid : Text) (me : User) (s : Site)
    → (founded title domain website sid me s).0.db.users
      ≡ (settle_owner me.tenant_id me s.next_tenant s.next_user s.db.users).0
unfolding founded mirror_account_to_tenants insert_account
users-founded title domain website sid me s = ground arith

claimed-or :
    (q p : User → Bool) (id tenant : ℕ)
    → ((u : User) → q u ≡ true → (p u || is_in u.tenant_id tenant) ≡ true)
    → (u : User) → q (claim id tenant u) ≡ true
    → (p u || (is_in u.tenant_id tenant || u.id == id)) ≡ true
unfolding claim
claimed-or q p id tenant h u k = elim (Bool-cases (u.id == id)) [
  | inl e ↦ ground (arith, e)
  | inr e ↦
      let same : (if u.id == id then record u { tenant_id = some tenant; role = owner } else u)
          ≡ u =
        rw e refl in
      ground (arith, h u (subst (λ x. q x ≡ true) same k))
]

-- Settling the owner adds one to a count, where only rows of the new workspace start to count.
settle-count :
    (q p : User → Bool) (in_tenant : Option ℕ) (me : User) (tenant next : ℕ) (users : List User)
    → ((u : User) → q u ≡ true → (p u || is_in u.tenant_id tenant) ≡ true)
    → any (λ u. is_in u.tenant_id tenant) users ≡ false
    → count (λ u. u.id == me.id) users ≤ 1
    → count q (settle_owner in_tenant me tenant next users).0 ≤ suc (count p users)
unfolding settle_owner
settle-count q p none me tenant next users h fresh one =
    let r : User → Bool = λ u. is_in u.tenant_id tenant || u.id == me.id in
    let grown = count-map-sum q p r (claim me.id tenant) users (claimed-or q p me.id tenant h) in
    let either =
      count-sum r (λ u. is_in u.tenant_id tenant) (λ u. u.id == me.id) users (λ u k. k) in
    let nobody = count-any (λ (u : User). is_in u.tenant_id tenant) users fresh in
    omega (arith, grown, either, nobody, one)
settle-count q p (some other) me tenant next users h fresh one =
    let added = count-append q users (owner_row me tenant next) in
    let grown = count-sum q p (λ u. is_in u.tenant_id tenant) users h in
    let nobody = count-any (λ (u : User). is_in u.tenant_id tenant) users fresh in
    ground (arith, added, grown, nobody)

allowed-lt :
    (db : Db) (email : Text) (n : ℕ)
    → (get_account_workspace_usage db email).own_limit ≡ at_most n
    → (get_account_workspace_usage db email).can_create ≡ true
    → (get_account_workspace_usage db email).owned_count < n
unfolding get_account_workspace_usage
allowed-lt db email n l h =
    let usage = get_account_workspace_usage db email in
    let room : below usage.owned_count (at_most n) ≡ true =
      subst (λ x. below usage.owned_count x ≡ true) l h in
    ground (arith, room)

granted-cap :
    (title domain : Text) (website : Option Text) (sid : Text) (me : User) (s : Site) (email : Text)
    (id n : ℕ)
    → any (λ (u : User). is_in u.tenant_id s.next_tenant) s.db.users ≡ false
    → count (λ (u : User). u.id == id) s.db.users ≤ 1
    → find (λ (u : User). u.id == id) s.db.users ≡ some me
    → (get_account_workspace_usage s.db email).owned_count < n
    → (get_account_workspace_usage (founded title domain website sid me s).0.db email).owned_count
      ≤ n
granted-cap title domain website sid me s email id n fresh one f less =
    let after = (founded title domain website sid me s).0.db in
    let mine : me.id ≡ id = ground (arith, find_sound (λ (u : User). u.id == id) s.db.users me f) in
    let settled =
      settle-count (is_owned after email) (is_owned s.db email) me.tenant_id me s.next_tenant
        s.next_user s.db.users (founded-owned title domain website sid me s email) fresh
        (subst (λ i. count (λ (u : User). u.id == i) s.db.users ≤ 1) (sym mine) one) in
    let rows = users-founded title domain website sid me s in
    let counted : count (is_owned after email) after.users
        ≤ suc (count (is_owned s.db email) s.db.users) =
      subst (λ us. count (is_owned after email) us ≤ suc (count (is_owned s.db email) s.db.users))
        (sym rows) settled in
    omega (arith, owned-count after email, owned-count s.db email, counted, less)

-- A request for a new workspace, granted or not, leaves an account that is within a cap of `n` owned
-- workspaces within it, where no user is in the workspace that comes next, and the asking user's id is
-- unique.
pub create-cap :
    (lower : Text → Text) (up : Bool) (auth : Token) (name subdomain website : Option Text)
    (site : Site) (n : ℕ)
    → any (λ (u : User). is_in u.tenant_id site.next_tenant) site.db.users ≡ false
    → count (λ (u : User). u.id == auth.id) site.db.users ≤ 1
    → (get_account_workspace_usage site.db auth.email).own_limit ≡ at_most n
    → (get_account_workspace_usage site.db auth.email).owned_count ≤ n
    → (get_account_workspace_usage
        (create_workspace lower up auth name subdomain website site).0.db
        auth.email).owned_count
      ≤ n
create-cap lower up auth name subdomain website site n fresh one limit within =
    let r = create_workspace lower up auth name subdomain website site in
    elim (Result-cases r.1) [
      | inl (tok, h) ↦
          let (me, g, same) = create_workspace_ok lower up auth name subdomain website site tok h in
          subst
            (λ (x : Site × Token). (get_account_workspace_usage x.0.db auth.email).owned_count ≤ n)
            same
            (granted-cap _ _ _ auth.sid me site auth.email auth.id n fresh one g.asking
              (allowed-lt site.db auth.email n limit g.allowed))
      | inr (e, h) ↦
          subst (λ (x : Site). (get_account_workspace_usage x.db auth.email).owned_count ≤ n)
            (sym (create-refused lower up auth name subdomain website site e h)) within
    ]
