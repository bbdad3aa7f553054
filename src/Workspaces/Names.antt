-- ===== src/Workspaces/Names.antt =====
-- The names of workspaces under `createWorkspace` of `src/main/users/workspaces.js`.
use mathlib.Core.Path.{subst}
use feedbase_backend.Base.{
  ℕ, ◌≤◌, ◌≡◌, inl, inr, refl, sym, Bool, true, false, List, [], ◌∷◌, ◌++◌, Option, arith,
  Bool-cases, any, count, count-append,
}
use feedbase_backend.Base.Results.{Result-cases}
use feedbase_backend.Base.Counts.{count-map-le}
use feedbase_backend.Text.{Text, eq_text}
use feedbase_backend.Text.Laws.{eq_text_sound}
use feedbase_backend.Tables.{Role, owner, is_owner, Tenant, User, Db, is_in}
use feedbase_backend.Accounts.{get_account, insert_account, mirror_row, mirror_account_to_tenants}
use feedbase_backend.Workspaces.{Site, Token, takes, new_tenant, founded, create_workspace}
use feedbase_backend.Workspaces.Created.{create_workspace_ok, create-refused}

-- No two workspaces share a name.
abbrev pub AreDistinct : List Tenant → Type 0
AreDistinct ts = (name : Text) → count (λ (t : Tenant). eq_text t.subdomain name) ts ≤ 1

mirror_row-subdomain :
    (users : List User) (email : Text) (b : feedbase_backend.Tables.Billing) (name : Text)
    (t : Tenant)
    → eq_text (mirror_row users email b t).subdomain name ≡ true
    → eq_text t.subdomain name ≡ true
unfolding mirror_row
mirror_row-subdomain users email b name t h = ground arith

pub tenants-insert : (email : Text) (db : Db) → (insert_account email db).tenants ≡ db.tenants
unfolding insert_account
tenants-insert email db = ground arith

unused-count :
    (name : Text) (ts : List Tenant)
    → any (takes name) ts ≡ false
    → count (λ (t : Tenant). eq_text t.subdomain name) ts ≡ 0
unused-count name [] h = refl
unused-count name (t ∷ ts) h = ground (arith, unused-count name ts)

new-AreDistinct :
    (title domain : Text) (website : Option Text) (id : ℕ) (ts : List Tenant)
    → any (takes domain) ts ≡ false
    → AreDistinct ts
    → AreDistinct (ts ++ new_tenant title domain website id ∷ [])
unfolding new_tenant
new-AreDistinct title domain website id ts u v name =
    let grown =
      count-append (λ (t : Tenant). eq_text t.subdomain name) ts
        (new_tenant title domain website id) in
    elim (Bool-cases (eq_text domain name)) [
      | inl e ↦
          let free =
            unused-count name ts
              (subst (λ n. any (takes n) ts ≡ false) (eq_text_sound domain name e) u) in
          ground (arith, grown, free, e)
      | inr e ↦ ground (arith, grown, v name, e)
    ]

mirror-AreDistinct :
    (email : Text) (db : Db)
    → AreDistinct db.tenants
    → AreDistinct (mirror_account_to_tenants email db).tenants
unfolding mirror_account_to_tenants
mirror-AreDistinct email db v name = omega (
  arith,
  v name,
  count-map-le _ (mirror_row db.users email (get_account db email).billing) db.tenants
      (mirror_row-subdomain db.users email (get_account db email).billing name),
)

founded-AreDistinct :
    (title domain : Text) (website : Option Text) (sid : Text) (me : User) (s : Site)
    → any (takes domain) s.db.tenants ≡ false
    → AreDistinct s.db.tenants
    → AreDistinct (founded title domain website sid me s).0.db.tenants
unfolding founded
founded-AreDistinct title domain website sid me s u v = mirror-AreDistinct me.email _ (
    subst AreDistinct (sym (tenants-insert me.email _))
      (new-AreDistinct title domain website s.next_tenant s.db.tenants u v))

-- A request for a new workspace, granted or not, leaves the names of all workspaces different, if they
-- were.
pub create-AreDistinct :
    (lower : Text → Text) (up : Bool) (auth : Token) (name subdomain website : Option Text)
    (site : Site)
    → AreDistinct site.db.tenants
    → AreDistinct (create_workspace lower up auth name subdomain website site).0.db.tenants
create-AreDistinct lower up auth name subdomain website site v =
    let r = create_workspace lower up auth name subdomain website site in
    elim (Result-cases r.1) [
      | inl (tok, h) ↦
          let (me, g, same) = create_workspace_ok lower up auth name subdomain website site tok h in
          subst (λ (x : Site × Token). AreDistinct x.0.db.tenants) same
            (founded-AreDistinct _ _ _ auth.sid me site g.unused v)
      | inr (e, h) ↦
          subst (λ (x : Site). AreDistinct x.db.tenants)
            (sym (create-refused lower up auth name subdomain website site e h)) v
    ]
