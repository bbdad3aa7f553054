-- ===== src/Workspaces/Created.antt =====
-- What `createWorkspace` of `src/main/users/workspaces.js` leaves.
use feedbase_backend.Base.{
  ℕ, ◌≡◌, ap, ◌∙◌, Bool, true, false, ◌&&◌, [], ◌∷◌, ◌++◌, map, Option, none, some, arith, get_or,
  any, find, ◌==◌,
}
use feedbase_backend.Base.Results.{
  ok, err, guard-then, first-then, commit-ok, commit-err, ok_injective,
}
use feedbase_backend.Text.{Text, codes, eq_text, trim}
use feedbase_backend.Plans.Usage.{get_account_workspace_usage}
use feedbase_backend.Tables.{is_owner, Tenant, User, is_in}
use feedbase_backend.Accounts.Shown.{InSync}
use feedbase_backend.Workspaces.{
  Column, Site, Token, WorkspaceError, or_null, is_subdomain, takes, founded, create_workspace,
}

-- What a success has checked and done.
pub record IsGranted (lower : Text → Text) (auth : Token) (subdomain : Option Text) (site : Site)
    (me : User) : Type 0 where
  pub valid : is_subdomain (lower (trim (get_or subdomain []))) ≡ true
  pub allowed : (get_account_workspace_usage site.db auth.email).can_create ≡ true
  pub unused : any (takes (lower (trim (get_or subdomain [])))) site.db.tenants ≡ false
  pub asking : find (λ (u : User). u.id == auth.id) site.db.users ≡ some me

pub create_workspace_ok :
    (lower : Text → Text) (up : Bool) (auth : Token) (name subdomain website : Option Text)
    (site : Site) (tok : Token)
    → let r = create_workspace lower up auth name subdomain website site in
      r.1 ≡ ok tok
      → (me : User) × IsGranted lower auth subdomain site me
        × (founded
              (trim (get_or name []))
              (lower (trim (get_or subdomain [])))
              (or_null (trim (get_or website [])))
              auth.sid
              me
              site
            ≡ (r.0, tok))
unfolding create_workspace
create_workspace_ok lower up auth name subdomain website site tok h =
    let (t, g, kept) = commit-ok site _ tok h in
    let (_, h1) = guard-then _ _ _ g in
    let (v, h2) = guard-then _ _ _ h1 in
    let (a, h3) = guard-then _ _ _ h2 in
    let (u, h4) = guard-then _ _ _ h3 in
    let (me, found, h5) = first-then _ _ _ h4 in
    let (_, h6) = guard-then _ _ _ h5 in
    let (_, h7) = guard-then _ _ _ h6 in
    (
      me,
      record { valid = v; allowed = a; unused = ground (arith, u); asking = found },
      ok_injective h7 ∙ ap (λ s. (s, tok)) kept,
    )

-- An owner's row of the workspace with the id and the address of the token.
abbrev pub is_owners : ℕ → Token → User → Bool
is_owners tenant tok u =
    u.id == tok.id && is_in u.tenant_id tenant && is_owner u.role && eq_text u.email tok.email

-- What a row of `tenants` says besides its billing.
abbrev pub face : Tenant → ℕ × Text × Text × Text × Option Text × Bool
face t = (t.id, t.name, t.slug, t.subdomain, t.website, t.is_active)

abbrev pub place_of : Column → ℕ × Text
place_of c = (c.tenant_id, c.column_key)

-- The state that a success leaves: the new row of the workspace comes last, the user who asked owns it,
-- by the row of a pending account or by one that is new, the roadmap has its three columns, and the
-- billing of the account shows on every workspace it owns.
pub record IsFounded (lower : Text → Text) (auth : Token) (name subdomain website : Option Text)
    (s s' : Site) (tok : Token) : Type 0 where
  pub valid : is_subdomain (lower (trim (get_or subdomain []))) ≡ true
  pub allowed : (get_account_workspace_usage s.db auth.email).can_create ≡ true
  pub unused : any (takes (lower (trim (get_or subdomain [])))) s.db.tenants ≡ false
  pub added :
      let domain = lower (trim (get_or subdomain [])) in
      map face s'.db.tenants
      ≡ map face s.db.tenants
        ++ (
          s.next_tenant,
          trim (get_or name []),
          domain,
          domain,
          or_null (trim (get_or website [])),
          true,
        )
          ∷ []
  pub inside : tok.tenant_id ≡ some s.next_tenant
  pub me : User
  pub asking : find (λ (u : User). u.id == auth.id) s.db.users ≡ some me
  pub mine : tok.email ≡ me.email
  pub claimed : me.tenant_id ≡ none → tok.id ≡ auth.id
  pub joined : (other : ℕ) → me.tenant_id ≡ some other → tok.id ≡ s.next_user
  pub owned : any (is_owners s.next_tenant tok) s'.db.users ≡ true
  pub columned :
      map place_of s'.columns
      ≡ map place_of s.columns
        ++ (s.next_tenant, codes "planned")
          ∷ (s.next_tenant, codes "in_progress")
          ∷ (s.next_tenant, codes "completed")
          ∷ []
  pub synced : InSync s'.db tok.email

pub create-refused :
    (lower : Text → Text) (up : Bool) (auth : Token) (name subdomain website : Option Text)
    (site : Site) (e : WorkspaceError)
    → (create_workspace lower up auth name subdomain website site).1 ≡ err e
    → (create_workspace lower up auth name subdomain website site).0 ≡ site
unfolding create_workspace
create-refused lower up auth name subdomain website site e h = commit-err site _ e h
