-- ===== src/Workspaces/Switching.antt =====
-- `switchWorkspace` and `getWorkspaces` of `src/main/users/workspaces.js` agree.
use feedbase_backend.Base.{
  ℕ, ◌≡◌, refl, sym, ◌∙◌, Bool, true, ◌&&◌, List, [], ◌∷◌, arith, any, keep,
}
use feedbase_backend.Base.Results.{ok, ◌>>=◌, first, first-then}
use feedbase_backend.Base.Counts.{any-find, find-any_hit}
use feedbase_backend.Text.{Text, eq_text}
use feedbase_backend.Plans.Usage.{tenant_active, workspaces_of}
use feedbase_backend.Tables.{User, Db, is_in}
use feedbase_backend.Workspaces.{Site, Token, get_workspaces, is_membership, switch_workspace}

-- Some row that is listed for the account is in the workspace.
abbrev pub is_listed : Text → ℕ → Site → Bool
is_listed email tenant site =
    any (λ (u : User). is_in u.tenant_id tenant) (get_workspaces email site).0

listed-find :
    (db : Db) (email : Text) (tenant : ℕ) (us : List User)
    → any
        (λ (u : User). is_in u.tenant_id tenant)
        (keep (λ (u : User). eq_text u.email email && u.is_active && tenant_active db u) us)
      ≡ any (is_membership db email tenant) us
unfolding is_membership
listed-find db email tenant [] = refl
listed-find db email tenant (u ∷ us) = ground (arith, listed-find db email tenant us)

-- A user can switch to exactly the workspaces that are listed for the account: a switch to one that
-- is listed is answered with a token for it, in the same session and under an address equal to the
-- account's, and a switch that is answered is to one that is listed.
pub switch-listed :
    (auth : Token) (tenant : ℕ) (site : Site)
    → (is_listed auth.email tenant site ≡ true
        → (t : Token) × (switch_workspace auth tenant site ≡ ok t)
          × (is_in t.tenant_id tenant ≡ true)
          × (t.sid ≡ auth.sid)
          × (eq_text t.email auth.email ≡ true))
      × ((t : Token)
          → switch_workspace auth tenant site ≡ ok t
          → is_listed auth.email tenant site ≡ true)
unfolding switch_workspace get_workspaces workspaces_of is_membership first ◌>>=◌
switch-listed auth tenant site =
    let same = listed-find site.db auth.email tenant site.db.users in
    (
      λ l.
          let (u, found, member) =
            any-find (is_membership site.db auth.email tenant) site.db.users (sym same ∙ l) in
          (
            record {
              id = u.id;
              email = u.email;
              tenant_id = u.tenant_id;
              role = u.role;
              sid = auth.sid;
            },
            rw found refl,
            ground (arith, member),
            refl,
            ground (arith, member),
          ),
      λ t h. let (u, found, _) = first-then _ _ _ h in same ∙ find-any_hit _ site.db.users u found,
    )
