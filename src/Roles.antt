-- ===== src/Roles.antt =====
-- The roles of a workspace: `src/main/users/updateUserRole.js`. A role other than the two is
-- `none`. `up` says whether the queries succeed.
mod OneOwner
mod Tests
use feedbase_backend.Base.{
  ℕ, zero, suc, ◌+◌, ◌-◌, ◌*◌, ◌≤◌, ◌<◌, ◌≡◌, ◌≢◌, ◌↔◌, ◌⊎◌, inl, inr, refl, sym, ap, ◌∙◌, Bool,
  true, false, not, ◌&&◌, ◌||◌, List, [], ◌∷◌, ◌++◌, map, Option, none, some, arith, All, is_some,
  get_or, Bool-cases, Option-cases, if◌then◌else◌, take, length, any, keep, find, count, head?, ltb,
  leb, ◌==◌, count-append, count-any, count-keep-le, length-keep-le, length-take-le, ==_iff,
  ==_refl,
}
use feedbase_backend.Base.Results.{Result, ok, err, ◌>>=◌, ◌>>◌, guard, commit}
use feedbase_backend.Tables.{Role, owner, user, is_owner, User, is_in}

pub data RoleError : Type 0 where
  insufficient_permissions invalid_role workspace_already_has_owner workspace_needs_an_owner :
      RoleError
  user_not_found failed_to_update_user_role : RoleError

abbrev pub is_owner_in : ℕ → User → Bool
is_owner_in tenant u = is_in u.tenant_id tenant && is_owner u.role

abbrev pub is_user : ℕ → User → Bool
is_user id u = u.id == id

abbrev pub is_asked_for : ℕ → ℕ → User → Bool
is_asked_for id tenant u = u.id == id && is_in u.tenant_id tenant

-- Whether there is another owner, and whether the target is one.
unfoldable pub has_other_owner : ℕ → ℕ → List User → Bool
has_other_owner id tenant users = any (λ u. is_owner_in tenant u && not (is_user id u)) users

unfoldable pub is_target_owner : ℕ → ℕ → List User → Bool
is_target_owner id tenant users = any (λ u. is_owner_in tenant u && is_user id u) users

unfoldable pub with_role : Role → ℕ → ℕ → User → User
with_role role id tenant u = if is_asked_for id tenant u then record u { role = role } else u

-- The two rules that keep one owner.
unfoldable pub role_rules : Role → ℕ → ℕ → List User → Result RoleError (Unit {0})
role_rules owner id tenant users =
    guard (not (has_other_owner id tenant users)) workspace_already_has_owner
role_rules user id tenant users =
    guard (has_other_owner id tenant users || not (is_target_owner id tenant users))
      workspace_needs_an_owner

-- The update, for a role that can be given.
unfoldable pub give_role : Role → ℕ → ℕ → List User → Result RoleError (List User × Unit {0})
give_role role id tenant users = do
  role_rules role id tenant users
  guard (any (is_asked_for id tenant) users) user_not_found
  ok (map (with_role role id tenant) users, tt)

-- The check of the role, before the queries.
unfoldable pub give_valid_role :
    Bool → ℕ → Option Role → ℕ → List User → Result RoleError (List User × Unit {0})
give_valid_role up id none tenant users = err invalid_role
give_valid_role up id (some role) tenant users = do
  guard up failed_to_update_user_role
  give_role role id tenant users

-- `updateUserRole`
unfoldable pub update_user_role :
    Bool
    → ℕ
    → Option Role
    → (actor : Role) (tenant : ℕ) → List User
    → List User × Result RoleError (Unit {0})
update_user_role up id role actor tenant users =
    commit users
      (do guard (is_owner actor) insufficient_permissions; give_valid_role up id role tenant users)
