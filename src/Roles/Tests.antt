-- ===== src/Roles/Tests.antt =====
-- Changing roles at concrete inputs.
use feedbase_backend.Base.{ℕ, ◌≡◌, refl, true, List, [], ◌∷◌, none, some, arith}
use feedbase_backend.Base.Results.{ok, err, ◌>>=◌, ◌>>◌, guard, commit}
use feedbase_backend.Text.{codes}
use feedbase_backend.Tables.{Role, owner, user, User}
use feedbase_backend.Roles.{
  insufficient_permissions, invalid_role, workspace_already_has_owner, workspace_needs_an_owner,
  user_not_found, has_other_owner, is_target_owner, with_role, role_rules, give_role,
  give_valid_role, update_user_role,
}
use feedbase_backend.Roles.OneOwner.{update_user_role-same}

-- What the runs below unfold.
changing : Unit {0}
unfolding commit update_user_role give_valid_role give_role role_rules has_other_owner
    is_target_owner with_role ◌>>=◌ ◌>>◌ guard
changing = tt

abbrev person : ℕ → Role → User
person id role = record {
  id = id;
  tenant_id = some 7;
  email = codes "a@a.io";
  full_name = codes "Ann";
  avatar_url = none;
  password_hash = none;
  role = role;
  is_active = true;
}

abbrev staff : List User
staff = person 1 owner ∷ person 2 user ∷ []

update_user_role-same_example : (update_user_role true 1 (some user) owner 7 staff).0 ≡ staff
update_user_role-same_example =
    update_user_role-same true 1 (some user) owner 7 staff (omega arith) refl

stepping_down_test :
    (update_user_role true 1 (some user) owner 7 staff).1 ≡ err workspace_needs_an_owner
unfolding changing
stepping_down_test = refl

promoted_test :
    (update_user_role true 2 (some owner) owner 7 staff).1 ≡ err workspace_already_has_owner
unfolding changing
promoted_test = refl

kept_test : (update_user_role true 2 (some user) owner 7 staff).1 ≡ ok tt
unfolding changing
kept_test = refl

stranger_test : (update_user_role true 9 (some user) owner 7 staff).1 ≡ err user_not_found
unfolding changing
stranger_test = refl

member_test : (update_user_role true 2 (some user) user 7 staff).1 ≡ err insufficient_permissions
unfolding changing
member_test = refl

admin_test : (update_user_role true 2 none owner 7 staff).1 ≡ err invalid_role
unfolding changing
admin_test = refl
