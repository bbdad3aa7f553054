-- ===== src/Roles/OneOwner.antt =====
-- The rules of `src/main/users/updateUserRole.js` keep the owner of a workspace as he is.
use feedbase_backend.Base.{
  ℕ, ◌+◌, ◌≤◌, ◌≡◌, inl, inr, refl, sym, ap, ◌∙◌, Bool, true, false, not, ◌&&◌, ◌||◌, List, [], ◌∷◌,
  map, Option, none, some, arith, All, Bool-cases, any, count, count-any,
}
use feedbase_backend.Base.Results.{
  Result, ok, err, ◌>>=◌, ◌>>◌, guard, guard-then, all-then, commit-keeps, ok_injective,
}
use feedbase_backend.Base.Counts.{count-le, count-sum}
use feedbase_backend.Tables.{Role, owner, user, is_owner, User}
use feedbase_backend.Roles.{
  workspace_already_has_owner, workspace_needs_an_owner, insufficient_permissions,
  failed_to_update_user_role, user_not_found, is_owner_in, is_user, is_asked_for, has_other_owner,
  is_target_owner, with_role, role_rules, give_role, give_valid_role, update_user_role,
}

-- Where a test implies another and the counts leave no room, the other implies it.
count-All :
    {A : Type 0} (p q : A → Bool) (xs : List A)
    → ((x : A) → q x ≡ true → p x ≡ true)
    → count p xs ≤ count q xs
    → All (λ x. p x ≡ true → q x ≡ true) xs
count-All p q [] i h = tt
count-All p q (x ∷ xs) i h =
    let tail = count-le q p xs i in
    ((λ e. ground (arith, e, h, tail, i x)), count-All p q xs i (ground (arith, h, tail, i x)))

map-All :
    {A : Type 0} {P Q : A → Type 0} → ((x : A) → P x → Q x) → (xs : List A) → All P xs → All Q xs
map-All f [] h = tt
map-All f (x ∷ xs) (a, h) = (f x a, map-All f xs h)

count-any_hit : {A : Type 0} (p : A → Bool) (xs : List A) → any p xs ≡ true → 1 ≤ count p xs
count-any_hit p [] h = cc
count-any_hit p (x ∷ xs) h = ground (arith, h, count-any_hit p xs)

count-both :
    {A : Type 0} (p q : A → Bool) (xs : List A)
    → count (λ x. p x && not (q x)) xs + count (λ x. p x && q x) xs ≤ count p xs
count-both p q [] = omega arith
count-both p q (x ∷ xs) = ground (arith, count-both p q xs)

count_zero-All :
    {A : Type 0} (p : A → Bool) (xs : List A) → count p xs ≡ 0 → All (λ x. p x ≡ false) xs
count_zero-All p [] h = tt
count_zero-All p (x ∷ xs) h = (ground (arith, h), count_zero-All p xs (ground (arith, h)))

any-All : {A : Type 0} (p : A → Bool) (xs : List A) → any p xs ≡ false → All (λ x. p x ≡ false) xs
any-All p [] h = tt
any-All p (x ∷ xs) h = (ground (arith, h), any-All p xs (ground (arith, h)))

guard-true : {E : Type 0} (b : Bool) (e : E) {a : Unit {0}} → guard b e ≡ ok a → b ≡ true
unfolding guard
guard-true true e h = refl
guard-true false e h = cc

guard-false : {E : Type 0} (b : Bool) (e : E) {a : Unit {0}} → guard (not b) e ≡ ok a → b ≡ false
unfolding guard
guard-false true e h = cc
guard-false false e h = refl

-- The first of two checks has passed.
passed-then :
    {E A : Type 0} (m : Result E (Unit {0})) (k : Result E A) {a : A} → (m >> k) ≡ ok a → m ≡ ok tt
unfolding ◌>>=◌ ◌>>◌
passed-then (ok u) k h = refl
passed-then (err e) k h = cc

-- A row that the update does not change.
abbrev IsSame : Role → ℕ → ℕ → User → Type 0
IsSame role id tenant u = is_asked_for id tenant u ≡ true → is_owner u.role ≡ is_owner role

role-eq : (r s : Role) → is_owner r ≡ is_owner s → r ≡ s
role-eq owner owner h = refl
role-eq user user h = refl
role-eq owner user h = cc
role-eq user owner h = cc

with_role-same :
    (role : Role) (id tenant : ℕ) (u : User)
    → IsSame role id tenant u
    → with_role role id tenant u ≡ u
unfolding with_role
with_role-same role id tenant u h = elim (Bool-cases (is_asked_for id tenant u)) [
  | inr e ↦ rw e refl
  | inl e ↦
      let same : u.role ≡ role = role-eq u.role role (h e) in
      rw e (ap (λ (r : Role). record u { role = r }) (sym same))
]

map-same :
    (role : Role) (id tenant : ℕ) (us : List User)
    → All (IsSame role id tenant) us
    → map (with_role role id tenant) us ≡ us
map-same role id tenant [] h = refl
map-same role id tenant (u ∷ us) (a, h) =
    rw (with_role-same role id tenant u a, map-same role id tenant us h) refl

-- A user of the workspace that is asked for is an owner, or none is.
becomes-IsSame :
    (id tenant : ℕ) (users : List User)
    → count (is_user id) users ≤ 1
    → count (is_owner_in tenant) users ≡ 1
    → has_other_owner id tenant users ≡ false
    → All (IsSame owner id tenant) users
unfolding has_other_owner
becomes-IsSame id tenant users unique one h =
    let other = count-any (λ u. is_owner_in tenant u && not (is_user id u)) users h in
    let sum =
      count-sum (is_owner_in tenant) (λ u. is_owner_in tenant u && not (is_user id u))
        (λ u. is_owner_in tenant u && is_user id u) users (λ u e. ground (arith, e)) in
    let all =
      count-All (is_user id) (λ u. is_owner_in tenant u && is_user id u) users
        (λ u e. ground (arith, e)) (omega arith) in
    map-All (λ u f e. ground (arith, e, f)) users all

-- No user that is asked for is an owner.
spares-All :
    (id tenant : ℕ) (users : List User)
    → count (is_owner_in tenant) users ≡ 1
    → (has_other_owner id tenant users || not (is_target_owner id tenant users)) ≡ true
    → All (λ u. (is_owner_in tenant u && is_user id u) ≡ false) users
unfolding has_other_owner is_target_owner
spares-All id tenant users one h = elim (Bool-cases (has_other_owner id tenant users)) [
  | inl e ↦
      let hit = count-any_hit (λ u. is_owner_in tenant u && not (is_user id u)) users e in
      let both = count-both (is_owner_in tenant) (is_user id) users in
      count_zero-All (λ u. is_owner_in tenant u && is_user id u) users (omega arith)
  | inr e ↦ any-All (λ u. is_owner_in tenant u && is_user id u) users (ground (arith, h, e))
]

role_rules-IsSame :
    (role : Role) (id tenant : ℕ) (users : List User) {a : Unit {0}}
    → count (is_user id) users ≤ 1
    → count (is_owner_in tenant) users ≡ 1
    → role_rules role id tenant users ≡ ok a
    → All (IsSame role id tenant) users
unfolding role_rules
role_rules-IsSame owner id tenant users unique one h =
    becomes-IsSame id tenant users unique one
      (guard-false (has_other_owner id tenant users) workspace_already_has_owner h)
role_rules-IsSame user id tenant users unique one h =
    map-All (λ u f e. ground (arith, e, f)) users
      (spares-All id tenant users one (
        guard-true (has_other_owner id tenant users || not (is_target_owner id tenant users))
          workspace_needs_an_owner h))

give_role-same :
    (role : Role) (id tenant : ℕ) (users users' : List User) {a : Unit {0}}
    → count (is_user id) users ≤ 1
    → count (is_owner_in tenant) users ≡ 1
    → give_role role id tenant users ≡ ok (users', a)
    → users' ≡ users
unfolding give_role
give_role-same role id tenant users users' unique one h =
    let rules = role_rules role id tenant users in
    let same = role_rules-IsSame role id tenant users unique one (passed-then rules _ h) in
    let done =
      (guard-then (any (is_asked_for id tenant) users) user_not_found _ (all-then rules _ h)).1 in
    sym (ap (λ p. p.0) (ok_injective done)) ∙ map-same role id tenant users same

give_valid_role-same :
    (up : Bool) (id : ℕ) (role? : Option Role) (tenant : ℕ) (users users' : List User)
    {a : Unit {0}}
    → count (is_user id) users ≤ 1
    → count (is_owner_in tenant) users ≡ 1
    → give_valid_role up id role? tenant users ≡ ok (users', a)
    → users' ≡ users
unfolding give_valid_role
give_valid_role-same up id none tenant users users' unique one h = cc
give_valid_role-same up id (some role) tenant users users' unique one h =
    give_role-same role id tenant users users' unique one
      (guard-then up failed_to_update_user_role _ h).1

-- In a workspace with one owner, and where the id is of one user at most, a change of role changes
-- no row, whoever asks for it and for whichever role.
pub update_user_role-same :
    (up : Bool) (id : ℕ) (role? : Option Role) (actor : Role) (tenant : ℕ) (users : List User)
    → count (is_user id) users ≤ 1
    → count (is_owner_in tenant) users ≡ 1
    → (update_user_role up id role? actor tenant users).0 ≡ users
unfolding update_user_role
update_user_role-same up id role? actor tenant users unique one =
    commit-keeps (λ s. s ≡ users) users _ refl
      (λ s a h.
        give_valid_role-same up id role? tenant users s unique one
          (guard-then (is_owner actor) insufficient_permissions _ h).1)
