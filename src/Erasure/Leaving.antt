-- ===== src/Erasure/Leaving.antt =====
-- Leaving the workspaces of others, in `purgeAccount` of `src/common/accountDeletion.js`: what is handed
-- over to their owners, so that no foreign key stands in the way.
use mathlib.Core.Path.{subst}
use feedbase_backend.Base.{
  ℕ, ◌≡◌, inl, inr, refl, ◌∙◌, Bool, true, false, not, ◌&&◌, List, [], ◌∷◌, map, Option, some,
  arith, All, Bool-cases, Option-cases, any, keep, find, ◌==◌,
}
use feedbase_backend.Base.Results.{ok, ◌>>=◌, ◌>>◌, guard}
use feedbase_backend.Tables.{User}
use feedbase_backend.Board.{Post}
use feedbase_backend.Erasure.{
  Made, Estate, is_signed, unsign_post, owns_with, hand_over, is_held, handed_over, without_user,
  leave, leave_all,
}

abbrev is_one : List User → ℕ → Bool
is_one ms id = any (λ (m : User). m.id == id) ms

-- The workspace of a membership has an owner, and its owners are none of the rows that leave.
abbrev HasOwner : List User → List User → User → Type 0
HasOwner ms users m =
    (any (owns_with m.tenant_id) users ≡ true)
    × (any (λ u. owns_with m.tenant_id u && is_one ms u.id) users ≡ false)

abbrev pub HaveOwners : List User → List User → Type 0
HaveOwners ms users = All (HasOwner ms users) ms

any-find : (q : User → Bool) (us : List User) → any q us ≡ true → (u : User) × (find q us ≡ some u)
any-find q [] h = cc
any-find q (u ∷ us) h = elim (Bool-cases (q u)) [
  | inl e ↦ (u, rw e refl)
  | inr e ↦ let (v, f) = any-find q us (ground (arith, h, e)) in (v, rw e f)
]

find-any_not :
    (q p : User → Bool) (us : List User) (u : User)
    → any (λ v. q v && p v) us ≡ false
    → find q us ≡ some u
    → p u ≡ false
find-any_not q p [] u h f = cc
find-any_not q p (v ∷ us) u h f = elim (Bool-cases (q v)) [
  | inl e ↦
      let same : v ≡ u = ground (arith, f, e) in
      subst (λ x. p x ≡ false) same (ground (arith, h, e))
  | inr e ↦ find-any_not q p us u (ground (arith, h)) (ground (arith, f, e))
]

-- Nothing that was handed over is left.
handed-any :
    (o : User) (id : ℕ) (ms : List Made)
    → (o.id == id) ≡ false
    → any (λ (m : Made). m.created_by == id) (map (hand_over (some o) id) ms) ≡ false
handed-any o id [] n = refl
handed-any o id (m ∷ ms) n = elim (Bool-cases (m.created_by == id)) [
  | inl e ↦ rw e (ground (arith, n, handed-any o id ms n))
  | inr e ↦ rw e (ground (arith, e, handed-any o id ms n))
]

unsigned-any : (id : ℕ) (ps : List Post) → any (is_signed id) (map (unsign_post id) ps) ≡ false
unsigned-any id [] = refl
unsigned-any id (p ∷ ps) = elim (Option-cases p.author_id) [
  | inl e ↦ ground (arith, e, unsigned-any id ps)
  | inr (a, e) ↦ ground (arith, e, unsigned-any id ps)
]

free-of :
    (owner : Option User) (o m : User) (s : Estate)
    → owner ≡ some o
    → find (owns_with m.tenant_id) s.db.users ≡ owner
    → (o.id == m.id) ≡ false
    → is_held m.id (handed_over m s) ≡ false
unfolding is_held handed_over
free-of owner o m s h f n =
    let found = f ∙ h in
    rw
      (
        found,
        handed-any o m.id s.changelog n,
        handed-any o m.id s.api_keys n,
        handed-any o m.id s.uploads n,
        unsigned-any m.id s.posts,
      )
      refl

leave-goes :
    (m : User) (ms : List User) (s : Estate)
    → HasOwner (m ∷ ms) s.db.users m
    → leave m s ≡ ok (without_user m.id (handed_over m s))
unfolding leave ◌>>=◌ ◌>>◌ guard
leave-goes m ms s (has, none_leaves) =
    let (o, found) = any-find (owns_with m.tenant_id) s.db.users has in
    let other =
      find-any_not (owns_with m.tenant_id) (λ u. is_one (m ∷ ms) u.id) s.db.users o none_leaves
        found in
    let apart : (o.id == m.id) ≡ false = ground (arith, other) in
    rw (free-of _ o m s found refl apart) refl

owner-stays :
    (m n : User) (ms us : List User)
    → HasOwner (m ∷ ms) us n
    → HasOwner ms (keep (λ u. not (u.id == m.id)) us) n
owner-stays m n ms us (has, none_leaves) = (there us has none_leaves, apart us none_leaves)
  where
    there :
        (us : List User)
        → any (owns_with n.tenant_id) us ≡ true
        → any (λ u. owns_with n.tenant_id u && is_one (m ∷ ms) u.id) us ≡ false
        → any (owns_with n.tenant_id) (keep (λ u. not (u.id == m.id)) us) ≡ true
    there [] h k = h
    there (u ∷ us) h k = elim (Bool-cases (owns_with n.tenant_id u)) [
      | inl e ↦ let other : (u.id == m.id) ≡ false = ground (arith, k, e) in rw (other, e) refl
      | inr e ↦ elim (Bool-cases (u.id == m.id)) [
        | inl f ↦ rw f (there us (ground (arith, h, e)) (ground (arith, k)))
        | inr f ↦ rw (f, e) (there us (ground (arith, h, e)) (ground (arith, k)))
      ]
    ]

    apart :
        (us : List User)
        → any (λ u. owns_with n.tenant_id u && is_one (m ∷ ms) u.id) us ≡ false
        → any (λ u. owns_with n.tenant_id u && is_one ms u.id) (keep (λ u. not (u.id == m.id)) us)
          ≡ false
    apart [] k = refl
    apart (u ∷ us) k =
        let rest = apart us (ground (arith, k)) in
        elim (Bool-cases (u.id == m.id)) [
          | inl f ↦ rw f rest
          | inr f ↦
              let this : (owns_with n.tenant_id u && is_one ms u.id) ≡ false = ground (arith, k) in
              rw (f, this) rest
        ]

owners-stay :
    (m : User) (ms ns us : List User)
    → All (HasOwner (m ∷ ms) us) ns
    → All (HasOwner ms (keep (λ u. not (u.id == m.id)) us)) ns
owners-stay m ms [] us h = tt
owners-stay m ms (n ∷ ns) us (a, h) = (owner-stays m n ms us a, owners-stay m ms ns us h)

-- Where every membership is of a workspace with an owner who stays, all departures go through.
pub leave_all-goes :
    (ms : List User) (s : Estate)
    → HaveOwners ms s.db.users
    → (s' : Estate) × (leave_all ms s ≡ ok s')
unfolding leave_all ◌>>=◌ handed_over without_user
leave_all-goes [] s h = (s, refl)
leave_all-goes (m ∷ ms) s (a, h) =
    let (s', gone) =
      leave_all-goes ms (without_user m.id (handed_over m s)) (owners-stay m ms ms s.db.users h) in
    (s', rw (leave-goes m ms s a) gone)
