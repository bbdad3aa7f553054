-- ===== src/Board/Duplicates.antt =====
-- The targets of duplicate marks (`src/main/post/setPostDuplicate.js`).
use mathlib.Core.Path.{subst}
use feedbase_backend.Base.{
  ℕ, ◌≡◌, ◌≢◌, inl, inr, refl, sym, ap, ◌∙◌, true, false, List, [], ◌∷◌, map, Option, none, some,
  arith, All, Bool-cases, if◌then◌else◌, any,
}
use feedbase_backend.Board.{Post}
use feedbase_backend.Board.Reviews.{is_post, is_target, set_post_duplicate}

-- A mark leads to another post of the same workspace that is in the table.
abbrev pub LeadsTo : List Post → Post → Option ℕ → Type 0
LeadsTo posts p none = Unit
LeadsTo posts p (some t) = (t ≢ p.id) × (any (is_post t p.tenant_id) posts ≡ true)

abbrev pub IsMarkedWell : List Post → Post → Type 0
IsMarkedWell posts p = LeadsTo posts p p.duplicate_of_post_id

-- One row of the update.
unfoldable mark : ℕ → ℕ → Option ℕ → Post → Post
mark id tenant target p =
    if is_post id tenant p then record p { duplicate_of_post_id = target } else p

module _ (id tenant : ℕ) (target : Option ℕ) where
  is_post-mark : (i t : ℕ) (p : Post) → is_post i t (mark id tenant target p) ≡ is_post i t p
  unfolding mark
  is_post-mark i t p = ground arith

  any-mark :
      (i t : ℕ) (ps : List Post)
      → any (is_post i t) (map (mark id tenant target) ps) ≡ any (is_post i t) ps
  any-mark i t [] = refl
  any-mark i t (p ∷ ps) = rw (is_post-mark i t p, any-mark i t ps) refl

  LeadsTo-mark :
      (posts : List Post) (p : Post) (o : Option ℕ)
      → LeadsTo posts p o
      → LeadsTo (map (mark id tenant target) posts) p o
  LeadsTo-mark posts p none h = tt
  LeadsTo-mark posts p (some t) (ne, h) = (ne, any-mark t p.tenant_id posts ∙ h)

  mark-LeadsTo :
      (posts : List Post) (p : Post) (o : Option ℕ)
      → is_target id tenant o posts ≡ true
      → is_post id tenant p ≡ true
      → LeadsTo posts p o
  unfolding is_target
  mark-LeadsTo posts p none t e = tt
  mark-LeadsTo posts p (some i) t e =
      let there : any (is_post i tenant) posts ≡ true = ground arith in
      let same : tenant ≡ p.tenant_id = ground arith in
      ((λ q. ground (arith, q)), subst (λ x. any (is_post i x) posts ≡ true) same there)

  mark-hit :
      (p : Post)
      → is_post id tenant p ≡ true
      → mark id tenant target p ≡ record p { duplicate_of_post_id = target }
  unfolding mark
  mark-hit p e = ap (λ b. if b then record p { duplicate_of_post_id = target } else p) e

  mark-miss : (p : Post) → is_post id tenant p ≡ false → mark id tenant target p ≡ p
  unfolding mark
  mark-miss p e = ap (λ b. if b then record p { duplicate_of_post_id = target } else p) e

  mark-IsMarkedWell :
      (posts : List Post) (p : Post)
      → is_target id tenant target posts ≡ true
      → IsMarkedWell posts p
      → IsMarkedWell (map (mark id tenant target) posts) (mark id tenant target p)
  mark-IsMarkedWell posts p t h = elim (Bool-cases (is_post id tenant p)) [
    | inl e ↦
        let q : Post = record p { duplicate_of_post_id = target } in
        subst (λ r. IsMarkedWell (map (mark id tenant target) posts) r) (sym (mark-hit p e))
          (LeadsTo-mark posts q target (mark-LeadsTo posts q target t e))
    | inr e ↦
        subst (λ r. IsMarkedWell (map (mark id tenant target) posts) r) (sym (mark-miss p e))
          (LeadsTo-mark posts p p.duplicate_of_post_id h)
  ]

  All-mark :
      (posts ps : List Post)
      → is_target id tenant target posts ≡ true
      → All (IsMarkedWell posts) ps
      → All (IsMarkedWell (map (mark id tenant target) posts)) (map (mark id tenant target) ps)
  All-mark posts [] t h = tt
  All-mark posts (p ∷ ps) t (a, h) = (mark-IsMarkedWell posts p t a, All-mark posts ps t h)

  -- Where every mark leads to another post of the same workspace, every request keeps it so.
  pub set_post_duplicate_lem :
      (posts : List Post)
      → All (IsMarkedWell posts) posts
      → let posts' = (set_post_duplicate id target tenant posts).0 in
        All (IsMarkedWell posts') posts'
  unfolding set_post_duplicate mark
  set_post_duplicate_lem posts h = elim (Bool-cases (any (is_post id tenant) posts)) [
    | inr e ↦ rw e h
    | inl e ↦ elim (Bool-cases (is_target id tenant target posts)) [
      | inl t ↦ rw (e, t) (All-mark posts posts t h)
      | inr t ↦ rw (e, t) h
    ]
  ]
