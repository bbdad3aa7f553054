-- ===== src/Base/Counts.antt =====
-- How counts and searches change when rows are updated, dropped or added.
use Prim.Native.Nat.{suc, ◌+◌, ◌≤◌}
use mathlib.Core.Path.{◌≡◌, refl, subst}
use mathlib.Core.Bool.{Bool, true, false, ◌&&◌, ◌||◌}
use mathlib.Core.Logic.{inl, inr}
use mathlib.Core.Option.{none, some}
use mathlib.Core.List.{List, [], ◌∷◌, ◌++◌, map}
use native.Mathlib.Omega.{arith}
use feedbase_backend.Base.Tests.{Bool-cases}
use feedbase_backend.Base.Lists.{length, count, find, any, All, keep}

module _ {ℓ} {A : Type ℓ} where
  pub count-le :
      (q r : A → Bool) (xs : List A) → ((x : A) → q x ≡ true → r x ≡ true) → count q xs ≤ count r xs
  count-le q r [] h = omega arith
  count-le q r (x ∷ xs) h = ground (arith, h x, count-le q r xs h)

  pub count-map-le :
      (q : A → Bool) (f : A → A) (xs : List A)
      → ((x : A) → q (f x) ≡ true → q x ≡ true)
      → count q (map f xs) ≤ count q xs
  count-map-le q f [] h = omega arith
  count-map-le q f (x ∷ xs) h = ground (arith, h x, count-map-le q f xs h)

  -- Rows that start to pass a test passed one of two before.
  pub count-map-sum :
      (q p r : A → Bool) (f : A → A) (xs : List A)
      → ((x : A) → q (f x) ≡ true → (p x || r x) ≡ true)
      → count q (map f xs) ≤ count p xs + count r xs
  count-map-sum q p r f [] h = omega arith
  count-map-sum q p r f (x ∷ xs) h = ground (arith, h x, count-map-sum q p r f xs h)

  pub count-sum :
      (q p r : A → Bool) (xs : List A)
      → ((x : A) → q x ≡ true → (p x || r x) ≡ true)
      → count q xs ≤ count p xs + count r xs
  count-sum q p r [] h = omega arith
  count-sum q p r (x ∷ xs) h = ground (arith, h x, count-sum q p r xs h)

  -- An update that takes one row out of the count.
  pub count-map-lt :
      (p q : A → Bool) (f : A → A) (xs : List A) (a : A)
      → ((x : A) → q (f x) ≡ true → q x ≡ true)
      → find p xs ≡ some a
      → q a ≡ true
      → q (f a) ≡ false
      → suc (count q (map f xs)) ≤ count q xs
  count-map-lt p q f [] a h e t n = ground arith
  count-map-lt p q f (x ∷ xs) a h e t n = elim (Bool-cases (p x)) [
    | inl y ↦
        let same : x ≡ a = ground (arith, y) in
        let before : q x ≡ true = rw same t in
        let after : q (f x) ≡ false = rw same n in
        ground (arith, count-map-le q f xs h, before, after)
    | inr y ↦ ground (arith, h x, count-map-lt p q f xs a h)
  ]

  pub find_sound : (p : A → Bool) (xs : List A) (a : A) → find p xs ≡ some a → p a ≡ true
  find_sound p [] a h = ground arith
  find_sound p (x ∷ xs) a h = elim (Bool-cases (p x)) [
    | inl e ↦ let same : x ≡ a = ground (arith, e) in rw (← same) e
    | inr e ↦ find_sound p xs a (ground (arith, e))
  ]

  pub find-All {κ} :
      (P : A → Type κ) (p : A → Bool) (xs : List A) (a : A) → All P xs → find p xs ≡ some a → P a
  find-All P p [] a h e = ground arith
  find-All P p (x ∷ xs) a (hx, h) e = elim (Bool-cases (p x)) [
    | inl y ↦ let same : x ≡ a = ground (arith, y) in subst P same hx
    | inr y ↦ find-All P p xs a h (ground (arith, y))
  ]

  pub All-map {κ} :
      (P : A → Type κ) (f : A → A) (xs : List A)
      → ((x : A) → P x → P (f x))
      → All P xs
      → All P (map f xs)
  All-map P f [] k h = tt
  All-map P f (x ∷ xs) k (a, h) = (k x a, All-map P f xs k h)

  pub All-snoc {κ} : (P : A → Type κ) (xs : List A) (y : A) → All P xs → P y → All P (xs ++ y ∷ [])
  All-snoc P [] y h p = (p, tt)
  All-snoc P (x ∷ xs) y (a, h) p = (a, All-snoc P xs y h p)

  pub All-keep {κ} : (P : A → Type κ) (p : A → Bool) (xs : List A) → All P xs → All P (keep p xs)
  All-keep P p [] h = h
  All-keep P p (x ∷ xs) (a, h) = elim (Bool-cases (p x)) [
    | inl e ↦ rw e (a, All-keep P p xs h)
    | inr e ↦ rw e (All-keep P p xs h)
  ]

  pub any-map :
      (p : A → Bool) (f : A → A) (xs : List A)
      → ((x : A) → p (f x) ≡ p x)
      → any p (map f xs) ≡ any p xs
  any-map p f [] h = refl
  any-map p f (x ∷ xs) h = rw (h x, any-map p f xs h) refl

  pub any-map-le :
      (q : A → Bool) (f : A → A) (xs : List A)
      → ((x : A) → q (f x) ≡ true → q x ≡ true)
      → any q xs ≡ false
      → any q (map f xs) ≡ false
  any-map-le q f [] h e = refl
  any-map-le q f (x ∷ xs) h e = ground (arith, h x, any-map-le q f xs h)

  pub any-snoc :
      (p : A → Bool) (xs : List A) (y : A)
      → any p xs ≡ false
      → p y ≡ false
      → any p (xs ++ y ∷ []) ≡ false
  any-snoc p [] y h e = ground arith
  any-snoc p (x ∷ xs) y h e = ground (arith, any-snoc p xs y)

  pub any-implies :
      (q r : A → Bool) (xs : List A)
      → ((x : A) → q x ≡ true → r x ≡ true)
      → any r xs ≡ false
      → any q xs ≡ false
  any-implies q r [] h e = refl
  any-implies q r (x ∷ xs) h e = ground (arith, h x, any-implies q r xs h)

  pub any-map-none :
      (q : A → Bool) (f : A → A) (xs : List A)
      → ((x : A) → q (f x) ≡ true → q x ≡ true)
      → count q xs ≡ 0
      → any q (map f xs) ≡ false
  any-map-none q f [] h e = refl
  any-map-none q f (x ∷ xs) h e = ground (arith, h x, any-map-none q f xs h)

  pub find-count :
      (p q : A → Bool) (xs : List A) (a : A)
      → find q xs ≡ some a
      → ((x : A) → q x ≡ true → p x ≡ true)
      → 1 ≤ count p xs
  find-count p q [] a h i = ground arith
  find-count p q (x ∷ xs) a h i = ground (arith, i x, find-count p q xs a)

  -- The only row that passes a test is updated so that it no longer passes.
  pub only-map :
      (p q : A → Bool) (f : A → A) (xs : List A) (a : A)
      → find q xs ≡ some a
      → ((x : A) → q x ≡ true → p x ≡ true)
      → ((x : A) → p (f x) ≡ true → p x ≡ true)
      → p (f a) ≡ false
      → count p xs ≤ 1
      → any p (map f xs) ≡ false
  only-map p q f [] a h i k n c = refl
  only-map p q f (x ∷ xs) a h i k n c = elim (Bool-cases (q x)) [
    | inl y ↦
        let same : x ≡ a = ground (arith, y) in
        let gone : p (f x) ≡ false = rw same n in
        let held : p x ≡ true = i x y in
        ground (arith, gone, any-map-none p f xs k (ground (arith, held)))
    | inr y ↦ elim (Bool-cases (p x)) [
      | inl t ↦ ground (arith, find-count p q xs a (ground (arith, h, y)) i, t)
      | inr t ↦ ground (arith, k x, only-map p q f xs a)
    ]
  ]

  pub find-any : (p : A → Bool) (xs : List A) → any p xs ≡ false → find p xs ≡ none
  find-any p [] h = refl
  find-any p (x ∷ xs) h = ground (arith, find-any p xs)

  pub find-snoc :
      (p : A → Bool) (xs : List A) (y : A)
      → any p xs ≡ false
      → p y ≡ true
      → find p (xs ++ y ∷ []) ≡ some y
  find-snoc p [] y h e = ground arith
  find-snoc p (x ∷ xs) y h e = ground (arith, find-snoc p xs y)

  pub any-last : (p : A → Bool) (xs : List A) (y : A) → p y ≡ true → any p (xs ++ y ∷ []) ≡ true
  any-last p [] y h = rw h refl
  any-last p (x ∷ xs) y h = ground (arith, any-last p xs y h)

  pub any-snoc-or : (p : A → Bool) (xs : List A) (y : A) → any p (xs ++ y ∷ []) ≡ (any p xs || p y)
  any-snoc-or p [] y = ground arith
  any-snoc-or p (x ∷ xs) y = ground (arith, any-snoc-or p xs y)

  -- `find` finds a row exactly where `any` says that there is one.
  pub any-find :
      (p : A → Bool) (xs : List A) → any p xs ≡ true → (a : A) × (find p xs ≡ some a) × (p a ≡ true)
  any-find p [] h = ground arith
  any-find p (x ∷ xs) h = elim (Bool-cases (p x)) [
    | inl e ↦ (x, rw e refl, e)
    | inr e ↦ let (a, f, t) = any-find p xs (ground (arith, h, e)) in (a, rw e f, t)
  ]

  pub find-any_hit : (p : A → Bool) (xs : List A) (a : A) → find p xs ≡ some a → any p xs ≡ true
  find-any_hit p [] a h = ground arith
  find-any_hit p (x ∷ xs) a h = ground (arith, h, find-any_hit p xs a)

  pub length-keep-keep :
      (p q : A → Bool) (xs : List A) → length (keep p (keep q xs)) ≡ count (λ x. q x && p x) xs
  length-keep-keep p q [] = refl
  length-keep-keep p q (x ∷ xs) = ground (arith, length-keep-keep p q xs)
