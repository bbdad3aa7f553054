-- ===== src/Comments/Climb.antt =====
-- The walk from a comment to the top of its thread in `src/main/public/createPublicComment.js`: a
-- loop over rows that anyone may have linked, cycles included. It ends within one turn for each row.
use mathlib.Core.Path.{subst}
use feedbase_backend.Base.{
  ℕ, zero, suc, ◌≤◌, ◌<◌, ◌≡◌, inl, inr, refl, Bool, true, false, not, ◌||◌, List, [], ◌∷◌, Option,
  none, some, arith, All, Bool-cases, Option-cases, if◌then◌else◌, length, any, find, count, ◌==◌,
  ==_refl,
}
use feedbase_backend.Base.Counts.{find_sound, find-All, count-le}
use feedbase_backend.Comments.{Comment, has_id, is_in_tenant}

abbrev pub is_seen : List ℕ → Comment → Bool
is_seen seen c = any (λ i. i == c.id) seen

-- The parent of a comment, as the query finds it.
unfoldable pub above : ℕ → List Comment → Comment → Option Comment
above tenant cs c = elim c.parent_comment_id [
  | none ↦ none
  | some p ↦ find (is_in_tenant p tenant) cs
]

-- The loop on fuel; `none` is a loop that goes on.
unfoldable pub climb : ℕ → ℕ → List Comment → List ℕ → Comment → Option Comment
climb zero tenant cs seen current = none
climb (suc n) tenant cs seen current = elim (above tenant cs current) [
  | none ↦ some current
  | some up ↦
      let rest = climb n tenant cs (current.id ∷ seen) up in
      if is_seen seen current then some current else rest
]

-- The rows that the loop has not come by yet.
abbrev pub unseen : List ℕ → List Comment → ℕ
unseen seen cs = count (λ c. not (is_seen seen c)) cs

-- Coming by a row leaves one less.
unseen-lt :
    (seen : List ℕ) (id : ℕ) (cs : List Comment)
    → any (has_id id) cs ≡ true
    → any (λ i. i == id) seen ≡ false
    → suc (unseen (id ∷ seen) cs) ≤ unseen seen cs
unseen-lt seen id [] h n = ground arith
unseen-lt seen id (c ∷ cs) h n = elim (Bool-cases (has_id id c)) [
  | inl e ↦
      let same : c.id ≡ id = ground (arith, e) in
      let before : is_seen seen c ≡ false = rw same n in
      let after : is_seen (id ∷ seen) c ≡ true = ground (arith, same) in
      ground (
        arith,
        before,
        after,
        count-le (λ d. not (is_seen (id ∷ seen) d)) (λ d. not (is_seen seen d)) cs
            (λ d k. ground (arith, k)),
      )
  | inr e ↦
      let same : is_seen (id ∷ seen) c ≡ is_seen seen c = ground (arith, e) in
      let later : any (has_id id) cs ≡ true = ground (arith, h, e) in
      ground (arith, same, unseen-lt seen id cs later n)
]

any-find :
    (q : Comment → Bool) (cs : List Comment) (c : Comment)
    → find q cs ≡ some c
    → any (has_id c.id) cs ≡ true
any-find q [] c h = ground arith
any-find q (d ∷ cs) c h = elim (Bool-cases (q d)) [
  | inl e ↦
      let same : d ≡ c = ground (arith, h, e) in
      subst (λ x. (has_id x.id d || any (has_id x.id) cs) ≡ true) same
        (ground (arith, ==_refl d.id))
  | inr e ↦ ground (arith, any-find q cs c (ground (arith, h, e)))
]

above-any :
    (tenant : ℕ) (cs : List Comment) (c up : Comment)
    → above tenant cs c ≡ some up
    → any (has_id up.id) cs ≡ true
unfolding above
above-any tenant cs c up h = elim (Option-cases c.parent_comment_id) [
  | inl e ↦ ground (arith, h, e)
  | inr (p, e) ↦ any-find (is_in_tenant p tenant) cs up (ground (arith, h, e))
]

climb-ends :
    (n tenant : ℕ) (cs : List Comment) (seen : List ℕ) (c : Comment)
    → any (has_id c.id) cs ≡ true
    → unseen seen cs < n
    → (top : Comment) × (climb n tenant cs seen c ≡ some top)
unfolding climb
climb-ends zero tenant cs seen c h l = ground arith
climb-ends (suc n) tenant cs seen c h l = elim (Option-cases (above tenant cs c)) [
  | inl e ↦ (c, ground (arith, e))
  | inr (up, e) ↦ elim (Bool-cases (is_seen seen c)) [
    | inl s ↦ (c, ground (arith, e, s))
    | inr s ↦
        let less = unseen-lt seen c.id cs h s in
        let (top, found) =
          climb-ends n tenant cs (c.id ∷ seen) up (above-any tenant cs c up e)
            (omega (arith, less, l)) in
        (top, ground (arith, e, s, found))
  ]
]

unseen-le : (cs : List Comment) → unseen [] cs ≤ length cs
unseen-le [] = omega arith
unseen-le (c ∷ cs) = ground (arith, unseen-le cs)

-- The walk ends, whatever links the rows have, cycles included: from a comment of the table, one turn
-- more than there are rows is enough.
pub climb-terminates :
    (tenant : ℕ) (cs : List Comment) (c : Comment)
    → any (has_id c.id) cs ≡ true
    → (top : Comment) × (climb (suc (length cs)) tenant cs [] c ≡ some top)
climb-terminates tenant cs c h =
    climb-ends (suc (length cs)) tenant cs [] c h (omega (arith, unseen-le cs))

-- A parent is older than its replies, since it exists when they are written.
abbrev pub IsYounger : Comment → Type 0
IsYounger c = (p : ℕ) → c.parent_comment_id ≡ some p → p < c.id

abbrev pub AllYounger : ℕ → List ℕ → Type 0
AllYounger n [] = Unit
AllYounger n (i ∷ is) = (n < i) × AllYounger n is

above-lt :
    (tenant : ℕ) (cs : List Comment) (c up : Comment)
    → IsYounger c
    → above tenant cs c ≡ some up
    → up.id < c.id
unfolding above
above-lt tenant cs c up y h = elim (Option-cases c.parent_comment_id) [
  | inl e ↦ ground (arith, h, e)
  | inr (p, e) ↦
      let at = find_sound (is_in_tenant p tenant) cs up (ground (arith, h, e)) in
      ground (arith, y p e, at)
]

above-All :
    (P : Comment → Type 0) (tenant : ℕ) (cs : List Comment) (c up : Comment)
    → All P cs
    → above tenant cs c ≡ some up
    → P up
unfolding above
above-All P tenant cs c up k h = elim (Option-cases c.parent_comment_id) [
  | inl e ↦ ground (arith, h, e)
  | inr (p, e) ↦ find-All P (is_in_tenant p tenant) cs up k (ground (arith, h, e))
]

unseen-new : (c : Comment) (seen : List ℕ) → AllYounger c.id seen → is_seen seen c ≡ false
unseen-new c [] h = refl
unseen-new c (i ∷ is) (a, h) = ground (arith, a, unseen-new c is h)

AllYounger-down : (m n : ℕ) (seen : List ℕ) → m < n → AllYounger n seen → AllYounger m seen
AllYounger-down m n [] l h = tt
AllYounger-down m n (i ∷ is) l (a, h) = (omega (arith, l, a), AllYounger-down m n is l h)

-- What holds of all rows holds of where the walk ends.
pub climb-All :
    (P : Comment → Type 0) (n tenant : ℕ) (cs : List Comment) (seen : List ℕ) (c top : Comment)
    → All P cs
    → P c
    → climb n tenant cs seen c ≡ some top
    → P top
unfolding climb
climb-All P zero tenant cs seen c top k y h = ground arith
climb-All P (suc n) tenant cs seen c top k y h = elim (Option-cases (above tenant cs c)) [
  | inl e ↦ let same : c ≡ top = ground (arith, h, e) in subst P same y
  | inr (up, e) ↦ elim (Bool-cases (is_seen seen c)) [
    | inl s ↦ let same : c ≡ top = ground (arith, h, e, s) in subst P same y
    | inr s ↦
        climb-All P n tenant cs (c.id ∷ seen) up top k (above-All P tenant cs c up k e)
          (ground (arith, h, e, s))
  ]
]

-- The parent of a comment is the row of the workspace with the id that it names.
abbrev pub IsParent : ℕ → List Comment → Comment → Comment → Type 0
IsParent tenant cs c up =
    (p : ℕ) × (c.parent_comment_id ≡ some p) × (find (is_in_tenant p tenant) cs ≡ some up)

abbrev pub HasNoParent : ℕ → List Comment → Comment → Type 0
HasNoParent tenant cs c =
    (p : ℕ) → c.parent_comment_id ≡ some p → find (is_in_tenant p tenant) cs ≡ none

above-IsParent :
    (tenant : ℕ) (cs : List Comment) (c up : Comment)
    → above tenant cs c ≡ some up
    → IsParent tenant cs c up
unfolding above
above-IsParent tenant cs c up h = elim (Option-cases c.parent_comment_id) [
  | inl e ↦ ground (arith, h, e)
  | inr (p, e) ↦ (p, e, ground (arith, h, e))
]

pub above-HasNoParent :
    (tenant : ℕ) (cs : List Comment) (c : Comment)
    → above tenant cs c ≡ none
    → HasNoParent tenant cs c
unfolding above
above-HasNoParent tenant cs c h p e = ground (arith, h, e)

-- A comment from which another is reached by going to the parent, time and again.
pub data Ascends (tenant : ℕ) (cs : List Comment) : Comment → Comment → Type 0 where
  arrived : (c : Comment) → Ascends tenant cs c c
  rises :
      (c up top : Comment)
      → IsParent tenant cs c up
      → Ascends tenant cs up top
      → Ascends tenant cs c top

-- The walk goes from parent to parent.
pub climb-Ascends :
    (n tenant : ℕ) (cs : List Comment) (seen : List ℕ) (c top : Comment)
    → climb n tenant cs seen c ≡ some top
    → Ascends tenant cs c top
unfolding climb
climb-Ascends zero tenant cs seen c top h = ground (arith, h)
climb-Ascends (suc n) tenant cs seen c top h = elim (Option-cases (above tenant cs c)) [
  | inl e ↦
      let same : c ≡ top = ground (arith, h, e) in subst (Ascends tenant cs c) same (arrived c)
  | inr (up, e) ↦ elim (Bool-cases (is_seen seen c)) [
    | inl s ↦
        let same : c ≡ top = ground (arith, h, e, s) in subst (Ascends tenant cs c) same (arrived c)
    | inr s ↦
        rises c up top (above-IsParent tenant cs c up e)
          (climb-Ascends n tenant cs (c.id ∷ seen) up top (ground (arith, h, e, s)))
  ]
]

climb-top_of :
    (n tenant : ℕ) (cs : List Comment) (seen : List ℕ) (c top : Comment)
    → All IsYounger cs
    → IsYounger c
    → AllYounger c.id seen
    → climb n tenant cs seen c ≡ some top
    → above tenant cs top ≡ none
unfolding climb
climb-top_of zero tenant cs seen c top k y s h = ground arith
climb-top_of (suc n) tenant cs seen c top k y s h = elim (Option-cases (above tenant cs c)) [
  | inl e ↦
      let same : c ≡ top = ground (arith, h, e) in subst (λ x. above tenant cs x ≡ none) same e
  | inr (up, e) ↦
      let fresh = unseen-new c seen s in
      let less = above-lt tenant cs c up y e in
      climb-top_of n tenant cs (c.id ∷ seen) up top k (above-All IsYounger tenant cs c up k e)
        (less, AllYounger-down up.id c.id seen less s) (ground (arith, h, e, fresh))
]

-- Where every parent is older than its replies, the walk stops at the top of the thread: at a comment
-- that has no parent among the comments of the workspace.
pub climb-top :
    (tenant : ℕ) (cs : List Comment) (c top : Comment)
    → All IsYounger cs
    → IsYounger c
    → climb (suc (length cs)) tenant cs [] c ≡ some top
    → above tenant cs top ≡ none
climb-top tenant cs c top k y h = climb-top_of (suc (length cs)) tenant cs [] c top k y tt h
