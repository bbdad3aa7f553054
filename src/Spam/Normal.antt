-- ===== src/Spam/Normal.antt =====
-- `normalizeForCompare` of common/spamScore.js. `lower` is `String.prototype.toLowerCase`, whose
-- Unicode tables are not part of the program.
use feedbase_backend.Base.{
  ℕ, zero, suc, Bool, true, false, ◌&&◌, ◌||◌, [], ◌∷◌, leb, ◌==◌, if◌then◌else◌, All, ◌≡◌, refl,
  arith, Bool-cases, inl, inr,
}
use feedbase_backend.Text.{
  Text, codes, is_empty, is_space, is_digit, starts_with, trim, trim_start, trim_end,
}

not_space_span : Text → ℕ
not_space_span [] = 0
not_space_span (c ∷ s) = if is_space c then 0 else suc (not_space_span s)

-- The length of a match of `/https?:\/\/\S+/` at the head of the text, 0 for none.
unfoldable pub link_length : Text → ℕ
unfolding not_space_span starts_with
link_length s =
    let n = not_space_span s in
    if starts_with (codes "https://") s
    then (if leb n 8 then 0 else n)
    else if starts_with (codes "http://") s
    then (if leb n 7 then 0 else n)
    else 0

-- `.replace(/https?:\/\/\S+/g, " ")`; the first argument is what is left of the last match.
unfoldable pub blank_links : ℕ → Text → Text
unfolding link_length
blank_links skip [] = []
blank_links (suc skip) (c ∷ s) = blank_links skip s
blank_links zero (c ∷ s) = elim (link_length (c ∷ s)) [
  | zero ↦ c ∷ blank_links zero s
  | suc n ↦ b' ' ∷ blank_links n s
]

-- `[a-z0-9]`
abbrev pub is_plain : ℕ → Bool
is_plain c = (leb b'a' c && leb c b'z') || is_digit c

-- `.replace(/[^a-z0-9\s]/g, " ")`
unfoldable pub blank_marks : Text → Text
unfolding is_space
blank_marks [] = []
blank_marks (c ∷ s) = (if is_plain c || is_space c then c else b' ') ∷ blank_marks s

-- `.replace(/\s+/g, " ")`; the flag is whether the unit before was white space.
unfoldable pub collapse : Bool → Text → Text
unfolding is_space
collapse after [] = []
collapse after (c ∷ s) =
    let skipped = collapse true s in
    let kept = c ∷ collapse false s in
    if is_space c then (if after then skipped else b' ' ∷ skipped) else kept

unfoldable pub normalize_for_compare : (Text → Text) → Text → Text
unfolding blank_links blank_marks collapse trim
normalize_for_compare lower text = trim (collapse false (blank_marks (blank_links 0 (lower text))))

abbrev pub IsNormalUnit : ℕ → Type 0
IsNormalUnit c = (is_plain c || c == b' ') ≡ true

abbrev IsMarked : ℕ → Type 0
IsMarked c = (is_plain c || is_space c) ≡ true

blank_marks-All : (s : Text) → All IsMarked (blank_marks s)
unfolding blank_marks
blank_marks-All [] = tt
blank_marks-All (c ∷ s) = elim (Bool-cases (is_plain c || is_space c)) [
  | inl e ↦ (rw e e, blank_marks-All s)
  | inr e ↦ (rw e refl, blank_marks-All s)
]

IsMarked-plain : (c : ℕ) → IsMarked c → is_space c ≡ false → IsNormalUnit c
IsMarked-plain c p e = ground arith

collapse-All : (after : Bool) (s : Text) → All IsMarked s → All IsNormalUnit (collapse after s)
unfolding collapse
collapse-All after [] h = tt
collapse-All true (c ∷ s) (p, h) = elim (Bool-cases (is_space c)) [
  | inl e ↦ rw e (collapse-All true s h)
  | inr e ↦ rw e (IsMarked-plain c p e, collapse-All false s h)
]
collapse-All false (c ∷ s) (p, h) = elim (Bool-cases (is_space c)) [
  | inl e ↦ rw e (refl, collapse-All true s h)
  | inr e ↦ rw e (IsMarked-plain c p e, collapse-All false s h)
]

trim_start-All : (P : ℕ → Type 0) (s : Text) → All P s → All P (trim_start s)
unfolding trim_start
trim_start-All P [] h = tt
trim_start-All P (c ∷ s) (p, h) = ground (arith, trim_start-All P s h)

trim_end-All : (P : ℕ → Type 0) (s : Text) → All P s → All P (trim_end s)
unfolding trim_end
trim_end-All P [] h = tt
trim_end-All P (c ∷ s) (p, h) = elim (Bool-cases (is_space c && is_empty (trim_end s))) [
  | inl e ↦ rw e tt
  | inr e ↦ rw e (p, trim_end-All P s h)
]

-- Whatever the submission holds, its normal form is made of a to z, 0 to 9 and the plain space.
pub normalize_for_compare-All :
    (lower : Text → Text) (text : Text) → All IsNormalUnit (normalize_for_compare lower text)
unfolding normalize_for_compare
normalize_for_compare-All lower text = trim_end-All IsNormalUnit _ (
    trim_start-All IsNormalUnit _
      (collapse-All false _ (blank_marks-All (blank_links 0 (lower text)))))
