-- ===== src/Spam/Links.antt =====
-- The two link patterns of common/spamScore.js: `/https?:\/\/[^\s<>"')]+/gi` and its twin for
-- `.test()`. Without the `u` flag only ASCII letters match another case.
use feedbase_backend.Base.{
  ℕ, zero, suc, ◌+◌, ◌-◌, Bool, true, false, not, ◌&&◌, ◌||◌, List, [], ◌∷◌, ◌++◌, Option, none,
  some, leb, ◌==◌, if◌then◌else◌, length, take, is_some, ◌≡◌, ◌↔◌, refl, Option-cases, inl, inr,
}
use feedbase_backend.Text.{Text, codes, is_empty, is_space}

-- Canonicalize, for one ASCII unit.
abbrev fold_case : ℕ → ℕ
fold_case c = if leb b'A' c && leb c b'Z' then c + 32 else c

prefix_ci : Text → Text → Bool
prefix_ci [] s = true
prefix_ci (p ∷ ps) [] = false
prefix_ci (p ∷ ps) (c ∷ s) = fold_case p == fold_case c && prefix_ci ps s

abbrev drop : ℕ → Text → Text
drop zero s = s
drop (suc n) [] = []
drop (suc n) (c ∷ s) = drop n s

-- `[^\s<>"')]`
unfoldable pub in_url : ℕ → Bool
unfolding is_space
in_url c = not (is_space c || c == b'<' || c == b'>' || c == 34 || c == 39 || c == b')')

url_body : Text → Text
unfolding in_url
url_body [] = []
url_body (c ∷ s) = if in_url c then c ∷ url_body s else []

url_after : ℕ → Text → Option Text
unfolding url_body
url_after k s =
    let body = url_body (drop k s) in if is_empty body then none else some (take k s ++ body)

-- The match that starts at the head of the text.
unfoldable pub match_at : Text → Option Text
unfolding url_after prefix_ci
match_at s =
    if prefix_ci (codes "https://") s
    then url_after 8 s
    else if prefix_ci (codes "http://") s
    then url_after 7 s
    else none

-- `text.match(URL_RE)`: the matches from left to right, none overlapping another. The first
-- argument is how many units belong to the last match.
unfoldable pub find_urls : ℕ → Text → List Text
unfolding match_at
find_urls skip [] = []
find_urls (suc skip) (c ∷ s) = find_urls skip s
find_urls zero (c ∷ s) = elim (match_at (c ∷ s)) [
  | none ↦ find_urls zero s
  | some u ↦ u ∷ find_urls (length u - 1) s
]

-- `URL_TEST_RE.test(text)`
unfoldable pub has_url : Text → Bool
unfolding match_at
has_url [] = false
has_url (c ∷ s) = is_some (match_at (c ∷ s)) || has_url s

-- The two patterns agree: a text passes the test exactly when it has a match to list.
pub has_url_iff : (s : Text) → (has_url s ≡ false) ↔ (find_urls 0 s ≡ [])
unfolding has_url find_urls
has_url_iff [] = (λ _. refl, λ _. refl)
has_url_iff (c ∷ s) = elim (Option-cases (match_at (c ∷ s))) [
  | inl e ↦ rw (e, find_urls) (has_url_iff s)
  | inr (u, e) ↦ rw (e, find_urls) (λ h. cc, λ h. cc)
]
