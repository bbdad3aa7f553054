-- ===== src/Cache/Tests.antt =====
-- The cache at concrete inputs.
use feedbase_backend.Base.{ℕ, ◌+◌, ◌≤◌, ◌<◌, ◌≡◌, refl, [], ◌∷◌, none, some, arith, length, List}
use feedbase_backend.Env.{defaults}
use feedbase_backend.Text.{codes, eq_text}
use feedbase_backend.Cache.{Entry, max_entries, get, set, delete, lookup, evict_one, wrap}
use feedbase_backend.Cache.Bound.{length-set-le, get-set}

abbrev one : List (Entry ℕ)
one = record { key = codes "a"; value = 7; expires_at = 50 } ∷ []

cache : Unit {0}
unfolding get set delete lookup evict_one wrap eq_text
cache = tt

expiry_test :
    ((get 49 (codes "a") one).1 ≡ some 7)
    × (get 50 (codes "a") one ≡ ([], none))
    × ((wrap defaults 60 (codes "a") (some 10) (some 8) one).1 ≡ some 8)
unfolding cache
expiry_test = (refl, refl, refl)

length-set-le_example : length (set defaults 60 (codes "b") 8 (some 10) one) ≤ max_entries defaults
length-set-le_example = length-set-le defaults 60 (codes "b") 8 (some 10) one (omega arith)

get-set_example :
    ((65 < 60 + 10) → (get 65 (codes "b") (set defaults 60 (codes "b") 8 (some 10) one)).1 ≡ some 8)
    × ((60 + 10 ≤ 65) → (get 65 (codes "b") (set defaults 60 (codes "b") 8 (some 10) one)).1 ≡ none)
get-set_example = get-set defaults 60 65 10 (codes "b") 8 one (omega arith)
