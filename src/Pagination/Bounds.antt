-- ===== src/Pagination/Bounds.antt =====
-- The page that the middleware of `src/middlewares/pagination/paginationData.js` lets through.
use feedbase_backend.Base.{
  ℕ, zero, suc, ◌*◌, ◌≤◌, ◌<◌, ◌≡◌, ◌≢◌, ◌⊎◌, inl, inr, refl, ap, ◌∙◌, true, false, Option, none,
  some, arith, get_or, Bool-cases, if◌then◌else◌, leb,
}
use feedbase_backend.Base.Int.{ℤ, pos, negsuc}
use feedbase_backend.Env.{Env, setting-pos}
use feedbase_backend.Text.{Text, codes, eq_text}
use feedbase_backend.Text.Laws.{eq_text_sound}
use feedbase_backend.Pagination.{
  Raw, Incoming, Page, max_items_per_page, max_page_number, or_default, min, times, is_negative,
  is_order, has_errors, safe_page, pagination_data,
}

-- A field that is a number and not negative.
abbrev pub IsNatural : Raw → Type 0
IsNatural f = (f.is_nan ≡ false) × ((n : ℕ) → f.parsed ≢ some (negsuc n))

-- One of the two orders.
abbrev pub IsOrder : Option Text → Type 0
IsOrder o = (o ≡ some (codes "asc")) ⊎ (o ≡ some (codes "desc"))

-- What makes a request good.
abbrev pub IsGood : Incoming → Type 0
IsGood i = IsNatural i.items_per_page × IsNatural i.current_page_number × IsOrder i.sort_order

-- What a field asks for: its number, and the default where it has none or 0.
abbrev pub asked : Option ℤ → ℕ → ℕ
asked (some (pos (suc n))) default = suc n
asked (some (pos zero)) default = default
asked (some (negsuc n)) default = default
asked none default = default

-- A number is cut to a limit.
abbrev pub IsCut : ℕ → ℕ → ℕ → Type 0
IsCut limit wanted given = (wanted ≤ limit → given ≡ wanted) × (limit < wanted → given ≡ limit)

-- The page has as many rows as are asked for, one at least, and is the one that is asked for, both
-- within the limits; the offset counts the rows before it.
pub record IsSafe (env : Env) (i : Incoming) (p : Page) : Type 0 where
  pub items : ℕ
  pub number : ℕ
  pub sized : p.items_per_page ≡ pos items
  pub numbered : p.current_page_number ≡ pos number
  pub fair : IsCut (max_items_per_page env) (asked i.items_per_page.parsed 5) items
  pub near : IsCut (max_page_number env) (asked i.current_page_number.parsed 0) number
  pub some_items : 1 ≤ items
  pub ordered : some p.sort_order ≡ i.sort_order
  pub placed : p.offset ≡ pos (items * number)
  pub bounded : items * number ≤ max_items_per_page env * max_page_number env

not-negative : (o : Option ℤ) → is_negative o ≡ false → (n : ℕ) → o ≢ some (negsuc n)
not-negative none h n e = ground (arith, e)
not-negative (some (pos m)) h n e = ground (arith, e)
not-negative (some (negsuc m)) h n e = ground (arith, h)

negative-false : (o : Option ℤ) → ((n : ℕ) → o ≢ some (negsuc n)) → is_negative o ≡ false
negative-false none k = refl
negative-false (some (pos m)) k = refl
negative-false (some (negsuc m)) k = absurd (k m refl)

is_order-IsOrder : (o : Option Text) → is_order o ≡ true → IsOrder o
is_order-IsOrder none h = ground (arith, h)
is_order-IsOrder (some s) h = elim (Bool-cases (eq_text s (codes "asc"))) [
  | inl e ↦ inl (ap (λ t. some t) (eq_text_sound s (codes "asc") e))
  | inr e ↦ inr (ap (λ t. some t) (eq_text_sound s (codes "desc") (ground (arith, e, h))))
]

IsOrder-is_order : (o : Option Text) → IsOrder o → is_order o ≡ true
unfolding eq_text
IsOrder-is_order o (inl e) = rw e refl
IsOrder-is_order o (inr e) = rw e refl

IsGood-has_errors : (i : Incoming) → IsGood i → has_errors i ≡ false
unfolding has_errors
IsGood-has_errors i ((a, m), (b, n), o) =
    let one = negative-false i.items_per_page.parsed m in
    let two = negative-false i.current_page_number.parsed n in
    ground (arith, a, b, one, two, IsOrder-is_order i.sort_order o)

has_errors-IsGood : (i : Incoming) → has_errors i ≡ false → IsGood i
unfolding has_errors
has_errors-IsGood i h = (
  (ground (arith, h), not-negative i.items_per_page.parsed (ground (arith, h))),
  (ground (arith, h), not-negative i.current_page_number.parsed (ground (arith, h))),
  is_order-IsOrder i.sort_order (ground (arith, h)),
)

-- The smaller of two numbers.
abbrev cut : ℕ → ℕ → ℕ
cut a b = if leb a b then a else b

min-default :
    (o : Option ℤ) (d limit : ℕ)
    → ((n : ℕ) → o ≢ some (negsuc n))
    → min (or_default o d) limit ≡ pos (cut (asked o d) limit)
min-default none d limit h = refl
min-default (some (pos zero)) d limit h = refl
min-default (some (pos (suc n))) d limit h = refl
min-default (some (negsuc n)) d limit h = absurd (h n refl)

asked-pos : (o : Option ℤ) (d : ℕ) → 0 < d → 0 < asked o d
asked-pos none d h = h
asked-pos (some (pos zero)) d h = h
asked-pos (some (pos (suc n))) d h = omega arith
asked-pos (some (negsuc n)) d h = h

cut-IsCut : (limit a : ℕ) → IsCut limit a (cut a limit)
cut-IsCut limit a = ((λ h. ground (arith, h)), (λ h. ground (arith, h)))

cut-le : (a b : ℕ) → cut a b ≤ b
cut-le a b = ground arith

cut-pos : (a b : ℕ) → 0 < a → 0 < b → 1 ≤ cut a b
cut-pos a b h k = ground (arith, h, k)

times-le : (a b c d : ℕ) → a ≤ c → b ≤ d → a * b ≤ c * d
times-le zero b c d h k = omega arith
times-le (suc a) b zero d h k = absurd (omega arith)
times-le (suc a) b (suc c) d h k = omega (arith, times-le a b c d (omega arith) k)

some-order : (o : Option Text) → IsOrder o → some (get_or o (codes "desc")) ≡ o
some-order o (inl e) = rw e refl
some-order o (inr e) = rw e refl

safe_page-IsSafe : (env : Env) (i : Incoming) → IsGood i → IsSafe env i (safe_page env i)
unfolding safe_page
safe_page-IsSafe env i ((a, m), (b, n), o) =
    let wanted = asked i.items_per_page.parsed 5 in
    let page = asked i.current_page_number.parsed 0 in
    let most = max_items_per_page env in
    let last = max_page_number env in
    let one = min-default i.items_per_page.parsed 5 most m in
    let two = min-default i.current_page_number.parsed 0 last n in
    record {
      items = cut wanted most;
      number = cut page last;
      sized = one;
      numbered = two;
      fair = cut-IsCut most wanted;
      near = cut-IsCut last page;
      some_items =
          cut-pos wanted most (asked-pos i.items_per_page.parsed 5 (omega arith))
            (setting-pos env.max_items_per_page 100 (omega arith));
      ordered = some-order i.sort_order o;
      placed =
          ap (λ x. times x (min (or_default i.current_page_number.parsed 0) last)) one
          ∙ ap (λ y. times (pos (cut wanted most)) y) two;
      bounded = times-le _ _ _ _ (cut-le wanted most) (cut-le page last);
    }

-- A request is refused exactly where a field is not a number or is negative, or the order is none of
-- the two. Otherwise it gets the rows and the page it asks for, each cut to its limit, 5 rows and page
-- 0 where it asks for none or 0, in the order it asks for; the page has a row at least, and the offset,
-- which is the rows before the page, is bounded.
pub pagination_data_lem :
    (env : Env) (i : Incoming)
    → ((pagination_data env i ≡ none) × ¬ IsGood i)
      ⊎ ((p : Page) × (pagination_data env i ≡ some p) × IsGood i × IsSafe env i p)
unfolding pagination_data
pagination_data_lem env i = elim (Bool-cases (has_errors i)) [
  | inl e ↦ inl (
    ap (λ b. if b then none else some (safe_page env i)) e,
    λ good. ground (arith, e, IsGood-has_errors i good),
  )
  | inr e ↦ inr (
    safe_page env i,
    ap (λ b. if b then none else some (safe_page env i)) e,
    has_errors-IsGood i e,
    safe_page-IsSafe env i (has_errors-IsGood i e),
  )
]
