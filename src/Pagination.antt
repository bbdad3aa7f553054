-- ===== src/Pagination.antt =====
-- The middleware of `src/middlewares/pagination/paginationData.js`: the checks on the page that a request asks for
-- and the clamp of its size and number.
mod Bounds
mod Tests
use feedbase_backend.Base.{
  ℕ, zero, suc, ◌+◌, ◌-◌, ◌*◌, ◌≤◌, ◌<◌, ◌≡◌, ◌≢◌, ◌↔◌, ◌⊎◌, inl, inr, refl, sym, ap, ◌∙◌, Bool,
  true, false, not, ◌&&◌, ◌||◌, List, [], ◌∷◌, ◌++◌, map, Option, none, some, arith, All, is_some,
  get_or, Bool-cases, Option-cases, if◌then◌else◌, take, length, any, keep, find, count, head?, ltb,
  leb, ◌==◌, length-keep-le, length-take-le, ==_iff, ==_refl,
}
use feedbase_backend.Base.Int.{ℤ, pos, negsuc, sub_ℕ}
use feedbase_backend.Env.{Env, setting}
use feedbase_backend.Text.{Text, codes, eq_text, is_empty}

-- A field of the request: whether `isNaN` holds of it, and what `parseInt` makes of it, `none` for
-- NaN. The two differ, as on null and on the empty text.
pub record Raw : Type 0 where
  pub is_nan : Bool
  pub parsed : Option ℤ

pub record Incoming : Type 0 where
  pub items_per_page : Raw
  pub current_page_number : Raw
  pub sort_order : Option Text
  pub filter_by : Text
  pub sort_by : Text

pub record Page : Type 0 where
  pub items_per_page : ℤ
  pub current_page_number : ℤ
  pub filter_by : Text
  pub sort_order : Text
  pub sort_by : Option Text
  pub offset : ℤ

abbrev pub max_items_per_page : Env → ℕ
max_items_per_page env = setting env.max_items_per_page 100

abbrev pub max_page_number : Env → ℕ
max_page_number env = setting env.max_page_number 10000

abbrev pub is_negative : Option ℤ → Bool
is_negative none = false
is_negative (some (pos n)) = false
is_negative (some (negsuc n)) = true

-- `n || fallback`; NaN and 0 are falsy, a negative number is not.
abbrev pub or_default : Option ℤ → ℕ → ℤ
or_default none fallback = pos fallback
or_default (some (pos n)) fallback = pos (setting (some n) fallback)
or_default (some (negsuc n)) fallback = negsuc n

-- `Math.min`, against a limit.
abbrev pub min : ℤ → ℕ → ℤ
min (pos a) b = pos (if leb a b then a else b)
min (negsuc a) b = negsuc a

-- The product of two integers; -(a + 1) * b is -(a * b + b).
abbrev pub times : ℤ → ℤ → ℤ
times (pos a) (pos b) = pos (a * b)
times (pos a) (negsuc b) = sub_ℕ 0 (a * b + a)
times (negsuc a) (pos b) = sub_ℕ 0 (a * b + b)
times (negsuc a) (negsuc b) = pos (suc a * suc b)

abbrev pub is_order : Option Text → Bool
is_order none = false
is_order (some s) = eq_text s (codes "asc") || eq_text s (codes "desc")

unfoldable pub has_errors : Incoming → Bool
has_errors i =
    i.items_per_page.is_nan
    || i.current_page_number.is_nan
    || is_negative i.items_per_page.parsed
    || is_negative i.current_page_number.parsed
    || not (is_order i.sort_order)

unfoldable pub safe_page : Env → Incoming → Page
safe_page env i =
    let items = min (or_default i.items_per_page.parsed 5) (max_items_per_page env) in
    let number = min (or_default i.current_page_number.parsed 0) (max_page_number env) in
    record {
      items_per_page = items;
      current_page_number = number;
      filter_by = i.filter_by;
      sort_order = get_or i.sort_order (codes "desc");
      sort_by = if is_empty i.sort_by then none else some i.sort_by;
      offset = times items number;
    }

-- `paginationData`; `none` is the answer `invalid_pagination_data`.
unfoldable pub pagination_data : Env → Incoming → Option Page
pagination_data env i = if has_errors i then none else some (safe_page env i)
