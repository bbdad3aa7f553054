-- ===== src/Email.antt =====
-- `src/common/emailQuality.js`: the format of an address, its domain, the providers of throwaway
-- inboxes, and the bounded cache of the mail exchanger lookups. The lookup itself and the
-- lower-casing are arguments. An entry of the cache keeps the instant at which it was stored.
mod MxCache
mod Tests
use feedbase_backend.Base.{
  ℕ, zero, suc, ◌+◌, ◌-◌, ◌*◌, ◌≤◌, ◌<◌, ◌≡◌, ◌≢◌, ◌↔◌, ◌⊎◌, inl, inr, refl, sym, ap, ◌∙◌, Bool,
  true, false, not, ◌&&◌, ◌||◌, List, [], ◌∷◌, ◌++◌, map, Option, none, some, arith, All, is_some,
  get_or, Bool-cases, Option-cases, if◌then◌else◌, take, length, any, keep, find, count, head?, ltb,
  leb, ◌==◌, length-keep-le, length-take-le, ==_iff, ==_refl,
}
use feedbase_backend.Text.{Text, codes, eq_text, is_empty, is_space, trim, cut}

abbrev pub is_part_unit : ℕ → Bool
is_part_unit c = not (is_space c) && not (c == b'@')

-- A dot with something behind it.
unfoldable pub dot_inside : Text → Bool
dot_inside [] = false
dot_inside (c ∷ s) = ((c == b'.') && not (is_empty s)) || dot_inside s

-- `[^\s@]+\.[^\s@]+`, for a text without white space and `@`.
abbrev pub is_dotted : Text → Bool
is_dotted [] = false
is_dotted (c ∷ s) = dot_inside s

abbrev pub all_parts : Text → Bool
all_parts s = not (any (λ c. not (is_part_unit c)) s)

-- `EMAIL_RE`
unfoldable pub matches_email : Text → Bool
matches_email s = elim (cut b'@' s) [
  | none ↦ false
  | some (user, domain) ↦
      not (is_empty user) && all_parts user && all_parts domain && is_dotted domain
]

unfoldable pub is_valid_email_format : Text → Bool
is_valid_email_format email = matches_email (trim email)

-- `split("@")[1]`
unfoldable pub split_domain : Text → Option Text
split_domain address = elim (cut b'@' address) [
  | none ↦ none
  | some (user, rest) ↦ elim (cut b'@' rest) [
    | none ↦ some rest
    | some (domain, more) ↦ some domain
  ]
]

unfoldable pub email_domain : (Text → Text) → Text → Text
email_domain lower email = get_or (split_domain (lower (trim email))) []

abbrev pub disposable_domains : List Text
disposable_domains =
    codes "mailinator.com"
    ∷ codes "guerrillamail.com"
    ∷ codes "10minutemail.com"
    ∷ codes "tempmail.com"
    ∷ codes "temp-mail.org"
    ∷ codes "throwawaymail.com"
    ∷ codes "yopmail.com"
    ∷ codes "trashmail.com"
    ∷ codes "sharklasers.com"
    ∷ codes "getnada.com"
    ∷ codes "dispostable.com"
    ∷ codes "maildrop.cc"
    ∷ codes "fakeinbox.com"
    ∷ codes "mintemail.com"
    ∷ codes "spamgourmet.com"
    ∷ []

unfoldable pub is_disposable_email : (Text → Text) → Text → Bool
is_disposable_email lower email = any (eq_text (email_domain lower email)) disposable_domains

-- What `dns.resolveMx` does: it resolves to so many records, rejects with ENOTFOUND or NXDOMAIN,
-- or rejects with another error.
pub data Lookup : Type 0 where
  records : ℕ → Lookup
  not_found failed : Lookup

unfoldable pub has_exchanger : Lookup → Bool
has_exchanger (records n) = ltb 0 n
has_exchanger not_found = false
has_exchanger failed = true

pub record Hit : Type 0 where
  pub domain : Text
  pub value : Bool
  pub at : ℕ

abbrev pub mx_cache_ttl_ms : ℕ
mx_cache_ttl_ms = 60 * 60 * 1000

abbrev pub mx_cache_max : ℕ
mx_cache_max = 5000

unfoldable pub drop_hit : Text → List Hit → List Hit
drop_hit domain hits = keep (λ h. not (eq_text h.domain domain)) hits

unfoldable pub find_hit : Text → List Hit → Option Hit
find_hit domain hits = find (λ h. eq_text h.domain domain) hits

unfoldable pub judge_hit : ℕ → Text → Option Hit → List Hit → List Hit × Option Bool
judge_hit now domain none hits = (hits, none)
judge_hit now domain (some h) hits =
    if ltb (h.at + mx_cache_ttl_ms) now then (drop_hit domain hits, none) else (hits, some h.value)

unfoldable pub cache_get : ℕ → Text → List Hit → List Hit × Option Bool
cache_get now domain hits = judge_hit now domain (find_hit domain hits) hits

-- The oldest entry is the first one.
unfoldable pub drop_oldest : List Hit → List Hit
drop_oldest [] = []
drop_oldest (h ∷ hs) = hs

-- An entry that is there keeps its place.
unfoldable pub put_hit : Hit → List Hit → List Hit
put_hit new [] = new ∷ []
put_hit new (h ∷ hs) =
    let rest = put_hit new hs in if eq_text h.domain new.domain then new ∷ hs else h ∷ rest

unfoldable pub cache_set : ℕ → Text → Bool → List Hit → List Hit
cache_set now domain value hits =
    let room = if leb mx_cache_max (length hits) then drop_oldest hits else hits in
    put_hit (record { domain = domain; value = value; at = now }) room

unfoldable pub is_deliverable_email : (Text → Lookup) → ℕ → Text → List Hit → List Hit × Bool
is_deliverable_email resolve_mx now email hits =
    let address = trim email in
    let domain = get_or (split_domain address) [] in
    let (hits', cached) = cache_get now domain hits in
    if not (matches_email address) then (hits, false) else elim cached [
      | some value ↦ (hits', value)
      | none ↦
          let value = has_exchanger (resolve_mx domain) in (cache_set now domain value hits', value)
    ]
