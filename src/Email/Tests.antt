-- ===== src/Email/Tests.antt =====
-- Addresses at concrete inputs, with a name service that knows one domain.
use feedbase_backend.Base.{
  ◌≤◌, ◌≡◌, refl, true, false, ◌&&◌, List, [], ◌∷◌, arith, get_or, if◌then◌else◌, length,
}
use feedbase_backend.Text.{Text, codes, eq_text, is_space, trim, cut}
use feedbase_backend.Email.{
  Lookup, records, not_found, Hit, mx_cache_max, dot_inside, matches_email, is_valid_email_format,
  split_domain, email_domain, is_disposable_email, has_exchanger, is_deliverable_email,
}
use feedbase_backend.Email.MxCache.{IsTrue, is_deliverable_email_lem}

unfoldable service : Text → Lookup
unfolding eq_text
service domain = if eq_text domain (codes "acme.io") then records 2 else not_found

abbrev known_hits : List Hit
known_hits = record { domain = codes "acme.io"; value = true; at = 5 } ∷ []

format_test : is_valid_email_format (codes " a@acme.io ") ≡ true
unfolding is_valid_email_format matches_email dot_inside cut trim is_space
format_test = refl

format_test_no : matches_email (codes "a@acme.") ≡ false
unfolding matches_email dot_inside cut is_space
format_test_no = refl

disposable_test : is_disposable_email (λ s. s) (codes "a@yopmail.com") ≡ true
unfolding is_disposable_email email_domain split_domain eq_text cut trim is_space
disposable_test = refl

is_deliverable_email_lem_example :
    let r = is_deliverable_email service 9 (codes "a@acme.io") known_hits in
    (r.1 ≡ (
      matches_email (trim (codes "a@acme.io"))
      && has_exchanger (service (get_or (split_domain (trim (codes "a@acme.io"))) []))))
    × IsTrue service r.0
    × (length r.0 ≤ mx_cache_max)
unfolding has_exchanger service
is_deliverable_email_lem_example =
    is_deliverable_email_lem service 9 (codes "a@acme.io") known_hits (refl, tt) (omega arith)
