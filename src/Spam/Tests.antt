-- ===== src/Spam/Tests.antt =====
-- Runs of the scorer on small submissions, and the theorems of this folder at concrete inputs.
-- `ascii_lower` stands in for `toLowerCase`, which it is on ASCII texts.
use feedbase_backend.Base.{
  ◌+◌, ◌*◌, ◌≤◌, ◌≡◌, ◌↔◌, refl, false, [], ◌∷◌, Option, none, leb, length, map, ◌&&◌,
  if◌then◌else◌, arith, All,
}
use feedbase_backend.Env.{defaults}
use feedbase_backend.Text.{Text, codes}
use feedbase_backend.Spam.Links.{find_urls, has_url, has_url_iff}
use feedbase_backend.Spam.Shape.{
  caps_ratio, longest_repeat_run, longest_repeat_run_iff, non_latin_ratio, HasRun,
}
use feedbase_backend.Spam.Normal.{normalize_for_compare, normalize_for_compare-All, IsNormalUnit}
use feedbase_backend.Spam.Score.{
  many_links, multiple_link_domains, spam_phrases, Input, structural, lexical, provenance, links,
  domains, duplicates, phrases, add_if, set_size, host_key, phrase_hits, body_is_title, spam_score,
  moderation_state_for, published, spam,
}
use feedbase_backend.Spam.Weights.{
  spam_score_bounds, wording-published, wording-spam, resent, spam_score-mono_duplicates,
}

abbrev ascii_lower : Text → Text
ascii_lower s = map (λ c. if leb b'A' c && leb c b'Z' then c + 32 else c) s

abbrev no_host : Text → Option Text
no_host u = none

scoring : Unit {0}
unfolding spam_score structural lexical provenance links domains duplicates phrases add_if set_size
    host_key phrase_hits body_is_title find_urls has_url caps_ratio longest_repeat_run
    non_latin_ratio normalize_for_compare moderation_state_for
scoring = tt

abbrev post : Text → Text → Input
post title body = record {
  title = title;
  body = body;
  is_disposable_email = false;
  email_has_no_mx = false;
  form_token_reason = none;
  duplicate_count = 0;
}

abbrev angry : Input
angry = post (codes "BROKEN AGAIN") (codes "YOUR CASINO THEME IS A SCAM, FIX IT!!!!!!!!!!!!!!!!!")

abbrev stuffed : Input
stuffed =
    post (codes "Cheap rolex replica watches")
      (codes "buy now HTTPS://a.b/c http://d.e/f https://g.h/i https://j.k/l https://m.n/o")

angry_test : (spam_score ascii_lower no_host angry).score ≡ 6
unfolding scoring
angry_test = refl

stuffed_test :
    spam_score ascii_lower no_host stuffed
    ≡ record { score = 18; reasons = many_links ∷ multiple_link_domains ∷ spam_phrases ∷ [] }
unfolding scoring
stuffed_test = refl

abbrev shout : Input
shout = post (codes "CASINO PORN VIAGRA") (codes "ЖЖЖЖЖЖЖЖЖЖЖЖЖЖЖЖЖЖЖЖЖЖЖЖЖЖЖЖЖЖ")

spam_score_bounds_example :
    let t = spam_score ascii_lower no_host stuffed in
    (t.score ≤ 55) × (2 * length t.reasons ≤ t.score) × (t.score ≤ 9 * length t.reasons)
spam_score_bounds_example = spam_score_bounds ascii_lower no_host stuffed

wording-published_example :
    ((spam_score ascii_lower no_host angry).score ≤ 10)
    × (moderation_state_for defaults (spam_score ascii_lower no_host angry).score ≡ published)
unfolding scoring
wording-published_example =
    wording-published ascii_lower no_host angry refl refl refl refl refl refl refl refl

wording-spam_example :
    moderation_state_for defaults (spam_score ascii_lower no_host shout).score ≡ spam
unfolding scoring
wording-spam_example = wording-spam ascii_lower no_host shout (omega arith) refl (omega arith) refl

spam_score-mono_duplicates_test :
    (spam_score ascii_lower no_host (resent 1 angry)).score
    ≤ (spam_score ascii_lower no_host (resent 3 angry)).score
spam_score-mono_duplicates_test =
    spam_score-mono_duplicates ascii_lower no_host angry 1 3 (omega arith)

longest_repeat_run_iff_test : (3 ≤ longest_repeat_run (codes "no!!!")) ↔ HasRun 3 (codes "no!!!")
longest_repeat_run_iff_test = longest_repeat_run_iff 3 (codes "no!!!") (omega arith)

has_url_iff_test :
    (has_url (codes "see http://a.b") ≡ false) ↔ (find_urls 0 (codes "see http://a.b") ≡ [])
has_url_iff_test = has_url_iff (codes "see http://a.b")

normalize_for_compare-All_test :
    All IsNormalUnit (normalize_for_compare ascii_lower (codes " Dark  MODE, please! "))
normalize_for_compare-All_test =
    normalize_for_compare-All ascii_lower (codes " Dark  MODE, please! ")

normalize_test :
    normalize_for_compare ascii_lower (codes " Dark  MODE, please! http://a.b ")
    ≡ codes "dark mode please"
unfolding scoring
normalize_test = refl
