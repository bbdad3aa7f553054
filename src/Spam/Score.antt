-- ===== src/Spam/Score.antt =====
-- `spamScore`, `moderationStateFor` and `isFlagged` of common/spamScore.js. Parameters:
-- `lower` is `String.prototype.toLowerCase`, and `host_of u` is `new URL(u).host`, `none` where
-- that throws.
use feedbase_backend.Base.{
  ℕ, suc, ◌+◌, Bool, not, ◌&&◌, List, [], ◌∷◌, ◌++◌, map, Option, none, some, ltb, leb, ◌==◌,
  if◌then◌else◌, length, any, keep,
}
use feedbase_backend.Env.{Env, setting}
use feedbase_backend.Text.{Text, codes, eq_text, is_empty, includes}
use feedbase_backend.FormToken.{Reason, missing, malformed, bad_signature, too_fast, expired}
use feedbase_backend.Spam.Links.{find_urls, has_url}
use feedbase_backend.Spam.Shape.{caps_ratio, above, longest_repeat_run, non_latin_ratio}
use feedbase_backend.Spam.Normal.{normalize_for_compare}

pub data Signal : Type 0 where
  many_links several_links multiple_link_domains link_in_title : Signal
  repeat_duplicate duplicate disposable_email email_domain_no_mx : Signal
  submitted_too_fast invalid_form_token stale_form_token no_form_token : Signal
  spam_phrases spam_phrase all_caps repeated_characters mostly_non_latin : Signal
  body_repeats_title : Signal

-- A reason that `verifyFormToken` gives, or any other text.
pub data TokenReason : Type 0 where
  known : Reason → TokenReason
  other : TokenReason

pub record Input : Type 0 where
  pub title : Text
  pub body : Text
  pub is_disposable_email : Bool
  pub email_has_no_mx : Bool
  pub form_token_reason : Option TokenReason
  pub duplicate_count : ℕ

-- The local variables `score` and `reasons`.
pub record Tally : Type 0 where
  pub score : ℕ
  pub reasons : List Signal

abbrev pub add : ℕ → Signal → Tally → Tally
add points reason t = record { score = t.score + points; reasons = t.reasons ++ reason ∷ [] }

unfoldable pub add_if : Bool → ℕ → Signal → Tally → Tally
add_if test points reason t = if test then add points reason t else t

unfoldable pub links : ℕ → Tally → Tally
links n t = if leb 5 n then add 8 many_links t else if leb 3 n then add 5 several_links t else t

unfoldable pub domains : ℕ → ℕ → Tally → Tally
domains n hosts t = add_if (leb 2 n && leb 3 hosts) 4 multiple_link_domains t

unfoldable pub duplicates : ℕ → Tally → Tally
duplicates n t =
    if leb 3 n then add 9 repeat_duplicate t else if leb 1 n then add 5 duplicate t else t

unfoldable pub provenance : Option TokenReason → Tally → Tally
provenance none t = t
provenance (some (known too_fast)) t = add 6 submitted_too_fast t
provenance (some (known bad_signature)) t = add 6 invalid_form_token t
provenance (some (known malformed)) t = add 6 invalid_form_token t
provenance (some (known expired)) t = add 2 stale_form_token t
provenance (some (known missing)) t = add 3 no_form_token t
provenance (some other) t = add 3 no_form_token t

unfoldable pub phrases : ℕ → Tally → Tally
phrases n t =
    if leb 3 n
    then add 6 spam_phrases t
    else if n == 2
    then add 4 spam_phrases t
    else if n == 1
    then add 2 spam_phrase t
    else t

abbrev pub phrase_list : List Text
phrase_list =
    codes "buy now"
    ∷ codes "click here now"
    ∷ codes "make money fast"
    ∷ codes "work from home"
    ∷ codes "casino"
    ∷ codes "porn"
    ∷ codes "viagra"
    ∷ codes "cialis"
    ∷ codes "payday loan"
    ∷ codes "forex trading"
    ∷ codes "binary options"
    ∷ codes "crypto giveaway"
    ∷ codes "bitcoin doubler"
    ∷ codes "seo services"
    ∷ codes "backlinks"
    ∷ codes "cheap rolex"
    ∷ codes "replica watches"
    ∷ codes "escort service"
    ∷ codes "hot singles"
    ∷ codes "weight loss pills"
    ∷ codes "limited time offer"
    ∷ codes "act now"
    ∷ codes "100% free"
    ∷ codes "risk free"
    ∷ codes "no credit check"
    ∷ []

-- The size of `new Set(keys)`.
unfoldable pub set_size : List Text → ℕ
unfolding eq_text
set_size [] = 0
set_size (k ∷ ks) = let rest = set_size ks in if any (eq_text k) ks then rest else suc rest

-- `Math.max(0, Math.min(255, Math.round(n)))`, for a whole number that is not negative.
abbrev pub clamp255 : ℕ → ℕ
clamp255 n = if ltb 255 n then 255 else n

-- `${title}\n${body}`
abbrev pub text_of : Input → Text
text_of i = i.title ++ 10 ∷ i.body

module _ (lower : Text → Text) (host_of : Text → Option Text) where
  unfoldable pub host_key : Text → Text
  host_key u = elim (host_of u) [ none ↦ lower u | some h ↦ lower h ]

  unfoldable pub phrase_hits : Text → ℕ
  unfolding includes
  phrase_hits text =
      let haystack = lower text in length (keep (λ p. includes p haystack) phrase_list)

  unfoldable pub body_is_title : Input → Bool
  unfolding eq_text normalize_for_compare
  body_is_title i =
      let nt = normalize_for_compare lower i.title in
      let nb = normalize_for_compare lower i.body in
      not (is_empty nt) && not (is_empty nb) && eq_text nt nb

  -- How the message was sent.
  unfoldable pub structural : Input → Tally → Tally
  structural i t =
      let urls = find_urls 0 (text_of i) in
      let t = links (length urls) t in
      let t = domains (length urls) (set_size (map host_key urls)) t in
      let t = add_if (has_url i.title) 5 link_in_title t in
      let t = duplicates i.duplicate_count t in
      let t = add_if i.is_disposable_email 5 disposable_email t in
      add_if i.email_has_no_mx 4 email_domain_no_mx t

  -- How it was worded.
  unfoldable pub lexical : Input → Tally → Tally
  lexical i t =
      let t = phrases (phrase_hits (text_of i)) t in
      let t = add_if (above 8 (caps_ratio (text_of i))) 2 all_caps t in
      let t = add_if (leb 15 (longest_repeat_run (text_of i))) 2 repeated_characters t in
      let t = add_if (above 6 (non_latin_ratio (text_of i))) 2 mostly_non_latin t in
      add_if (body_is_title i) 2 body_repeats_title t

  unfoldable pub spam_score : Input → Tally
  spam_score i =
      let t =
        lexical i
          (provenance i.form_token_reason (structural i (record { score = 0; reasons = [] }))) in
      record t { score = clamp255 t.score }

abbrev pub hide_threshold : Env → ℕ
hide_threshold env = setting env.spam_score_hide 12

abbrev pub flag_threshold : Env → ℕ
flag_threshold env = setting env.spam_score_flag 6

pub data ModerationState : Type 0 where
  published pending spam : ModerationState

unfoldable pub moderation_state_for : Env → ℕ → ModerationState
moderation_state_for env score = if leb (hide_threshold env) score then spam else published

unfoldable pub is_flagged : Env → ℕ → Bool
is_flagged env score = leb (flag_threshold env) score
