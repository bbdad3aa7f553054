-- ===== src/Spam/Weights.antt =====
-- What the weights of common/spamScore.js add up to.
use feedbase_backend.Base.{
  ℕ, ◌+◌, ◌*◌, ◌≤◌, ◌≡◌, refl, Bool, true, false, [], ◌∷◌, Option, none, length, length-append,
  arith,
}
use feedbase_backend.Env.{defaults}
use feedbase_backend.Text.{Text}
use feedbase_backend.Spam.Links.{find_urls, has_url}
use feedbase_backend.Spam.Shape.{caps_ratio, above, longest_repeat_run, non_latin_ratio}
use feedbase_backend.Spam.Score.{
  Signal, TokenReason, Input, Tally, add_if, links, domains, duplicates, provenance, phrases,
  text_of, phrase_hits, body_is_title, structural, lexical, spam_score, moderation_state_for,
  published, spam,
}

-- Each reason stands for 2 points at least and 9 at most.
record IsBacked (t : Tally) : Type 0 where
  low : 2 * length t.reasons ≤ t.score
  high : t.score ≤ 9 * length t.reasons

-- A step adds at most `most` points and keeps the tally backed.
record Adds (most : ℕ) (t u : Tally) : Type 0 where
  more : t.score ≤ u.score
  less : u.score ≤ t.score + most
  backed : IsBacked t → IsBacked u

add_if-Adds :
    (b : Bool) (p : ℕ) (r : Signal) (t : Tally) → 2 ≤ p → p ≤ 9 → Adds p t (add_if b p r t)
unfolding add_if
add_if-Adds b p r t lo hi = ground (arith, length-append t.reasons (r ∷ []))

links-Adds : (n : ℕ) (t : Tally) → Adds 8 t (links n t)
unfolding links
links-Adds n t = grind (arith, length-append)

duplicates-Adds : (n : ℕ) (t : Tally) → Adds 9 t (duplicates n t)
unfolding duplicates
duplicates-Adds n t = grind (arith, length-append)

phrases-Adds : (n : ℕ) (t : Tally) → Adds 6 t (phrases n t)
unfolding phrases
phrases-Adds n t = grind (arith, length-append)

provenance-Adds : (r : Option TokenReason) (t : Tally) → Adds 6 t (provenance r t)
unfolding provenance
provenance-Adds r t = grind (arith, length-append)

Adds-trans : {m n : ℕ} {t u v : Tally} → Adds m t u → Adds n u v → Adds (m + n) t v
Adds-trans a b = record {
  more = omega arith;
  less = omega arith;
  backed = λ k. b.backed (a.backed k);
}

domains-Adds : (n h : ℕ) (t : Tally) → Adds 4 t (domains n h t)
unfolding domains
domains-Adds n h t = add_if-Adds _ 4 _ t (omega arith) (omega arith)

module _ (lower : Text → Text) (host_of : Text → Option Text) (i : Input) where
  structural-Adds : (t : Tally) → Adds 35 t (structural lower host_of i t)
  unfolding structural
  structural-Adds t =
      Adds-trans
        (Adds-trans
          (Adds-trans
            (Adds-trans (Adds-trans (links-Adds _ t) (domains-Adds _ _ _))
              (add_if-Adds _ 5 _ _ (omega arith) (omega arith)))
            (duplicates-Adds _ _))
          (add_if-Adds _ 5 _ _ (omega arith) (omega arith)))
        (add_if-Adds _ 4 _ _ (omega arith) (omega arith))

  lexical-Adds : (t : Tally) → Adds 14 t (lexical lower host_of i t)
  unfolding lexical
  lexical-Adds t =
      Adds-trans
        (Adds-trans
          (Adds-trans
            (Adds-trans (phrases-Adds _ t) (add_if-Adds _ 2 _ _ (omega arith) (omega arith)))
            (add_if-Adds _ 2 _ _ (omega arith) (omega arith)))
          (add_if-Adds _ 2 _ _ (omega arith) (omega arith)))
        (add_if-Adds _ 2 _ _ (omega arith) (omega arith))

  -- The weights add up to 55 at most, so the clamp at 255 never bites, and each recorded reason
  -- accounts for 2 to 9 points: the score is 0 exactly when no reason is given.
  pub spam_score_bounds :
      let t = spam_score lower host_of i in
      (t.score ≤ 55) × (2 * length t.reasons ≤ t.score) × (t.score ≤ 9 * length t.reasons)
  unfolding spam_score
  spam_score_bounds =
      let start : Tally = record { score = 0; reasons = [] } in
      let whole =
        Adds-trans (Adds-trans (structural-Adds start) (provenance-Adds i.form_token_reason _))
          (lexical-Adds _) in
      let backed = whole.backed (omega arith) in ground arith

  -- Without a link, a duplicate or a poor address the structural signals are silent.
  structural-silent :
      (t : Tally)
      → find_urls 0 (text_of i) ≡ []
      → has_url i.title ≡ false
      → i.duplicate_count ≡ 0
      → i.is_disposable_email ≡ false
      → i.email_has_no_mx ≡ false
      → structural lower host_of i t ≡ t
  unfolding structural links domains duplicates add_if
  structural-silent t u h d e m = rw (u, h, d, e, m)

  -- Wording alone, in a Latin script and with a body that is not the title again, does not hide a
  -- submission: with a valid form token, no link, no duplicate and an address without objection
  -- the score is at most 10, and the default thresholds publish it.
  pub wording-published :
      find_urls 0 (text_of i) ≡ []
      → has_url i.title ≡ false
      → i.duplicate_count ≡ 0
      → i.is_disposable_email ≡ false
      → i.email_has_no_mx ≡ false
      → i.form_token_reason ≡ none
      → above 6 (non_latin_ratio (text_of i)) ≡ false
      → body_is_title lower host_of i ≡ false
      → ((spam_score lower host_of i).score ≤ 10)
        × (moderation_state_for defaults (spam_score lower host_of i).score ≡ published)
  unfolding spam_score provenance lexical phrases add_if moderation_state_for
  wording-published u h d e m k l b =
      let silent = structural-silent (record { score = 0; reasons = [] }) u h d e m in
      ground (arith, silent)

  -- Wording alone can hide a submission: three of the listed phrases, capitals, a long repeat and
  -- a text that is mostly not Latin reach the default threshold, whatever the other signals are.
  pub wording-spam :
      3 ≤ phrase_hits lower host_of (text_of i)
      → above 8 (caps_ratio (text_of i)) ≡ true
      → 15 ≤ longest_repeat_run (text_of i)
      → above 6 (non_latin_ratio (text_of i)) ≡ true
      → moderation_state_for defaults (spam_score lower host_of i).score ≡ spam
  unfolding spam_score lexical phrases add_if moderation_state_for
  wording-spam p c r l = ground arith

  lexical_mono :
      (t u : Tally)
      → t.score ≤ u.score
      → (lexical lower host_of i t).score ≤ (lexical lower host_of i u).score
  unfolding lexical phrases add_if
  lexical_mono t u h = ground arith

provenance_mono :
    (r : Option TokenReason) (t u : Tally)
    → t.score ≤ u.score
    → (provenance r t).score ≤ (provenance r u).score
unfolding provenance
provenance_mono r t u h = ground arith

abbrev pub resent : ℕ → Input → Input
resent n i = record i { duplicate_count = n }

structural_mono :
    (lower : Text → Text) (host_of : Text → Option Text) (i : Input) (t : Tally) (n m : ℕ)
    → n ≤ m
    → (structural lower host_of (resent n i) t).score
      ≤ (structural lower host_of (resent m i) t).score
unfolding structural links domains duplicates add_if
structural_mono lower host_of i t n m h = ground arith

lexical-resent :
    (lower : Text → Text) (host_of : Text → Option Text) (i : Input) (t : Tally) (n m : ℕ)
    → lexical lower host_of (resent n i) t ≡ lexical lower host_of (resent m i) t
unfolding lexical body_is_title
lexical-resent lower host_of i t n m = refl

-- Sending the same content again never lowers its score.
pub spam_score-mono_duplicates :
    (lower : Text → Text) (host_of : Text → Option Text) (i : Input) (n m : ℕ)
    → n ≤ m
    → (spam_score lower host_of (resent n i)).score ≤ (spam_score lower host_of (resent m i)).score
unfolding spam_score
spam_score-mono_duplicates lower host_of i n m h =
    let start : Tally = record { score = 0; reasons = [] } in
    let a = structural_mono lower host_of i start n m h in
    let x = provenance i.form_token_reason (structural lower host_of (resent n i) start) in
    let y = provenance i.form_token_reason (structural lower host_of (resent m i) start) in
    let b : x.score ≤ y.score = provenance_mono i.form_token_reason _ _ a in
    let c = lexical_mono lower host_of (resent m i) x y b in
    ground (arith, c, lexical-resent lower host_of i x n m)
