-- ===== src/Guard.antt =====
-- `src/common/publicWriteGuard.js` and `src/common/guestIdentity.js`: the gate that every public
-- write passes, from the hidden field to the score, with the counters and the cache of exchanger
-- lookups as its state.
pub mod Rulings
pub mod Cap
mod Tests
use feedbase_backend.Base.{
  ℕ, zero, suc, ◌+◌, ◌-◌, ◌*◌, ◌≤◌, ◌<◌, ◌≡◌, ◌≢◌, ◌↔◌, ◌⊎◌, inl, inr, refl, sym, ap, ◌∙◌, Bool,
  true, false, not, ◌&&◌, ◌||◌, List, [], ◌∷◌, ◌++◌, map, Option, none, some, arith, All, is_some,
  get_or, Bool-cases, Option-cases, if◌then◌else◌, take, length, any, keep, find, count, head?, ltb,
  leb, ◌==◌, length-keep-le, length-take-le, ==_iff, ==_refl,
}
use feedbase_backend.Env.{Env}
use feedbase_backend.Text.{Text, is_empty, trim}
use feedbase_backend.FormToken.{Verdict, verify_form_token}
use feedbase_backend.Counters.{Row, Request, charge_public_write}
use feedbase_backend.Email.{
  Lookup, Hit, email_domain, is_valid_email_format, is_disposable_email, is_deliverable_email,
}
use feedbase_backend.Spam.Score.{
  Signal, TokenReason, known, Input, Tally, spam_score, ModerationState, published,
  moderation_state_for, is_flagged,
}

-- What the platform provides: `toLowerCase`, the host of a URL, the two keyed digests, and the
-- name service.
pub record Platform : Type 0 where
  pub lower : Text → Text
  pub host_of : Text → Option Text
  pub sign_token : Text → Text
  pub sign_ip : Text → Text
  pub resolve_mx : Text → Lookup

pub record GuardState : Type 0 where
  pub rows : List Row
  pub hits : List Hit

-- The arguments of `evaluatePublicWrite`, and of the request what it reads. The handlers pass
-- trimmed texts, where an absent one is empty.
pub record Submission : Type 0 where
  pub now : ℕ
  pub tenant_id : ℕ
  pub ip : Option Text
  pub website : Option Text
  pub form_token : Option Text
  pub title : Text
  pub body : Text
  pub email : Option Text
  pub duplicate_count : ℕ
  pub is_authenticated : Bool

pub record Ruling : Type 0 where
  pub discard : Bool
  pub rate_limited : Bool
  pub voter_hash : Option Text
  pub score : ℕ
  pub reasons : List Signal
  pub moderation_state : ModerationState
  pub flagged : Bool

abbrev pub clean : Option Text → Ruling
clean hash = record {
  discard = false;
  rate_limited = false;
  voter_hash = hash;
  score = 0;
  reasons = [];
  moderation_state = published;
  flagged = false;
}

-- A field is filled when something but white space stands in it.
abbrev pub is_filled : Option Text → Bool
is_filled field = not (is_empty (trim (get_or field [])))

abbrev pub non_empty : Text → Option Text
non_empty [] = none
non_empty (c ∷ s) = some (c ∷ s)

abbrev pub token_reason : Verdict → Option TokenReason
token_reason v = if v.valid then none else elim v.reason [ none ↦ none | some r ↦ some (known r) ]

module _ (env : Env) (pf : Platform) where
  unfoldable pub voter_hash : Option Text → Option Text
  voter_hash ip = elim (non_empty (trim (get_or ip []))) [
    | none ↦ none
    | some address ↦ some (pf.sign_ip address)
  ]

  -- The request that the counters are charged with.
  unfoldable pub charged : Submission → Request
  charged s = record {
    now = s.now;
    tenant_id = s.tenant_id;
    voter_hash = voter_hash s.ip;
    email_domain = non_empty (email_domain pf.lower (get_or s.email []));
  }

  -- Whether the address is a throwaway one, and whether its domain takes no mail.
  unfoldable pub email_quality : Submission → List Hit → List Hit × Bool × Bool
  email_quality s hits =
      let email = get_or s.email [] in
      let (hits', deliverable) = is_deliverable_email pf.resolve_mx s.now email hits in
      if is_valid_email_format email
      then (hits', is_disposable_email pf.lower email, not deliverable)
      else (hits, false, false)

  unfoldable pub score_of : Submission → Bool → Bool → Tally
  score_of s disposable no_mx = spam_score pf.lower pf.host_of (record {
    title = s.title;
    body = s.body;
    is_disposable_email = disposable;
    email_has_no_mx = no_mx;
    form_token_reason = token_reason (verify_form_token env pf.sign_token s.form_token s.now);
    duplicate_count = s.duplicate_count;
  })

  -- The ruling on a write that is scored.
  unfoldable pub ruled : Option Text → Tally → Ruling
  ruled hash t = record (clean hash) {
    score = t.score;
    reasons = t.reasons;
    moderation_state = moderation_state_for env t.score;
    flagged = is_flagged env t.score;
  }

  -- From the charge on. `up` says whether the counters are in reach.
  unfoldable pub charge_and_score : Bool → Submission → GuardState → GuardState × Ruling
  charge_and_score up s g =
      let (rows, scope) = charge_public_write env up (charged s) g.rows in
      let (hits, disposable, no_mx) = email_quality s g.hits in
      if is_some scope
      then (record g { rows = rows }, record (clean (voter_hash s.ip)) { rate_limited = true })
      else (
        record { rows = rows; hits = hits },
        ruled (voter_hash s.ip) (score_of s disposable no_mx),
      )

  unfoldable pub evaluate_public_write : Bool → Submission → GuardState → GuardState × Ruling
  evaluate_public_write up s g =
      if is_filled s.website
      then (g, record (clean (voter_hash s.ip)) { discard = true })
      else if s.is_authenticated
      then (g, clean (voter_hash s.ip))
      else charge_and_score up s g
