-- ===== src/Board/Kept.antt =====
-- Which posts a purge keeps (`src/common/spamRetention.js`, `src/main/post/purgeSpam.js`), and what
-- a review keeps of the score (`src/main/post/updatePostModeration.js`).
use Prim.Native.Nat.{◌/◌}
use feedbase_backend.Base.{
  zero, suc, ◌*◌, ◌-◌, ltb, ◌&&◌, ℕ, ◌≡◌, inl, inr, refl, ap, Bool, true, false, not, ◌||◌, List,
  [], ◌∷◌, Option, none, some, arith, Bool-cases, any, keep, ◌==◌,
}
use feedbase_backend.Env.{Env}
use feedbase_backend.Tables.{Role}
use feedbase_backend.Spam.Score.{ModerationState, published, pending, spam}
use feedbase_backend.Board.{Post}
use feedbase_backend.Board.Posting.{is_spam}
use feedbase_backend.Board.Reviews.{Comment, is_purged, purge_spam_posts, reclassify}

module _ {ℓ} {A : Type ℓ} where
  -- Dropping rows that do not have a property leaves those that have it, in order.
  keep-keep :
      (q p : A → Bool) (xs : List A)
      → ((x : A) → p x ≡ true → q x ≡ true)
      → keep p (keep q xs) ≡ keep p xs
  keep-keep q p [] h = refl
  keep-keep q p (x ∷ xs) h = elim (Bool-cases (p x)) [
    | inl e ↦ rw (e, h x e, e) (ap (λ r. x ∷ r) (keep-keep q p xs h))
    | inr e ↦ elim (Bool-cases (q x)) [
      | inl f ↦ rw (f, e) (keep-keep q p xs h)
      | inr f ↦ rw (f, e) (keep-keep q p xs h)
    ]
  ]

  any-keep : (p : A → Bool) (xs : List A) → any p (keep (λ x. not (p x)) xs) ≡ false
  any-keep p [] = refl
  any-keep p (x ∷ xs) = ground (arith, any-keep p xs)

abbrev pub is_visible : Post → Bool
is_visible p = not (is_spam p.moderation_state)

abbrev pub is_visible_comment : Comment → Bool
is_visible_comment c = not (is_spam c.moderation_state)

-- The window in days: as many as are set, and 30 where nothing or 0 is set.
abbrev pub window : Option ℕ → ℕ
window none = 30
window (some zero) = 30
window (some (suc n)) = suc n

-- A row is older than a number of days where more seconds have gone by since it was written.
abbrev pub is_old : ℕ → ℕ → ℕ → Bool
is_old days now created_at = ltb (days * 86400) (now / 1000 - created_at)

-- Retention keeps exactly the rows that are not quarantined and those that are not old.
pub record IsRetained {A : Type 0} (state : A → ModerationState) (created_at : A → ℕ) (days now : ℕ)
    (rows rows' : List A) : Type 0 where
  pub shown : keep (λ r. not (is_spam (state r))) rows' ≡ keep (λ r. not (is_spam (state r))) rows
  pub recent :
      keep (λ r. not (is_old days now (created_at r))) rows'
      ≡ keep (λ r. not (is_old days now (created_at r))) rows
  pub gone : any (λ r. is_spam (state r) && is_old days now (created_at r)) rows' ≡ false

abbrev pub is_safe : ℕ → Post → Bool
is_safe tenant p = is_visible p || not (p.tenant_id == tenant)

safe-purged :
    (now tenant : ℕ) (ids : Option (List ℕ)) (days : ℕ) (p : Post)
    → is_safe tenant p ≡ true
    → not (is_purged now tenant ids days p) ≡ true
unfolding is_purged
safe-purged now tenant none days p h = ground arith
safe-purged now tenant (some ids) days p h = ground arith

-- Whatever a request to purge names, the posts that are not quarantined and the posts of other
-- workspaces are all still there, in order.
pub purge_spam_posts_lem :
    (now tenant : ℕ) (role : Role) (ids : Option (List ℕ)) (days : ℕ) (posts : List Post)
    → keep (is_safe tenant) (purge_spam_posts now tenant role ids days posts).0
      ≡ keep (is_safe tenant) posts
unfolding purge_spam_posts
purge_spam_posts_lem now tenant role ids days posts =
    let kept =
      keep-keep (λ p. not (is_purged now tenant ids days p)) (is_safe tenant) posts
        (safe-purged now tenant ids days) in
    ground (arith, kept)

-- A sequence of decisions on one post, each at its instant.
unfoldable pub decide : List (ModerationState × ℕ) → Post → Post
decide [] p = p
decide ((s, now) ∷ ds) p = decide ds (reclassify s now p)

decide-reviewed :
    (ds : List (ModerationState × ℕ)) (p : Post) (n : ℕ)
    → p.spam_reviewed_score ≡ some n
    → (decide ds p).spam_reviewed_score ≡ some n
unfolding decide reclassify
decide-reviewed [] p n h = h
decide-reviewed ((published, now) ∷ ds) p n h =
    decide-reviewed ds (reclassify published now p) n (rw h refl)
decide-reviewed ((pending, now) ∷ ds) p n h = decide-reviewed ds (reclassify pending now p) n h
decide-reviewed ((spam, now) ∷ ds) p n h = decide-reviewed ds (reclassify spam now p) n h

-- The score that a post has when it is first published by hand stays on record through all later
-- decisions on it.
pub first_score_kept :
    (now : ℕ) (ds : List (ModerationState × ℕ)) (p : Post)
    → p.spam_reviewed_score ≡ none
    → (decide ((published, now) ∷ ds) p).spam_reviewed_score ≡ some p.spam_score
unfolding decide reclassify
first_score_kept now ds p h =
    decide-reviewed ds (reclassify published now p) p.spam_score (rw h refl)
