-- ===== src/Board/Published.antt =====
-- What `createPublicPost` (`src/main/public/createPublicPost.js`) stores and sends.
use feedbase_backend.Base.{
  ℕ, ◌≤◌, ◌≡◌, ◌≢◌, ◌⊎◌, inl, inr, refl, sym, Bool, true, false, not, [], ◌∷◌, ◌++◌, Option, none,
  some, arith, is_some, if◌then◌else◌, length,
}
use mathlib.Core.Path.{subst}
use feedbase_backend.Env.{Env}
use feedbase_backend.Tables.{Db}
use feedbase_backend.Text.{Text, is_empty}
use feedbase_backend.Email.{matches_email}
use feedbase_backend.Spam.Score.{moderation_state_for}
use feedbase_backend.Guard.{Platform, Ruling, evaluate_public_write}
use feedbase_backend.Guard.Rulings.{evaluate_public_write_lem}
use feedbase_backend.Board.{Post, Board, owner_mail, team_note}
use feedbase_backend.Board.Posting.{
  NewPost, Up, Refusal, Reply, refused, created, title_of, email_of, contact_refusal, refusal,
  submission, row, is_spam, inserted, settle, store, unless, too_many_requests,
  failed_to_create_post, create_public_post,
}

-- A guest has left an address of the right form.
abbrev pub HasContact : Option ℕ → Option Text → Type 0
HasContact author email = author ≡ none → (e : Text) × (email ≡ some e) × (matches_email e ≡ true)

pub record IsSound (env : Env) (p : Post) : Type 0 where
  pub titled : is_empty p.title ≡ false
  pub short : length p.title ≤ 200
  pub contact : HasContact p.author_id p.submitter_email
  pub ruled : p.moderation_state ≡ moderation_state_for env p.spam_score

contact_refusal-none :
    (author : Option ℕ) (email : Option Text)
    → contact_refusal (not (is_some author)) email ≡ none
    → HasContact author email
unfolding contact_refusal
contact_refusal-none author none h g = ground arith
contact_refusal-none author (some e) h g = (e, refl, ground arith)

module _ (db : Db) (r : NewPost) where
  refusal-none :
      refusal db r ≡ none
      → (is_empty (title_of r) ≡ false)
        × (length (title_of r) ≤ 200)
        × HasContact r.author_id (email_of r)
  unfolding refusal
  refusal-none h =
      (ground arith, ground arith, contact_refusal-none r.author_id (email_of r) (ground arith))

-- A post stands as it was ruled, and its notices went out unless it is quarantined.
abbrev pub IsStored : Env → Board → Board → ℕ → Type 0
IsStored env b b' id =
    (p : Post) × (b'.posts ≡ b.posts ++ p ∷ [])
    × (p.id ≡ id)
    × IsSound env p
    × (b'.notices ≡ (
        if is_spam p.moderation_state
        then b.notices
        else b.notices ++ owner_mail id ∷ team_note id ∷ []))

-- Nothing is stored and nothing is sent.
abbrev pub IsUntouched : Board → Board → Type 0
IsUntouched b b' =
    (b'.posts ≡ b.posts) × (b'.notices ≡ b.notices) × (b'.attachments ≡ b.attachments)

settle-cases :
    (discard limited ok : Bool) (b : Board) (done : Board × Reply)
    → (settle discard limited ok b done ≡ done)
      ⊎ ((why : Reply) × (settle discard limited ok b done ≡ (b, why))
          × (why ≢ created (some b.next_id)))
settle-cases true limited ok b done = inr (created none, refl, λ h. ground arith)
settle-cases false true ok b done = inr (refused too_many_requests, refl, λ h. ground arith)
settle-cases false false true b done = inl refl
settle-cases false false false b done = inr (refused failed_to_create_post, refl, λ h. ground arith)

module _ (env : Env) (up : Up) (db : Db) (r : NewPost) where
  -- The two outcomes of a request.
  abbrev pub Outcome : Board → Board × Reply → Type 0
  Outcome b q =
      ((q.1 ≡ created (some b.next_id)) × IsStored env b q.0 b.next_id)
      ⊎ ((q.1 ≢ created (some b.next_id)) × IsUntouched b q.0)

  inserted-Outcome :
      (ruling : Ruling) (b : Board)
      → refusal db r ≡ none
      → ruling.moderation_state ≡ moderation_state_for env ruling.score
      → Outcome b (inserted up r ruling b)
  unfolding inserted row
  inserted-Outcome ruling b h m =
      let (titled, short, contact) = refusal-none db r h in
      inl (
        refl,
        (
          row r ruling b.next_id,
          refl,
          refl,
          record { titled = titled; short = short; contact = contact; ruled = m },
          refl,
        ),
      )

  store-Outcome :
      (ruling : Ruling) (b : Board)
      → refusal db r ≡ none
      → ruling.moderation_state ≡ moderation_state_for env ruling.score
      → Outcome b (store up r ruling b)
  unfolding store
  store-Outcome ruling b h m =
      elim (settle-cases ruling.discard ruling.rate_limited up.insert b (inserted up r ruling b)) [
        | inl e ↦ subst (λ q. Outcome b q) (sym e) (inserted-Outcome ruling b h m)
        | inr (why, e, ne) ↦ subst (λ q. Outcome b q) (sym e) (inr (ne, (refl, refl, refl)))
      ]

  unless-Outcome :
      (o : Option Refusal) (b : Board) (rest : Board × Reply)
      → (o ≡ none → Outcome b rest)
      → Outcome b (unless o b rest)
  unfolding unless
  unless-Outcome none b rest h = h refl
  unless-Outcome (some why) b rest h = inr ((λ q. ground arith), (refl, refl, refl))

  -- A request either answers with the id of a new post, which stands last in the table, has a title
  -- of at most 200 units and, from a guest, an address of the right form, is hidden exactly as its
  -- score says, and is announced unless it is hidden; or it stores, links and sends nothing.
  pub create_public_post_lem :
      (pf : Platform) (b : Board) → Outcome b (create_public_post env pf up db r b)
  unfolding create_public_post
  create_public_post_lem pf b =
      let s = submission pf up r b in
      let (ruled, a, c, d) = evaluate_public_write_lem env pf up.counters s b.guard in
      let (g, ruling) = evaluate_public_write env pf up.counters s b.guard in
      unless-Outcome (refusal db r) b _
        (λ e. store-Outcome ruling (record b { guard = g }) e ruled.0)
