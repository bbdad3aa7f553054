-- ===== src/Board/OneVote.antt =====
-- The votes of one visitor on one post (`src/main/public/togglePublicVote.js`).
use feedbase_backend.Base.{
  count-keep-le, count-append, count-any, ℕ, suc, ◌≤◌, ◌<◌, ◌≡◌, inl, inr, refl, ap, Bool, true,
  false, not, ◌||◌, List, [], ◌∷◌, ◌++◌, Option, none, some, arith, All, get_or, Bool-cases, length,
  any, find, count, ltb, ◌==◌,
}
use feedbase_backend.Env.{Env}
use feedbase_backend.Text.{Text, is_empty, trim}
use feedbase_backend.Text.Laws.{eq_text_iff, eq_text_refl}
use feedbase_backend.Guard.{Platform, voter_hash}
use feedbase_backend.Board.{Post}
use feedbase_backend.Board.Votes.{
  Vote, Ballot, has_hash, has_guest, existing, conflicts, ballot_row, without, insert_vote, flip,
  is_open, toggle_public_vote, toggled,
}

module _ {ℓ} {A : Type ℓ} (p : A → Bool) where
  any-find : (xs : List A) → any p xs ≡ false → find p xs ≡ none
  any-find [] h = refl
  any-find (x ∷ xs) h = ground (arith, any-find xs)

-- How many votes an identity has on a post.
abbrev pub votes_of : ℕ → ℕ → Text → Ballot → ℕ
votes_of tenant post hash b = count (has_hash tenant post hash) b.votes

same-row :
    (tenant post : ℕ) (guest hash : Text) (t p : ℕ) (h : Text) (id : ℕ)
    → has_hash t p h (ballot_row tenant post guest (some hash) id) ≡ true
    → (tenant ≡ t) × (post ≡ p) × (hash ≡ h)
same-row tenant post guest hash t p h id e = ground (arith, eq_text_iff hash h)

-- A new row counts for an identity on a post only if it is the row of that identity on that post,
-- which had none, since the keys let it in.
insert-votes :
    (tenant post : ℕ) (guest : Text) (hash : Option Text) (t p : ℕ) (h : Text) (id : ℕ)
    (votes : List Vote)
    → conflicts tenant post guest hash votes ≡ false
    → count (has_hash t p h) votes ≤ 1
    → count (has_hash t p h) (votes ++ ballot_row tenant post guest hash id ∷ []) ≤ 1
unfolding conflicts
insert-votes tenant post guest none t p h id votes c u =
    ground (arith, count-append (has_hash t p h) votes (ballot_row tenant post guest none id))
insert-votes tenant post guest (some hash) t p h id votes c u =
    let grown = count-append (has_hash t p h) votes (ballot_row tenant post guest (some hash) id) in
    elim (Bool-cases (has_hash t p h (ballot_row tenant post guest (some hash) id))) [
      | inl e ↦
          let (x, y, z) = same-row tenant post guest hash t p h id e in
          let none_yet : count (has_hash t p h) votes ≡ 0 =
            rw (← x, ← y, ← z) (count-any (has_hash tenant post hash) votes (ground arith)) in
          ground (arith, grown, none_yet)
      | inr e ↦ ground (arith, grown)
    ]

flip-votes :
    (tenant post : ℕ) (guest : Text) (hash : Option Text) (t p : ℕ) (h : Text) (o : Option Vote)
    (b : Ballot)
    → votes_of t p h b ≤ 1
    → votes_of t p h (flip tenant post guest hash o b).0 ≤ 1
unfolding flip insert_vote
flip-votes tenant post guest hash t p h (some v) b u =
    omega (arith, count-keep-le (has_hash t p h) (λ (w : Vote). not (w.id == v.id)) b.votes, u)
flip-votes tenant post guest hash t p h none b u =
    elim (Bool-cases (conflicts tenant post guest hash b.votes)) [
      | inl e ↦ rw e u
      | inr e ↦ rw e (insert-votes tenant post guest hash t p h b.next_id b.votes e u)
    ]

module _ (env : Env) (pf : Platform) (posts : List Post) (tenant post : ℕ)
    (guest_id ip : Option Text) where
  -- Whatever guest id a request names, it leaves every identity that has at most one vote on a
  -- post with at most one.
  pub one_vote :
      (t p : ℕ) (h : Text) (b : Ballot)
      → votes_of t p h b ≤ 1
      → votes_of t p h (toggle_public_vote env pf posts tenant post guest_id ip b).0 ≤ 1
  unfolding toggle_public_vote
  one_vote t p h b u =
      let guest = trim (get_or guest_id []) in
      let hash = voter_hash env pf ip in
      let next =
        flip-votes tenant post guest hash t p h (existing tenant post guest hash b.votes) b u in
      ground (arith, next)

without-fresh :
    (id : ℕ) (vs : List Vote) (v : Vote)
    → All (λ (w : Vote). w.id < id) vs
    → v.id ≡ id
    → without id (vs ++ v ∷ []) ≡ vs
without-fresh id [] v h e = ground arith
without-fresh id (w ∷ vs) v (a, h) e = ground (arith, without-fresh id vs v h e)

find-last :
    (p : Vote → Bool) (vs : List Vote) (v : Vote)
    → any p vs ≡ false
    → p v ≡ true
    → find p (vs ++ v ∷ []) ≡ some v
find-last p [] v h e = ground arith
find-last p (w ∷ vs) v h e = ground (arith, find-last p vs v)

existing-inserted :
    (tenant post : ℕ) (guest : Text) (hash : Option Text) (id : ℕ) (votes : List Vote)
    → conflicts tenant post guest hash votes ≡ false
    → existing tenant post guest hash (votes ++ ballot_row tenant post guest hash id ∷ [])
      ≡ some (ballot_row tenant post guest hash id)
unfolding existing conflicts
existing-inserted tenant post guest none id votes c =
    find-last (has_guest tenant post guest) votes _ c (ground (arith, eq_text_refl guest))
existing-inserted tenant post guest (some hash) id votes c =
    find-last (has_hash tenant post hash) votes _ (ground arith) (ground (arith, eq_text_refl hash))

existing-none :
    (tenant post : ℕ) (guest : Text) (hash : Option Text) (votes : List Vote)
    → conflicts tenant post guest hash votes ≡ false
    → existing tenant post guest hash votes ≡ none
unfolding existing conflicts
existing-none tenant post guest none votes c = any-find (has_guest tenant post guest) votes c
existing-none tenant post guest (some hash) votes c =
    any-find (has_hash tenant post hash) votes (ground arith)

-- A visitor without a vote who asks twice has voted and then taken it back: the first answer
-- counts one more, the second the old number, and the votes are the old ones.
pub toggle-toggle :
    (env : Env) (pf : Platform) (posts : List Post) (tenant post : ℕ) (guest_id ip : Option Text)
    (b : Ballot)
    → let guest = trim (get_or guest_id []) in
      is_empty guest || ltb 64 (length guest) ≡ false
      → is_open tenant post posts ≡ true
      → conflicts tenant post (trim (get_or guest_id [])) (voter_hash env pf ip) b.votes ≡ false
      → All (λ (v : Vote). v.id < b.next_id) b.votes
      → let n = count (λ (v : Vote). v.post_id == post) b.votes in
        let (once, first) = toggle_public_vote env pf posts tenant post guest_id ip b in
        let (twice, second) = toggle_public_vote env pf posts tenant post guest_id ip once in
        (first ≡ toggled true (suc n)) × (second ≡ toggled false n) × (twice.votes ≡ b.votes)
unfolding toggle_public_vote flip insert_vote
toggle-toggle env pf posts tenant post guest_id ip b g o c fresh =
    let guest = trim (get_or guest_id []) in
    let hash = voter_hash env pf ip in
    let new = ballot_row tenant post guest hash b.next_id in
    let e = existing-none tenant post guest hash b.votes c in
    let found = existing-inserted tenant post guest hash b.next_id b.votes c in
    let back = without-fresh b.next_id b.votes new fresh refl in
    let grown = count-append (λ (v : Vote). v.post_id == post) b.votes new in
    rw (g, o, e, c, found, back) (ap (toggled true) (ground (arith, grown)), refl, refl)
