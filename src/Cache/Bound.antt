-- ===== src/Cache/Bound.antt =====
-- The size of the cache of `src/common/cache.js`, and until when it serves a value.
use feedbase_backend.Base.{
  ℕ, zero, suc, ◌+◌, ◌≤◌, ◌<◌, ◌≡◌, refl, ◌∙◌, true, false, not, List, [], ◌∷◌, ◌++◌, Option, none,
  some, arith, length, length-append, length-keep-le, keep, Bool-cases, inl, inr,
}
use feedbase_backend.Env.{Env}
use feedbase_backend.Text.{Text, eq_text}
use feedbase_backend.Text.Laws.{eq_text_refl}
use feedbase_backend.Cache.{Entry, max_entries, delete, lookup, evict_one, get, has, set}

max_entries-pos : (env : Env) → 0 < max_entries env
max_entries-pos env = ground arith

module _ {ℓ} {V : Type ℓ} where
  length-delete-le : (key : Text) (s : List (Entry V)) → length (delete key s) ≤ length s
  unfolding delete
  length-delete-le key s = length-keep-le _ s

  length-delete-lt :
      (key : Text) (s : List (Entry V)) → has key s ≡ true → suc (length (delete key s)) ≤ length s
  unfolding delete
  length-delete-lt key [] h = cc
  length-delete-lt key (e ∷ es) h = elim (Bool-cases (eq_text e.key key)) [
    | inl q ↦
        let shorter : length (keep (λ x. not (eq_text x.key key)) es) ≤ length es =
          length-keep-le _ es in
        rw q (omega arith)
    | inr q ↦ rw q (omega (arith, length-delete-lt key es (rw q at h)))
  ]

  length-evict_one-le : (s : List (Entry V)) → length (evict_one s) ≤ length s
  unfolding evict_one
  length-evict_one-le [] = omega arith
  length-evict_one-le (e ∷ es) = length-delete-le e.key (e ∷ es)

  length-evict_one-lt : (s : List (Entry V)) → 0 < length s → suc (length (evict_one s)) ≤ length s
  unfolding evict_one
  length-evict_one-lt [] h = absurd (omega arith)
  length-evict_one-lt (e ∷ es) h = length-delete-lt e.key (e ∷ es) (rw (eq_text_refl e.key))

  -- A store within the limit stays within it whatever is stored.
  pub length-set-le :
      (env : Env) (now : ℕ) (key : Text) (v : V) (ttl : Option ℕ) (s : List (Entry V))
      → length s ≤ max_entries env
      → length (set env now key v ttl s) ≤ max_entries env
  unfolding set
  length-set-le env now key v none s h = h
  length-set-le env now key v (some zero) s h = h
  length-set-le env now key v (some (suc ttl)) s h =
      let e : Entry V = record { key = key; value = v; expires_at = now + suc ttl } in
      ground (
        arith,
        max_entries-pos env,
        length-append (delete key s) (e ∷ []),
        length-delete-le key s,
        length-delete-lt key s,
        length-append (delete key (evict_one s)) (e ∷ []),
        length-delete-le key (evict_one s),
        length-evict_one-lt s,
      )

  lookup-append :
      (key : Text) (s t : List (Entry V)) → has key s ≡ false → lookup key (s ++ t) ≡ lookup key t
  unfolding lookup
  lookup-append key [] t h = refl
  lookup-append key (e ∷ es) t h = ground (arith, lookup-append key es t)

  has-delete : (key : Text) (s : List (Entry V)) → has key (delete key s) ≡ false
  unfolding delete
  has-delete key [] = refl
  has-delete key (e ∷ es) = ground (arith, has-delete key es)

  lookup-last :
      (s : List (Entry V)) (e : Entry V) → lookup e.key (delete e.key s ++ e ∷ []) ≡ some e
  unfolding lookup
  lookup-last s e =
      lookup-append e.key (delete e.key s) (e ∷ []) (has-delete e.key s)
      ∙ rw (eq_text_refl e.key) refl

  lookup-set :
      (env : Env) (now ttl : ℕ) (key : Text) (v : V) (s : List (Entry V))
      → lookup key (set env now key v (some (suc ttl)) s)
        ≡ some (record { key = key; value = v; expires_at = now + suc ttl })
  unfolding set
  lookup-set env now ttl key v s =
      lookup-last _ (record { key = key; value = v; expires_at = now + suc ttl })

  -- What was stored with a time to live is served before that time is over and no longer.
  pub get-set :
      (env : Env) (now later ttl : ℕ) (key : Text) (v : V) (s : List (Entry V))
      → 0 < ttl
      → ((later < now + ttl) → (get later key (set env now key v (some ttl) s)).1 ≡ some v)
        × ((now + ttl ≤ later) → (get later key (set env now key v (some ttl) s)).1 ≡ none)
  unfolding get
  get-set env now later zero key v s h = absurd (omega arith)
  get-set env now later (suc ttl) key v s h = (
    λ before. ground (arith, lookup-set env now ttl key v s),
    λ over. ground (arith, lookup-set env now ttl key v s),
  )
