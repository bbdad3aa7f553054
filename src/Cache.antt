-- ===== src/Cache.antt =====
-- common/cache.js: the process-wide cache with a time to live. The `Map` is an association list in
-- insertion order; times are milliseconds and `now` is `Date.now()`. A time to live that is not a
-- finite number is `none`.
pub mod Bound
mod Tests
use feedbase_backend.Base.{
  ℕ, zero, suc, ◌+◌, Bool, true, false, not, ◌&&◌, List, [], ◌∷◌, ◌++◌, Option, none, some, ltb,
  leb, ◌==◌, if◌then◌else◌, length, find, keep, any,
}
use feedbase_backend.Env.{Env, setting}
use feedbase_backend.Text.{Text, eq_text, starts_with}

pub record Entry {ℓ} (V : Type ℓ) : Type ℓ where
  pub key : Text
  pub value : V
  pub expires_at : ℕ

abbrev pub max_entries : Env → ℕ
max_entries env = setting env.cache_max_entries 5000

module _ {ℓ} {V : Type ℓ} where
  -- `store.delete(key)`
  unfoldable pub delete : Text → List (Entry V) → List (Entry V)
  delete key store = keep (λ e. not (eq_text e.key key)) store

  -- `store.get(key)`
  unfoldable pub lookup : Text → List (Entry V) → Option (Entry V)
  lookup key store = find (λ e. eq_text e.key key) store

  -- `evictOne`: the first key is the oldest.
  unfoldable pub evict_one : List (Entry V) → List (Entry V)
  unfolding delete
  evict_one [] = []
  evict_one (e ∷ es) = delete e.key (e ∷ es)

  unfoldable pub get : ℕ → Text → List (Entry V) → List (Entry V) × Option V
  get now key store = elim (lookup key store) [
    | none ↦ (store, none)
    | some hit ↦
        if leb hit.expires_at now then (delete key store, none) else (store, some hit.value)
  ]

  abbrev pub has : Text → List (Entry V) → Bool
  has key store = any (λ e. eq_text e.key key) store

  unfoldable pub set : Env → ℕ → Text → V → Option ℕ → List (Entry V) → List (Entry V)
  set env now key value none store = store
  set env now key value (some zero) store = store
  set env now key value (some (suc ttl)) store =
      let room =
        if leb (max_entries env) (length store) && not (has key store)
        then evict_one store
        else store in
      delete key room ++ record { key = key; value = value; expires_at = now + suc ttl } ∷ []

  -- `wrap`, for a loader that resolves to `loaded`; `none` is null or undefined. The loader is run
  -- at the same instant, and a loader that rejects leaves what `get` leaves.
  unfoldable pub wrap :
      Env → ℕ → Text → Option ℕ → Option V → List (Entry V) → List (Entry V) × Option V
  wrap env now key ttl loaded store =
      let (store', cached) = get now key store in
      elim cached [
        | some v ↦ (store', some v)
        | none ↦ elim loaded [
          | none ↦ (store', none)
          | some v ↦ (set env now key v ttl store', some v)
        ]
      ]

  unfoldable pub invalidate : Text → List (Entry V) → List (Entry V)
  invalidate key store = delete key store

  unfoldable pub invalidate_prefix : Text → List (Entry V) → List (Entry V)
  unfolding starts_with
  invalidate_prefix prefix store = keep (λ e. not (starts_with prefix e.key)) store
