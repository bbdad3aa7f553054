-- ===== src/Email/MxCache.antt =====
-- The cache of `isDeliverableEmail` (`src/common/emailQuality.js`): its bound, and that it does
-- not change the answers while the name service keeps its own.
use feedbase_backend.Base.{
  ℕ, suc, ◌+◌, ◌≤◌, ◌≡◌, ◌⊎◌, inl, inr, refl, ap, Bool, not, ◌&&◌, List, [], ◌∷◌, Option, none,
  some, arith, All, get_or, Bool-cases, length, keep, ltb, leb, length-keep-le,
}
use feedbase_backend.Text.{Text, eq_text, trim}
use feedbase_backend.Text.Laws.{eq_text_iff}
use feedbase_backend.Email.{
  matches_email, split_domain, Lookup, has_exchanger, Hit, mx_cache_ttl_ms, mx_cache_max, drop_hit,
  find_hit, judge_hit, cache_get, drop_oldest, put_hit, cache_set, is_deliverable_email,
}

-- Every entry holds what the name service says.
abbrev pub IsTrue : (Text → Lookup) → List Hit → Type 0
IsTrue resolve_mx hits = All (λ h. h.value ≡ has_exchanger (resolve_mx h.domain)) hits

All-keep {ℓ κ} :
    {A : Type ℓ} (P : A → Type κ) (p : A → Bool) (xs : List A) → All P xs → All P (keep p xs)
All-keep P p [] h = h
All-keep P p (x ∷ xs) (a, h) = elim (Bool-cases (p x)) [
  | inl e ↦ rw e (a, All-keep P p xs h)
  | inr e ↦ rw e (All-keep P p xs h)
]

length-put_hit-le : (new : Hit) (hs : List Hit) → length (put_hit new hs) ≤ suc (length hs)
unfolding put_hit
length-put_hit-le new [] = omega arith
length-put_hit-le new (h ∷ hs) = ground (arith, length-put_hit-le new hs)

length-cache_set-le :
    (now : ℕ) (domain : Text) (value : Bool) (hs : List Hit)
    → length hs ≤ mx_cache_max
    → length (cache_set now domain value hs) ≤ mx_cache_max
unfolding cache_set drop_oldest
length-cache_set-le now domain value [] h =
    ground (arith, length-put_hit-le (record { domain = domain; value = value; at = now }) [])
length-cache_set-le now domain value (x ∷ hs) h =
    let new : Hit = record { domain = domain; value = value; at = now } in
    ground (arith, length-put_hit-le new (x ∷ hs), length-put_hit-le new hs)

length-judge_hit-le :
    (now : ℕ) (domain : Text) (o : Option Hit) (hs : List Hit)
    → length (judge_hit now domain o hs).0 ≤ length hs
unfolding judge_hit drop_hit
length-judge_hit-le now domain none hs = omega arith
length-judge_hit-le now domain (some h) hs =
    ground (arith, length-keep-le (λ (x : Hit). not (eq_text x.domain domain)) hs)

module _ (resolve_mx : Text → Lookup) where
  put_hit-IsTrue :
      (new : Hit) (hs : List Hit)
      → new.value ≡ has_exchanger (resolve_mx new.domain)
      → IsTrue resolve_mx hs
      → IsTrue resolve_mx (put_hit new hs)
  unfolding put_hit
  put_hit-IsTrue new [] n h = (n, tt)
  put_hit-IsTrue new (x ∷ hs) n (a, h) = elim (Bool-cases (eq_text x.domain new.domain)) [
    | inl e ↦ rw e (n, h)
    | inr e ↦ rw e (a, put_hit-IsTrue new hs n h)
  ]

  cache_set-IsTrue :
      (now : ℕ) (domain : Text) (hs : List Hit)
      → IsTrue resolve_mx hs
      → IsTrue resolve_mx (cache_set now domain (has_exchanger (resolve_mx domain)) hs)
  unfolding cache_set drop_oldest
  cache_set-IsTrue now domain [] h = put_hit-IsTrue _ _ refl h
  cache_set-IsTrue now domain (x ∷ hs) (a, h) =
      elim (Bool-cases (leb mx_cache_max (length (x ∷ hs)))) [
        | inl e ↦ rw e (put_hit-IsTrue _ hs refl h)
        | inr e ↦ rw e (put_hit-IsTrue _ (x ∷ hs) refl (a, h))
      ]

  found-value :
      (domain : Text) (hs : List Hit) (h : Hit)
      → IsTrue resolve_mx hs
      → find_hit domain hs ≡ some h
      → h.value ≡ has_exchanger (resolve_mx domain)
  unfolding find_hit
  found-value domain [] h t e = ground arith
  found-value domain (x ∷ hs) h (a, t) e = elim (Bool-cases (eq_text x.domain domain)) [
    | inl q ↦ ground (arith, a, eq_text_iff x.domain domain)
    | inr q ↦ found-value domain hs h t (ground arith)
  ]

  judge_hit-IsTrue :
      (now : ℕ) (domain : Text) (o : Option Hit) (hs : List Hit)
      → IsTrue resolve_mx hs
      → ((h : Hit) → o ≡ some h → h.value ≡ has_exchanger (resolve_mx domain))
      → IsTrue resolve_mx (judge_hit now domain o hs).0
        × (((judge_hit now domain o hs).1 ≡ none)
            ⊎ ((judge_hit now domain o hs).1 ≡ some (has_exchanger (resolve_mx domain))))
  unfolding judge_hit drop_hit
  judge_hit-IsTrue now domain none hs t known = (t, inl refl)
  judge_hit-IsTrue now domain (some h) hs t known =
      elim (Bool-cases (ltb (h.at + mx_cache_ttl_ms) now)) [
        | inl late ↦ rw late (All-keep _ _ hs t, inl refl)
        | inr early ↦ rw early (t, inr (ap some (known h refl)))
      ]

  -- While the name service does not change its answers, a cache that is true and within its limit
  -- does not change the verdict on an address, which is the one of a fresh lookup, and it stays
  -- true and within its limit.
  pub is_deliverable_email_lem :
      (now : ℕ) (email : Text) (hits : List Hit)
      → IsTrue resolve_mx hits
      → length hits ≤ mx_cache_max
      → let r = is_deliverable_email resolve_mx now email hits in
        (r.1 ≡ (
          matches_email (trim email)
          && has_exchanger (resolve_mx (get_or (split_domain (trim email)) []))))
        × IsTrue resolve_mx r.0
        × (length r.0 ≤ mx_cache_max)
  unfolding is_deliverable_email cache_get
  is_deliverable_email_lem now email hits t h =
      let domain = get_or (split_domain (trim email)) [] in
      let (kept, answer) =
        judge_hit-IsTrue now domain (find_hit domain hits) hits t
          (λ h e. found-value domain hits h t e) in
      let shorter = length-judge_hit-le now domain (find_hit domain hits) hits in
      elim (Bool-cases (matches_email (trim email))) [
        | inr e ↦ rw e (refl, t, h)
        | inl e ↦ elim answer [
          | inl c ↦
              rw (e, c)
                (
                  refl,
                  cache_set-IsTrue now domain _ kept,
                  length-cache_set-le now domain _ _ (omega arith),
                )
          | inr c ↦ rw (e, c) (refl, kept, omega arith)
        ]
      ]
