-- ===== src/Accounts/Subscriptions/Newest.antt =====
-- Which subscription `reconcileAccount` of src/common/accountBilling.js chooses from the list.
use mathlib.Core.Path.{subst}
use feedbase_backend.Base.{
  ◌≤◌, ◌<◌, ◌≡◌, ◌⊎◌, inl, inr, refl, sym, ap, ◌∙◌, true, false, List, [], ◌∷◌, ◌++◌, Option, none,
  some, arith, All, Bool-cases, find, leb,
}
use feedbase_backend.Base.Counts.{find-All}
use feedbase_backend.Text.{codes, eq_text}
use feedbase_backend.Text.Laws.{eq_text_sound}
use feedbase_backend.Accounts.Subscriptions.{
  Subscription, is_paid, is_ended, insert_newest, newest_first, choose,
}
use feedbase_backend.Accounts.Subscriptions.Reconciled.{insert-All, newest-All}

-- A subscription that is paid for.
abbrev pub IsLive : Subscription → Type 0
IsLive s =
    (s.status ≡ codes "active") ⊎ (s.status ≡ codes "trialing") ⊎ (s.status ≡ codes "past_due")

-- The newest of those that are paid for, the first of them where several are of one instant; none
-- where none is paid for.
abbrev pub IsNewestPaid : List Subscription → Option Subscription → Type 0
IsNewestPaid subs none = All (λ s. ¬ IsLive s) subs
IsNewestPaid subs (some c) =
    (before : List Subscription) × (after : List Subscription) × (subs ≡ before ++ c ∷ after)
    × IsLive c
    × All (λ s. IsLive s → s.created < c.created) before
    × All (λ s. IsLive s → s.created ≤ c.created) after

pub IsLive-is_paid : (s : Subscription) → IsLive s → is_paid s ≡ true
unfolding is_paid eq_text
IsLive-is_paid s (inl e) = rw e refl
IsLive-is_paid s (inr (inl e)) = rw e refl
IsLive-is_paid s (inr (inr e)) = rw e refl

pub IsLive-is_ended : (s : Subscription) → IsLive s → is_ended s ≡ false
unfolding is_ended eq_text
IsLive-is_ended s (inl e) = rw e refl
IsLive-is_ended s (inr (inl e)) = rw e refl
IsLive-is_ended s (inr (inr e)) = rw e refl

is_paid-IsLive : (s : Subscription) → is_paid s ≡ true → IsLive s
unfolding is_paid
is_paid-IsLive s h = elim (Bool-cases (eq_text s.status (codes "active"))) [
  | inl e ↦ inl (eq_text_sound _ _ e)
  | inr e ↦ elim (Bool-cases (eq_text s.status (codes "trialing"))) [
    | inl f ↦ inr (inl (eq_text_sound _ _ f))
    | inr f ↦ inr (inr (eq_text_sound s.status (codes "past_due") (ground (arith, h, e, f))))
  ]
]

IsLive-is_paid_not : (s : Subscription) → ¬ IsLive s → is_paid s ≡ false
IsLive-is_paid_not s n = elim (Bool-cases (is_paid s)) [
  | inl e ↦ absurd (n (is_paid-IsLive s e))
  | inr e ↦ e
]

map-All :
    {P Q : Subscription → Type 0} (xs : List Subscription)
    → ((x : Subscription) → P x → Q x)
    → All P xs
    → All Q xs
map-All [] f h = tt
map-All (x ∷ xs) f (a, h) = (f x a, map-All xs f h)

-- Newest first.
abbrev IsSorted : List Subscription → Type 0
IsSorted [] = Unit
IsSorted (t ∷ ts) = All (λ u. u.created ≤ t.created) ts × IsSorted ts

insert-IsSorted :
    (s : Subscription) (ts : List Subscription) → IsSorted ts → IsSorted (insert_newest s ts)
unfolding insert_newest
insert-IsSorted s [] h = (tt, tt)
insert-IsSorted s (t ∷ ts) (a, h) = elim (Bool-cases (leb t.created s.created)) [
  | inl e ↦
      let le : t.created ≤ s.created = ground (arith, e) in
      rw e ((le, map-All ts (λ u k. omega (arith, k, le)) a), (a, h))
  | inr e ↦
      rw e
        (insert-All (λ u. u.created ≤ t.created) s ts (ground (arith, e)) a, insert-IsSorted s ts h)
]

newest-IsSorted : (ss : List Subscription) → IsSorted (newest_first ss)
unfolding newest_first
newest-IsSorted [] = tt
newest-IsSorted (s ∷ ss) = insert-IsSorted s (newest_first ss) (newest-IsSorted ss)

-- What is not paid for does not count.
find-insert_unpaid :
    (s : Subscription) (ts : List Subscription)
    → is_paid s ≡ false
    → find is_paid (insert_newest s ts) ≡ find is_paid ts
unfolding insert_newest
find-insert_unpaid s [] p = rw p refl
find-insert_unpaid s (t ∷ ts) p = elim (Bool-cases (leb t.created s.created)) [
  | inl e ↦ rw (e, p) refl
  | inr e ↦ elim (Bool-cases (is_paid t)) [
    | inl q ↦ rw (e, q) refl
    | inr q ↦ rw (e, q) (find-insert_unpaid s ts p)
  ]
]

-- Nothing that is paid for is newer.
find-insert_newest :
    (s : Subscription) (ts : List Subscription)
    → is_paid s ≡ true
    → All (λ t. is_paid t ≡ true → t.created ≤ s.created) ts
    → find is_paid (insert_newest s ts) ≡ some s
unfolding insert_newest
find-insert_newest s [] p h = rw p refl
find-insert_newest s (t ∷ ts) p (a, h) = elim (Bool-cases (leb t.created s.created)) [
  | inl e ↦ rw (e, p) refl
  | inr e ↦
      let unpaid : is_paid t ≡ false = elim (Bool-cases (is_paid t)) [
        | inl q ↦ ground (arith, a q, e)
        | inr q ↦ q
      ] in
      rw (e, unpaid) (find-insert_newest s ts p h)
]

-- An older one does not take the place of the one that is found.
find-insert_older :
    (s c : Subscription) (ts : List Subscription)
    → IsSorted ts
    → s.created < c.created
    → find is_paid ts ≡ some c
    → find is_paid (insert_newest s ts) ≡ some c
unfolding insert_newest
find-insert_older s c [] k l h = cc
find-insert_older s c (t ∷ ts) (a, k) l h = elim (Bool-cases (is_paid t)) [
  | inl q ↦
      let same : t ≡ c = ground (arith, h, q) in
      let less : s.created < t.created = subst (λ x. s.created < x.created) (sym same) l in
      let no : leb t.created s.created ≡ false = ground (arith, less) in
      rw (no, q) (ap (λ x. some x) same)
  | inr q ↦
      let later : find is_paid ts ≡ some c = ground (arith, h, q) in
      let under = find-All (λ u. u.created ≤ t.created) is_paid ts c a later in
      let no : leb t.created s.created ≡ false = ground (arith, l, under) in
      rw (no, q) (find-insert_older s c ts k l later)
]

find-newest :
    (before : List Subscription) (c : Subscription) (after : List Subscription)
    → is_paid c ≡ true
    → All (λ s. is_paid s ≡ true → s.created < c.created) before
    → All (λ s. is_paid s ≡ true → s.created ≤ c.created) after
    → find is_paid (newest_first (before ++ c ∷ after)) ≡ some c
unfolding newest_first
find-newest [] c after p h k =
    find-insert_newest c (newest_first after) p
      (newest-All (λ s. is_paid s ≡ true → s.created ≤ c.created) after k)
find-newest (s ∷ before) c after p (a, h) k =
    let rest = find-newest before c after p h k in
    elim (Bool-cases (is_paid s)) [
      | inl q ↦
          find-insert_older s c (newest_first (before ++ c ∷ after))
            (newest-IsSorted (before ++ c ∷ after)) (a q) rest
      | inr q ↦ find-insert_unpaid s (newest_first (before ++ c ∷ after)) q ∙ rest
    ]

choose-find :
    (ss : List Subscription) (c : Subscription)
    → find is_paid (newest_first ss) ≡ some c
    → choose ss ≡ some c
unfolding choose
choose-find ss c h = ground (arith, h)

-- The newest that is paid for is chosen.
pub choose-newest :
    (subs : List Subscription) (c : Subscription)
    → IsNewestPaid subs (some c)
    → choose subs ≡ some c
choose-newest subs c (before, after, same, live, older, none_newer) =
    let found =
      find-newest before c after (IsLive-is_paid c live)
        (map-All before (λ s f p. f (is_paid-IsLive s p)) older)
        (map-All after (λ s f p. f (is_paid-IsLive s p)) none_newer) in
    choose-find subs c (subst (λ ss. find is_paid (newest_first ss) ≡ some c) (sym same) found)

-- Where none is paid for, none is that is chosen.
pub choose-unpaid :
    (subs : List Subscription) → IsNewestPaid subs none → All (λ s. is_paid s ≡ false) subs
choose-unpaid subs h = map-All subs (λ s n. IsLive-is_paid_not s n) h
