-- ===== src/Base/Results.antt =====
-- Handlers that end at the first check that fails: results with an error, `do`, and what a success
-- says of the steps before it.
use mathlib.Core.Path.{◌≡◌, refl, ap}
use mathlib.Core.Logic.{◌⊎◌, inl, inr}
use mathlib.Core.Bool.{Bool, true, false}
use mathlib.Core.Option.{Option, none, some}

pub data Result (E : Type 0) (A : Type 0) : Type 0 where
  ok : A → Result E A
  err : E → Result E A

-- These stay shut, so that a proof goes through a handler check by check.
infixl 5 ◌>>=◌ ◌>>◌
unfoldable pub ◌>>=◌ : {E A B : Type 0} → Result E A → (A → Result E B) → Result E B
ok a >>= f = f a
err e >>= f = err e

unfoldable pub ◌>>◌ : {E B : Type 0} → Result E (Unit {0}) → Result E B → Result E B
unfolding ◌>>=◌
m >> k = m >>= λ _. k

-- A check that rejects the request.
unfoldable pub guard : {E : Type 0} → Bool → E → Result E (Unit {0})
guard true e = ok tt
guard false e = err e

-- The first row of a query, or a rejection.
unfoldable pub first : {E A : Type 0} → Option A → E → Result E A
first none e = err e
first (some a) e = ok a

-- A transaction: its state is kept on success only.
unfoldable pub commit : {S E A : Type 0} → S → Result E (S × A) → S × Result E A
commit s (ok (s', a)) = (s', ok a)
commit s (err e) = (s, err e)

-- A success has passed each check, in order.
pub guard-then :
    {E A : Type 0} (b : Bool) (e : E) (k : Result E A) {a : A}
    → (guard b e >> k) ≡ ok a
    → (b ≡ true) × (k ≡ ok a)
unfolding ◌>>◌ guard
guard-then true e k h = (refl, h)
guard-then false e k h = cc

pub first-then :
    {E A B : Type 0} (o : Option A) (e : E) (f : A → Result E B) {b : B}
    → (first o e >>= f) ≡ ok b
    → (a : A) × (o ≡ some a) × (f a ≡ ok b)
unfolding ◌>>=◌ first
first-then none e f h = cc
first-then (some a) e f h = (a, refl, h)

-- A step that succeeds has a result, with which the rest goes on.
pub step-then :
    {E A B : Type 0} (m : Result E A) (f : A → Result E B) {b : B}
    → (m >>= f) ≡ ok b
    → (a : A) × (m ≡ ok a) × (f a ≡ ok b)
unfolding ◌>>=◌
step-then (ok a) f h = (a, refl, h)
step-then (err e) f h = cc

-- Several checks in a row.
pub all-then :
    {E A : Type 0} (m : Result E (Unit {0})) (k : Result E A) {a : A} → (m >> k) ≡ ok a → k ≡ ok a
unfolding ◌>>=◌ ◌>>◌
all-then (ok u) k h = h
all-then (err e) k h = cc

pub ok_injective : {E A : Type 0} {a b : A} → ◌≡◌ {A = Result E A} (ok a) (ok b) → a ≡ b
ok_injective h = cc

-- What holds of every success of a transaction, and of the state before it, holds after it.
pub commit-keeps {κ} :
    {S E A : Type 0} (P : S → Type κ) (s : S) (r : Result E (S × A))
    → P s
    → ((s' : S) (a : A) → r ≡ ok (s', a) → P s')
    → P (commit s r).0
unfolding commit
commit-keeps P s (ok (s', a)) h k = k s' a refl
commit-keeps P s (err e) h k = h

-- A transaction that answers with success has kept its state.
pub commit-ok :
    {S E A : Type 0} (s : S) (r : Result E (S × A)) (a : A)
    → (commit s r).1 ≡ ok a
    → (s' : S) × (r ≡ ok (s', a)) × (s' ≡ (commit s r).0)
unfolding commit
commit-ok s (ok (t, b)) a h = (t, ap (λ c. ok (t, c)) (ok_injective h), refl)
commit-ok s (err e) a h = cc

-- One that answers with an error has not.
pub commit-err :
    {S E A : Type 0} (s : S) (r : Result E (S × A)) (e : E)
    → (commit s r).1 ≡ err e
    → (commit s r).0 ≡ s
unfolding commit
commit-err s (ok (t, b)) e h = cc
commit-err s (err f) e h = refl

pub Result-cases :
    {E A : Type 0} (r : Result E A) → ((a : A) × (r ≡ ok a)) ⊎ ((e : E) × (r ≡ err e))
Result-cases (ok a) = inl (a, refl)
Result-cases (err e) = inr (e, refl)
