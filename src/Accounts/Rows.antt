-- ===== src/Accounts/Rows.antt =====
-- The row of an account in `billing_accounts`, before and after the statements of
-- `src/common/accountBilling.js`.
use feedbase_backend.Base.{
  ◌≡◌, ◌≢◌, inl, inr, refl, List, [], ◌∷◌, ◌++◌, map, none, some, arith, Bool-cases, Option-cases,
  if◌then◌else◌,
}
use feedbase_backend.Text.{Text, eq_text}
use feedbase_backend.Text.Laws.{eq_text_iff, eq_text_refl}
use feedbase_backend.Tables.{Account, Db}
use feedbase_backend.Accounts.{
  find_account, get_account, insert_account, Fields, apply_fields, new_account,
}

module _ (email : Text) (f : Fields) where
  abbrev rewritten : List Account → List Account
  rewritten accounts = map (λ a. if eq_text a.email email then apply_fields f a else a) accounts

  pub find_account_self :
      (accounts : List Account) (a : Account)
      → find_account accounts email ≡ some a
      → find_account (rewritten accounts) email ≡ some (apply_fields f a)
  unfolding find_account apply_fields
  find_account_self [] a h = cc
  find_account_self (x ∷ xs) a h = elim (Bool-cases (eq_text x.email email)) [
    | inl e ↦ ground (arith, e)
    | inr e ↦ rw (e, e) (find_account_self xs a (rw e at h))
  ]

  pub find_account-other :
      (accounts : List Account) (other : Text)
      → other ≢ email
      → find_account (rewritten accounts) other ≡ find_account accounts other
  unfolding find_account apply_fields
  find_account-other [] other ne = refl
  find_account-other (x ∷ xs) other ne =
      ground (
        arith,
        find_account-other xs other ne,
        eq_text_iff x.email email,
        eq_text_iff x.email other,
      )

find_account-append :
    (accounts : List Account) (email other : Text)
    → other ≢ email
    → find_account (accounts ++ new_account email ∷ []) other ≡ find_account accounts other
unfolding find_account
find_account-append [] email other ne = ground (arith, eq_text_iff email other)
find_account-append (x ∷ xs) email other ne = ground (arith, find_account-append xs email other ne)

find_account-append_self :
    (accounts : List Account) (email : Text)
    → find_account accounts email ≡ none
    → find_account (accounts ++ new_account email ∷ []) email ≡ some (new_account email)
unfolding find_account
find_account-append_self [] email h = rw (eq_text_refl email)
find_account-append_self (x ∷ xs) email h = elim (Bool-cases (eq_text x.email email)) [
  | inl e ↦ ground arith
  | inr e ↦ rw e (find_account-append_self xs email (rw e at h))
]

pub find_account-insert :
    (email : Text) (db : Db)
    → find_account (insert_account email db).accounts email ≡ some (get_account db email)
unfolding insert_account get_account
find_account-insert email db = elim (Option-cases (find_account db.accounts email)) [
  | inl e ↦ ground (arith, e, find_account-append_self db.accounts email e)
  | inr (a, e) ↦ ground arith
]

pub find_account-insert_other :
    (email other : Text) (db : Db)
    → other ≢ email
    → find_account (insert_account email db).accounts other ≡ find_account db.accounts other
unfolding insert_account
find_account-insert_other email other db ne =
    ground (arith, find_account-append db.accounts email other ne)

pub get_account_of :
    (d : Db) (email : Text) (a : Account)
    → find_account d.accounts email ≡ some a
    → get_account d email ≡ a
unfolding get_account
get_account_of d email a h = ground arith

pub get_account_same :
    (d d' : Db) (email : Text)
    → find_account d.accounts email ≡ find_account d'.accounts email
    → get_account d email ≡ get_account d' email
unfolding get_account
get_account_same d d' email h = ground arith
