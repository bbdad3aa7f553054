-- ===== src/Accounts/Mirror.antt =====
-- What a call of `setAccountPlan` of src/common/accountBilling.js leaves.
use mathlib.Core.Path.{subst}
use feedbase_backend.Base.{
  ◌≡◌, ◌≢◌, ◌⊎◌, inl, inr, sym, ◌∙◌, Bool, true, false, map, some, arith, Bool-cases, ap,
}
use feedbase_backend.Text.{Text}
use feedbase_backend.Tables.{Db}
use feedbase_backend.Accounts.Rows.{
  find_account_self, find_account-other, find_account-insert, find_account-insert_other,
  get_account_of, get_account_same,
}
use feedbase_backend.Accounts.{
  find_account, get_account, insert_account, owned_by, mirror_row, mirror_account_to_tenants,
  Fields, apply_fields, update_account, Query, set_account_plan,
}
use feedbase_backend.Accounts.Shown.{
  IsUpdated, apply_fields-IsUpdated, InSync, OneOwner, foreign, map-Shows, foreign-map, map-others,
}

module _ (fails : Query → Bool) (email : Text) (f : Fields) (db : Db) where
  abbrev after : Db
  after = (set_account_plan fails email f db).0

  written :
      (set_account_plan fails email f db).1 ≡ true
      → after ≡ mirror_account_to_tenants email (update_account email f (insert_account email db))
  unfolding set_account_plan
  written h = ground arith

  unwritten : (set_account_plan fails email f db).1 ≡ false → after ≡ db
  unfolding set_account_plan
  unwritten h = ground arith

  users-insert : (insert_account email db).users ≡ db.users
  unfolding insert_account
  users-insert = ground arith

  tenants-insert : (insert_account email db).tenants ≡ db.tenants
  unfolding insert_account
  tenants-insert = ground arith

  find_account-written :
      find_account
        (mirror_account_to_tenants email
          (update_account email f (insert_account email db))).accounts
        email
      ≡ some (apply_fields f (get_account db email))
  unfolding mirror_account_to_tenants update_account
  find_account-written =
      find_account_self email f (insert_account email db).accounts _ (find_account-insert email db)

  find_account-written_other :
      (other : Text)
      → other ≢ email
      → find_account
          (mirror_account_to_tenants email
            (update_account email f (insert_account email db))).accounts
          other
        ≡ find_account db.accounts other
  unfolding mirror_account_to_tenants update_account
  find_account-written_other other ne =
      find_account-other email f (insert_account email db).accounts other ne
      ∙ find_account-insert_other email other db ne

  pub mirror-InSync : (d : Db) → InSync (mirror_account_to_tenants email d) email
  unfolding mirror_account_to_tenants get_account owned_by
  mirror-InSync d = map-Shows d.users email (get_account d email).billing d.tenants

  users-updated : (update_account email f (insert_account email db)).users ≡ db.users
  unfolding update_account
  users-updated = users-insert

  tenants-updated : (update_account email f (insert_account email db)).tenants ≡ db.tenants
  unfolding update_account
  tenants-updated = tenants-insert

  get_account-updated :
      get_account (update_account email f (insert_account email db)) email
      ≡ apply_fields f (get_account db email)
  unfolding update_account
  get_account-updated = get_account_of _ email _ (
      find_account_self email f (insert_account email db).accounts _ (find_account-insert email db))

  -- The database that a call writes.
  abbrev result : Db
  result = mirror_account_to_tenants email (update_account email f (insert_account email db))

  users-written : result.users ≡ db.users
  unfolding mirror_account_to_tenants
  users-written = users-updated

  tenants-written :
      result.tenants
      ≡ map (mirror_row db.users email (apply_fields f (get_account db email)).billing) db.tenants
  unfolding mirror_account_to_tenants
  tenants-written = rw (get_account-updated, users-updated, tenants-updated)

  -- A call either throws and leaves the database as it was, or returns, and then the account has
  -- the given fields and otherwise those it had, and every active workspace that it owns shows the
  -- account's billing column by column; no user and no other workspace has changed.
  pub set_account_plan_lem :
      (((set_account_plan fails email f db).1 ≡ false)
        × ((set_account_plan fails email f db).0 ≡ db))
      ⊎ (((set_account_plan fails email f db).1 ≡ true)
          × IsUpdated f
              (get_account db email)
              (get_account (set_account_plan fails email f db).0 email)
          × InSync (set_account_plan fails email f db).0 email
          × ((set_account_plan fails email f db).0.users ≡ db.users)
          × (foreign db.users email (set_account_plan fails email f db).0.tenants
              ≡ foreign db.users email db.tenants))
  set_account_plan_lem = elim (Bool-cases (set_account_plan fails email f db).1) [
    | inl e ↦
        let same = sym (written e) in
        inr (
          e,
          subst (IsUpdated f (get_account db email))
              (sym (
                ap (λ (d : Db). get_account d email) (written e)
                ∙ get_account_of result email _ find_account-written))
              (apply_fields-IsUpdated f (get_account db email)),
          subst (λ d. InSync d email) same (mirror-InSync _),
          ap (λ (d : Db). d.users) (written e) ∙ users-written,
          ap (λ (d : Db). foreign db.users email d.tenants) (written e)
              ∙ ap (λ ts. foreign db.users email ts) tenants-written
              ∙ foreign-map db.users email (apply_fields f (get_account db email)).billing
                  db.tenants,
        )
    | inr e ↦ inl (e, unwritten e)
  ]

  -- Writing one account leaves the mirror of every other account in step, where no workspace
  -- belongs to both.
  pub set_account_plan-InSync_other :
      (other : Text)
      → other ≢ email
      → OneOwner db other email
      → InSync db other
      → InSync (set_account_plan fails email f db).0 other
  unfolding owned_by
  set_account_plan-InSync_other other ne one sync =
      elim (Bool-cases (set_account_plan fails email f db).1) [
        | inl e ↦
            let same = get_account_same result db other (find_account-written_other other ne) in
            rw (written e, same, users-written, tenants-written)
              (map-others db.users email _ other (get_account db other).billing db.tenants one sync)
        | inr e ↦ subst (λ d. InSync d other) (sym (unwritten e)) sync
      ]
