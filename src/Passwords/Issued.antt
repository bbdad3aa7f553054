-- ===== src/Passwords/Issued.antt =====
-- The rows of `password_resets` that `src/main/users/passwordReset.js` writes and finds.
use feedbase_backend.Base.{
  ℕ, ◌+◌, ◌<◌, ◌≡◌, refl, ◌∙◌, Bool, true, false, ◌&&◌, List, [], ◌∷◌, ◌++◌, map, Option, none,
  some, arith, any,
}
use feedbase_backend.Base.Counts.{any-implies, any-map, find-snoc, find-any}
use feedbase_backend.Text.{Text, eq_text}
use feedbase_backend.Text.Laws.{eq_text_sound, eq_text_refl}
use feedbase_backend.Tables.{User}
use feedbase_backend.Passwords.{Reset, has_email, is_scoped, set_password}
use feedbase_backend.Passwords.Resetting.{
  ResetUp, reset_ttl_ms, is_live_reset, expire, new_reset, find_live_reset, use_reset,
}

abbrev pub all_up : ResetUp
all_up = record { lookup = true; expire = true; insert = true; mail = true }

-- The row that a link belongs to.
abbrev pub is_of_link : (Text → Text) → Text → Reset → Bool
is_of_link sha256 raw r = eq_text r.token_hash (sha256 raw)

abbrev pub has_row : Text → Option ℕ → User → Bool
has_row email tenant u = has_email email u && is_scoped tenant u && u.is_active

pub expire-link :
    (sha256 : Text → Text) (raw : Text) (now : ℕ) (email : Text) (r : Reset)
    → is_of_link sha256 raw (expire now email r) ≡ is_of_link sha256 raw r
unfolding expire
expire-link sha256 raw now email r = ground arith

pub live-link :
    (sha256 : Text → Text) (now : ℕ) (raw : Text) (r : Reset)
    → is_live_reset sha256 now raw r ≡ true
    → is_of_link sha256 raw r ≡ true
live-link sha256 now raw r h = ground arith

pub asked-live :
    (sha256 : Text → Text) (now later : ℕ) (email raw : Text) (ip : Option Text) (id : ℕ)
    (rs : List Reset)
    → any (is_of_link sha256 raw) rs ≡ false
    → later < now + reset_ttl_ms
    → let row = new_reset sha256 now email raw ip id in
      find_live_reset sha256 later raw (map (expire now email) rs ++ row ∷ []) ≡ some row
unfolding find_live_reset new_reset
asked-live sha256 now later email raw ip id rs f l =
    find-snoc (is_live_reset sha256 later raw) (map (expire now email) rs) _
      (any-implies _ (is_of_link sha256 raw) (map (expire now email) rs)
        (live-link sha256 later raw)
        (any-map (is_of_link sha256 raw) (expire now email) rs (expire-link sha256 raw now email)
          ∙ f))
      (ground (arith, eq_text_refl (sha256 raw), l))

pub use-link :
    (sha256 : Text → Text) (raw : Text) (now id : ℕ) (r : Reset)
    → is_of_link sha256 raw (use_reset now id r) ≡ is_of_link sha256 raw r
unfolding use_reset
use-link sha256 raw now id r = ground arith

pub any-map-snoc :
    {A : Type 0} (p : A → Bool) (f : A → A) (xs : List A) (y : A)
    → any p (map f xs) ≡ false
    → p (f y) ≡ false
    → any p (map f (xs ++ y ∷ [])) ≡ false
any-map-snoc p f [] y h e = ground arith
any-map-snoc p f (x ∷ xs) y h e = ground (arith, any-map-snoc p f xs y)

-- The row is used up.
pub used-dead :
    (sha256 : Text → Text) (now later soon : ℕ) (email raw : Text) (ip : Option Text) (id : ℕ)
    (rs : List Reset)
    → any (is_of_link sha256 raw) rs ≡ false
    → find_live_reset sha256 soon raw (
        map
          (use_reset later id)
          (map (expire now email) rs ++ new_reset sha256 now email raw ip id ∷ []))
      ≡ none
unfolding find_live_reset new_reset use_reset
used-dead sha256 now later soon email raw ip id rs f =
    let kept =
      any-map (is_of_link sha256 raw) (expire now email) rs (expire-link sha256 raw now email)
      ∙ f in
    let unlinked =
      any-map (is_of_link sha256 raw) (use_reset later id) (map (expire now email) rs)
        (use-link sha256 raw later id)
      ∙ kept in
    find-any (is_live_reset sha256 soon raw) _ (
      any-map-snoc (is_live_reset sha256 soon raw) (use_reset later id) (map (expire now email) rs)
        _
        (any-implies _ (is_of_link sha256 raw)
          (map (use_reset later id) (map (expire now email) rs)) (live-link sha256 soon raw)
          unlinked)
        (ground arith))

pub set_password-row :
    (email hash : Text) (tenant : Option ℕ) (u : User)
    → has_row email tenant (set_password email hash u) ≡ has_row email tenant u
unfolding set_password
set_password-row email hash none u = ground arith
set_password-row email hash (some t) u = ground arith

pub set_password-new :
    (email hash : Text) (u : User)
    → has_email email u ≡ true
    → (u' : User) × (set_password email hash u ≡ u')
      × (u'.password_hash ≡ some hash)
      × (u'.email ≡ email)
unfolding set_password
set_password-new email hash u h =
    (record u { password_hash = some hash }, rw h refl, refl, eq_text_sound u.email email h)
