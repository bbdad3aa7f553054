-- ===== src/Passwords/Tests.antt =====
-- Passwords at concrete inputs.
use feedbase_backend.Base.{◌≡◌, refl, true, List, [], ◌∷◌, none, some, arith}
use feedbase_backend.Base.Results.{ok, ◌>>=◌, ◌>>◌, guard, first, commit}
use feedbase_backend.Text.{codes, eq_text, trim, is_space, cut}
use feedbase_backend.Text.Laws.{eq_text_refl}
use feedbase_backend.Tables.{owner, User}
use feedbase_backend.Email.{matches_email, dot_inside, split_domain}
use feedbase_backend.Passwords.{Vault, SignedIn, user_login, change_user_password, proves}
use feedbase_backend.Passwords.Resetting.{
  request_password_reset, mask_email, reset_password, find_live_reset,
}
use feedbase_backend.Passwords.Shared.{register, ask, change, serve, Request}
use feedbase_backend.Passwords.Renewed.{IsSound}
use feedbase_backend.Passwords.Newest.{serve-IsSound}
use feedbase_backend.Passwords.Issued.{all_up}
use feedbase_backend.Passwords.BackIn.{reset-login}

abbrev ann : User
ann = record {
  id = 1;
  tenant_id = some 7;
  email = codes "ann@a.io";
  full_name = codes "Ann";
  avatar_url = none;
  password_hash = some (codes "old");
  role = owner;
  is_active = true;
}

abbrev vault : Vault
vault = record {
  db = record {
    tenants = [];
    users = ann ∷ record ann { id = 2; tenant_id = some 8 } ∷ [];
    accounts = [];
  };
  sessions = [];
  resets = [];
  next_user = 3;
  next_reset = 1;
}

mask_test : mask_email (codes "anna@a.io") ≡ codes "an**@a.io"
unfolding mask_email cut split_domain
mask_test = refl

-- A wrong old password is refused, and changes nothing.
change_test :
    (change_user_password
      (λ p. p)
      eq_text
      true
      (some (codes "x"))
      (codes "new")
      1
      (codes "ann@a.io")
      vault).0
    ≡ vault
unfolding change_user_password proves eq_text commit guard first ◌>>=◌ ◌>>◌
change_test = refl

abbrev requests : List Request
requests =
    ask (λ s. s) (λ s. s) all_up 0 (some (codes "ann@a.io")) (codes "raw") none none
    ∷ change (λ p. p) eq_text true (some (codes "old")) (codes "newer") 1 (codes "ann@a.io")
    ∷ register (λ p. p) true (codes "Bo") (codes "bo@a.io") (codes "secret12")
    ∷ []

serve-IsSound_example : IsSound (serve requests vault)
serve-IsSound_example = serve-IsSound requests vault (record {
  shared = λ email. (some (codes "old"), ((λ h. refl), ((λ h. refl), tt)));
  newest = λ email. omega arith;
})

reset-login_example :
    let v1 =
      (request_password_reset
        (λ s. s)
        (λ s. s)
        all_up
        0
        (some (codes "ann@a.io"))
        (codes "raw")
        none
        none
        vault).0 in
    let r = reset_password (λ s. s) (λ s. s) true true 60 (codes "raw") (codes "brand new") v1 in
    (r.1 ≡ ok tt)
    × ((x : SignedIn) × ((user_login eq_text true 1
            (codes "ann@a.io")
            (some 8)
            (codes "brand new")
            true
            (codes "d1")
            none
            none
            r.0).1
          ≡ ok x)
        × (x.email ≡ codes "ann@a.io"))
    × (find_live_reset (λ s. s) 90 (codes "raw") r.0.resets ≡ none)
unfolding trim is_space matches_email cut dot_inside eq_text
reset-login_example =
    reset-login (λ s. s) (λ s. s) (λ s. s) eq_text 0 60 90 1 (some (codes "ann@a.io")) (codes "raw")
      (codes "brand new") (codes "d1") (some 8) none none none none vault (λ p. eq_text_refl p) refl
      refl refl (omega arith) (omega arith)
