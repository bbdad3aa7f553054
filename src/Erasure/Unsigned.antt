-- ===== src/Erasure/Unsigned.antt =====
-- The posts and their authors through the departures and deletions of `purgeAccount` in
-- `src/common/accountDeletion.js`, and the rows that are keyed by the address.
use mathlib.Core.Path.{subst}
use feedbase_backend.Base.{
  ℕ, ◌≡◌, ◌⊎◌, inl, inr, refl, sym, ap, ◌∙◌, Bool, true, false, not, ◌&&◌, ◌||◌, List, [], ◌∷◌, map,
  Option, none, some, arith, Bool-cases, Option-cases, if◌then◌else◌, any, keep, ◌==◌,
}
use feedbase_backend.Base.Results.{ok, guard-then, step-then, ok_injective}
use feedbase_backend.Text.{Text, eq_text}
use feedbase_backend.Tables.{Tenant, User, Account}
use feedbase_backend.Sessions.{Session}
use feedbase_backend.Board.{Post}
use feedbase_backend.Team.{Invitation}
use feedbase_backend.Passwords.{Reset}
use feedbase_backend.Erasure.{
  Estate, is_account, is_signed, handed_over, without_user, unsign_post, leave, leave_all, is_of,
  drop_tenants, erase_email, gone_rows, is_by_any, drop_authors, is_blocked, purged,
}

-- Nothing is keyed by the address any more, and the workspaces `ids` are gone.
pub record IsErased (email : Text) (ids : List ℕ) (s : Estate) : Type 0 where
  pub no_user : any (is_account email) s.db.users ≡ false
  pub no_account : any (λ (a : Account). eq_text a.email email) s.db.accounts ≡ false
  pub no_session : any (λ (r : Session). eq_text r.email email) s.sessions ≡ false
  pub no_reset : any (λ (r : Reset). eq_text r.email email) s.resets ≡ false
  pub no_invitation : any (λ (i : Invitation). eq_text i.email email) s.invitations ≡ false
  pub no_link : any (λ e. eq_text e email) s.oauth ≡ false
  pub no_tenant : any (λ (t : Tenant). is_of ids t.id) s.db.tenants ≡ false

any-keep-not : {A : Type 0} (p : A → Bool) (xs : List A) → any p (keep (λ x. not (p x)) xs) ≡ false
any-keep-not p [] = refl
any-keep-not p (x ∷ xs) = ground (arith, any-keep-not p xs)

pub purged-IsErased :
    (email : Text) (ids : List ℕ) (s : Estate) → IsErased email ids (purged email ids s)
unfolding purged erase_email drop_tenants drop_authors
purged-IsErased email ids s = record {
  no_user = any-keep-not (is_account email) _;
  no_account = any-keep-not (λ (a : Account). eq_text a.email email) s.db.accounts;
  no_session = any-keep-not (λ (r : Session). eq_text r.email email) s.sessions;
  no_reset = any-keep-not (λ (r : Reset). eq_text r.email email) s.resets;
  no_invitation = any-keep-not (λ (i : Invitation). eq_text i.email email) _;
  no_link = any-keep-not (λ e. eq_text e email) s.oauth;
  no_tenant = any-keep-not (λ (t : Tenant). is_of ids t.id) s.db.tenants;
}

-- The posts of the workspaces that stay, by their ids.
abbrev pub kept_ids : List ℕ → List Post → List ℕ
kept_ids ids [] = []
kept_ids ids (p ∷ ps) =
    let rest = kept_ids ids ps in if is_of ids p.tenant_id then rest else p.id ∷ rest

kept_ids-keep :
    (ids : List ℕ) (ps : List Post)
    → kept_ids ids (keep (λ p. not (is_of ids p.tenant_id)) ps) ≡ kept_ids ids ps
kept_ids-keep ids [] = refl
kept_ids-keep ids (p ∷ ps) = ground (arith, kept_ids-keep ids ps)

kept_ids-map :
    (ids : List ℕ) (id : ℕ) (ps : List Post)
    → kept_ids ids (map (unsign_post id) ps) ≡ kept_ids ids ps
kept_ids-map ids id [] = refl
kept_ids-map ids id (p ∷ ps) = ground (arith, kept_ids-map ids id ps)

-- What holds of the tables through each departure holds through all.
leave_all-keeps :
    (P : Estate → Type 0) (ms : List User) (s s' : Estate)
    → ((m : User) (t t' : Estate) → P t → leave m t ≡ ok t' → P t')
    → P s
    → leave_all ms s ≡ ok s'
    → P s'
unfolding leave_all
leave_all-keeps P [] s s' k p h = subst P (ok_injective h) p
leave_all-keeps P (m ∷ ms) s s' k p h =
    let (t, here, later) = step-then (leave m s) (leave_all ms) h in
    leave_all-keeps P ms t s' k (k m s t p here) later

leave_ok : (m : User) (s s' : Estate) → leave m s ≡ ok s' → without_user m.id (handed_over m s) ≡ s'
unfolding leave
leave_ok m s s' h = ok_injective (guard-then _ _ _ h).1

kept_ids-leave :
    (ids : List ℕ) (m : User) (s s' : Estate)
    → leave m s ≡ ok s'
    → kept_ids ids s'.posts ≡ kept_ids ids s.posts
unfolding without_user handed_over
kept_ids-leave ids m s s' h =
    ap (λ (t : Estate). kept_ids ids t.posts) (sym (leave_ok m s s' h))
    ∙ kept_ids-map ids m.id s.posts

pub kept_ids-leave_all :
    (ids : List ℕ) (ms : List User) (s s' : Estate)
    → leave_all ms s ≡ ok s'
    → kept_ids ids s'.posts ≡ kept_ids ids s.posts
kept_ids-leave_all ids ms s s' h =
    leave_all-keeps (λ t. kept_ids ids t.posts ≡ kept_ids ids s.posts) ms s s'
      (λ m t t' p e. kept_ids-leave ids m t t' e ∙ p) refl h

pub kept_ids-purged :
    (email : Text) (ids : List ℕ) (s : Estate)
    → kept_ids ids (purged email ids s).posts ≡ kept_ids ids s.posts
unfolding purged erase_email drop_tenants drop_authors
kept_ids-purged email ids s = kept_ids-keep ids s.posts

-- A post signed by no user of that id, and a user of the account with that id.
abbrev pub IsUnsigned : ℕ → List Post → Type 0
IsUnsigned id ps = any (is_signed id) ps ≡ false

abbrev pub has_row : Text → ℕ → User → Bool
has_row email id u = u.id == id && is_account email u

unsign-IsUnsigned : (id : ℕ) (ps : List Post) → IsUnsigned id (map (unsign_post id) ps)
unsign-IsUnsigned id [] = refl
unsign-IsUnsigned id (p ∷ ps) = elim (Option-cases p.author_id) [
  | inl e ↦ ground (arith, e, unsign-IsUnsigned id ps)
  | inr (a, e) ↦ ground (arith, e, unsign-IsUnsigned id ps)
]

unsign-keeps :
    (id other : ℕ) (ps : List Post) → IsUnsigned id ps → IsUnsigned id (map (unsign_post other) ps)
unsign-keeps id other [] h = refl
unsign-keeps id other (p ∷ ps) h = elim (Option-cases p.author_id) [
  | inl e ↦ ground (arith, e, h, unsign-keeps id other ps)
  | inr (a, e) ↦ ground (arith, e, h, unsign-keeps id other ps)
]

keep-IsUnsigned :
    (id : ℕ) (q : Post → Bool) (ps : List Post) → IsUnsigned id ps → IsUnsigned id (keep q ps)
keep-IsUnsigned id q [] h = refl
keep-IsUnsigned id q (p ∷ ps) h = ground (arith, h, keep-IsUnsigned id q ps)

leave-keeps :
    (id : ℕ) (m : User) (s s' : Estate)
    → IsUnsigned id s.posts
    → leave m s ≡ ok s'
    → IsUnsigned id s'.posts
unfolding without_user handed_over
leave-keeps id m s s' p h =
    subst (λ (t : Estate). IsUnsigned id t.posts) (leave_ok m s s' h)
      (unsign-keeps id m.id s.posts p)

leave-IsUnsigned : (m : User) (s s' : Estate) → leave m s ≡ ok s' → IsUnsigned m.id s'.posts
unfolding without_user handed_over
leave-IsUnsigned m s s' h =
    subst (λ (t : Estate). IsUnsigned m.id t.posts) (leave_ok m s s' h)
      (unsign-IsUnsigned m.id s.posts)

any-keep_row :
    (email : Text) (id gone : ℕ) (us : List User)
    → (gone == id) ≡ false
    → any (has_row email id) us ≡ true
    → any (has_row email id) (keep (λ u. not (u.id == gone)) us) ≡ true
any-keep_row email id gone [] n h = h
any-keep_row email id gone (u ∷ us) n h = ground (arith, n, h, any-keep_row email id gone us n)

leave-row :
    (email : Text) (id : ℕ) (m : User) (s s' : Estate)
    → (m.id == id) ≡ false
    → any (has_row email id) s.db.users ≡ true
    → leave m s ≡ ok s'
    → any (has_row email id) s'.db.users ≡ true
unfolding without_user handed_over
leave-row email id m s s' n r h =
    subst (λ (t : Estate). any (has_row email id) t.db.users ≡ true) (leave_ok m s s' h)
      (any-keep_row email id m.id s.db.users n r)

-- After the departures a user of the account is still there, or signs no post any more.
pub leave_all-either :
    (email : Text) (id : ℕ) (ms : List User) (s s' : Estate)
    → any (has_row email id) s.db.users ≡ true
    → leave_all ms s ≡ ok s'
    → (any (has_row email id) s'.db.users ≡ true) ⊎ IsUnsigned id s'.posts
unfolding leave_all
leave_all-either email id [] s s' r h =
    inl (subst (λ (t : Estate). any (has_row email id) t.db.users ≡ true) (ok_injective h) r)
leave_all-either email id (m ∷ ms) s s' r h =
    let (t, here, later) = step-then (leave m s) (leave_all ms) h in
    elim (Bool-cases (m.id == id)) [
      | inl e ↦
          let same : m.id ≡ id = ground (arith, e) in
          let unsigned = subst (λ i. IsUnsigned i t.posts) same (leave-IsUnsigned m s t here) in
          inr (
            leave_all-keeps (λ x. IsUnsigned id x.posts) ms t s'
              (λ n x x' p k. leave-keeps id n x x' p k) unsigned later)
      | inr e ↦ leave_all-either email id ms t s' (leave-row email id m s t e r here) later
    ]

gone-row :
    (email : Text) (id : ℕ) (ids : List ℕ) (us : List User)
    → any (has_row email id) us ≡ true
    → any (λ (u : User). u.id == id) (gone_rows email ids us) ≡ true
unfolding gone_rows
gone-row email id ids [] h = h
gone-row email id ids (u ∷ us) h = ground (arith, h, gone-row email id ids us)

-- A user that goes has signed nothing in the workspaces that stay.
blocked-IsUnsigned :
    (id : ℕ) (ids : List ℕ) (gone : List User) (ps : List Post)
    → any (λ (u : User). u.id == id) gone ≡ true
    → any (λ p. not (is_of ids p.tenant_id) && is_by_any gone p.author_id) ps ≡ false
    → IsUnsigned id (keep (λ p. not (is_of ids p.tenant_id)) ps)
blocked-IsUnsigned id ids gone [] g h = refl
blocked-IsUnsigned id ids gone (p ∷ ps) g h =
    let rest = blocked-IsUnsigned id ids gone ps g (ground (arith, h)) in
    elim (Bool-cases (is_of ids p.tenant_id)) [
      | inl t ↦ rw t rest
      | inr t ↦
          let free : is_by_any gone p.author_id ≡ false = ground (arith, h, t) in
          rw t (unsigned-cons id gone p.author_id g free rest)
    ]
  where
    unsigned-cons :
        (id : ℕ) (gone : List User) (author : Option ℕ) {b : Bool}
        → any (λ (u : User). u.id == id) gone ≡ true
        → is_by_any gone author ≡ false
        → b ≡ false
        → ((elim author [ none ↦ false | some a ↦ a == id ]) || b) ≡ false
    unsigned-cons id gone none g f h = h
    unsigned-cons id gone (some a) g f h = elim (Bool-cases (a == id)) [
      | inl e ↦
          let same : id ≡ a = ground (arith, e) in
          let hit = subst (λ i. any (λ (u : User). u.id == i) gone ≡ true) same g in
          ground (arith, hit, f)
      | inr e ↦ rw (e, h) refl
    ]

pub purged-IsUnsigned :
    (email : Text) (id : ℕ) (ids : List ℕ) (s : Estate)
    → (any (has_row email id) s.db.users ≡ true) ⊎ IsUnsigned id s.posts
    → is_blocked (gone_rows email ids s.db.users) ids s ≡ false
    → IsUnsigned id (purged email ids s).posts
unfolding purged erase_email drop_tenants drop_authors is_blocked
purged-IsUnsigned email id ids s (inl r) h =
    blocked-IsUnsigned id ids (gone_rows email ids s.db.users) s.posts
      (gone-row email id ids s.db.users r) (ground (arith, h))
purged-IsUnsigned email id ids s (inr u) h = keep-IsUnsigned id _ s.posts u
