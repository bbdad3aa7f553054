-- ===== src/Board/Posting.antt =====
-- `src/main/public/createPublicPost.js`, with `attachToPost` of
-- `src/main/attachments/attachments.js`. The display texts of the two notices are left out.
use feedbase_backend.Base.{
  ℕ, suc, ◌+◌, ◌*◌, Bool, true, false, not, ◌&&◌, ◌||◌, List, [], ◌∷◌, ◌++◌, map, Option, none,
  some, is_some, get_or, if◌then◌else◌, take, length, any, keep, count, ltb, ◌==◌,
}
use Prim.Native.Nat.{◌/◌}
use feedbase_backend.Env.{Env}
use feedbase_backend.Text.{Text, codes, eq_text, is_empty, trim, includes}
use feedbase_backend.Plans.{get_plan_limits}
use feedbase_backend.Plans.Usage.{get_tenant_plan}
use feedbase_backend.Tables.{Db}
use feedbase_backend.Email.{matches_email}
use feedbase_backend.Spam.Normal.{normalize_for_compare}
use feedbase_backend.Spam.Score.{ModerationState, published, pending, spam}
use feedbase_backend.Guard.{Platform, Submission, Ruling, non_empty, evaluate_public_write}
use feedbase_backend.Board.{
  PostType, feedback, feature_request, bug_report, opened, Post, Attachment, Notice, owner_mail,
  team_note, Board,
}

-- The body of the request, `none` for an absent field, the signed-in author, and what
-- `attachPublicTenant` knows of the workspace.
pub record NewPost : Type 0 where
  pub now : ℕ
  pub tenant_id : ℕ
  pub ip : Option Text
  pub author_id : Option ℕ
  pub title : Option Text
  pub description : Option Text
  pub post_type : Option Text
  pub submitter_name : Option Text
  pub submitter_email : Option Text
  pub guest_id : Option Text
  pub website : Option Text
  pub form_token : Option Text
  pub attachment_ids : List ℕ
  pub require_auth_to_post : Bool

-- Which of the queries succeed.
pub record Up : Type 0 where
  pub counters : Bool
  pub duplicates : Bool
  pub insert : Bool
  pub attach : Bool

pub data Refusal : Type 0 where
  signin_required_to_post title_required title_too_long email_required invalid_email : Refusal
  too_many_requests failed_to_create_post : Refusal

pub data Reply : Type 0 where
  refused : Refusal → Reply
  created : Option ℕ → Reply

abbrev pub title_of : NewPost → Text
title_of r = trim (get_or r.title [])

abbrev pub description_of : NewPost → Text
description_of r = trim (get_or r.description [])

abbrev post_type_of : NewPost → PostType
post_type_of r =
    let name = get_or r.post_type [] in
    if eq_text name (codes "feature_request")
    then feature_request
    else if eq_text name (codes "bug_report")
    then bug_report
    else feedback

-- A field of a guest, trimmed and cut; a signed-in author has none.
unfoldable pub guest_field : NewPost → ℕ → Option Text → Option Text
guest_field r n field =
    if is_some r.author_id then none else non_empty (take n (trim (get_or field [])))

abbrev pub email_of : NewPost → Option Text
email_of r = guest_field r 255 r.submitter_email

-- A guest must leave an address, and an address must have the right form.
unfoldable pub contact_refusal : Bool → Option Text → Option Refusal
contact_refusal guest none = if guest then some email_required else none
contact_refusal guest (some email) = if matches_email email then none else some invalid_email

-- The checks before the gate, in their order.
unfoldable pub refusal : Db → NewPost → Option Refusal
refusal db r =
    if not (is_some r.author_id)
      && r.require_auth_to_post
      && (get_plan_limits (get_tenant_plan db r.tenant_id)).restrict_anonymous_posting
    then some signin_required_to_post
    else if is_empty (title_of r)
    then some title_required
    else if ltb 200 (length (title_of r))
    then some title_too_long
    else contact_refusal (not (is_some r.author_id)) (email_of r)

unfoldable pub is_duplicate : Platform → NewPost → Text → Post → Bool
is_duplicate pf r pattern p =
    p.tenant_id == r.tenant_id
    && not (is_some p.author_id)
    && ltb (r.now / 1000) (p.created_at + 24 * 60 * 60)
    && includes pattern (pf.lower (p.title ++ b' ' ∷ p.description))

-- Recent guest posts that hold the normal form of this one; 0 where the query fails.
unfoldable pub duplicate_count : Platform → Bool → NewPost → List Post → ℕ
duplicate_count pf up r posts =
    let normalized = normalize_for_compare pf.lower (title_of r ++ b' ' ∷ description_of r) in
    if is_some r.author_id || is_empty normalized || not up
    then 0
    else count (is_duplicate pf r (take 80 normalized)) posts

unfoldable pub submission : Platform → Up → NewPost → Board → Submission
submission pf up r b = record {
  now = r.now;
  tenant_id = r.tenant_id;
  ip = r.ip;
  website = r.website;
  form_token = r.form_token;
  title = title_of r;
  body = description_of r;
  email = email_of r;
  duplicate_count = duplicate_count pf up.duplicates r b.posts;
  is_authenticated = is_some r.author_id;
}

unfoldable pub row : NewPost → Ruling → ℕ → Post
row r ruling id = record {
  id = id;
  tenant_id = r.tenant_id;
  author_id = r.author_id;
  submitter_name = guest_field r 120 r.submitter_name;
  submitter_email = email_of r;
  guest_id = guest_field r 64 r.guest_id;
  voter_hash = ruling.voter_hash;
  title = title_of r;
  description = description_of r;
  post_type = post_type_of r;
  status = opened;
  priority = 3;
  duplicate_of_post_id = none;
  moderation_state = ruling.moderation_state;
  spam_score = ruling.score;
  spam_reasons = ruling.reasons;
  spam_reviewed_at = none;
  spam_reviewed_score = none;
  created_at = r.now / 1000;
}

abbrev pub max_attachments_per_post : ℕ
max_attachments_per_post = 3

abbrev pub is_linked : ℕ → List ℕ → Attachment → Bool
is_linked tenant ids a =
    a.tenant_id == tenant && not (is_some a.post_id) && any (λ i. i == a.id) ids

-- `attachToPost`
unfoldable pub attach_to_post : Bool → List ℕ → ℕ → ℕ → List Attachment → List Attachment
attach_to_post up attachment_ids post tenant stored =
    let ids = take max_attachments_per_post (keep (λ n. ltb 0 n) attachment_ids) in
    if up
    then map (λ a. if is_linked tenant ids a then record a { post_id = some post } else a) stored
    else stored

abbrev pub is_spam : ModerationState → Bool
is_spam published = false
is_spam pending = false
is_spam spam = true

-- A quarantined post notifies nobody.
abbrev pub notify : Ruling → ℕ → List Notice → List Notice
notify ruling id sent =
    if is_spam ruling.moderation_state then sent else sent ++ owner_mail id ∷ team_note id ∷ []

-- The row is inserted and its attachments are linked.
unfoldable pub inserted : Up → NewPost → Ruling → Board → Board × Reply
inserted up r ruling b =
    let id = b.next_id in
    (
      record b {
        posts = b.posts ++ row r ruling id ∷ [];
        next_id = suc id;
        attachments = attach_to_post up.attach r.attachment_ids id r.tenant_id b.attachments;
        notices = notify ruling id b.notices;
      },
      created (some id),
    )

-- What follows the gate: `discard` and `limited` are its ruling, `ok` says whether the insertion
-- succeeds, which comes out as `done`.
abbrev pub settle : Bool → Bool → Bool → Board → Board × Reply → Board × Reply
settle discard limited ok b done =
    if discard
    then (b, created none)
    else if limited
    then (b, refused too_many_requests)
    else if ok
    then done
    else (b, refused failed_to_create_post)

unfoldable pub store : Up → NewPost → Ruling → Board → Board × Reply
store up r ruling b = settle ruling.discard ruling.rate_limited up.insert b (inserted up r ruling b)

-- A check that fails ends the request before the gate.
unfoldable pub unless : Option Refusal → Board → Board × Reply → Board × Reply
unless none b rest = rest
unless (some why) b rest = (b, refused why)

unfoldable pub create_public_post : Env → Platform → Up → Db → NewPost → Board → Board × Reply
create_public_post env pf up db r b =
    let (g, ruling) = evaluate_public_write env pf up.counters (submission pf up r b) b.guard in
    unless (refusal db r) b (store up r ruling (record b { guard = g }))
