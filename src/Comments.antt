-- ===== src/Comments.antt =====
-- Comments: `src/main/public/createPublicComment.js`, and of `src/main/comment` createComment.js,
-- updateComment.js, deleteComment.js and updateCommentModeration.js, over the table `comments`. Ids
-- are positive, and an absent or falsy field is `none`.
pub mod Climb
pub mod Creating
pub mod Stored
mod Ordered
pub mod Younger
mod Tests
use Prim.Native.Nat.{◌/◌}
use feedbase_backend.Base.{
  ℕ, zero, suc, ◌+◌, ◌-◌, ◌*◌, ◌≤◌, ◌<◌, ◌≡◌, ◌≢◌, ◌↔◌, ◌⊎◌, inl, inr, refl, sym, ap, ◌∙◌, Bool,
  true, false, not, ◌&&◌, ◌||◌, List, [], ◌∷◌, ◌++◌, map, Option, none, some, arith, All, is_some,
  get_or, Bool-cases, Option-cases, if◌then◌else◌, take, length, any, keep, find, count, head?, ltb,
  leb, ◌==◌, count-append, count-any, count-keep-le, length-keep-le, length-take-le, ==_iff,
  ==_refl,
}
use feedbase_backend.Base.Results.{Result, ok, err, ◌>>=◌, ◌>>◌, guard, first, commit}
use feedbase_backend.Text.{Text}
use feedbase_backend.Plans.{get_plan_limits}
use feedbase_backend.Plans.Usage.{get_tenant_plan}
use feedbase_backend.Tables.{Role, is_owner, Db}
use feedbase_backend.Spam.Score.{ModerationState, published, pending, spam}
use feedbase_backend.Spam.Score.{Signal}

pub record Comment : Type 0 where
  pub id : ℕ
  pub tenant_id : ℕ
  pub post_id : ℕ
  pub author_id : Option ℕ
  pub submitter_name : Option Text
  pub submitter_email : Option Text
  pub guest_id : Option Text
  pub voter_hash : Option Text
  pub as_owner : ℕ
  pub parent_comment_id : Option ℕ
  pub body : Text
  pub is_edited : Bool
  pub moderation_state : ModerationState
  pub spam_score : ℕ
  pub spam_reasons : List Signal
  pub spam_reviewed_at : Option ℕ
  pub spam_reviewed_score : Option ℕ
  pub created_at : ℕ

pub data CommentError : Type 0 where
  comment_body_required invalid_email post_not_found comment_not_found : CommentError
  too_many_requests failed_to_create_comment not_your_content insufficient_permissions :
      CommentError

pub data OwnerMode : Type 0 where
  named hidden plain : OwnerMode

-- What the token of the author says.
pub record Author : Type 0 where
  pub id : ℕ
  pub tenant_id : ℕ
  pub role : Role

-- The badge that the plan allows.
unfoldable pub badge : Db → ℕ → OwnerMode → ℕ
badge db tenant plain = 0
badge db tenant named = if (get_plan_limits (get_tenant_plan db tenant)).owner_badge then 1 else 0
badge db tenant hidden =
    let limits = get_plan_limits (get_tenant_plan db tenant) in
    if limits.owner_privacy then 2 else if limits.owner_badge then 1 else 0

-- `resolveOwner`
unfoldable pub resolve_owner : Db → OwnerMode → Option Author → ℕ → ℕ
resolve_owner db mode none tenant = 0
resolve_owner db mode (some a) tenant =
    if is_owner a.role && a.tenant_id == tenant then badge db tenant mode else 0

-- A comment of the dashboard, which has no guest fields and no score.
unfoldable pub member_comment : Db → ℕ → Author → ℕ → Option ℕ → OwnerMode → Text → ℕ → Comment
member_comment db now author post parent mode body id = record {
  id = id;
  tenant_id = author.tenant_id;
  post_id = post;
  author_id = some author.id;
  submitter_name = none;
  submitter_email = none;
  guest_id = none;
  voter_hash = none;
  as_owner = if is_owner author.role then badge db author.tenant_id mode else 0;
  parent_comment_id = parent;
  body = body;
  is_edited = false;
  moderation_state = published;
  spam_score = 0;
  spam_reasons = [];
  spam_reviewed_at = none;
  spam_reviewed_score = none;
  created_at = now / 1000;
}

abbrev pub has_id : ℕ → Comment → Bool
has_id id c = c.id == id

-- The foreign keys: the parent and the post are rows of their tables, of any workspace.
abbrev pub exists_parent : Option ℕ → List Comment → Bool
exists_parent none cs = true
exists_parent (some p) cs = any (has_id p) cs

-- `createComment`; `post_exists` says whether the post is a row.
unfoldable pub create_comment :
    Db
    → Bool
    → ℕ
    → Author
    → ℕ
    → Option ℕ
    → OwnerMode
    → Text
    → ℕ
    → List Comment
    → List Comment × Result CommentError ℕ
create_comment db post_exists now author post parent mode body id cs =
    if post_exists && exists_parent parent cs
    then (cs ++ member_comment db now author post parent mode body id ∷ [], ok id)
    else (cs, err failed_to_create_comment)

abbrev pub is_in_tenant : ℕ → ℕ → Comment → Bool
is_in_tenant id tenant c = c.id == id && c.tenant_id == tenant

abbrev pub is_by : ℕ → Comment → Bool
is_by author c = elim c.author_id [ none ↦ false | some a ↦ a == author ]

abbrev pub is_editable : ℕ → Author → Comment → Bool
is_editable id author c = is_in_tenant id author.tenant_id c && is_by author.id c

-- `updateComment`
unfoldable pub update_comment :
    ℕ → Text → Author → List Comment → List Comment × Result CommentError (Unit {0})
update_comment id body author cs =
    if any (is_editable id author) cs
    then (
      map (λ c. if is_editable id author c then record c { body = body; is_edited = true } else c)
          cs,
      ok tt,
    )
    else (cs, err not_your_content)

-- The owner may delete every comment of the workspace, another member his own.
abbrev pub is_deletable : ℕ → Author → Comment → Bool
is_deletable id author c =
    is_in_tenant id author.tenant_id c && (is_owner author.role || is_by author.id c)

-- One row of `updateCommentModeration`.
unfoldable pub reclassify_comment : ModerationState → ℕ → Comment → Comment
reclassify_comment published now c = record c {
  moderation_state = published;
  spam_reviewed_at = some (now / 1000);
  spam_reviewed_score = elim c.spam_reviewed_score [ none ↦ some c.spam_score | some n ↦ some n ];
  spam_score = 0;
  spam_reasons = [];
}
reclassify_comment pending now c = record c { moderation_state = pending }
reclassify_comment spam now c = record c { moderation_state = spam }

-- `updateCommentModeration`, for a state that is one of the three.
unfoldable pub update_comment_moderation :
    ℕ → ModerationState → ℕ → Author → List Comment → List Comment × Result CommentError (Unit {0})
update_comment_moderation now state id author cs = commit cs (do
  guard (is_owner author.role) insufficient_permissions
  guard (any (is_in_tenant id author.tenant_id) cs) comment_not_found
  ok (
    map (λ c. if is_in_tenant id author.tenant_id c then reclassify_comment state now c else c) cs,
    tt,
  ))

-- ON DELETE CASCADE: the replies of a row that is gone go too, and so on.
abbrev pub cascade : ℕ → List Comment → List Comment
cascade zero cs = cs
cascade (suc n) cs = cascade n (keep (λ c. exists_parent c.parent_comment_id cs) cs)

-- `deleteComment`
unfoldable pub delete_comment :
    ℕ → Author → List Comment → List Comment × Result CommentError (Unit {0})
delete_comment id author cs =
    if any (is_deletable id author) cs
    then (cascade (length cs) (keep (λ c. not (is_deletable id author c)) cs), ok tt)
    else (cs, err not_your_content)
