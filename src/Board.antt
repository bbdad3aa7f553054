-- ===== src/Board.antt =====
-- The rows of a public board (`posts`, `votes` and `post_attachments` of `feedboard_db.sql`) with
-- the columns that the modelled handlers read and write. A table is a list of rows in the order
-- of their ids; the instants of rows are seconds.
pub mod Posting
mod Published
pub mod Votes
mod OneVote
pub mod Reviews
mod Kept
mod Duplicates
mod Tests
use feedbase_backend.Base.{
  ℕ, zero, suc, ◌+◌, ◌-◌, ◌*◌, ◌≤◌, ◌<◌, ◌≡◌, ◌≢◌, ◌↔◌, ◌⊎◌, inl, inr, refl, sym, ap, ◌∙◌, Bool,
  true, false, not, ◌&&◌, ◌||◌, List, [], ◌∷◌, ◌++◌, map, Option, none, some, arith, All, is_some,
  get_or, Bool-cases, Option-cases, if◌then◌else◌, take, length, any, keep, find, count, head?, ltb,
  leb, ◌==◌, length-keep-le, length-take-le, ==_iff, ==_refl,
}
use feedbase_backend.Text.{Text}
use feedbase_backend.Spam.Score.{Signal, ModerationState}
use feedbase_backend.Guard.{GuardState}

pub data PostType : Type 0 where
  feedback feature_request bug_report : PostType

-- `opened` is 'open' and `declined` is 'rejected'.
pub data Status : Type 0 where
  opened planned in_progress completed closed declined : Status

pub record Post : Type 0 where
  pub id : ℕ
  pub tenant_id : ℕ
  pub author_id : Option ℕ
  pub submitter_name : Option Text
  pub submitter_email : Option Text
  pub guest_id : Option Text
  pub voter_hash : Option Text
  pub title : Text
  pub description : Text
  pub post_type : PostType
  pub status : Status
  pub priority : ℕ
  pub duplicate_of_post_id : Option ℕ
  pub moderation_state : ModerationState
  pub spam_score : ℕ
  pub spam_reasons : List Signal
  pub spam_reviewed_at : Option ℕ
  pub spam_reviewed_score : Option ℕ
  pub created_at : ℕ

pub record Attachment : Type 0 where
  pub id : ℕ
  pub tenant_id : ℕ
  pub post_id : Option ℕ

-- What is sent out when a post appears: the mail to the owner and the note to the team.
pub data Notice : Type 0 where
  owner_mail team_note : ℕ → Notice

pub record Board : Type 0 where
  pub posts : List Post
  pub next_id : ℕ
  pub attachments : List Attachment
  pub guard : GuardState
  pub notices : List Notice
