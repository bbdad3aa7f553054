-- ===== src/Board/Votes.antt =====
-- `src/main/public/togglePublicVote.js` over the table `votes` of `feedboard_db.sql`, with its
-- unique keys on the guest and on the derived identity. The key on the user does not bind, since
-- the handler stores no user. An insertion that is ignored uses up no id here.
use feedbase_backend.Base.{
  ℕ, suc, Bool, true, false, not, ◌&&◌, ◌||◌, List, [], ◌∷◌, ◌++◌, Option, none, some, get_or,
  if◌then◌else◌, length, any, keep, find, count, ltb, ◌==◌,
}
use feedbase_backend.Env.{Env}
use feedbase_backend.Text.{Text, eq_text, is_empty, trim}
use feedbase_backend.Guard.{Platform, voter_hash}
use feedbase_backend.Board.{Post}
use feedbase_backend.Board.Posting.{is_spam}

pub record Vote : Type 0 where
  pub id : ℕ
  pub tenant_id : ℕ
  pub post_id : ℕ
  pub user_id : Option ℕ
  pub guest_id : Option Text
  pub voter_hash : Option Text

pub record Ballot : Type 0 where
  pub votes : List Vote
  pub next_id : ℕ

pub data VoteRefusal : Type 0 where
  guest_id_required post_not_found : VoteRefusal

pub data VoteReply : Type 0 where
  vote_refused : VoteRefusal → VoteReply
  toggled : Bool → ℕ → VoteReply

abbrev pub is_text : Option Text → Text → Bool
is_text none t = false
is_text (some s) t = eq_text s t

abbrev pub has_hash : ℕ → ℕ → Text → Vote → Bool
has_hash tenant post hash v =
    v.tenant_id == tenant && v.post_id == post && is_text v.voter_hash hash

abbrev pub has_guest : ℕ → ℕ → Text → Vote → Bool
has_guest tenant post guest v =
    v.tenant_id == tenant && v.post_id == post && is_text v.guest_id guest

-- The vote that the visitor has on the post: by the derived identity, without one by the guest id.
unfoldable pub existing : ℕ → ℕ → Text → Option Text → List Vote → Option Vote
existing tenant post guest none votes = find (has_guest tenant post guest) votes
existing tenant post guest (some hash) votes = find (has_hash tenant post hash) votes

-- A unique key rejects the new row; NULL never does.
unfoldable pub conflicts : ℕ → ℕ → Text → Option Text → List Vote → Bool
conflicts tenant post guest none votes = any (has_guest tenant post guest) votes
conflicts tenant post guest (some hash) votes =
    any (has_guest tenant post guest) votes || any (has_hash tenant post hash) votes

abbrev pub ballot_row : ℕ → ℕ → Text → Option Text → ℕ → Vote
ballot_row tenant post guest hash id = record {
  id = id;
  tenant_id = tenant;
  post_id = post;
  user_id = none;
  guest_id = some guest;
  voter_hash = hash;
}

abbrev pub without : ℕ → List Vote → List Vote
without id votes = keep (λ v. not (v.id == id)) votes

-- `INSERT IGNORE`
unfoldable pub insert_vote : Bool → Vote → Ballot → Ballot × Bool
insert_vote true v b = (b, false)
insert_vote false v b = (record { votes = b.votes ++ v ∷ []; next_id = suc b.next_id }, true)

-- The ballot after the toggle, and whether the visitor has a vote now.
unfoldable pub flip : ℕ → ℕ → Text → Option Text → Option Vote → Ballot → Ballot × Bool
flip tenant post guest hash (some v) b = (record b { votes = without v.id b.votes }, false)
flip tenant post guest hash none b =
    insert_vote (conflicts tenant post guest hash b.votes)
      (ballot_row tenant post guest hash b.next_id) b

-- Quarantined posts cannot be voted on.
unfoldable pub is_open : ℕ → ℕ → List Post → Bool
is_open tenant post posts =
    elim (find (λ (p : Post). p.id == post && p.tenant_id == tenant) posts) [
      | none ↦ false
      | some p ↦ not (is_spam p.moderation_state)
    ]

unfoldable pub toggle_public_vote :
    Env → Platform → List Post → ℕ → ℕ → Option Text → Option Text → Ballot → Ballot × VoteReply
toggle_public_vote env pf posts tenant post guest_id ip b =
    let guest = trim (get_or guest_id []) in
    let hash = voter_hash env pf ip in
    let (b', voted) = flip tenant post guest hash (existing tenant post guest hash b.votes) b in
    if is_empty guest || ltb 64 (length guest)
    then (b, vote_refused guest_id_required)
    else if is_open tenant post posts
    then (b', toggled voted (count (λ v. v.post_id == post) b'.votes))
    else (b, vote_refused post_not_found)
