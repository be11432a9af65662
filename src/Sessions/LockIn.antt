-- ===== src/Sessions/LockIn.antt =====
-- POST /api/v1/sessions/:sessionId/topics/:sessionTopicId/lock-in
-- (packages/backend/src/routes/sessions.ts), and the CHECK constraints of the votes table.
use project_dipstick.Base.{
  ℕ, ◌+◌, Bool, false, ◌&&◌, not, Option, none, some, ◌==◌, leb, if◌then◌else◌, find_row,
}
use project_dipstick.Base.Int.{ℤ, pos, negsuc}
use project_dipstick.Sessions.Defs.{
  GlobalRole, SessionStatus, TopicPhase, VoteType, finger, roman, modified_roman, Session,
  SessionTopic, Vote, status_is, phase_is, vote_submitted, vote_readiness_update,
}
use project_dipstick.Sessions.Registration.{is_eligible_voter}
use project_dipstick.Sessions.Replies
use project_dipstick.Sessions.Replies.{Reply, reply}
use project_dipstick.Sessions.Store.{
  Store, find_session, find_membership, audit, publish, Checked, refused, granted, after_check,
}

-- A request: who asks, the path's parameters, the body. `vote_type` is `none` where the body's text
-- is no label of the enum, which the database refuses.
pub record LockIn : Type 0 where
  pub user : ℕ
  pub session : ℕ
  pub session_topic : ℕ
  pub value : ℤ
  pub vote_type : Option VoteType

pub record VoteTicket : Type 0 where
  pub request : LockIn
  pub open request use *
  pub role : GlobalRole
  pub team : ℕ

-- The three CHECK constraints.
unfoldable pub is_legal_vote : VoteType → ℤ → Bool
is_legal_vote finger (pos n) = leb 1 n && leb n 4
is_legal_vote finger (negsuc n) = false
is_legal_vote roman (pos n) = n == 1
is_legal_vote roman (negsuc n) = n == 0
is_legal_vote modified_roman (pos n) = leb n 1
is_legal_vote modified_roman (negsuc n) = n == 0

unfoldable pub check_voter : LockIn → ℕ → Store → Checked VoteTicket Reply
check_voter q team s = elim (s.users q.user) [
  | none ↦ refused s (reply 401 Replies.user_not_found)
  | some role ↦
      if not (is_eligible_voter role (find_membership q.user team s))
      then refused s (reply 403 Replies.not_eligible_to_vote)
      else if s.participants q.session q.user
      then granted (record { request = q; role = role; team = team })
      else refused s (reply 403 Replies.not_registered)
]

unfoldable pub check_open : LockIn → Session → SessionTopic → Store → Checked VoteTicket Reply
unfolding check_voter
check_open q r t s =
    if not (status_is r.status SessionStatus.active)
    then refused s (reply 422 Replies.session_not_active)
    else if not (phase_is t.phase TopicPhase.voting)
    then refused s (reply 422 Replies.voting_not_open)
    else check_voter q r.team_id s

abbrev pub topic_by_id : ℕ → Store → Option SessionTopic
topic_by_id id s = find_row (λ t. t.id == id) s.session_topics

-- The join of sessions and session_topics on both keys.
unfoldable pub check_lock_in : LockIn → Store → Checked VoteTicket Reply
unfolding check_open
check_lock_in q s = elim (find_session q.session s.sessions) [
  | none ↦ refused s (reply 404 Replies.session_or_topic_not_found)
  | some r ↦
      elim (find_row (λ t. t.session_id == r.id && t.id == q.session_topic) s.session_topics) [
        | none ↦ refused s (reply 404 Replies.session_or_topic_not_found)
        | some t ↦ check_open q r t s
      ]
]

-- ON CONFLICT the row keeps its key and its `revealed_at`; only value and type are written.
unfoldable pub cast_vote : Option Vote → ℕ → ℕ → ℕ → ℤ → VoteType → Vote
cast_vote none id session now value type = record {
  id = id;
  session_id = session;
  value = value;
  vote_type = type;
  revealed_at = now;
}
cast_vote (some v) id session now value type = record v { value = value; vote_type = type }

unfoldable pub record_vote : ℕ → VoteTicket → VoteType → Store → Store × Reply
unfolding cast_vote
record_vote now t type s =
    let v = cast_vote (s.votes t.session_topic t.user) s.next_id t.session now t.value type in
    (
      publish (vote_readiness_update t.session t.session_topic t.user) (
          audit t.user (some t.role) (vote_submitted t.session t.session_topic) t.team (record s {
            votes = λ k u. if k == t.session_topic && u == t.user then some v else s.votes k u;
            next_id = s.next_id + 1;
          })),
      reply 201 (Replies.vote_locked_in v.id),
    )

unfoldable pub store_vote : ℕ → VoteTicket → Option VoteType → Store → Store × Reply
unfolding record_vote is_legal_vote
store_vote now t none s = (s, reply 500 Replies.internal_error)
store_vote now t (some type) s =
    if is_legal_vote type t.value
    then record_vote now t type s
    else (s, reply 500 Replies.internal_error)

-- The phase is read again under FOR UPDATE, as the transaction starts.
unfoldable pub commit_lock_in : ℕ → VoteTicket → Store → Store × Reply
unfolding store_vote
commit_lock_in now t s = elim (topic_by_id t.session_topic s) [
  | none ↦ (s, reply 422 Replies.voting_closed)
  | some row ↦
      if phase_is row.phase TopicPhase.voting
      then store_vote now t t.vote_type s
      else (s, reply 422 Replies.voting_closed)
]

unfoldable pub lock_in : ℕ → LockIn → Store → Store × Reply
unfolding check_lock_in commit_lock_in
lock_in now q s = after_check (check_lock_in q s) (λ t. commit_lock_in now t s)
