-- ===== src/Sessions/Start.antt =====
-- POST /api/v1/sessions/:sessionId/start and .../begin-voting
-- (packages/backend/src/routes/facilitator-sessions.ts). The open action items that `start` adds to
-- its reply are read after the commit and are left out.
use Prim.Native.String.{String}
use project_dipstick.Base.{
  ℕ, Bool, ◌&&◌, not, Option, none, some, [], ◌==◌, if◌then◌else◌, find_row,
}
use project_dipstick.Sessions.Defs.{
  GlobalRole, Topic, Session, SessionTopic, SessionStatus, TopicPhase, status_is, state_changed,
  session_state_change,
}
use project_dipstick.Sessions.Replies
use project_dipstick.Sessions.Replies.{Reply, reply}
use project_dipstick.Sessions.Store.{
  Store, find_session, set_session, set_topics, audit, publish, Checked, refused, granted,
  after_check,
}

-- What both transactions take over: the caller, the role read for the audit row, the session's row.
pub record StartTicket : Type 0 where
  pub user : ℕ
  pub role : Option GlobalRole
  pub row : Session

-- The guards that the two routes share, with the status that the route wants.
unfoldable pub check_facilitated :
    SessionStatus → ℕ → Option Session → Store → Checked StartTicket Reply
check_facilitated wanted user none s = refused s (reply 404 Replies.session_not_found)
check_facilitated wanted user (some r) s =
    if not (r.facilitator_id == user)
    then refused s (reply 403 Replies.not_facilitator)
    else if not (status_is r.status wanted)
    then refused s (reply 409 (Replies.wrong_status r.status))
    else granted (record { user = user; role = s.users user; row = r })

unfoldable pub check_start : ℕ → ℕ → Store → Checked StartTicket Reply
unfolding check_facilitated
check_start user session s =
    check_facilitated SessionStatus.lobby user (find_session session s.sessions) s

unfoldable pub check_begin_voting : ℕ → ℕ → Store → Checked StartTicket Reply
unfolding check_facilitated
check_begin_voting user session s =
    check_facilitated SessionStatus.pre_session user (find_session session s.sessions) s

abbrev pub start_row : ℕ → Session → Session
start_row now r = record r { status = SessionStatus.pre_session; started_at = some now }

-- UPDATE ... WHERE id = $1, with no test of the status; without a row the handler throws.
unfoldable pub commit_start : ℕ → StartTicket → Store → Store × Reply
commit_start now t s = elim (find_session t.row.id s.sessions) [
  | none ↦ (s, reply 500 Replies.internal_error)
  | some _ ↦ (
    publish
        (session_state_change t.row.id t.row.team_id SessionStatus.lobby SessionStatus.pre_session)
        (audit t.user t.role
          (state_changed t.row.id SessionStatus.lobby SessionStatus.pre_session [] none)
          t.row.team_id (set_session t.row.id (start_row now) s)),
    reply 200 (Replies.started t.row.id),
  )
]

unfoldable pub start : ℕ → ℕ → ℕ → Store → Store × Reply
unfolding check_start commit_start
start now user session s = after_check (check_start user session s) (λ t. commit_start now t s)

abbrev pub topic_row : ℕ → Store → Option Topic
topic_row id s = find_row (λ t. t.id == id) s.topics

unfoldable pub has_topic : Store → ℕ → Bool
has_topic s id = elim (topic_row id s) [ none ↦ Bool.false | some _ ↦ Bool.true ]

-- The session's topic of display_order 1, joined to its topics row.
unfoldable pub first_topic : ℕ → Store → Option SessionTopic
unfolding has_topic
first_topic session s =
    find_row (λ t. t.session_id == session && t.display_order == 1 && has_topic s t.topic_id)
      s.session_topics

abbrev pub activate : ℕ → ℕ → Session → Session
activate now topic r = record r {
  status = SessionStatus.active;
  voting_started_at = some now;
  current_topic_id = some topic;
}

abbrev pub open_voting : SessionTopic → SessionTopic
open_voting t = record t { phase = TopicPhase.voting }

-- Shown in a team's first session only.
unfoldable pub description : Session → Option Topic → Option String
description r none = none
description r (some t) = if r.is_first_session then t.first_session_description else none

unfoldable pub open_first : ℕ → StartTicket → SessionTopic → Store → Store × Reply
unfolding description
open_first now t first s = (
  publish
      (session_state_change t.row.id t.row.team_id SessionStatus.pre_session SessionStatus.active)
      (audit t.user t.role
        (state_changed t.row.id SessionStatus.pre_session SessionStatus.active [] none)
        t.row.team_id
        (set_topics (λ r. r.id == first.id) open_voting
          (set_session t.row.id (activate now first.topic_id) s))),
  reply 200 (
      Replies.voting_begun t.row.id first.id first.content
        (description t.row (topic_row first.topic_id s)) now),
)

-- The UPDATE of the session and that of the topic test their keys alone.
unfoldable pub commit_begin_voting : ℕ → StartTicket → Store → Store × Reply
unfolding open_first
commit_begin_voting now t s = elim (first_topic t.row.id s) [
  | none ↦ (s, reply 409 Replies.no_topics_configured)
  | some first ↦ elim (find_session t.row.id s.sessions) [
    | none ↦ (s, reply 500 Replies.internal_error)
    | some _ ↦ open_first now t first s
  ]
]

unfoldable pub begin_voting : ℕ → ℕ → ℕ → Store → Store × Reply
unfolding check_begin_voting commit_begin_voting
begin_voting now user session s =
    after_check (check_begin_voting user session s) (λ t. commit_begin_voting now t s)
