-- ===== src/Sessions/Reveal.antt =====
-- POST /api/v1/teams/:teamId/sessions/:sessionId/reveal
-- (packages/backend/src/routes/facilitator-sessions.ts).
use project_dipstick.Base.{
  ℕ, Bool, ◌&&◌, ◌||◌, not, Option, none, some, ◌==◌, if◌then◌else◌, find_row,
}
use project_dipstick.Sessions.Defs.{
  GlobalRole, Session, SessionTopic, SessionStatus, TopicPhase, status_is, phase_is,
  reveal_triggered, vote_revealed,
}
use project_dipstick.Sessions.Replies
use project_dipstick.Sessions.Replies.{Reply, reply}
use project_dipstick.Sessions.Store.{
  Store, find_session_topic, set_topics, audit, publish, Checked, refused, granted, after_check,
  is_template_team, write_template_denial,
}

pub record RevealTicket : Type 0 where
  pub user : ℕ
  pub role : Option GlobalRole
  pub team : ℕ
  pub session : ℕ
  pub status : SessionStatus
  pub topic : ℕ

abbrev reveal_endpoint : ℕ
reveal_endpoint = 2

abbrev is_live : SessionStatus → Bool
is_live status =
    status_is status SessionStatus.lobby
    || status_is status SessionStatus.pre_session
    || status_is status SessionStatus.active
    || status_is status SessionStatus.wrap_up

abbrev closed : SessionStatus → Reply
closed status = reply 409 (Replies.reveal_failed Bool.false (some status))

unfoldable pub check_topic : ℕ → ℕ → Session → Option ℕ → Store → Checked RevealTicket Reply
check_topic user team r none s = refused s (closed r.status)
check_topic user team r (some topic) s = granted (record {
  user = user;
  role = s.users user;
  team = team;
  session = r.id;
  status = r.status;
  topic = topic;
})

-- Another caller is told that the reveal can be tried again, while the session is live.
unfoldable pub check_reveal_row : ℕ → ℕ → Option Session → Store → Checked RevealTicket Reply
unfolding check_topic
check_reveal_row user team none s = refused s (closed SessionStatus.complete)
check_reveal_row user team (some r) s =
    if not (r.facilitator_id == user)
    then refused s (
        if is_live r.status
        then reply 503 (Replies.reveal_failed Bool.true none)
        else closed r.status)
    else if not (status_is r.status SessionStatus.active)
    then refused s (closed r.status)
    else check_topic user team r r.current_topic_id s

unfoldable pub check_reveal : ℕ → ℕ → ℕ → ℕ → Store → Checked RevealTicket Reply
unfolding check_reveal_row write_template_denial
check_reveal now user team session s =
    if is_template_team team
    then refused (write_template_denial user reveal_endpoint now s) (closed SessionStatus.complete)
    else check_reveal_row user team
        (find_row (λ r. r.id == session && r.team_id == team) s.sessions) s

-- The guard of the conditional UPDATE, which alone decides between concurrent reveals.
abbrev pub is_voting_on : ℕ → ℕ → SessionTopic → Bool
is_voting_on session topic t =
    t.session_id == session && t.topic_id == topic && phase_is t.phase TopicPhase.voting

abbrev pub reveal_row : ℕ → SessionTopic → SessionTopic
reveal_row now t = record t { phase = TopicPhase.revealed; revealed_at = some now }

-- The reply when no row was in voting: the time of the reveal, or this moment's.
unfoldable pub revealed_before : ℕ → Option SessionTopic → Reply
revealed_before now none = reply 409 (Replies.already_revealed none now)
revealed_before now (some t) = elim t.revealed_at [
  -- `revealed_at.toISOString()` of a null throws.
  | none ↦ reply 500 Replies.internal_error
  | some at ↦ reply 409 (Replies.already_revealed (some t.id) at)
]

unfoldable pub commit_reveal : ℕ → RevealTicket → Store → Store × Reply
unfolding revealed_before
commit_reveal now t s = elim (find_row (is_voting_on t.session t.topic) s.session_topics) [
  | none ↦ (s, revealed_before now (find_session_topic t.session t.topic s))
  | some _ ↦ (
    publish (vote_revealed t.session t.status) (
        audit t.user t.role (reveal_triggered t.session) t.team
          (set_topics (is_voting_on t.session t.topic) (reveal_row now) s)),
    reply 200 (Replies.votes_revealed t.status),
  )
]

unfoldable pub reveal : ℕ → ℕ → ℕ → ℕ → Store → Store × Reply
unfolding check_reveal commit_reveal
reveal now user team session s =
    after_check (check_reveal now user team session s) (λ t. commit_reveal now t s)
