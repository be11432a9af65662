-- ===== src/Sessions/Advance.antt =====
-- POST /api/v1/teams/:teamId/sessions/:sessionId/topics/advance and .../complete
-- (packages/backend/src/routes/facilitator-sessions.ts).
use project_dipstick.Base.{
  ℕ, ◌+◌, Bool, ◌&&◌, not, Option, none, some, [], ◌==◌, if◌then◌else◌, find_row,
}
use project_dipstick.Sessions.Defs.{
  GlobalRole, Session, SessionTopic, SessionStatus, TopicPhase, status_is, phase_is, state_changed,
  topic_advanced, session_state_change, topic_history_update,
}
use project_dipstick.Sessions.Replies
use project_dipstick.Sessions.Replies.{Reply, reply}
use project_dipstick.Sessions.Start.{open_voting}
use project_dipstick.Sessions.Store.{
  Store, find_session, find_session_topic, set_session, set_topics, audit, publish, Checked,
  refused, granted, after_check, is_template_team, write_template_denial,
}

pub record AdvanceTicket : Type 0 where
  pub user : ℕ
  pub role : Option GlobalRole
  pub team : ℕ
  pub session : ℕ
  pub topic : ℕ

abbrev topics_advance_endpoint : ℕ
topics_advance_endpoint = 3

unfoldable pub check_current : ℕ → Session → Option ℕ → Store → Checked AdvanceTicket Reply
check_current user r none s = refused s (reply 409 (Replies.advance_impossible r.status))
check_current user r (some topic) s =
    granted
      (record { user = user; role = s.users user; team = r.team_id; session = r.id; topic = topic })

-- The session's row is found, of the team in the path, and facilitated by the caller.
unfoldable pub check_owned :
    {T : Type 0} → ℕ → ℕ → (Session → Checked T Reply) → Option Session → Store → Checked T Reply
check_owned user team next none s = refused s (reply 404 Replies.session_not_found)
check_owned user team next (some r) s =
    if not (r.team_id == team)
    then refused s (reply 403 Replies.wrong_team)
    else if not (r.facilitator_id == user)
    then refused s (reply 403 Replies.not_facilitator)
    else next r

unfoldable pub check_advance : ℕ → ℕ → ℕ → ℕ → Store → Checked AdvanceTicket Reply
unfolding check_owned check_current write_template_denial
check_advance now user team session s =
    if is_template_team team
    then refused (write_template_denial user topics_advance_endpoint now s)
        (reply 404 Replies.session_not_found)
    else check_owned user team (λ r. check_current user r r.current_topic_id s)
        (find_session session s.sessions) s

-- The guard of the conditional UPDATE.
abbrev pub is_revealed_on : ℕ → ℕ → SessionTopic → Bool
is_revealed_on session topic t =
    t.session_id == session && t.topic_id == topic && phase_is t.phase TopicPhase.revealed

abbrev pub complete_topic : ℕ → SessionTopic → SessionTopic
complete_topic now t = record t { phase = TopicPhase.done; completed_at = some now }

-- The row after the completed one, by display_order.
unfoldable pub next_topic : ℕ → SessionTopic → Store → Option SessionTopic
next_topic session t s =
    find_row (λ u. u.session_id == session && u.display_order == t.display_order + 1)
      s.session_topics

unfoldable pub to_next : AdvanceTicket → SessionTopic → SessionTopic → Store → Store × Reply
to_next t row next s = (
  publish (topic_history_update t.team t.session next.topic_id) (
      audit t.user t.role (topic_advanced t.session row.id next.id) t.team (
        set_session t.session (λ r. record r { current_topic_id = some next.topic_id })
          (set_topics (λ u. u.id == next.id) open_voting s))),
  reply 200 (Replies.topic_advanced row.id next.id next.content),
)

abbrev pub wrap_up_row : ℕ → Session → Session
wrap_up_row now r = record r {
  status = SessionStatus.wrap_up;
  wrap_up_started_at = some now;
  current_topic_id = none;
}

-- The Redis flag is cleared on wrap-up.
abbrev pub clear_connected : ℕ → Store → Store
clear_connected session s = record s {
  facilitator_connected = λ k. if k == session then none else s.facilitator_connected k;
}

-- `before` is the store that a rollback restores.
unfoldable pub to_wrap_up : ℕ → AdvanceTicket → SessionTopic → Store → Store → Store × Reply
to_wrap_up now t row before s = elim (find_session t.session s.sessions) [
  | none ↦ (before, reply 500 Replies.internal_error)
  | some _ ↦ (
    publish (topic_history_update t.team t.session t.topic) (
        clear_connected t.session (
          publish (session_state_change t.session t.team SessionStatus.active SessionStatus.wrap_up)
            (audit t.user t.role
              (state_changed t.session SessionStatus.active SessionStatus.wrap_up [] (some row.id))
              t.team (set_session t.session (wrap_up_row now) s)))),
    reply 200 (Replies.wrap_up_entered row.id now),
  )
]

unfoldable pub topic_id_of : Option SessionTopic → Option ℕ
topic_id_of none = none
topic_id_of (some t) = some t.id

-- Whether a next topic exists decides between the two branches.
unfoldable pub move_on : ℕ → AdvanceTicket → SessionTopic → Store → Store → Store × Reply
unfolding to_next to_wrap_up next_topic
move_on now t row before s = elim (next_topic t.session row s) [
  | some next ↦ to_next t row next s
  | none ↦ to_wrap_up now t row before s
]

unfoldable pub commit_advance : ℕ → AdvanceTicket → Store → Store × Reply
unfolding move_on topic_id_of
commit_advance now t s = elim (find_row (is_revealed_on t.session t.topic) s.session_topics) [
  | none ↦ (
    s,
    reply 409 (Replies.advance_blocked (topic_id_of (find_session_topic t.session t.topic s))),
  )
  | some row ↦
      move_on now t row s (set_topics (is_revealed_on t.session t.topic) (complete_topic now) s)
]

unfoldable pub advance_topic : ℕ → ℕ → ℕ → ℕ → Store → Store × Reply
unfolding check_advance commit_advance
advance_topic now user team session s =
    after_check (check_advance now user team session s) (λ t. commit_advance now t s)

pub record CompleteTicket : Type 0 where
  pub user : ℕ
  pub role : Option GlobalRole
  pub team : ℕ
  pub session : ℕ

abbrev complete_endpoint : ℕ
complete_endpoint = 4

unfoldable pub check_wrapped : ℕ → Session → Store → Checked CompleteTicket Reply
check_wrapped user r s =
    if not (status_is r.status SessionStatus.wrap_up)
    then refused s (reply 422 (Replies.wrong_status r.status))
    else granted (record { user = user; role = s.users user; team = r.team_id; session = r.id })

unfoldable pub check_complete : ℕ → ℕ → ℕ → ℕ → Store → Checked CompleteTicket Reply
unfolding check_owned check_wrapped write_template_denial
check_complete now user team session s =
    if is_template_team team
    then refused (write_template_denial user complete_endpoint now s)
        (reply 404 Replies.session_not_found)
    else check_owned user team (λ r. check_wrapped user r s) (find_session session s.sessions) s

-- INTERVAL '30 minutes'.
abbrev pub grace_ms : ℕ
grace_ms = 1800000

abbrev pub complete_row : ℕ → Session → Session
complete_row now r = record r {
  status = SessionStatus.complete;
  completed_at = some now;
  facilitator_access_expires_at = some (now + grace_ms);
}

unfoldable pub commit_complete : ℕ → CompleteTicket → Store → Store × Reply
commit_complete now t s = (
  publish (session_state_change t.session t.team SessionStatus.wrap_up SessionStatus.complete) (
      audit t.user t.role
        (state_changed t.session SessionStatus.wrap_up SessionStatus.complete [] none) t.team
        (set_session t.session (complete_row now) s)),
  reply 200 (Replies.completed t.session),
)

unfoldable pub complete_session : ℕ → ℕ → ℕ → ℕ → Store → Store × Reply
unfolding check_complete commit_complete
complete_session now user team session s =
    after_check (check_complete now user team session s) (λ t. commit_complete now t s)
