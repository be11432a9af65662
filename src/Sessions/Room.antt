-- ===== src/Sessions/Room.antt =====
-- POST /api/v1/teams/:teamId/sessions/:sessionId/advance, which opens the room of a draft session
-- (packages/backend/src/routes/facilitator-sessions.ts).
use project_dipstick.Base.{
  ℕ, Bool, ◌&&◌, not, Option, none, some, List, ◌==◌, ltb, if◌then◌else◌, find_row, update_rows,
  count_rows,
}
use project_dipstick.Sessions.Defs.{
  GlobalRole, Session, SessionStatus, role_is, status_is, advance_denied_role, state_changed,
  session_state_change,
}
use project_dipstick.Sessions.Replies
use project_dipstick.Sessions.Replies.{Reply, reply}
use project_dipstick.Sessions.Snapshot.{
  Snapshot, nothing_active, collision, taken, snapshot_session_topics,
}
use project_dipstick.Sessions.Store.{
  Store, find_session, audit, publish, Checked, refused, granted, after_check, is_template_team,
  write_template_denial,
}

-- The transaction uses the row that the check read.
pub record RoomTicket : Type 0 where
  pub user : ℕ
  pub role : GlobalRole
  pub session : ℕ
  pub team : ℕ

-- The endpoint's name in the template guard's audit slot.
abbrev advance_endpoint : ℕ
advance_endpoint = 1

-- Only a user whose own role is facilitator passes; "unknown" does not.
unfoldable pub check_actor : ℕ → Session → Option GlobalRole → Store → Checked RoomTicket Reply
check_actor user r none s =
    refused (audit user none (advance_denied_role r.id) r.team_id s)
      (reply 403 Replies.role_not_facilitator)
check_actor user r (some role) s =
    if not (role_is role GlobalRole.facilitator)
    then refused (audit user (some role) (advance_denied_role r.id) r.team_id s)
        (reply 403 Replies.role_not_facilitator)
    else if not (status_is r.status SessionStatus.draft)
    then refused s (reply 422 (Replies.wrong_status r.status))
    else granted (record { user = user; role = role; session = r.id; team = r.team_id })

unfoldable pub check_row : ℕ → ℕ → Option Session → Store → Checked RoomTicket Reply
unfolding check_actor
check_row user team none s = refused s (reply 404 Replies.session_not_found)
check_row user team (some r) s =
    if not (r.team_id == team)
    then refused s (reply 403 Replies.wrong_team)
    else if not (r.facilitator_id == user)
    then refused s (reply 403 Replies.not_facilitator)
    else check_actor user r (s.users user) s

-- `session` is `none` where the path's text is no canonical UUID.
unfoldable pub check_open_room : ℕ → ℕ → ℕ → Option ℕ → Store → Checked RoomTicket Reply
unfolding check_row write_template_denial
check_open_room now user team none s = refused s (reply 404 Replies.session_not_found)
check_open_room now user team (some session) s =
    if is_template_team team
    then refused (write_template_denial user advance_endpoint now s)
        (reply 404 Replies.session_not_found)
    else check_row user team (find_session session s.sessions) s

-- The guards of the conditional UPDATE.
abbrev pub is_draft_of : RoomTicket → Session → Bool
is_draft_of t r =
    r.id == t.session
    && r.team_id == t.team
    && r.facilitator_id == t.user
    && status_is r.status SessionStatus.draft

abbrev pub open_row : ℕ → Session → Session
open_row now r = record r { status = SessionStatus.lobby; room_opened_at = some now }

-- hasCompletedFirstSession.
unfoldable pub has_completed_session : ℕ → List Session → Bool
has_completed_session team sessions =
    ltb 0
      (count_rows (λ r. r.team_id == team && status_is r.status SessionStatus.complete) sessions)

unfoldable pub stale_status : Option Session → Reply
stale_status none = reply 422 Replies.unknown_status
stale_status (some r) = reply 422 (Replies.wrong_status r.status)

-- The rest of the transaction, given the snapshot; a failure rolls back to `s`.
unfoldable pub finish_opening : RoomTicket → Store → Snapshot → Store × Reply
unfolding has_completed_session
finish_opening t s nothing_active =
    (s, reply 409 (Replies.no_active_topics (not (has_completed_session t.team s.sessions))))
finish_opening t s collision = (s, reply 500 Replies.internal_error)
finish_opening t s (taken s' topic_ids) = (
  publish (session_state_change t.session t.team SessionStatus.draft SessionStatus.lobby) (
      audit t.user (some t.role)
        (state_changed t.session SessionStatus.draft SessionStatus.lobby topic_ids none) t.team s'),
  reply 200 (Replies.room_opened t.session),
)

unfoldable pub commit_open_room : ℕ → RoomTicket → Store → Store × Reply
unfolding finish_opening stale_status
commit_open_room now t s = elim (find_row (is_draft_of t) s.sessions) [
  | none ↦ (s, stale_status (find_session t.session s.sessions))
  | some _ ↦ finish_opening t s (
      snapshot_session_topics t.session
        (record s { sessions = update_rows (is_draft_of t) (open_row now) s.sessions }))
]

unfoldable pub open_room : ℕ → ℕ → ℕ → Option ℕ → Store → Store × Reply
unfolding check_open_room commit_open_room
open_room now user team session s =
    after_check (check_open_room now user team session s) (λ t. commit_open_room now t s)
