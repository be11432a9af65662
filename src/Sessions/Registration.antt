-- ===== src/Sessions/Registration.antt =====
-- POST /api/v1/sessions/:sessionId/participants (packages/backend/src/routes/sessions.ts).
use project_dipstick.Base.{
  ℕ, Bool, true, false, ◌&&◌, ◌||◌, not, Option, none, some, ◌==◌, if◌then◌else◌,
}
use project_dipstick.Sessions.Defs.{
  GlobalRole, MembershipRole, Membership, SessionStatus, Session, role_is, status_is,
  participant_registration_rejected, participant_registered,
}
use project_dipstick.Sessions.Replies
use project_dipstick.Sessions.Replies.{Reply, reply}
use project_dipstick.Sessions.Store.{
  Store, find_session, find_membership, audit, Checked, refused, granted, after_check,
}

-- What the transaction takes over from the check.
pub record Registration : Type 0 where
  pub user : ℕ
  pub role : GlobalRole
  pub team : ℕ
  pub session : ℕ

is_removed : Option ℕ → Bool
is_removed none = false
is_removed (some _) = true

is_manager : MembershipRole → Bool
is_manager MembershipRole.manager = true
is_manager MembershipRole.participant = false

-- A member of the team who has not been removed from it, and neither a manager (by the user's role
-- or by that in the team) nor an application admin. The registration and lock-in routes share it.
unfoldable pub is_eligible_voter : GlobalRole → Option Membership → Bool
unfolding is_removed is_manager
is_eligible_voter role none = false
is_eligible_voter role (some m) =
    not (is_removed m.removed_at)
    && not (role_is role GlobalRole.engineering_manager)
    && not (is_manager m.role)
    && not (role_is role GlobalRole.application_admin)

abbrev is_open : SessionStatus → Bool
is_open status =
    status_is status SessionStatus.lobby
    || status_is status SessionStatus.pre_session
    || status_is status SessionStatus.active

unfoldable pub check_role : ℕ → Session → Store → Checked Registration Reply
check_role user r s = elim (s.users user) [
  | none ↦ refused s (reply 401 Replies.user_not_found)
  | some role ↦
      if is_eligible_voter role (find_membership user r.team_id s)
      then granted (record { user = user; role = role; team = r.team_id; session = r.id })
      else refused (audit user (some role) (participant_registration_rejected r.id) r.team_id s)
          (reply 403 Replies.not_eligible)
]

unfoldable pub check_registration : ℕ → ℕ → Store → Checked Registration Reply
unfolding check_role
check_registration user session s = elim (find_session session s.sessions) [
  | none ↦ refused s (reply 404 Replies.session_not_found)
  | some r ↦
      if is_open r.status
      then check_role user r s
      else refused s (reply 422 Replies.registration_closed)
]

-- INSERT ... ON CONFLICT DO NOTHING, and the audit row if a row was inserted.
unfoldable pub commit_registration : Registration → Store → Store × Reply
commit_registration t s =
    if s.participants t.session t.user
    then (s, reply 200 (Replies.participant_result t.session true))
    else (
      audit t.user (some t.role) (participant_registered t.session) t.team (record s {
        participants = λ k u. (k == t.session && u == t.user) || s.participants k u;
      }),
      reply 201 (Replies.participant_result t.session false),
    )

unfoldable pub register_participant : ℕ → ℕ → Store → Store × Reply
unfolding check_registration commit_registration
register_participant user session s =
    after_check (check_registration user session s) (λ t. commit_registration t s)
