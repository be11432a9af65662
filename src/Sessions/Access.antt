-- ===== src/Sessions/Access.antt =====
-- evaluateSessionSubscriberAccess (packages/backend/src/auth/session-subscriber-access-helper.ts):
-- who may receive the live events of a session, decided again at each delivery.
use project_dipstick.Base.{
  ℕ, Bool, true, false, ◌&&◌, ◌||◌, not, Option, none, some, ◌==◌, if◌then◌else◌,
}
use project_dipstick.Sessions.Defs.{
  GlobalRole, MembershipRole, Membership, Session, SessionStatus, role_is, status_is,
}
use project_dipstick.Sessions.Store.{Store, find_session, find_membership}

-- SessionSubscriberGrant: session, team, (status,) role.
pub data Grant : Type 0 where
  facilitator_grant : ℕ → ℕ → SessionStatus → GlobalRole → Grant
  participant_grant : ℕ → ℕ → GlobalRole → Grant

-- LIVE_FACILITATOR_STATUSES.
abbrev pub is_live_status : SessionStatus → Bool
is_live_status status =
    status_is status SessionStatus.lobby
    || status_is status SessionStatus.pre_session
    || status_is status SessionStatus.active
    || status_is status SessionStatus.wrap_up

is_null : Option ℕ → Bool
is_null none = true
is_null (some _) = false

is_team_manager : MembershipRole → Bool
is_team_manager MembershipRole.manager = true
is_team_manager MembershipRole.participant = false

-- The participant path's test of the joined membership columns and of the role.
may_listen : GlobalRole → Option Membership → Bool
unfolding is_null is_team_manager
may_listen role none = false
may_listen role (some m) =
    is_null m.removed_at
    && not (role_is role GlobalRole.engineering_manager)
    && not (is_team_manager m.role)
    && not (role_is role GlobalRole.application_admin)

grant_on : ℕ → Session → GlobalRole → Store → Option Grant
unfolding may_listen
grant_on user r role s =
    if r.facilitator_id == user && is_live_status r.status
    then some (facilitator_grant r.id r.team_id r.status role)
    else if s.participants r.id user && may_listen role (find_membership user r.team_id s)
    then some (participant_grant r.id r.team_id role)
    else none

-- The joined row is missing where the session or the user is.
unfoldable pub subscriber_access : ℕ → ℕ → Store → Option Grant
unfolding grant_on
subscriber_access user session s = elim (find_session session s.sessions) [
  | none ↦ none
  | some r ↦ elim (s.users user) [ none ↦ none | some role ↦ grant_on user r role s ]
]
