-- ===== src/Auth/TeamAccess.antt =====
-- evaluateTeamAccess (packages/backend/src/auth/team-content-access-helper.ts) and the gate of the
-- routes for session content (packages/backend/src/routes/content.ts): who may read a team's
-- content, and as what.
use project_dipstick.Base.{
  ℕ, ◌+◌, Bool, true, false, ◌&&◌, ◌||◌, Option, none, some, ◌==◌, ltb, if◌then◌else◌, find_row,
}
use project_dipstick.Sessions.Access.{is_live_status}
use project_dipstick.Sessions.Defs.{
  GlobalRole, MembershipRole, participant, manager, Membership, Session, SessionStatus, role_is,
  status_is,
}
use project_dipstick.Sessions.Store.{Store}

-- TeamAccessGrant. A grant to a member names the role in the team that the caller gets.
pub data TeamGrant : Type 0 where
  admin_grant : TeamGrant
  member_grant : MembershipRole → ℕ → GlobalRole → TeamGrant
  facilitating_grant : ℕ → ℕ → SessionStatus → GlobalRole → TeamGrant

abbrev still_member : Option ℕ → Bool
still_member none = true
still_member (some t) = false

abbrev pub is_current_member : ℕ → ℕ → Membership → Bool
is_current_member user team m =
    (m.user_id == user && m.team_id == team) && still_member m.removed_at

abbrev expires_after : ℕ → Option ℕ → Bool
expires_after now none = false
expires_after now (some t) = ltb now t

abbrev pub draft_access_ms : ℕ
draft_access_ms = 86400000

-- The condition of FACILITATOR_GRANT_SQL; `created` is the column created_at, by session.
abbrev pub facilitates : (ℕ → ℕ) → ℕ → ℕ → ℕ → Session → Bool
facilitates created now user team r =
    (r.facilitator_id == user && r.team_id == team)
    && (is_live_status r.status
        || ((status_is r.status SessionStatus.draft && ltb now (created r.id + draft_access_ms))
            || (status_is r.status SessionStatus.complete
                && expires_after now r.facilitator_access_expires_at)))

unfoldable pub facilitator_path : (ℕ → ℕ) → ℕ → ℕ → ℕ → GlobalRole → Store → Option TeamGrant
unfolding find_row
facilitator_path created now user team role s =
    elim (find_row (facilitates created now user team) s.sessions) [
      | none ↦ none
      | some r ↦ some (facilitating_grant r.id team r.status role)
    ]

-- A manager of the team who is no engineering manager any more reads as a participant.
unfoldable pub member_path : ℕ → GlobalRole → MembershipRole → TeamGrant
member_path team role participant = member_grant participant team role
member_path team role manager =
    if role_is role GlobalRole.engineering_manager
    then member_grant manager team role
    else member_grant participant team role

unfoldable pub grant_paths : (ℕ → ℕ) → ℕ → ℕ → ℕ → GlobalRole → Store → Option TeamGrant
unfolding member_path facilitator_path
grant_paths created now user team role s =
    if role_is role GlobalRole.application_admin
    then some admin_grant
    else elim (find_row (is_current_member user team) s.memberships) [
      | some m ↦ some (member_path team role m.role)
      | none ↦ facilitator_path created now user team role s
    ]

unfoldable pub team_access : (ℕ → ℕ) → ℕ → ℕ → ℕ → Store → Option TeamGrant
unfolding grant_paths
team_access created now user team s = elim (s.users user) [
  | none ↦ none
  | some role ↦ grant_paths created now user team role s
]

-- The gate of the routes for session content (packages/backend/src/routes/content.ts): no grant
-- and the admin's grant are answered 403, which is `none` here.
abbrev serves_content : TeamGrant → Bool
serves_content admin_grant = false
serves_content (member_grant role team global_role) = true
serves_content (facilitating_grant session team status role) = true

unfoldable pub content_grant : (ℕ → ℕ) → ℕ → ℕ → ℕ → Store → Option TeamGrant
unfolding team_access
content_grant created now user team s = elim (team_access created now user team s) [
  | none ↦ none
  | some g ↦ if serves_content g then some g else none
]
