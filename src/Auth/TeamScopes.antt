-- ===== src/Auth/TeamScopes.antt =====
-- The reach of a team's session content under evaluateTeamAccess
-- (packages/backend/src/auth/team-content-access-helper.ts) and the gate of the routes for it
-- (packages/backend/src/routes/content.ts).
use mathlib.Core.List.{Memᴰ}
use project_dipstick.Base.{
  ℕ, ◌+◌, ◌<◌, Bool, true, false, ◌≡◌, ◌≢◌, ◌↔◌, ◌⊎◌, inl, inr, Option, none, some, arith, find_row,
  find_row-holds, find_row-Mem, find_row-found, Bool-cases, Option-cases,
}
use project_dipstick.Sessions.Defs.{
  GlobalRole, participant, manager, Membership, Session, SessionStatus, role_is, status_is,
}
use project_dipstick.Sessions.Access.{is_live_status}
use project_dipstick.Sessions.Listeners.{IsLive}
use project_dipstick.Sessions.Store.{Store}
use project_dipstick.Auth.TeamAccess.{
  TeamGrant, admin_grant, member_grant, facilitating_grant, is_current_member, facilitates,
  facilitator_path, member_path, grant_paths, team_access, content_grant,
}

abbrev pub is_granted : Option TeamGrant → Bool
is_granted none = false
is_granted (some g) = true

-- The caller reads with the rights of the team's manager.
abbrev pub manages : Option TeamGrant → Bool
manages none = false
manages (some admin_grant) = false
manages (some (facilitating_grant session team status role)) = false
manages (some (member_grant participant team role)) = false
manages (some (member_grant manager team role)) = true

-- A membership of the user in the team that is not removed.
pub record IsTeamMember (user team : ℕ) (s : Store) (m : Membership) : Type 0 where
  pub is_stored : Memᴰ m s.memberships
  pub of_user : m.user_id ≡ user
  pub of_team : m.team_id ≡ team
  pub present : m.removed_at ≡ none

-- Open, a draft of the last 24 hours, or complete with a date of its access still to come.
abbrev pub IsWithinReach : (ℕ → ℕ) → ℕ → Session → Type 0
IsWithinReach created now r =
    IsLive r.status
    ⊎ ((r.status ≡ SessionStatus.draft) × (now < created r.id + 86400000))
    ⊎ ((r.status ≡ SessionStatus.complete)
        × (t : ℕ) × (r.facilitator_access_expires_at ≡ some t)
        × (now < t))

-- A session of the team that the user facilitates, and that is within reach.
pub record IsFacilitated (created : ℕ → ℕ) (now user team : ℕ) (s : Store) (r : Session)
    : Type 0 where
  pub is_stored : Memᴰ r s.sessions
  pub of_user : r.facilitator_id ≡ user
  pub of_team : r.team_id ≡ team
  pub within_reach : IsWithinReach created now r

-- Who may read a team's session content.
abbrev pub MayRead : (ℕ → ℕ) → ℕ → ℕ → ℕ → Store → Type 0
MayRead created now user team s =
    (role : GlobalRole) × (s.users user ≡ some role)
    × (role ≢ GlobalRole.application_admin)
    × (((m : Membership) × IsTeamMember user team s m)
        ⊎ ((r : Session) × IsFacilitated created now user team s r))

-- A manager of the team, by their own role and by a current membership.
abbrev pub IsTeamManager : ℕ → ℕ → Store → Type 0
IsTeamManager user team s =
    (s.users user ≡ some GlobalRole.engineering_manager)
    × (m : Membership) × IsTeamMember user team s m
    × (m.role ≡ manager)

module _ (user team : ℕ) (s : Store) (m : Membership) where
  find_row-IsTeamMember :
      find_row (is_current_member user team) s.memberships ≡ some m → IsTeamMember user team s m
  find_row-IsTeamMember found =
      let passes = find_row-holds (is_current_member user team) s.memberships m found in
      record {
        is_stored = find_row-Mem (is_current_member user team) s.memberships m found;
        of_user = ground (arith, passes);
        of_team = ground (arith, passes);
        present = ground (arith, passes);
      }

  IsTeamMember-found :
      IsTeamMember user team s m
      → (y : Membership) × (find_row (is_current_member user team) s.memberships ≡ some y)
  IsTeamMember-found h =
      find_row-found (is_current_member user team) s.memberships m h.is_stored
        (ground (arith, h.of_user, h.of_team, h.present))

module _ (created : ℕ → ℕ) (now user team : ℕ) (r : Session) where
  facilitates-IsWithinReach :
      facilitates created now user team r ≡ true → IsWithinReach created now r
  facilitates-IsWithinReach h = elim (Bool-cases (is_live_status r.status)) [
    | inl live ↦ inl (ground arith)
    | inr shut ↦ elim (Bool-cases (status_is r.status SessionStatus.draft)) [
      | inl drafted ↦ inr (inl (ground arith, ground arith))
      | inr other ↦ elim (Option-cases r.facilitator_access_expires_at) [
        | inl no_date ↦ absurd (ground arith)
        | inr (t, e) ↦ inr (inr (ground arith, t, e, ground arith))
      ]
    ]
  ]

  IsWithinReach-facilitates :
      r.facilitator_id ≡ user
      → r.team_id ≡ team
      → IsWithinReach created now r
      → facilitates created now user team r ≡ true
  IsWithinReach-facilitates own of_team within = ground arith

module _ (created : ℕ → ℕ) (now user team : ℕ) (s : Store) (r : Session) where
  find_row-IsFacilitated :
      find_row (facilitates created now user team) s.sessions ≡ some r
      → IsFacilitated created now user team s r
  find_row-IsFacilitated found =
      let passes = find_row-holds (facilitates created now user team) s.sessions r found in
      record {
        is_stored = find_row-Mem (facilitates created now user team) s.sessions r found;
        of_user = ground (arith, passes);
        of_team = ground (arith, passes);
        within_reach = facilitates-IsWithinReach created now user team r passes;
      }

  IsFacilitated-found :
      IsFacilitated created now user team s r
      → (y : Session) × (find_row (facilitates created now user team) s.sessions ≡ some y)
  IsFacilitated-found h =
      find_row-found (facilitates created now user team) s.sessions r h.is_stored
        (IsWithinReach-facilitates created now user team r h.of_user h.of_team h.within_reach)

module _ (created : ℕ → ℕ) (now user team : ℕ) (s : Store) where
  granted-MayRead :
      is_granted (content_grant created now user team s) ≡ true → MayRead created now user team s
  unfolding content_grant team_access grant_paths facilitator_path
  granted-MayRead h = elim (Option-cases (s.users user)) [
    | inl unknown ↦ absurd (ground arith)
    | inr (role, known) ↦ elim (Bool-cases (role_is role GlobalRole.application_admin)) [
      | inl admin ↦ absurd (ground arith)
      | inr other ↦ elim (Option-cases (find_row (is_current_member user team) s.memberships)) [
        | inr (m, found) ↦
            (role, known, ground arith, inl (m, find_row-IsTeamMember user team s m found))
        | inl no_member ↦
            elim (Option-cases (find_row (facilitates created now user team) s.sessions)) [
              | inl no_session ↦ absurd (ground arith)
              | inr (r, found) ↦ (
                role,
                known,
                ground arith,
                inr (r, find_row-IsFacilitated created now user team s r found),
              )
            ]
      ]
    ]
  ]

  member-granted :
      (role : GlobalRole) (m : Membership)
      → s.users user ≡ some role
      → role ≢ GlobalRole.application_admin
      → find_row (is_current_member user team) s.memberships ≡ some m
      → is_granted (content_grant created now user team s) ≡ true
  unfolding content_grant team_access grant_paths member_path
  member-granted role m known not_admin found = ground arith

  facilitator-granted :
      (role : GlobalRole) (r : Session)
      → s.users user ≡ some role
      → role ≢ GlobalRole.application_admin
      → find_row (facilitates created now user team) s.sessions ≡ some r
      → is_granted (content_grant created now user team s) ≡ true
  unfolding content_grant team_access grant_paths member_path facilitator_path
  facilitator-granted role r known not_admin found = ground arith

  MayRead-granted :
      MayRead created now user team s → is_granted (content_grant created now user team s) ≡ true
  MayRead-granted (role, known, not_admin, inl (m, member)) =
      let (y, found) = IsTeamMember-found user team s m member in
      member-granted role y known not_admin found
  MayRead-granted (role, known, not_admin, inr (r, facilitated)) =
      let (y, found) = IsFacilitated-found created now user team s r facilitated in
      facilitator-granted role y known not_admin found

  manages-IsTeamManager :
      manages (content_grant created now user team s) ≡ true → IsTeamManager user team s
  unfolding content_grant team_access grant_paths facilitator_path member_path
  manages-IsTeamManager h = elim (Option-cases (s.users user)) [
    | inl unknown ↦ absurd (ground arith)
    | inr (role, known) ↦
        elim (Option-cases (find_row (is_current_member user team) s.memberships)) [
          | inl no_member ↦ absurd (ground arith)
          | inr (m, found) ↦
              (ground arith, m, find_row-IsTeamMember user team s m found, ground arith)
        ]
  ]

  -- The routes for a team's session content serve a user exactly when the user is known, is no
  -- application admin, and is a current member of the team, or the facilitator of a session of the
  -- team that is open, a draft of the last 24 hours, or complete and not past the date of its
  -- access. They serve it as to the team's manager only if the user is an engineering manager by
  -- their own role and by a current membership.
  pub content_grant-MayRead :
      ((is_granted (content_grant created now user team s) ≡ true)
        ↔ MayRead created now user team s)
      × (manages (content_grant created now user team s) ≡ true → IsTeamManager user team s)
  content_grant-MayRead = ((granted-MayRead, MayRead-granted), manages-IsTeamManager)
