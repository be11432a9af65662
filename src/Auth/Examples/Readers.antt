-- ===== src/Auth/Examples/Readers.antt =====
-- Runs of evaluateTeamAccess (packages/backend/src/auth/team-content-access-helper.ts) and of the
-- content routes' gate, and their theorem applied.
use project_dipstick.Base.{
  ℕ, true, false, ◌≡◌, ◌↔◌, refl, Option, none, some, [], ◌∷◌, ◌==◌, if◌then◌else◌, find_row,
}
use project_dipstick.Sessions.Defs.{GlobalRole, participant, manager, Session, SessionStatus}
use project_dipstick.Sessions.Store.{Store}
use project_dipstick.Auth.TeamAccess.{
  admin_grant, member_grant, facilitating_grant, team_access, content_grant,
}
use project_dipstick.Auth.TeamScopes.{
  is_granted, manages, MayRead, IsTeamManager, content_grant-MayRead,
}

abbrev known_roles : ℕ → Option GlobalRole
known_roles u =
    if u == 1
    then some GlobalRole.engineer
    else if u == 2
    then some GlobalRole.facilitator
    else if u == 3
    then some GlobalRole.application_admin
    else none

abbrev draft_session : Session
draft_session = record {
  id = 100;
  team_id = 7;
  facilitator_id = 2;
  status = SessionStatus.draft;
  is_first_session = true;
  current_topic_id = none;
  room_opened_at = none;
  started_at = none;
  voting_started_at = none;
  wrap_up_started_at = none;
  completed_at = none;
  facilitator_access_expires_at = none;
}

-- User 1 was a manager once; user 2 has made a draft session of team 7 at the time 1000.
abbrev readers : Store
readers = record {
  users = known_roles;
  memberships = record { user_id = 1; team_id = 7; role = manager; removed_at = none } ∷ [];
  topics = [];
  sessions = draft_session ∷ [];
  session_topics = [];
  participants = λ s u. false;
  votes = λ t u. none;
  audit_log = [];
  next_id = 200;
  facilitator_connected = λ s. none;
  denial_slots = λ u e. none;
  published = [];
}

abbrev drafted_at : ℕ → ℕ
drafted_at s = 1000

demoted_test :
    team_access drafted_at 5000 1 7 readers ≡ some (member_grant participant 7 GlobalRole.engineer)
unfolding team_access find_row
demoted_test = refl

draft_test :
    team_access drafted_at 5000 2 7 readers
    ≡ some (facilitating_grant 100 7 SessionStatus.draft GlobalRole.facilitator)
unfolding team_access find_row
draft_test = refl

stale_draft_test : team_access drafted_at 86401000 2 7 readers ≡ none
unfolding team_access find_row
stale_draft_test = refl

admin_test :
    (team_access drafted_at 5000 3 7 readers ≡ some admin_grant)
    × (content_grant drafted_at 5000 3 7 readers ≡ none)
unfolding content_grant team_access find_row
admin_test = (refl, refl)

content_grant-MayRead_example :
    ((is_granted (content_grant drafted_at 5000 2 7 readers) ≡ true)
      ↔ MayRead drafted_at 5000 2 7 readers)
    × (manages (content_grant drafted_at 5000 2 7 readers) ≡ true → IsTeamManager 2 7 readers)
content_grant-MayRead_example = content_grant-MayRead drafted_at 5000 2 7 readers
