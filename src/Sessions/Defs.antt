-- ===== src/Sessions/Defs.antt =====
-- The rows that the session routes read and write, their replies and their published events:
-- packages/backend/migrations/1_create_enums.sql, 2_create_tables.sql and 9_*.sql for the
-- columns, packages/shared/src/types/realtime.ts for the events. An identifier (a UUID) is a
-- number: the code only compares identifiers, and orders those of topics. Two labels are spelled
-- in another way, so that no name stands for two things: `manager` is membership_role's
-- engineering_manager, `done` is session_topic_status's complete. A time is a number of
-- milliseconds. Columns that no route here reads are left out.
use Prim.Native.String.{String}
use project_dipstick.Base.{ℕ, Bool, Option, List, ◌==◌}
use project_dipstick.Base.Int.{ℤ}

-- The `user_role` enum.
pub data GlobalRole : Type 0 where
  engineer senior_engineer facilitator engineering_manager application_admin : GlobalRole

pub data MembershipRole : Type 0 where
  participant manager : MembershipRole

pub data SessionStatus : Type 0 where
  draft lobby pre_session active wrap_up complete abandoned : SessionStatus

pub data TopicPhase : Type 0 where
  waiting voting revealed done : TopicPhase

pub data VoteType : Type 0 where
  finger roman modified_roman : VoteType

-- `===` on the labels of the enums.
abbrev pub role_code : GlobalRole → ℕ
role_code engineer = 0
role_code senior_engineer = 1
role_code facilitator = 2
role_code engineering_manager = 3
role_code application_admin = 4

abbrev pub role_is : GlobalRole → GlobalRole → Bool
role_is a b = role_code a == role_code b

abbrev pub status_code : SessionStatus → ℕ
status_code draft = 0
status_code lobby = 1
status_code pre_session = 2
status_code active = 3
status_code wrap_up = 4
status_code complete = 5
status_code abandoned = 6

abbrev pub status_is : SessionStatus → SessionStatus → Bool
status_is a b = status_code a == status_code b

abbrev pub phase_code : TopicPhase → ℕ
phase_code waiting = 0
phase_code voting = 1
phase_code revealed = 2
phase_code done = 3

abbrev pub phase_is : TopicPhase → TopicPhase → Bool
phase_is a b = phase_code a == phase_code b

pub record Membership : Type 0 where
  pub user_id : ℕ
  pub team_id : ℕ
  pub role : MembershipRole
  pub removed_at : Option ℕ

-- The columns that a session copies from a topic.
pub record TopicContent : Type 0 where
  pub name : String
  pub prompt : String
  pub vote_type : VoteType
  pub annotation : Option String

pub record Topic : Type 0 where
  pub id : ℕ
  pub team_id : ℕ
  pub display_order : ℕ
  pub is_active : Bool
  pub content : TopicContent
  pub first_session_description : Option String

pub record Session : Type 0 where
  pub id : ℕ
  pub team_id : ℕ
  pub facilitator_id : ℕ
  pub status : SessionStatus
  pub is_first_session : Bool
  pub current_topic_id : Option ℕ
  pub room_opened_at : Option ℕ
  pub started_at : Option ℕ
  pub voting_started_at : Option ℕ
  pub wrap_up_started_at : Option ℕ
  pub completed_at : Option ℕ
  pub facilitator_access_expires_at : Option ℕ

pub record SessionTopic : Type 0 where
  pub id : ℕ
  pub session_id : ℕ
  pub topic_id : ℕ
  pub display_order : ℕ
  pub content : TopicContent
  pub phase : TopicPhase
  pub revealed_at : Option ℕ
  pub completed_at : Option ℕ

pub record Vote : Type 0 where
  pub id : ℕ
  pub session_id : ℕ
  pub value : ℤ
  pub vote_type : VoteType
  pub revealed_at : ℕ

-- `operation` and `metadata` of an audit row.
pub data Operation : Type 0 where
  participant_registration_rejected participant_registered : ℕ → Operation
  vote_submitted : ℕ → ℕ → Operation
  advance_denied_role : ℕ → Operation
  -- The session, the two statuses, the topics of a new snapshot, the topic just completed.
  state_changed : ℕ → SessionStatus → SessionStatus → List ℕ → Option ℕ → Operation
  topic_advanced : ℕ → ℕ → ℕ → Operation
  reveal_triggered : ℕ → Operation
  template_access_denied : ℕ → Operation

-- `actor_global_role` is `none` where the code writes "unknown".
pub record AuditRow : Type 0 where
  pub actor_user_id : ℕ
  pub actor_global_role : Option GlobalRole
  pub operation : Operation
  pub team_id : ℕ

pub data WsEvent : Type 0 where
  vote_readiness_update : ℕ → ℕ → ℕ → WsEvent
  session_state_change : ℕ → ℕ → SessionStatus → SessionStatus → WsEvent
  vote_revealed : ℕ → SessionStatus → WsEvent
  topic_history_update : ℕ → ℕ → ℕ → WsEvent
