-- ===== src/Topics/Defs.antt =====
-- The rows, the replies and the state of the topic routes: the table topics of
-- packages/backend/migrations/2_create_tables.sql with the columns of migrations 16, 17 and 19, the
-- error codes of packages/backend/src/routes/topics.ts and the bodies of
-- packages/shared/src/types/topic.ts.
-- The built-in functions of JavaScript on texts that the code calls are a parameter.
use Prim.Native.String.{String}
use project_dipstick.Base.{ℕ, Bool, ◌&&◌, Option, List, ◌∷◌, ◌==◌}
use project_dipstick.Base.Int.{ℤ}
use project_dipstick.Sessions.Defs.{GlobalRole, Membership, Session, SessionTopic, TopicContent}
use project_dipstick.RateLimit.Windows.{Keys}
use project_dipstick.RateLimit.TopicWrites.{Window}
use project_dipstick.RateLimit.Windows as Windows

-- String.prototype.trim and toLowerCase, the length in UTF-16 units, the replacement of "\r\n" by
-- "\n", and the two regular expressions of the annotation's check.
pub record JsText : Type 0 where
  pub trim : String → String
  pub to_lower : String → String
  pub units : String → ℕ
  pub unify_newlines : String → String
  pub has_disallowed : String → Bool
  pub has_unpaired_surrogate : String → Bool

pub record TopicRow : Type 0 where
  pub id : ℕ
  pub team_id : ℕ
  pub display_order : ℤ
  pub is_active : Bool
  pub is_default : Bool
  pub content : TopicContent
  pub first_session_description : Option String
  pub archived_at : Option ℕ
  pub archived_by : Option ℕ
  pub restored_at : Option ℕ
  pub restored_by : Option ℕ
  pub annotation_updated_at : Option ℕ
  pub annotation_updated_by : Option ℕ

pub record ActionItem : Type 0 where
  pub id : ℕ
  pub session_topic_id : Option ℕ
  pub description : String
  pub is_open : Bool

-- The routes, as the denial rows name them.
pub data Endpoint : Type 0 where
  add assign_defaults archive restore restore_defaults reorder annotate : Endpoint

-- `operation` and `metadata` of an audit row.
pub data TopicOperation : Type 0 where
  custom_added restored : ℕ → TopicOperation
  defaults_assigned : ℕ → TopicOperation
  archived : ℕ → ℕ → TopicOperation
  -- The restored topics with their positions, at most a hundred of the skipped ones, both counts.
  defaults_restored : List (ℕ × ℤ) → List ℕ → ℕ → ℕ → TopicOperation
  reordered : List ℕ → List ℕ → TopicOperation
  -- The topic, whether the annotation is set, and its length.
  annotation_updated : ℕ → Bool → ℕ → TopicOperation
  write_denied_locked write_denied_template : Endpoint → TopicOperation
  -- The window that answers, the windows that start an episode, the count.
  write_rate_limited : Endpoint → Window → List Window → ℕ → TopicOperation
  defaults_assign_denied defaults_assign_failed : TopicOperation

pub record TopicAudit : Type 0 where
  pub actor_user_id : ℕ
  pub actor_global_role : Option GlobalRole
  pub operation : TopicOperation
  pub team_id : ℕ

pub data Field : Type 0 where
  name prompt vote_type first_session_description : Field

pub data TopicBody : Type 0 where
  team_not_found topic_not_found : TopicBody
  not_a_facilitator facilitator_is_team_member not_an_admin : TopicBody
  rate_limited : Window → ℕ → TopicBody
  rate_limit_unavailable : TopicBody
  topic_customization_locked : TopicBody
  validation_failed : Field → TopicBody
  topic_name_active : ℕ → String → TopicBody
  team_has_active_topics default_topics_unavailable : TopicBody
  topic_last_active topic_already_archived topic_already_active : TopicBody
  invalid_topic_order topic_order_stale invalid_annotation : TopicBody
  internal_error : TopicBody
  added : ℕ → ℤ → TopicBody
  assigned : ℕ → TopicBody
  requires_confirmation : List (ℕ × String) → TopicBody
  archived_topic : ℕ → ℕ → TopicBody
  restored_topic : ℕ → String → ℤ → TopicBody
  restored_defaults : List (ℕ × String × ℤ) → List (ℕ × String) → TopicBody
  -- The topics in order, and the opening time of the open session.
  topic_order : List (ℕ × String × ℤ) → Option ℕ → TopicBody
  annotation_of : ℕ → Option String → Option ℕ → Option ℕ → TopicBody

pub record TopicReply : Type 0 where
  pub code : ℕ
  pub body : TopicBody

abbrev pub reply : ℕ → TopicBody → TopicReply
reply c b = record { code = c; body = b }

-- The tables that the routes read and write, and the Redis keys of the two limiters by actor.
-- `next_id` stands for `gen_random_uuid()`.
pub record State : Type 0 where
  pub users : ℕ → Option GlobalRole
  pub teams : List ℕ
  pub memberships : List Membership
  pub sessions : List Session
  -- The column created_at of sessions, by session.
  pub session_created_at : ℕ → ℕ
  pub session_topics : List SessionTopic
  -- In the order of created_at.
  pub action_items : List ActionItem
  pub topics : List TopicRow
  pub audit_log : List TopicAudit
  pub next_id : ℕ
  pub budgets : ℕ → Keys
  pub denial_counts : ℕ → Windows.ZSet

-- What the services answer while a request runs: the clock, whether Redis answers, and whether the
-- audit rows that are written outside of a transaction get through.
pub record World : Type 0 where
  pub now : ℕ
  pub redis_answers : Bool
  -- Whether Redis still runs a call that was given up.
  pub redis_runs_late : Bool
  pub audit_answers : Bool

abbrev pub audit : ℕ → Option GlobalRole → TopicOperation → ℕ → State → State
audit actor role op team s = record s {
  audit_log =
      record { actor_user_id = actor; actor_global_role = role; operation = op; team_id = team }
      ∷ s.audit_log;
}

-- WHERE team_id = $1 AND status = 'active'.
abbrev pub active_in : ℕ → TopicRow → Bool
active_in team t = t.team_id == team && t.is_active

abbrev pub topic_in : ℕ → ℕ → TopicRow → Bool
topic_in team topic t = t.id == topic && t.team_id == team
