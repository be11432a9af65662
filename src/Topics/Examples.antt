-- ===== src/Topics/Examples.antt =====
-- Two teams and the template, for runs of the topic routes (packages/backend/src/routes/topics.ts).
use Prim.Native.String.{String}
use project_dipstick.Base.{
  ℕ, Bool, true, false, refl, Option, none, some, List, [], ◌∷◌, arith, ◌==◌, if◌then◌else◌,
}
use project_dipstick.Base.Int.{pos, is_negative}
use project_dipstick.Sessions.Defs.{GlobalRole, Session, SessionStatus, VoteType}
use project_dipstick.RateLimit.Windows.{empty_keys, empty_zset}
use project_dipstick.Topics.Defs.{JsText, World, State, TopicRow}
use project_dipstick.Topics.Gates.{Ticket}
use project_dipstick.Topics.Tidy.{clashes, IsTidy}
mod Runs
mod Denials

-- Texts that the built-in functions leave alone.
abbrev pub plain_text : JsText
plain_text = record {
  trim = λ s. s;
  to_lower = λ s. s;
  units = λ s. 5;
  unify_newlines = λ s. s;
  has_disallowed = λ s. false;
  has_unpaired_surrogate = λ s. false;
}

abbrev pub row : ℕ → ℕ → ℕ → Bool → Bool → String → TopicRow
row id team order is_active is_default name = record {
  id = id;
  team_id = team;
  display_order = pos order;
  is_active = is_active;
  is_default = is_default;
  content = record { name = name; prompt = "?"; vote_type = VoteType.finger; annotation = none };
  first_session_description = none;
  archived_at = none;
  archived_by = none;
  restored_at = none;
  restored_by = none;
  annotation_updated_at = none;
  annotation_updated_by = none;
}

abbrev pub done_session : Session
done_session = record {
  id = 100;
  team_id = 7;
  facilitator_id = 1;
  status = SessionStatus.complete;
  is_first_session = true;
  current_topic_id = none;
  room_opened_at = none;
  started_at = none;
  voting_started_at = none;
  wrap_up_started_at = none;
  completed_at = some 50;
  facilitator_access_expires_at = none;
}

abbrev pub roles : ℕ → Option GlobalRole
roles u = if u == 1 then some GlobalRole.facilitator else some GlobalRole.application_admin

-- Team 7 has two active topics and two archived defaults, team 8 none.
abbrev pub two_teams : State
two_teams = record {
  users = roles;
  teams = 1 ∷ 7 ∷ 8 ∷ [];
  memberships = [];
  sessions = done_session ∷ [];
  session_created_at = λ s. 0;
  session_topics = [];
  action_items = [];
  topics =
      row 10 7 0 true false "Safety"
      ∷ row 11 7 1 true true "Speed"
      ∷ row 12 7 2 false true "Fun"
      ∷ row 13 7 3 false true "Speed"
      ∷ row 20 1 1 true true "Speed"
      ∷ row 21 1 2 true true "Fun"
      ∷ [];
  audit_log = [];
  next_id = 30;
  budgets = λ u. empty_keys;
  denial_counts = λ u. empty_zset;
}

abbrev pub calm : World
calm = record { now = 60; redis_answers = true; redis_runs_late = false; audit_answers = true }

abbrev pub ticket : ℕ → Ticket
ticket team = record { user = 1; role = GlobalRole.facilitator; team = team }

pub two_teams-IsTidy : (names : Bool) → IsTidy plain_text names two_teams
unfolding clashes is_negative
two_teams-IsTidy true = record {
  apart = (
    (refl, (refl, (refl, (refl, (refl, tt))))),
    (
      (refl, (refl, (refl, (refl, tt)))),
      ((refl, (refl, (refl, tt))), ((refl, (refl, tt)), ((refl, tt), (tt, tt)))),
    ),
  );
  counted = (λ _. refl, (λ _. refl, (λ e. refl, (λ e. refl, (λ _. refl, (λ _. refl, tt))))));
  known =
      (omega arith, (omega arith, (omega arith, (omega arith, (omega arith, (omega arith, tt))))));
}
two_teams-IsTidy false = record {
  apart = (
    (refl, (refl, (refl, (refl, (refl, tt))))),
    (
      (refl, (refl, (refl, (refl, tt)))),
      ((refl, (refl, (refl, tt))), ((refl, (refl, tt)), ((refl, tt), (tt, tt)))),
    ),
  );
  counted = (λ _. refl, (λ _. refl, (λ e. refl, (λ e. refl, (λ _. refl, (λ _. refl, tt))))));
  known =
      (omega arith, (omega arith, (omega arith, (omega arith, (omega arith, (omega arith, tt))))));
}
