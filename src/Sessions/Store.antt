-- ===== src/Sessions/Store.antt =====
-- The store that the session routes share: the tables of the database, the Redis keys that these
-- routes touch, and the events published so far. `next_id` stands for `gen_random_uuid()`, of
-- which the code relies on one thing, that no value comes twice.
use project_dipstick.Base.{
  ℕ, ◌+◌, Bool, true, ◌&&◌, not, Option, none, some, List, ◌∷◌, ◌==◌, ltb, if◌then◌else◌, find_row,
  update_rows,
}
use project_dipstick.Sessions.Defs.{
  GlobalRole, Membership, Topic, Session, SessionTopic, Vote, AuditRow, Operation, WsEvent,
  template_access_denied,
}

pub record Store : Type 0 where
  pub users : ℕ → Option GlobalRole
  pub memberships : List Membership
  pub topics : List Topic
  pub sessions : List Session
  pub session_topics : List SessionTopic
  -- By session and user: the unique key of session_participants.
  pub participants : ℕ → ℕ → Bool
  -- By session topic and voter: the unique key of votes.
  pub votes : ℕ → ℕ → Option Vote
  pub audit_log : List AuditRow
  pub next_id : ℕ
  -- Redis: by session, the facilitator-connected flag; by actor and endpoint, the time at which
  -- the slot for a template refusal's audit row runs out.
  pub facilitator_connected : ℕ → Option Bool
  pub denial_slots : ℕ → ℕ → Option ℕ
  -- The newest first.
  pub published : List WsEvent

unfoldable pub find_session : ℕ → List Session → Option Session
unfolding find_row
find_session id rows = find_row (λ r. r.id == id) rows

abbrev pub find_session_topic : ℕ → ℕ → Store → Option SessionTopic
find_session_topic session topic s =
    find_row (λ r. r.session_id == session && r.topic_id == topic) s.session_topics

abbrev pub find_membership : ℕ → ℕ → Store → Option Membership
find_membership user team s = find_row (λ m. m.user_id == user && m.team_id == team) s.memberships

abbrev pub set_session : ℕ → (Session → Session) → Store → Store
set_session id f s = record s { sessions = update_rows (λ r. r.id == id) f s.sessions }

abbrev pub set_topics : (SessionTopic → Bool) → (SessionTopic → SessionTopic) → Store → Store
set_topics p f s = record s { session_topics = update_rows p f s.session_topics }

abbrev pub audit : ℕ → Option GlobalRole → Operation → ℕ → Store → Store
audit actor role op team s = record s {
  audit_log =
      record { actor_user_id = actor; actor_global_role = role; operation = op; team_id = team }
      ∷ s.audit_log;
}

abbrev pub publish : WsEvent → Store → Store
publish e s = record s { published = e ∷ s.published }

-- Every handler reads first and then runs one transaction. A refused check may have written an
-- audit row already, so it carries the store.
pub data Checked (T : Type 0) (R : Type 0) : Type 0 where
  refused : Store → R → Checked T R
  granted : T → Checked T R

abbrev pub after_check : {T R : Type 0} → Checked T R → (T → Store × R) → Store × R
after_check (refused s r) k = (s, r)
after_check (granted t) k = k t

-- DEFAULT_TOPICS_TEAM_ID.
abbrev pub template_team : ℕ
template_team = 1

abbrev pub is_template_team : ℕ → Bool
is_template_team id = id == template_team

abbrev pub denial_window_ms : ℕ
denial_window_ms = 60000

slot_is_free : Option ℕ → ℕ → Bool
slot_is_free none now = true
slot_is_free (some until) now = not (ltb now until)

-- One audit row at most for each actor and endpoint in a window; a caller with no users row leaves
-- none.
unfoldable pub write_template_denial : ℕ → ℕ → ℕ → Store → Store
unfolding slot_is_free
write_template_denial actor endpoint now s = elim (s.users actor) [
  | none ↦ s
  | some role ↦
      if slot_is_free (s.denial_slots actor endpoint) now
      then audit actor (some role) (template_access_denied endpoint) template_team (record s {
        denial_slots = λ a e.
            if a == actor && e == endpoint
            then some (now + denial_window_ms)
            else s.denial_slots a e;
      })
      else s
]
