-- ===== src/Sessions/Replies.antt =====
-- The replies of the session routes: the HTTP code and what the body says. A fixed message is a
-- constructor, a value that the body carries is its argument.
use Prim.Native.String.{String}
use project_dipstick.Base.{ℕ, Bool, Option}
use project_dipstick.Sessions.Defs.{SessionStatus, TopicContent}

pub data Body : Type 0 where
  session_not_found user_not_found wrong_team not_facilitator internal_error unknown_status : Body
  wrong_status : SessionStatus → Body
  -- POST participants
  registration_closed not_eligible : Body
  participant_result : ℕ → Bool → Body
  -- POST lock-in
  session_or_topic_not_found session_not_active voting_not_open voting_closed : Body
  not_eligible_to_vote not_registered : Body
  vote_locked_in : ℕ → Body
  -- POST advance (room opening), start, begin-voting, complete
  role_not_facilitator no_topics_configured : Body
  no_active_topics : Bool → Body
  room_opened started completed : ℕ → Body
  voting_begun : ℕ → ℕ → TopicContent → Option String → ℕ → Body
  -- POST reveal: whether the failure is recoverable, and the status shown
  reveal_failed : Bool → Option SessionStatus → Body
  already_revealed : Option ℕ → ℕ → Body
  votes_revealed : SessionStatus → Body
  -- POST topics/advance
  advance_impossible : SessionStatus → Body
  advance_blocked : Option ℕ → Body
  topic_advanced : ℕ → ℕ → TopicContent → Body
  wrap_up_entered : ℕ → ℕ → Body

pub record Reply : Type 0 where
  pub code : ℕ
  pub body : Body

abbrev pub reply : ℕ → Body → Reply
reply c b = record { code = c; body = b }
