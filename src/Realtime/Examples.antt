-- ===== src/Realtime/Examples.antt =====
-- A hub of two connections, an event dispatched to it, and the theorems applied to them.
use project_dipstick.Base.{
  true, false, ◌≡◌, refl, ◌⊎◌, none, some, [], ◌∷◌, ◌==◌, not, ◌&&◌, ◌||◌, if◌then◌else◌, map_get,
  map_set,
}
use mathlib.Core.List.{Memᴰ}
use project_dipstick.Realtime.Delivery.{IsEntitled, dispatch-sent, dispatch-reaches}
use project_dipstick.Realtime.Dispatch.{
  Envelope, Message, forwarded, vote_readiness_update, deliver, message_for, may_receive, skips,
  dispatch,
}
use project_dipstick.Realtime.Membership.{candidates-register, candidates-deregister, same_scope}
use project_dipstick.Realtime.Registry.{
  Scope, Connection, Hub, SubscriberPath, no_timers, has, register, deregister, candidates,
  is_past_absolute_lifetime,
}
use project_dipstick.Sessions.Access.{facilitator_grant, subscriber_access}
use project_dipstick.Sessions.Defs.{GlobalRole, Session, SessionStatus}
use project_dipstick.Sessions.Store.{Store, find_session}

realtime : Unit {0}
unfolding dispatch register deregister candidates subscriber_access find_session
    is_past_absolute_lifetime may_receive skips deliver message_for map_get map_set
realtime = tt

abbrev active_session : Session
active_session = record {
  id = 10;
  team_id = 2;
  facilitator_id = 5;
  status = SessionStatus.active;
  is_first_session = false;
  current_topic_id = some 20;
  room_opened_at = none;
  started_at = none;
  voting_started_at = none;
  wrap_up_started_at = none;
  completed_at = none;
  facilitator_access_expires_at = none;
}

-- The facilitator 5 is known, the participant 6 has lost its membership.
abbrev store : Store
store = record {
  users = λ u.
      if u == 5
      then some GlobalRole.facilitator
      else if u == 6
      then some GlobalRole.engineer
      else none;
  memberships = [];
  topics = [];
  sessions = active_session ∷ [];
  session_topics = [];
  participants = λ k u. true;
  votes = λ k u. none;
  audit_log = [];
  next_id = 1;
  facilitator_connected = λ k. none;
  denial_slots = λ a e. none;
  published = [];
}

abbrev empty_hub : Hub Message
empty_hub = record {
  by_session = [];
  by_team = [];
  timers = λ c. no_timers;
  cleared = [];
  ready_state = λ c. 1;
  send_throws = λ c. false;
  sent = [];
}

abbrev leader : Connection
leader = record {
  id = 1;
  user_id = 5;
  session_created_at = 0;
  subscriber_path = some SubscriberPath.facilitator;
}

abbrev former_member : Connection
former_member = record {
  id = 2;
  user_id = 6;
  session_created_at = 0;
  subscriber_path = some SubscriberPath.participant;
}

abbrev hub : Hub Message
hub = register Scope.session 10 former_member (register Scope.session 10 leader empty_hub)

abbrev vote_event : Envelope
vote_event = vote_readiness_update 10 100 6

-- Only the facilitator hears of the vote.
dispatch_test : (dispatch 7 vote_event store hub).sent ≡ (1, forwarded vote_event) ∷ []
unfolding realtime
dispatch_test = refl

candidates-register_example :
    has 1 (candidates Scope.session 10 (register Scope.session 10 leader empty_hub)) ≡ (
      (same_scope Scope.session Scope.session && 10 == 10 && leader.id == 1)
      || has 1 (candidates Scope.session 10 empty_hub))
candidates-register_example =
    candidates-register Scope.session Scope.session 10 10 1 leader empty_hub

candidates-deregister_example :
    has 1 (candidates Scope.session 10 (deregister Scope.session 10 1 hub)) ≡ (
      has 1 (candidates Scope.session 10 hub)
      && not (same_scope Scope.session Scope.session && 10 == 10 && 1 == 1))
candidates-deregister_example = candidates-deregister Scope.session Scope.session 10 10 1 1 hub

is_sent : Memᴰ (1, forwarded vote_event) (dispatch 7 vote_event store hub).sent
unfolding realtime
is_sent = Memᴰ.head refl

dispatch-sent_example :
    Memᴰ (1, forwarded vote_event) hub.sent
    ⊎ ((c : Connection) × Memᴰ c (candidates Scope.session 10 hub)
        × (c.id ≡ 1)
        × IsEntitled 7 vote_event store c (forwarded vote_event))
dispatch-sent_example = dispatch-sent 7 vote_event store hub 1 (forwarded vote_event) is_sent

entitled : IsEntitled 7 vote_event store leader (forwarded vote_event)
unfolding realtime
entitled = record {
  grant = facilitator_grant 10 2 SessionStatus.active GlobalRole.facilitator;
  granted = refl;
  allowed = refl;
  in_time = refl;
  not_skipped = refl;
  is_message = refl;
}

is_held : Memᴰ leader (candidates Scope.session 10 hub)
unfolding realtime
is_held = Memᴰ.head refl

dispatch-reaches_example : Memᴰ (1, forwarded vote_event) (dispatch 7 vote_event store hub).sent
unfolding realtime
dispatch-reaches_example =
    dispatch-reaches 7 vote_event store hub leader (forwarded vote_event) refl is_held (refl, refl)
      entitled
