-- ===== src/Realtime/Dispatch.antt =====
-- Delivery of the session-scoped events to a pod's connections
-- (packages/backend/src/realtime/ws-event-dispatcher.ts). Every candidate is authorised on its own,
-- at the moment of the delivery. The candidates are served in order here; the source awaits them
-- together. The payload of `vote_revealed`, which is built for each grant, is shown by that grant.
use project_dipstick.Base.{
  ℕ, Bool, true, false, ◌&&◌, ◌||◌, Option, none, some, [], ◌∷◌, if◌then◌else◌,
}
use project_dipstick.Realtime.Registry.{
  Scope, Connection, ConnectionSet, SubscriberPath, Hub, candidates, safe_send,
  is_past_absolute_lifetime,
}
use project_dipstick.Sessions.Access.{
  Grant, facilitator_grant, participant_grant, subscriber_access,
}
use project_dipstick.Sessions.Defs.{Session, SessionStatus, status_is}
use project_dipstick.Sessions.Store.{Store, find_session}

-- WsEventEnvelope, with the session first. The events of a team's scope are left out.
pub data Envelope : Type 0 where
  -- The session topic and the voter.
  vote_readiness_update : ℕ → ℕ → ℕ → Envelope
  session_state_change : ℕ → SessionStatus → SessionStatus → Envelope
  vote_revealed : ℕ → SessionStatus → ℕ → Envelope
  participant_joined participant_left : ℕ → ℕ → Envelope
  -- The status that the publisher saw, and the action item.
  action_item_status_updated : ℕ → SessionStatus → ℕ → Envelope
  facilitator_connection_status : ℕ → Bool → Envelope

-- WsClientMessage: what was published, and for a revealed vote the grant and the status
-- that its payload is built from.
pub data Message : Type 0 where
  forwarded : Envelope → Message
  revealed_for : Grant → SessionStatus → ℕ → Message

abbrev pub session_of : Envelope → ℕ
session_of (vote_readiness_update s t u) = s
session_of (session_state_change s a b) = s
session_of (vote_revealed s a t) = s
session_of (participant_joined s u) = s
session_of (participant_left s u) = s
session_of (action_item_status_updated s a i) = s
session_of (facilitator_connection_status s c) = s

abbrev is_voting_phase : SessionStatus → Bool
is_voting_phase st = status_is st SessionStatus.pre_session || status_is st SessionStatus.active

-- The test of the grant in each handler.
unfoldable pub may_receive : Envelope → Grant → Bool
may_receive (vote_readiness_update s t u) (facilitator_grant i tm st r) = is_voting_phase st
may_receive (vote_readiness_update s t u) (participant_grant i tm r) = false
may_receive (participant_joined s u) (facilitator_grant i tm st r) = true
may_receive (participant_joined s u) (participant_grant i tm r) = false
may_receive (participant_left s u) (facilitator_grant i tm st r) = true
may_receive (participant_left s u) (participant_grant i tm r) = false
may_receive (session_state_change s a b) g = true
may_receive (vote_revealed s a t) g = true
may_receive (action_item_status_updated s a i) g = true
may_receive (facilitator_connection_status s c) g = true

unfoldable pub message_for : Envelope → Grant → Message
message_for (vote_revealed s a t) g = revealed_for g a t
message_for (vote_readiness_update s t u) g = forwarded (vote_readiness_update s t u)
message_for (session_state_change s a b) g = forwarded (session_state_change s a b)
message_for (participant_joined s u) g = forwarded (participant_joined s u)
message_for (participant_left s u) g = forwarded (participant_left s u)
message_for (action_item_status_updated s a i) g = forwarded (action_item_status_updated s a i)
message_for (facilitator_connection_status s c) g = forwarded (facilitator_connection_status s c)

-- A facilitator's own connection is not told of its own connection status.
is_own_path : Option SubscriberPath → Bool
is_own_path none = false
is_own_path (some SubscriberPath.facilitator) = true
is_own_path (some SubscriberPath.participant) = false

unfoldable pub skips : Envelope → Connection → Bool
unfolding is_own_path
skips (facilitator_connection_status s x) c = is_own_path c.subscriber_path
skips (vote_readiness_update s t u) c = false
skips (session_state_change s a b) c = false
skips (vote_revealed s a t) c = false
skips (participant_joined s u) c = false
skips (participant_left s u) c = false
skips (action_item_status_updated s a i) c = false

abbrev status_now : ℕ → Store → Option Session
status_now session s = find_session session s.sessions

is_pre_session : Option Session → Bool
is_pre_session none = false
is_pre_session (some r) = status_is r.status SessionStatus.pre_session

-- An action item's update is broadcast in pre_session only, by the publisher's view and by the
-- database's.
unfoldable pub is_current : Envelope → Store → Bool
unfolding is_pre_session
is_current (action_item_status_updated k a i) s =
    status_is a SessionStatus.pre_session && is_pre_session (status_now k s)
is_current (facilitator_connection_status k x) s = true
is_current (vote_readiness_update k t u) s = true
is_current (session_state_change k a b) s = true
is_current (vote_revealed k a t) s = true
is_current (participant_joined k u) s = true
is_current (participant_left k u) s = true

offer : Envelope → Connection → Option Grant → Hub Message → Hub Message
unfolding may_receive message_for safe_send
offer e c none h = h
offer e c (some g) h =
    if may_receive e g then (safe_send Scope.session (session_of e) c (message_for e g) h).0 else h

-- One candidate.
unfoldable pub deliver : ℕ → Envelope → Store → Connection → Hub Message → Hub Message
unfolding offer skips is_past_absolute_lifetime
deliver now e s c h =
    if skips e c || is_past_absolute_lifetime now c
    then h
    else offer e c (subscriber_access c.user_id (session_of e) s) h

unfoldable pub deliver_all : ℕ → Envelope → Store → ConnectionSet → Hub Message → Hub Message
deliver_all now e s [] h = h
deliver_all now e s (c ∷ cs) h = deliver_all now e s cs (deliver now e s c h)

unfoldable pub dispatch : ℕ → Envelope → Store → Hub Message → Hub Message
unfolding deliver_all is_current
dispatch now e s h =
    if is_current e s then deliver_all now e s (candidates Scope.session (session_of e) h) h else h
