-- ===== src/Sessions/Examples.antt =====
-- A small store, requests run on it.
mod Votes
mod Lifecycles
mod Members
use Prim.Native.String.{String}
use project_dipstick.Base.{
  ℕ, true, false, ◌≡◌, ◌≢◌, refl, ◌⊎◌, ◌↔◌, inl, inr, Option, none, some, List, [], ◌∷◌, arith,
  ◌==◌, if◌then◌else◌, select_rows, update_rows,
}
use project_dipstick.Base.Int.{pos}
use project_dipstick.Sessions.Access.{Grant, facilitator_grant, subscriber_access}
use project_dipstick.Sessions.Advance.{advance_topic}
use project_dipstick.Sessions.Ballots.{
  CanVote, IsCast, lock_in-code_iff, lock_in-IsCast, lock_in-refused,
}
use project_dipstick.Sessions.Defs.{
  GlobalRole, Membership, MembershipRole, Session, SessionStatus, SessionTopic, TopicContent,
  TopicPhase, VoteType, Topic,
}
use project_dipstick.Sessions.Frozen.{IsOpenTopic, Step-votes}
use project_dipstick.Sessions.Lifecycle.{AllSound, Follows, IsSound}
use project_dipstick.Sessions.Listeners.{MayListen, subscriber_access_iff}
use project_dipstick.Sessions.LockIn.{LockIn, VoteTicket, lock_in, topic_by_id, commit_lock_in}
use project_dipstick.Sessions.Progress.{handle-Follows, run-IsSound, run-final}
use project_dipstick.Sessions.Races.{commit_start-resets, commit_begin_voting-reopens}
use project_dipstick.Sessions.Registration.{is_eligible_voter, register_participant}
use project_dipstick.Sessions.Snapshot.{
  precedes, insert_topic, has_collision, snapshot_session_topics,
}
use project_dipstick.Sessions.Replies
use project_dipstick.Sessions.Replies.{reply}
use project_dipstick.Sessions.Reveal.{RevealTicket, commit_reveal}
use project_dipstick.Sessions.Reveals.{
  IsAdvanceable, commit_reveal_twice, advance_topic-needs_reveal, advance_topic-refused,
}
use project_dipstick.Sessions.Start.{
  StartTicket, commit_start, start_row, commit_begin_voting, activate, first_topic,
}
use project_dipstick.Sessions.Steps.{
  Request, registers, locks_in, opens_room, starts, begins_voting, reveals, advances, completes,
  locking_in, run, handle, commit, commits,
}
use project_dipstick.Sessions.Store.{Store, find_session}
use project_dipstick.Sessions.Voters.{
  IsVoter, IsRegistrable, is_eligible_voter_iff, register-participants, register-accepts,
  register_twice,
}

routes : Unit {0}
unfolding run handle find_session lock_in commit_lock_in advance_topic register_participant
    subscriber_access commit_reveal commit_start commit_begin_voting first_topic commit
    snapshot_session_topics select_rows insert_topic precedes has_collision update_rows
    is_eligible_voter
routes = tt

abbrev content : String → TopicContent
content name = record {
  name = name;
  prompt = "How is it?";
  vote_type = VoteType.finger;
  annotation = none;
}

-- Team 2 has two active topics, 20 and 21, and the member 6; its session 10 is led by 5.
abbrev topic : ℕ → ℕ → Topic
topic id order = record {
  id = id;
  team_id = 2;
  display_order = order;
  is_active = true;
  content = content "Delivery";
  first_session_description = some "Ship it";
}

abbrev draft_session : Session
draft_session = record {
  id = 10;
  team_id = 2;
  facilitator_id = 5;
  status = SessionStatus.draft;
  is_first_session = true;
  current_topic_id = none;
  room_opened_at = none;
  started_at = none;
  voting_started_at = none;
  wrap_up_started_at = none;
  completed_at = none;
  facilitator_access_expires_at = none;
}

abbrev users : ℕ → Option GlobalRole
users u =
    if u == 5
    then some GlobalRole.facilitator
    else if u == 6
    then some GlobalRole.engineer
    else if u == 7
    then some GlobalRole.engineering_manager
    else none

abbrev member : ℕ → Membership
member id = record {
  user_id = id;
  team_id = 2;
  role = MembershipRole.participant;
  removed_at = none;
}

abbrev draft_store : Store
draft_store = record {
  users = users;
  memberships = member 6 ∷ member 7 ∷ [];
  topics = topic 21 9 ∷ topic 20 4 ∷ [];
  sessions = draft_session ∷ [];
  session_topics = [];
  participants = λ k u. false;
  votes = λ k u. none;
  audit_log = [];
  next_id = 100;
  facilitator_connected = λ k. none;
  denial_slots = λ a e. none;
  published = [];
}

abbrev ballot : LockIn
ballot = record {
  user = 6;
  session = 10;
  session_topic = 100;
  value = pos 3;
  vote_type = some VoteType.finger;
}

abbrev opened_store : Store
opened_store = run ((1, opens_room 5 2 (some 10)) ∷ (2, registers 6 10) ∷ []) draft_store

abbrev voting_store : Store
voting_store = run ((3, starts 5 10) ∷ (4, begins_voting 5 10) ∷ []) opened_store

abbrev revealed_store : Store
revealed_store = run ((5, locks_in ballot) ∷ (6, reveals 5 2 10) ∷ []) voting_store

abbrev wrap_up_store : Store
wrap_up_store =
    run ((7, advances 5 2 10) ∷ (8, reveals 5 2 10) ∷ (9, advances 5 2 10) ∷ []) revealed_store

abbrev complete_store : Store
complete_store = run ((10, completes 5 2 10) ∷ []) wrap_up_store

abbrev the_session : Store → Session
the_session s = elim (find_session 10 s.sessions) [ none ↦ draft_session | some r ↦ r ]

abbrev no_topic : SessionTopic
no_topic = record {
  id = 0;
  session_id = 0;
  topic_id = 0;
  display_order = 0;
  content = content "none";
  phase = TopicPhase.waiting;
  revealed_at = none;
  completed_at = none;
}

abbrev the_topic : ℕ → Store → SessionTopic
the_topic id s = elim (topic_by_id id s) [ none ↦ no_topic | some t ↦ t ]

abbrev status_in : Store → Option SessionStatus
status_in s = elim (find_session 10 s.sessions) [ none ↦ none | some r ↦ some r.status ]

-- One session from its draft to its completion.
ritual_tests :
    (status_in opened_store ≡ some SessionStatus.lobby)
    × (status_in voting_store ≡ some SessionStatus.active)
    × (status_in wrap_up_store ≡ some SessionStatus.wrap_up)
    × (status_in complete_store ≡ some SessionStatus.complete)
unfolding routes
ritual_tests = (refl, refl, refl, refl)

-- A second advance without a reveal, a late vote, a manager's registration.
refusal_tests :
    ((advance_topic 7 5 2 10 voting_store).1 ≡ reply 409 (Replies.advance_blocked (some 100)))
    × ((lock_in 7 ballot revealed_store).1 ≡ reply 422 Replies.voting_not_open)
    × ((register_participant 7 10 opened_store).1 ≡ reply 403 Replies.not_eligible)
unfolding routes
refusal_tests = (refl, refl, refl)
