-- ===== src/Sessions/Examples/Votes.antt =====
-- The theorems on votes, applied to the ballot of one member.

use project_dipstick.Base.{◌≡◌, ◌≢◌, refl, ◌⊎◌, ◌↔◌, [], arith}
use project_dipstick.Sessions.Ballots.{
  CanVote, IsCast, lock_in-code_iff, lock_in-IsCast, lock_in-refused,
}
use project_dipstick.Sessions.Defs.{GlobalRole, VoteType}
use project_dipstick.Sessions.Frozen.{IsOpenTopic, Step-votes}
use project_dipstick.Sessions.LockIn.{VoteTicket, lock_in, commit_lock_in}
use project_dipstick.Sessions.Steps.{locking_in, commits}
use project_dipstick.Sessions.Examples.{
  routes, member, ballot, voting_store, revealed_store, the_session, the_topic,
}

open_topic : IsOpenTopic 100 voting_store
unfolding routes
open_topic = (the_topic 100 voting_store, refl, refl)

abbrev vote_ticket : VoteTicket
vote_ticket = record { request = ballot; role = GlobalRole.engineer; team = 2 }

Step-votes_example :
    ((commit_lock_in 5 vote_ticket voting_store).0.votes 100 6 ≡ voting_store.votes 100 6)
    ⊎ IsOpenTopic 100 voting_store
unfolding routes
Step-votes_example = Step-votes (commits 5 [] [] (locking_in vote_ticket) voting_store) 100 6

can_vote : CanVote ballot voting_store
unfolding routes
can_vote = record {
  session = the_session voting_store;
  session_found = refl;
  session_active = refl;
  topic = the_topic 100 voting_store;
  topic_found = refl;
  topic_open = refl;
  locked = the_topic 100 voting_store;
  locked_found = refl;
  locked_open = refl;
  role = GlobalRole.engineer;
  role_found = refl;
  eligible = record {
    membership = member 6;
    is_member = refl;
    present = refl;
    not_team_manager = refl;
    not_manager = λ e. ground arith;
    not_admin = λ e. ground arith;
  };
  registered = refl;
  vote_type = VoteType.finger;
  type_known = refl;
  legal = (3, refl, omega arith, omega arith);
}

lock_in-code_iff_example :
    ((lock_in 5 ballot voting_store).1.code ≡ 201) ↔ CanVote ballot voting_store
lock_in-code_iff_example = lock_in-code_iff 5 ballot voting_store

lock_in-IsCast_example : IsCast 5 ballot voting_store can_vote
lock_in-IsCast_example = lock_in-IsCast 5 ballot voting_store can_vote

late : (lock_in 7 ballot revealed_store).1.code ≢ 201
unfolding routes
late = λ e. ground arith

lock_in-refused_example : (lock_in 7 ballot revealed_store).0 ≡ revealed_store
lock_in-refused_example = lock_in-refused 7 ballot revealed_store late
