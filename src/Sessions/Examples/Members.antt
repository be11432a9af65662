-- ===== src/Sessions/Examples/Members.antt =====
-- The theorems on who takes part, applied to one member and one facilitator.

use project_dipstick.Base.{ℕ, true, ◌≡◌, refl, ◌⊎◌, ◌↔◌, inl, some, [], ◌∷◌, if◌then◌else◌}
use project_dipstick.Sessions.Access.{Grant, facilitator_grant, subscriber_access}
use project_dipstick.Sessions.Defs.{GlobalRole, SessionStatus}
use project_dipstick.Sessions.Listeners.{MayListen, subscriber_access_iff}
use project_dipstick.Sessions.Registration.{register_participant}
use project_dipstick.Sessions.Replies
use project_dipstick.Sessions.Replies.{reply}
use project_dipstick.Sessions.Steps.{opens_room, run}
use project_dipstick.Sessions.Store.{Store}
use project_dipstick.Sessions.Voters.{
  IsVoter, IsRegistrable, register-participants, register-accepts, register_twice,
}
use project_dipstick.Sessions.Examples.{routes, member, draft_store, voting_store, the_session}

abbrev lobby_store : Store
lobby_store = run ((1, opens_room 5 2 (some 10)) ∷ []) draft_store

registered : (register_participant 6 10 lobby_store).0.participants 10 6 ≡ true
unfolding routes
registered = refl

register-participants_example :
    (lobby_store.participants 10 6 ≡ true)
    ⊎ ((◌≡◌ {A = ℕ} 10 10) × (◌≡◌ {A = ℕ} 6 6) × IsRegistrable 6 10 lobby_store)
register-participants_example = register-participants 6 10 lobby_store 10 6 registered

is_voter : IsVoter GlobalRole.engineer (some (member 6))
is_voter = record {
  membership = member 6;
  is_member = refl;
  present = refl;
  not_team_manager = refl;
  not_manager = cc;
  not_admin = cc;
}

is_registrable : IsRegistrable 6 10 lobby_store
unfolding routes
is_registrable = record {
  row = the_session lobby_store;
  row_found = refl;
  is_open = inl refl;
  role = GlobalRole.engineer;
  role_found = refl;
  voter = is_voter;
}

register-accepts_example :
    ((register_participant 6 10 lobby_store).0.participants 10 6 ≡ true)
    × ((register_participant 6 10 lobby_store).1
        ≡ reply
            (if lobby_store.participants 10 6 then 200 else 201)
            (Replies.participant_result 10 (lobby_store.participants 10 6)))
register-accepts_example = register-accepts 6 10 lobby_store is_registrable

register_twice_example :
    let t = (register_participant 6 10 lobby_store).0 in
    register_participant 6 10 t ≡ (t, reply 200 (Replies.participant_result 10 true))
register_twice_example = register_twice 6 10 lobby_store is_registrable

abbrev grant : Grant
grant = facilitator_grant 10 2 SessionStatus.active GlobalRole.facilitator

subscriber_access_iff_example :
    (subscriber_access 5 10 voting_store ≡ some grant) ↔ MayListen 5 10 voting_store grant
subscriber_access_iff_example = subscriber_access_iff 5 10 voting_store grant
