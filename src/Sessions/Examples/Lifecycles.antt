-- ===== src/Sessions/Examples/Lifecycles.antt =====
-- The theorems on a session's life, applied to one session.

use project_dipstick.Base.{ℕ, ◌≡◌, ◌≢◌, refl, inl, inr, some, List, [], ◌∷◌, arith}
use project_dipstick.Sessions.Advance.{advance_topic}
use project_dipstick.Sessions.Defs.{
  GlobalRole, Session, SessionStatus, SessionTopic, Topic, TopicPhase,
}
use project_dipstick.Sessions.Lifecycle.{AllSound, Follows, IsSound}
use project_dipstick.Sessions.LockIn.{topic_by_id}
use project_dipstick.Sessions.Progress.{handle-Follows, run-IsSound, run-final}
use project_dipstick.Sessions.Races.{commit_start-resets, commit_begin_voting-reopens}
use project_dipstick.Sessions.Reveal.{RevealTicket, commit_reveal}
use project_dipstick.Sessions.Reveals.{
  IsAdvanceable, commit_reveal_twice, advance_topic-needs_reveal, advance_topic-refused,
}
use project_dipstick.Sessions.Start.{StartTicket, commit_start, commit_begin_voting}
use project_dipstick.Sessions.Steps.{
  Request, opens_room, starts, begins_voting, reveals, advances, completes, run, handle,
}
use project_dipstick.Sessions.Store.{Store, find_session}
use mathlib.Core.List.{Permᴰ}
use project_dipstick.Sessions.Numbering.{IsBefore, IsCopied, snapshot_session_topics-in_order}
use project_dipstick.Base.{select_rows, ◌==◌, ◌&&◌, ◌++◌}
use project_dipstick.Base.Pairs.{Pairwise}
use project_dipstick.Sessions.Examples.{
  routes, draft_session, draft_store, opened_store, voting_store, revealed_store, complete_store,
  the_session, the_topic,
}

single-AllSound : (x : Session) → IsSound x → AllSound (x ∷ [])
unfolding routes
single-AllSound x h id r found = ground arith

sound_opened : AllSound opened_store.sessions
unfolding routes
sound_opened = single-AllSound (the_session opened_store) (inr refl)

sound_complete : AllSound complete_store.sessions
unfolding routes
sound_complete = single-AllSound (the_session complete_store) (inr refl)

found_opened : find_session 10 opened_store.sessions ≡ some (the_session opened_store)
unfolding routes
found_opened = refl

handle-Follows_example :
    (r' : Session) × (find_session 10 (handle 3 (starts 5 10) opened_store).0.sessions ≡ some r')
    × Follows 5 (the_session opened_store) r'
handle-Follows_example =
    handle-Follows 3 (starts 5 10) opened_store 10 (the_session opened_store) sound_opened
      found_opened

abbrev late_requests : List (ℕ × Request)
late_requests = (11, advances 5 2 10) ∷ (12, starts 5 10) ∷ (13, completes 5 2 10) ∷ []

found_complete : find_session 10 complete_store.sessions ≡ some (the_session complete_store)
unfolding routes
found_complete = refl

is_complete : (the_session complete_store).status ≡ SessionStatus.complete
unfolding routes
is_complete = refl

found_late :
    find_session 10 (run late_requests complete_store).sessions ≡ some (the_session complete_store)
unfolding routes
found_late = refl

run-final_example : (the_session complete_store).status ≡ (the_session complete_store).status
run-final_example =
    run-final late_requests complete_store 10 (the_session complete_store)
      (the_session complete_store) sound_complete found_complete (inl is_complete) found_late

abbrev ritual : List (ℕ × Request)
ritual = (3, starts 5 10) ∷ (4, begins_voting 5 10) ∷ (5, reveals 5 2 10) ∷ []

run-IsSound_example : IsSound (the_session (run ritual opened_store))
unfolding routes
run-IsSound_example =
    run-IsSound ritual opened_store 10 (the_session (run ritual opened_store)) sound_opened refl

abbrev reveal_ticket : RevealTicket
reveal_ticket = record {
  user = 5;
  role = some GlobalRole.facilitator;
  team = 2;
  session = 10;
  status = SessionStatus.active;
  topic = 20;
}

-- The store after a reveal, with events published by others since.
abbrev later_store : Store
later_store = record (commit_reveal 6 reveal_ticket voting_store).0 { published = [] }

commit_reveal_twice_example :
    ((commit_reveal 7 reveal_ticket later_store).0 ≡ later_store)
    × ((commit_reveal 7 reveal_ticket later_store).1.code ≢ 200)
commit_reveal_twice_example =
    commit_reveal_twice 6 7 reveal_ticket reveal_ticket voting_store later_store refl refl refl

advanced : (advance_topic 7 5 2 10 revealed_store).1.code ≡ 200
unfolding routes
advanced = refl

advance_topic-needs_reveal_example : IsAdvanceable 5 2 10 revealed_store
advance_topic-needs_reveal_example = advance_topic-needs_reveal 7 5 2 10 revealed_store advanced

not_advanced : (advance_topic 7 5 2 10 voting_store).1.code ≢ 200
unfolding routes
not_advanced = λ e. ground arith

advance_topic-refused_example :
    let t = (advance_topic 7 5 2 10 voting_store).0 in
    (t.sessions ≡ voting_store.sessions)
    × (t.session_topics ≡ voting_store.session_topics)
    × (t.published ≡ voting_store.published)
advance_topic-refused_example = advance_topic-refused 7 5 2 10 voting_store not_advanced

-- A start that was checked while the session was in its lobby.
abbrev stale_start : StartTicket
stale_start = record {
  user = 5;
  role = some GlobalRole.facilitator;
  row = the_session opened_store;
}

found_active : find_session 10 revealed_store.sessions ≡ some (the_session revealed_store)
unfolding routes
found_active = refl

stale_id : (the_session opened_store).id ≡ 10
unfolding routes
stale_id = refl

commit_start-resets_example :
    find_session
      (the_session opened_store).id
      (commit_start 7 stale_start revealed_store).0.sessions
    ≡ some (record (the_session revealed_store) {
      status = SessionStatus.pre_session;
      started_at = some 7;
    })
unfolding routes
commit_start-resets_example =
    commit_start-resets 7 stale_start revealed_store (the_session revealed_store) refl

commit_begin_voting-reopens_example :
    let s' = (commit_begin_voting 7 stale_start revealed_store).0 in
    (topic_by_id 100 s'
      ≡ some (record (the_topic 100 revealed_store) { phase = TopicPhase.voting }))
    × (find_session (the_session opened_store).id s'.sessions
        ≡ some (record (the_session revealed_store) {
          status = SessionStatus.active;
          voting_started_at = some 7;
          current_topic_id = some 20;
        }))
unfolding routes
commit_begin_voting-reopens_example =
    commit_begin_voting-reopens 7 stale_start revealed_store (the_session revealed_store)
      (the_topic 100 revealed_store) (the_topic 100 revealed_store) refl refl refl

abbrev lobby_store : Store
lobby_store = run ((1, opens_room 5 2 (some 10)) ∷ []) draft_store

abbrev snapshot_store : Store
snapshot_store = record draft_store { session_topics = lobby_store.session_topics; next_id = 102 }

snapshot_session_topics-in_order_example :
    (ts : List Topic) × (rows : List SessionTopic) × Permᴰ ts
      (select_rows (λ t. t.team_id == 2 && t.is_active) draft_store.topics)
    × Pairwise IsBefore ts
    × IsCopied 10 1 ts rows
    × (snapshot_store.session_topics ≡ draft_store.session_topics ++ rows)
unfolding routes
snapshot_session_topics-in_order_example =
    snapshot_session_topics-in_order 10 draft_store snapshot_store draft_session (20 ∷ 21 ∷ []) refl
      refl
