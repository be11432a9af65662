-- ===== src/Sessions/Progress.antt =====
-- The session routes together, one request after another.
use project_dipstick.Base.{
  ℕ, ◌≡◌, ◌≢◌, ◌∙◌, refl, ◌⊎◌, inl, inr, Option, some, List, [], ◌∷◌, arith, Option-cases, find_row,
  update_rows,
}
use project_dipstick.Sessions.Defs.{
  Session, SessionTopic, SessionStatus, draft, complete, abandoned,
}
use project_dipstick.Sessions.Edges.{start-Keeps, begin_voting-Keeps}
use project_dipstick.Sessions.Lifecycle.{
  ◌⟶◌, Follows, IsSound, opens, starts, votes, wraps_up, completes, AllSound, Keeps, Keeps-refl,
  Keeps-same, Keeps-update, Sound, after_check-Keeps,
}
use project_dipstick.Sessions.LockIn.{LockIn, lock_in}
use project_dipstick.Sessions.Registration.{register_participant}
use project_dipstick.Sessions.Reveal.{reveal}
use project_dipstick.Sessions.Room.{
  RoomTicket, check_open_room, is_draft_of, open_row, finish_opening, commit_open_room, open_room,
}
use project_dipstick.Sessions.Snapshot.{
  Snapshot, nothing_active, collision, taken, insert_rows, snapshot_session_topics,
}
use project_dipstick.Sessions.Steps.{
  Request, registers, locks_in, opens_room, starts, begins_voting, reveals, advances, completes,
  handle, run,
}
use project_dipstick.Sessions.Store.{Store, find_session}
use project_dipstick.Sessions.TopicEdges.{advance_topic-Keeps, complete_session-Keeps}

register-sessions :
    (user session : ℕ) (s : Store) → (register_participant user session s).0.sessions ≡ s.sessions
unfolding register_participant
register-sessions user session s = ground arith

lock_in-sessions : (now : ℕ) (q : LockIn) (s : Store) → (lock_in now q s).0.sessions ≡ s.sessions
unfolding lock_in
lock_in-sessions now q s = ground arith

reveal-sessions :
    (now user team session : ℕ) (s : Store)
    → (reveal now user team session s).0.sessions ≡ s.sessions
unfolding reveal
reveal-sessions now user team session s = ground arith

-- A snapshot changes no session.
abbrev KeepsSessions : List Session → Snapshot → Type 0
KeepsSessions rows nothing_active = Unit
KeepsSessions rows collision = Unit
KeepsSessions rows (taken s topics) = s.sessions ≡ rows

snapshot-sessions :
    (session : ℕ) (s : Store) → KeepsSessions s.sessions (snapshot_session_topics session s)
unfolding snapshot_session_topics
snapshot-sessions session s = elim (Option-cases (find_session session s.sessions)) [
  | inl missing ↦ rw (missing, snapshot_session_topics) tt
  | inr (r, e) ↦ rw (e, snapshot_session_topics) (inserted _)
]
  where
    inserted : (rows : List SessionTopic) → KeepsSessions s.sessions (insert_rows rows s)
    inserted [] = tt
    inserted (r ∷ rs) = ground arith

finish_opening-Keeps :
    (user : ℕ) (s : Store) (t : RoomTicket) (rows : List Session) (o : Snapshot)
    → AllSound s.sessions
    → KeepsSessions rows o
    → Keeps user s.sessions rows
    → Keeps user s.sessions (finish_opening t s o).0.sessions
unfolding finish_opening
finish_opening-Keeps user s t rows nothing_active h same ok = Keeps-refl user s.sessions h
finish_opening-Keeps user s t rows collision h same ok = Keeps-refl user s.sessions h
finish_opening-Keeps user s t rows (taken s' topics) h same ok = rw same ok

commit_open_room-Keeps :
    (now user : ℕ) (s : Store) (t : RoomTicket)
    → AllSound s.sessions
    → t.user ≡ user
    → Keeps user s.sessions (commit_open_room now t s).0.sessions
unfolding commit_open_room
commit_open_room-Keeps now user s t h own =
    elim (Option-cases (find_row (is_draft_of t) s.sessions)) [
      | inl missing ↦ rw (missing, commit_open_room) (Keeps-refl user s.sessions h)
      | inr (row, hit) ↦
          rw (hit, commit_open_room)
            (finish_opening-Keeps user s t _ _ h (snapshot-sessions t.session _) opened)
    ]
  where
    opened : Keeps user s.sessions (update_rows (is_draft_of t) (open_row now) s.sessions)
    opened =
        Keeps-update user s.sessions (is_draft_of t) (open_row now) h (λ x. refl)
          λ id r e hit.
            let at : r.status ≡ draft = ground arith in
            let mine : r.facilitator_id ≡ user = ground arith in
            (inr (rw at opens, mine), ground (arith, h id r e))

check_open_room-Sound :
    (now user team : ℕ) (session : Option ℕ) (s : Store)
    → Sound s (λ t. t.user ≡ user) (check_open_room now user team session s)
unfolding check_open_room
check_open_room-Sound now user team session s = ground arith

open_room-Keeps :
    (now user team : ℕ) (session : Option ℕ) (s : Store)
    → AllSound s.sessions
    → Keeps user s.sessions (open_room now user team session s).0.sessions
unfolding open_room
open_room-Keeps now user team session s h =
    after_check-Keeps user s (λ t. t.user ≡ user) _ _ h
      (check_open_room-Sound now user team session s) (λ t. commit_open_room-Keeps now user s t h)

abbrev pub caller_of : Request → ℕ
caller_of (registers user session) = user
caller_of (locks_in q) = q.user
caller_of (opens_room user team session) = user
caller_of (starts user session) = user
caller_of (begins_voting user session) = user
caller_of (reveals user team session) = user
caller_of (advances user team session) = user
caller_of (completes user team session) = user

-- The rules of the routes together.
handle-Keeps :
    (now : ℕ) (q : Request) (s : Store)
    → AllSound s.sessions
    → Keeps (caller_of q) s.sessions (handle now q s).0.sessions
unfolding handle
handle-Keeps now (registers user session) s h =
    Keeps-same user s.sessions _ h (register-sessions user session s)
handle-Keeps now (locks_in q) s h = Keeps-same q.user s.sessions _ h (lock_in-sessions now q s)
handle-Keeps now (opens_room user team session) s h = open_room-Keeps now user team session s h
handle-Keeps now (starts user session) s h = start-Keeps now user session s h
handle-Keeps now (begins_voting user session) s h = begin_voting-Keeps now user session s h
handle-Keeps now (reveals user team session) s h =
    Keeps-same user s.sessions _ h (reveal-sessions now user team session s)
handle-Keeps now (advances user team session) s h = advance_topic-Keeps now user team session s h
handle-Keeps now (completes user team session) s h =
    complete_session-Keeps now user team session s h

-- Of sessions in which only an active one has a current topic: a request handled in one go lets
-- none vanish, and leaves each session's status alone or, sent by that session's facilitator,
-- moves it along one edge of the lifecycle.
pub handle-Follows :
    (now : ℕ) (q : Request) (s : Store) (id : ℕ) (r : Session)
    → AllSound s.sessions
    → find_session id s.sessions ≡ some r
    → (r' : Session) × (find_session id (handle now q s).0.sessions ≡ some r')
      × Follows (caller_of q) r r'
handle-Follows now q s id r h e = (handle-Keeps now q s h).0 id r e

run-AllSound :
    (qs : List (ℕ × Request)) (s : Store) → AllSound s.sessions → AllSound (run qs s).sessions
unfolding run
run-AllSound [] s h = h
run-AllSound ((now, q) ∷ qs) s h = run-AllSound qs (handle now q s).0 ((handle-Keeps now q s h).1)

-- After any requests, handled one after another, only an active session has a current topic, if it
-- was so before.
pub run-IsSound :
    (qs : List (ℕ × Request)) (s : Store) (id : ℕ) (r : Session)
    → AllSound s.sessions
    → find_session id (run qs s).sessions ≡ some r
    → IsSound r
run-IsSound qs s id r h e = run-AllSound qs s h id r e

-- No edge leaves the last two statuses.
not_after_complete : {a b : SessionStatus} → a ⟶ b → a ≢ complete
not_after_complete opens = cc
not_after_complete starts = cc
not_after_complete votes = cc
not_after_complete wraps_up = cc
not_after_complete completes = cc

not_after_abandoned : {a b : SessionStatus} → a ⟶ b → a ≢ abandoned
not_after_abandoned opens = cc
not_after_abandoned starts = cc
not_after_abandoned votes = cc
not_after_abandoned wraps_up = cc
not_after_abandoned completes = cc

stays :
    (caller : ℕ) (r r' : Session)
    → Follows caller r r'
    → (r.status ≡ complete) ⊎ (r.status ≡ abandoned)
    → r'.status ≡ r.status
stays caller r r' (inl same) over = same
stays caller r r' (inr (edge, own)) over = elim over [
  | inl e ↦ absurd (not_after_complete edge e)
  | inr e ↦ absurd (not_after_abandoned edge e)
]

-- A session that is complete or abandoned stays so, whatever requests follow.
pub run-final :
    (qs : List (ℕ × Request)) (s : Store) (id : ℕ) (r r' : Session)
    → AllSound s.sessions
    → find_session id s.sessions ≡ some r
    → (r.status ≡ complete) ⊎ (r.status ≡ abandoned)
    → find_session id (run qs s).sessions ≡ some r'
    → r'.status ≡ r.status
unfolding run
run-final [] s id r r' h e over e' = ground arith
run-final ((now, q) ∷ qs) s id r r' h e over e' =
    let (moves, sound) = handle-Keeps now q s h in
    let (m, found_m, follows) = moves id r e in
    let still : m.status ≡ r.status = stays (caller_of q) r m follows over in
    run-final qs (handle now q s).0 id m r' sound found_m (rw still over) e' ∙ still
