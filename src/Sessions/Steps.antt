-- ===== src/Sessions/Steps.antt =====
-- The session routes together: a request handled in one go, and requests interleaved. Between the
-- check of a request and its transaction the process awaits, and other requests run.
use project_dipstick.Base.{ℕ, Option, List, [], ◌∷◌, ◌++◌}
use project_dipstick.Sessions.Store.{Store, Checked, refused, granted}
use project_dipstick.Sessions.Replies.{Reply}
use project_dipstick.Sessions.Registration.{
  Registration, check_registration, commit_registration, register_participant,
}
use project_dipstick.Sessions.LockIn.{LockIn, VoteTicket, check_lock_in, commit_lock_in, lock_in}
use project_dipstick.Sessions.Room.{RoomTicket, check_open_room, commit_open_room, open_room}
use project_dipstick.Sessions.Start.{
  StartTicket, check_start, commit_start, start, check_begin_voting, commit_begin_voting,
  begin_voting,
}
use project_dipstick.Sessions.Reveal.{RevealTicket, check_reveal, commit_reveal, reveal}
use project_dipstick.Sessions.Advance.{
  AdvanceTicket, CompleteTicket, check_advance, commit_advance, advance_topic, check_complete,
  commit_complete, complete_session,
}

-- The caller comes first, then the path's parameters.
pub data Request : Type 0 where
  registers : ℕ → ℕ → Request
  locks_in : LockIn → Request
  opens_room : ℕ → ℕ → Option ℕ → Request
  starts begins_voting : ℕ → ℕ → Request
  reveals advances completes : ℕ → ℕ → ℕ → Request

unfoldable pub handle : ℕ → Request → Store → Store × Reply
unfolding register_participant lock_in open_room start begin_voting reveal advance_topic
    complete_session
handle now (registers user session) s = register_participant user session s
handle now (locks_in q) s = lock_in now q s
handle now (opens_room user team session) s = open_room now user team session s
handle now (starts user session) s = start now user session s
handle now (begins_voting user session) s = begin_voting now user session s
handle now (reveals user team session) s = reveal now user team session s
handle now (advances user team session) s = advance_topic now user team session s
handle now (completes user team session) s = complete_session now user team session s

-- Requests with their times, one after another.
unfoldable pub run : List (ℕ × Request) → Store → Store
unfolding handle
run [] s = s
run ((now, q) ∷ qs) s = run qs (handle now q s).0

-- A request that has passed its check and awaits its transaction.
pub data Pending : Type 0 where
  registering : Registration → Pending
  locking_in : VoteTicket → Pending
  opening_room : RoomTicket → Pending
  starting beginning_voting : StartTicket → Pending
  revealing : RevealTicket → Pending
  advancing : AdvanceTicket → Pending
  completing : CompleteTicket → Pending

abbrev wait_for : {T : Type 0} → (T → Pending) → Checked T Reply → Store → Store × List Pending
wait_for f (refused s' r) s = (s', [])
wait_for f (granted t) s = (s, f t ∷ [])

unfoldable pub arrive : ℕ → Request → Store → Store × List Pending
arrive now (registers user session) s = wait_for registering (check_registration user session s) s
arrive now (locks_in q) s = wait_for locking_in (check_lock_in q s) s
arrive now (opens_room user team session) s =
    wait_for opening_room (check_open_room now user team session s) s
arrive now (starts user session) s = wait_for starting (check_start user session s) s
arrive now (begins_voting user session) s =
    wait_for beginning_voting (check_begin_voting user session s) s
arrive now (reveals user team session) s =
    wait_for revealing (check_reveal now user team session s) s
arrive now (advances user team session) s =
    wait_for advancing (check_advance now user team session s) s
arrive now (completes user team session) s =
    wait_for completing (check_complete now user team session s) s

unfoldable pub commit : ℕ → Pending → Store → Store × Reply
commit now (registering t) s = commit_registration t s
commit now (locking_in t) s = commit_lock_in now t s
commit now (opening_room t) s = commit_open_room now t s
commit now (starting t) s = commit_start now t s
commit now (beginning_voting t) s = commit_begin_voting now t s
commit now (revealing t) s = commit_reveal now t s
commit now (advancing t) s = commit_advance now t s
commit now (completing t) s = commit_complete now t s

-- The store and the requests that await their transactions.
pub record Server : Type 0 where
  pub store : Store
  pub waiting : List Pending

-- A request arrives, or any one that waits runs its transaction.
pub data Step : Server → Server → Type 0 where
  arrives :
      (now : ℕ) (q : Request) (c : Server)
      → Step c (record {
        store = (arrive now q c.store).0;
        waiting = c.waiting ++ (arrive now q c.store).1;
      })
  commits :
      (now : ℕ) (before after : List Pending) (p : Pending) (s : Store)
      → Step
          (record { store = s; waiting = before ++ (p ∷ after) })
          (record { store = (commit now p s).0; waiting = before ++ after })

pub data Reach (c : Server) : Server → Type 0 where
  here : Reach c c
  next : {d e : Server} → Reach c d → Step d e → Reach c e
