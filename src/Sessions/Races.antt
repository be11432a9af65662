-- ===== src/Sessions/Races.antt =====
-- What the transactions of `start` and `begin-voting` do when the check that they follow is stale:
-- their UPDATEs test keys alone, so they do not see that the session has moved on.
use project_dipstick.Base.{ℕ, ◌≡◌, refl, some, ◌==◌, ==_refl, find_row-update_rows, find_row-holds}
use project_dipstick.Sessions.Defs.{Session, SessionStatus, SessionTopic, TopicPhase}
use project_dipstick.Sessions.LockIn.{topic_by_id}
use project_dipstick.Sessions.Lookup.{find_session-update_rows, find_session-id}
use project_dipstick.Sessions.Start.{
  StartTicket, commit_start, start_row, commit_begin_voting, first_topic, open_voting, activate,
}
use project_dipstick.Sessions.Store.{Store, find_session}

-- Whatever status a session has reached, the transaction of a `start` that was checked before
-- takes it back to pre_session, with a new starting time and all else as it was.
pub commit_start-resets :
    (now : ℕ) (t : StartTicket) (s : Store) (r : Session)
    → find_session t.row.id s.sessions ≡ some r
    → find_session t.row.id (commit_start now t s).0.sessions
      ≡ some (record r { status = SessionStatus.pre_session; started_at = some now })
unfolding commit_start
commit_start-resets now t s r e =
    rw (e, commit_start)
      (rw
        (find_session-update_rows t.row.id (λ x. x.id == t.row.id) (start_row now) s.sessions r
          (λ x. refl) e)
        (rw (find_session-id t.row.id s.sessions r e, ==_refl t.row.id) refl))

-- Whatever phase the first topic has reached, the transaction of a `begin-voting` that was checked
-- before opens it for votes again, makes the session active with that topic as the current one
-- and a new time of the voting's start, and leaves all else of the two rows as it was.
pub commit_begin_voting-reopens :
    (now : ℕ) (t : StartTicket) (s : Store) (r : Session) (first row : SessionTopic)
    → find_session t.row.id s.sessions ≡ some r
    → first_topic t.row.id s ≡ some first
    → topic_by_id first.id s ≡ some row
    → let s' = (commit_begin_voting now t s).0 in
      (topic_by_id first.id s' ≡ some (record row { phase = TopicPhase.voting }))
      × (find_session t.row.id s'.sessions
          ≡ some (record r {
            status = SessionStatus.active;
            voting_started_at = some now;
            current_topic_id = some first.topic_id;
          }))
unfolding commit_begin_voting
commit_begin_voting-reopens now t s r first row e is_first found =
    rw (is_first, e, commit_begin_voting)
      (
        rw
            (
              find_row-update_rows (λ x. x.id == first.id) (λ x. x.id == first.id) open_voting
                  s.session_topics (λ x. refl),
              found,
            )
            (rw (find_row-holds (λ x. x.id == first.id) s.session_topics row found) refl),
        rw
            (find_session-update_rows t.row.id (λ x. x.id == t.row.id) (activate now first.topic_id)
              s.sessions r (λ x. refl) e)
            (rw (find_session-id t.row.id s.sessions r e, ==_refl t.row.id) refl),
      )
