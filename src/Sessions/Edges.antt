-- ===== src/Sessions/Edges.antt =====
-- `start` and `begin-voting` under the relation of Lifecycle.
use project_dipstick.Base.{
  ℕ, true, ◌≡◌, refl, sym, ap, ◌∙◌, inl, inr, Option, none, some, arith, ◌==◌, ==_iff, Option-cases,
}
use project_dipstick.Sessions.Defs.{Session, SessionTopic, SessionStatus, lobby, pre_session}
use project_dipstick.Sessions.Lifecycle.{
  starts, votes, AllSound, Keeps, Keeps-refl, Keeps-update, Sound, after_check-Keeps,
  some-injective,
}
use project_dipstick.Sessions.Lookup.{find_session-id}
use project_dipstick.Sessions.Start.{
  StartTicket, check_facilitated, check_start, commit_start, start, start_row, check_begin_voting,
  commit_begin_voting, begin_voting, first_topic, open_first, activate,
}
use project_dipstick.Sessions.Store.{Store, find_session}

-- What the check of `start` and `begin-voting` establishes.
abbrev IsFacilitated : SessionStatus → ℕ → Store → StartTicket → Type 0
IsFacilitated wanted user s t =
    (find_session t.row.id s.sessions ≡ some t.row)
    × (t.row.facilitator_id ≡ user)
    × (t.row.status ≡ wanted)

check_facilitated-Sound :
    (wanted : SessionStatus) (user session : ℕ) (o : Option Session) (s : Store)
    → find_session session s.sessions ≡ o
    → Sound s (IsFacilitated wanted user s) (check_facilitated wanted user o s)
unfolding check_facilitated
check_facilitated-Sound wanted user session none s e = refl
check_facilitated-Sound wanted user session (some r) s e =
    ground (arith, find_session-id session s.sessions r e)

-- The row that a key selects is the row that was found under it.
pub found :
    (key id : ℕ) (s : Store) (r r' : Session)
    → find_session key s.sessions ≡ some r
    → find_session id s.sessions ≡ some r'
    → (r'.id == key) ≡ true
    → r' ≡ r
found key id s r r' e e' hit = some-injective e (
    ap (λ k. find_session k s.sessions)
      (sym ((==_iff r'.id key).0 hit) ∙ find_session-id id s.sessions r' e')
    ∙ e')

commit_start-Keeps :
    (now user : ℕ) (s : Store) (t : StartTicket)
    → AllSound s.sessions
    → IsFacilitated lobby user s t
    → Keeps user s.sessions (commit_start now t s).0.sessions
unfolding commit_start
commit_start-Keeps now user s t h (e, own, at) =
    rw (e, commit_start)
      (Keeps-update user s.sessions (λ r. r.id == t.row.id) (start_row now) h (λ x. refl)
        λ id r e' hit.
          let same = found t.row.id id s t.row r e e' hit in
          (inr (rw (same, at) starts, rw (same, own) refl), ground (arith, same, h id r e')))

pub start-Keeps :
    (now user session : ℕ) (s : Store)
    → AllSound s.sessions
    → Keeps user s.sessions (start now user session s).0.sessions
unfolding start check_start
start-Keeps now user session s h =
    after_check-Keeps user s (IsFacilitated lobby user s) _ _ h
      (check_facilitated-Sound lobby user session _ s refl) (λ t. commit_start-Keeps now user s t h)

open_first-Keeps :
    (now user : ℕ) (s : Store) (t : StartTicket) (first : SessionTopic)
    → AllSound s.sessions
    → IsFacilitated pre_session user s t
    → Keeps user s.sessions (open_first now t first s).0.sessions
unfolding open_first
open_first-Keeps now user s t first h (e, own, at) =
    Keeps-update user s.sessions (λ r. r.id == t.row.id) (activate now first.topic_id) h (λ x. refl)
      λ id r e' hit.
        let same = found t.row.id id s t.row r e e' hit in
        (inr (rw (same, at) votes, rw (same, own) refl), inl refl)

commit_begin_voting-Keeps :
    (now user : ℕ) (s : Store) (t : StartTicket)
    → AllSound s.sessions
    → IsFacilitated pre_session user s t
    → Keeps user s.sessions (commit_begin_voting now t s).0.sessions
unfolding commit_begin_voting
commit_begin_voting-Keeps now user s t h k = elim (Option-cases (first_topic t.row.id s)) [
  | inl missing ↦ rw (missing, commit_begin_voting) (Keeps-refl user s.sessions h)
  | inr (first, is_first) ↦
      rw (is_first, k.0, commit_begin_voting) (open_first-Keeps now user s t first h k)
]

pub begin_voting-Keeps :
    (now user session : ℕ) (s : Store)
    → AllSound s.sessions
    → Keeps user s.sessions (begin_voting now user session s).0.sessions
unfolding begin_voting check_begin_voting
begin_voting-Keeps now user session s h =
    after_check-Keeps user s (IsFacilitated pre_session user s) _ _ h
      (check_facilitated-Sound pre_session user session _ s refl)
      (λ t. commit_begin_voting-Keeps now user s t h)
