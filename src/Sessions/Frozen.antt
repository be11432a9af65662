-- ===== src/Sessions/Frozen.antt =====
-- Votes under interleaved requests.
use project_dipstick.Base.{
  ℕ, ◌≡◌, ◌⊎◌, inl, inr, some, arith, ◌==◌, ==_iff, Bool-cases, Option-cases,
}
use project_dipstick.Sessions.Defs.{SessionTopic, TopicPhase, phase_is}
use project_dipstick.Sessions.Store.{Store, write_template_denial}
use project_dipstick.Sessions.Registration.{check_registration, commit_registration}
use project_dipstick.Sessions.LockIn.{VoteTicket, topic_by_id, commit_lock_in, check_lock_in}
use project_dipstick.Sessions.Snapshot.{snapshot_session_topics}
use project_dipstick.Sessions.Room.{check_open_room, commit_open_room}
use project_dipstick.Sessions.Start.{
  check_start, commit_start, check_begin_voting, commit_begin_voting,
}
use project_dipstick.Sessions.Reveal.{check_reveal, commit_reveal}
use project_dipstick.Sessions.Advance.{
  check_advance, commit_advance, check_complete, commit_complete,
}
use project_dipstick.Sessions.Steps.{
  Request, registers, Pending, registering, locking_in, arrive, commit, Server, Step, arrives,
  commits,
}

-- The topic is there and open for votes.
abbrev pub IsOpenTopic : ℕ → Store → Type 0
IsOpenTopic k s = (t : SessionTopic) × (topic_by_id k s ≡ some t) × (t.phase ≡ TopicPhase.voting)

commit_lock_in-votes :
    (now : ℕ) (t : VoteTicket) (s : Store) (k u : ℕ)
    → ((commit_lock_in now t s).0.votes k u ≡ s.votes k u) ⊎ IsOpenTopic k s
unfolding commit_lock_in
commit_lock_in-votes now t s k u = elim (Option-cases (topic_by_id t.session_topic s)) [
  | inl missing ↦ inl (ground arith)
  | inr (row, found) ↦ elim (Bool-cases (phase_is row.phase TopicPhase.voting)) [
    | inl is_open ↦ elim (Bool-cases (k == t.session_topic)) [
      | inl same ↦ inr (row, rw ((==_iff k t.session_topic).0 same) found, ground arith)
      | inr other ↦ inl (ground arith)
    ]
    | inr shut ↦ inl (ground arith)
  ]
]

commit-votes :
    (now : ℕ) (p : Pending) (s : Store) (k u : ℕ)
    → ((commit now p s).0.votes k u ≡ s.votes k u) ⊎ IsOpenTopic k s
unfolding commit commit_registration commit_open_room commit_start commit_begin_voting commit_reveal
    commit_advance commit_complete snapshot_session_topics
commit-votes now (locking_in t) s k u = commit_lock_in-votes now t s k u
commit-votes now (registering t) s k u = inl (ground arith)
commit-votes now _ s k u = inl (ground arith)

arrive-votes :
    (now : ℕ) (q : Request) (s : Store) (k u : ℕ) → (arrive now q s).0.votes k u ≡ s.votes k u
unfolding arrive check_registration check_lock_in check_open_room check_start check_begin_voting
    check_reveal check_advance check_complete write_template_denial
arrive-votes now (registers user session) s k u = ground arith
arrive-votes now _ s k u = ground arith

-- In any schedule of requests, a step that adds or changes a vote starts with its topic open.
pub Step-votes :
    {c d : Server}
    → Step c d
    → (k u : ℕ) → (d.store.votes k u ≡ c.store.votes k u) ⊎ IsOpenTopic k c.store
Step-votes (arrives now q c) k u = inl (arrive-votes now q c.store k u)
Step-votes (commits now before after p s) k u = commit-votes now p s k u
