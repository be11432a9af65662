-- ===== src/Sessions/Reveals.antt =====
-- What a reveal and a topic advance need and do.
use project_dipstick.Base.{
  ℕ, Bool, ◌&&◌, ◌≡◌, ◌≢◌, refl, sym, ap, ◌∙◌, inl, inr, none, some, List, [], ◌∷◌, ◌==◌, arith,
  Option-cases, find_row, select_rows, find_row-update_rows_self, find_row-holds, find_row-Mem,
}
use mathlib.Core.List.{Memᴰ}
use project_dipstick.Sessions.Advance.{check_advance, commit_advance, advance_topic, is_revealed_on}
use project_dipstick.Sessions.Defs.{Session, SessionTopic, TopicPhase, phase_is}
use project_dipstick.Sessions.Lookup.{find_session-id}
use project_dipstick.Sessions.Reveal.{RevealTicket, is_voting_on, reveal_row, commit_reveal}
use project_dipstick.Sessions.Store.{Store, find_session}

-- After a reveal's transaction no row of its topic is in voting.
commit_reveal-settled :
    (now : ℕ) (t : RevealTicket) (s : Store)
    → find_row (is_voting_on t.session t.topic) (commit_reveal now t s).0.session_topics ≡ none
unfolding commit_reveal
commit_reveal-settled now t s = ground (
  arith,
  find_row-update_rows_self (is_voting_on t.session t.topic) (reveal_row now) s.session_topics
      (λ x. ground arith),
)

-- With no row in voting the transaction changes nothing and reports no success.
commit_reveal-idle :
    (now : ℕ) (t : RevealTicket) (s : Store)
    → find_row (is_voting_on t.session t.topic) s.session_topics ≡ none
    → ((commit_reveal now t s).0 ≡ s) × ((commit_reveal now t s).1.code ≢ 200)
unfolding commit_reveal
commit_reveal-idle now t s e = (rw (e, commit_reveal), ground arith)

-- The row of a topic in a session.
abbrev pub is_row_of : ℕ → ℕ → SessionTopic → Bool
is_row_of session topic t = t.session_id == session && t.topic_id == topic

is_voting_on-rows :
    (session topic : ℕ) (xs : List SessionTopic)
    → find_row (λ t. phase_is t.phase TopicPhase.voting) (select_rows (is_row_of session topic) xs)
      ≡ find_row (is_voting_on session topic) xs
unfolding find_row select_rows
is_voting_on-rows session topic [] = refl
is_voting_on-rows session topic (x ∷ xs) = ground (arith, is_voting_on-rows session topic xs)

-- A reveal whose transaction runs after that of another reveal of the topic changes nothing,
-- publishes nothing and reports no success, in any store that has the topic's row as the first
-- reveal left it, whatever else was written since.
pub commit_reveal_twice :
    (now later : ℕ) (t u : RevealTicket) (s s' : Store)
    → u.session ≡ t.session
    → u.topic ≡ t.topic
    → select_rows (is_row_of t.session t.topic) s'.session_topics
      ≡ select_rows (is_row_of t.session t.topic) (commit_reveal now t s).0.session_topics
    → ((commit_reveal later u s').0 ≡ s') × ((commit_reveal later u s').1.code ≢ 200)
commit_reveal_twice now later t u s s' same_session same_topic same_row =
    let voting = λ (x : SessionTopic). phase_is x.phase TopicPhase.voting in
    commit_reveal-idle later u s' (
      rw (same_session, same_topic)
        (sym (is_voting_on-rows t.session t.topic s'.session_topics)
          ∙ ap (find_row voting) same_row
          ∙ is_voting_on-rows t.session t.topic (commit_reveal now t s).0.session_topics
          ∙ commit_reveal-settled now t s))

-- The session, its facilitator and its current topic, whose row is in the phase revealed.
pub record IsAdvanceable (user team session : ℕ) (s : Store) : Type 0 where
  pub row : Session
  pub row_found : find_session session s.sessions ≡ some row
  pub own_team : row.team_id ≡ team
  pub own_session : row.facilitator_id ≡ user
  pub topic : ℕ
  pub is_current : row.current_topic_id ≡ some topic
  pub revealed : SessionTopic
  pub is_stored : Memᴰ revealed s.session_topics
  pub of_session : revealed.session_id ≡ session
  pub of_topic : revealed.topic_id ≡ topic
  pub is_revealed : revealed.phase ≡ TopicPhase.revealed

module _ (now user team session : ℕ) (s : Store) where
  -- A topic advance that succeeds was sent by the session's facilitator, for its own team, while
  -- a row of the session's current topic was in the phase revealed.
  pub advance_topic-needs_reveal :
      (advance_topic now user team session s).1.code ≡ 200 → IsAdvanceable user team session s
  unfolding advance_topic check_advance commit_advance
  advance_topic-needs_reveal h = elim (Option-cases (find_session session s.sessions)) [
    | inl missing ↦ absurd (ground arith)
    | inr (r, e) ↦ elim (Option-cases r.current_topic_id) [
      | inl no_topic ↦ absurd (ground arith)
      | inr (topic, te) ↦
          elim (Option-cases (find_row (is_revealed_on r.id topic) s.session_topics)) [
            | inl hidden ↦ absurd (ground arith)
            | inr (row, re) ↦
                let passes = find_row-holds (is_revealed_on r.id topic) s.session_topics row re in
                let same_session = find_session-id session s.sessions r e in
                record {
                  row = r;
                  row_found = e;
                  own_team = ground arith;
                  own_session = ground arith;
                  topic = topic;
                  is_current = te;
                  revealed = row;
                  is_stored = find_row-Mem (is_revealed_on r.id topic) s.session_topics row re;
                  of_session = ground (arith, passes, same_session);
                  of_topic = ground (arith, passes);
                  is_revealed = ground (arith, passes);
                }
          ]
    ]
  ]

  -- One that does not succeed leaves the sessions and their topics as they were, and publishes
  -- nothing.
  pub advance_topic-refused :
      (advance_topic now user team session s).1.code ≢ 200
      → let t = (advance_topic now user team session s).0 in
        (t.sessions ≡ s.sessions)
        × (t.session_topics ≡ s.session_topics)
        × (t.published ≡ s.published)
  unfolding advance_topic check_advance commit_advance
  advance_topic-refused h = (ground arith, ground arith, ground arith)
