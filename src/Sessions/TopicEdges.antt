-- ===== src/Sessions/TopicEdges.antt =====
-- The topic advance and the completion under the relation of Lifecycle.
use project_dipstick.Base.{
  ℕ, ◌≡◌, refl, inl, inr, Option, none, some, arith, ◌==◌, Bool-cases, Option-cases, find_row,
}
use project_dipstick.Sessions.Advance.{
  AdvanceTicket, CompleteTicket, check_owned, check_current, check_advance, is_revealed_on,
  complete_topic, next_topic, move_on, to_next, to_wrap_up, wrap_up_row, commit_advance,
  advance_topic, check_wrapped, check_complete, complete_row, commit_complete, complete_session,
}
use project_dipstick.Sessions.Defs.{Session, SessionTopic, wrap_up, active}
use project_dipstick.Sessions.Edges.{found}
use project_dipstick.Sessions.Lifecycle.{
  wraps_up, completes, AllSound, Keeps, Keeps-refl, Keeps-update, Sound, after_check-Keeps, IsSound,
  write_template_denial-sessions,
}
use project_dipstick.Sessions.Lookup.{find_session-id}
use project_dipstick.Sessions.Replies.{Reply}
use project_dipstick.Sessions.Store.{Store, Checked, find_session, is_template_team, set_topics}

abbrev IsAdvancing : ℕ → Store → AdvanceTicket → Type 0
IsAdvancing user s t =
    (r : Session) × (find_session t.session s.sessions ≡ some r)
    × (r.facilitator_id ≡ user)
    × (r.status ≡ active)

abbrev IsWrapped : ℕ → Store → CompleteTicket → Type 0
IsWrapped user s t =
    (r : Session) × (find_session t.session s.sessions ≡ some r)
    × (r.facilitator_id ≡ user)
    × (r.status ≡ wrap_up)

-- The guards shared by the two routes lead to `next` with the caller's own session.
check_owned-Sound :
    {T : Type 0} (P : T → Type 0) (user team session : ℕ) (next : Session → Checked T Reply)
    (o : Option Session) (s : Store)
    → find_session session s.sessions ≡ o
    → ((r : Session)
        → find_session session s.sessions ≡ some r
        → r.facilitator_id ≡ user
        → Sound s P (next r))
    → Sound s P (check_owned user team next o s)
unfolding check_owned
check_owned-Sound P user team session next none s e ok = refl
check_owned-Sound P user team session next (some r) s e ok =
    elim (Bool-cases (r.facilitator_id == user)) [
      | inl own ↦ let own' : r.facilitator_id ≡ user = ground arith in ground (arith, ok r e own')
      | inr other ↦ ground arith
    ]

check_current-Sound :
    (user session : ℕ) (s : Store) (r : Session) (topic : Option ℕ)
    → find_session session s.sessions ≡ some r
    → r.facilitator_id ≡ user
    → IsSound r
    → r.current_topic_id ≡ topic
    → Sound s (IsAdvancing user s) (check_current user r topic s)
unfolding check_current
check_current-Sound user session s r none e own sound at = refl
check_current-Sound user session s r (some topic) e own sound at =
    (r, ground (arith, find_session-id session s.sessions r e), own, ground arith)

check_wrapped-Sound :
    (user session : ℕ) (s : Store) (r : Session)
    → find_session session s.sessions ≡ some r
    → r.facilitator_id ≡ user
    → Sound s (IsWrapped user s) (check_wrapped user r s)
unfolding check_wrapped
check_wrapped-Sound user session s r e own = grind (arith, find_session-id session s.sessions r e)

to_next-Keeps :
    (user : ℕ) (s before : Store) (t : AdvanceTicket) (row next : SessionTopic)
    → AllSound before.sessions
    → IsAdvancing user before t
    → s.sessions ≡ before.sessions
    → Keeps user before.sessions (to_next t row next s).0.sessions
unfolding to_next
to_next-Keeps user s before t row next h (r, e, own, at) same = rw same (
    Keeps-update user before.sessions (λ r. r.id == t.session)
      (λ r. record r { current_topic_id = some next.topic_id }) h (λ x. refl)
      λ id r' e' hit. (inl refl, inl (rw (found t.session id before r r' e e' hit) at)))

to_wrap_up-Keeps :
    (now user : ℕ) (s before : Store) (t : AdvanceTicket) (row : SessionTopic)
    → AllSound before.sessions
    → IsAdvancing user before t
    → s.sessions ≡ before.sessions
    → Keeps user before.sessions (to_wrap_up now t row before s).0.sessions
unfolding to_wrap_up
to_wrap_up-Keeps now user s before t row h (r, e, own, at) same =
    rw (same, e, to_wrap_up)
      (rw same (
        Keeps-update user before.sessions (λ r. r.id == t.session) (wrap_up_row now) h (λ x. refl)
          λ id r' e' hit.
            let eq = found t.session id before r r' e e' hit in
            (inr (rw (eq, at) wraps_up, rw (eq, own) refl), inr refl)))

commit_advance-Keeps :
    (now user : ℕ) (s : Store) (t : AdvanceTicket)
    → AllSound s.sessions
    → IsAdvancing user s t
    → Keeps user s.sessions (commit_advance now t s).0.sessions
unfolding commit_advance move_on
commit_advance-Keeps now user s t h k =
    elim (Option-cases (find_row (is_revealed_on t.session t.topic) s.session_topics)) [
      | inl missing ↦ rw (missing, commit_advance) (Keeps-refl user s.sessions h)
      | inr (row, hit) ↦
          let s' = set_topics (is_revealed_on t.session t.topic) (complete_topic now) s in
          elim (Option-cases (next_topic t.session row s')) [
            | inl last ↦
                rw (hit, commit_advance)
                  (rw (last, move_on) (to_wrap_up-Keeps now user s' s t row h k refl))
            | inr (next, more) ↦
                rw (hit, commit_advance)
                  (rw (more, move_on) (to_next-Keeps user s' s t row next h k refl))
          ]
    ]

check_advance-Sound :
    (now user team session : ℕ) (s : Store)
    → AllSound s.sessions
    → Sound s (IsAdvancing user s) (check_advance now user team session s)
unfolding check_advance
check_advance-Sound now user team session s h = elim (Bool-cases (is_template_team team)) [
  | inl template ↦ rw template (write_template_denial-sessions user 3 now s)
  | inr other ↦ rw other (
      check_owned-Sound (IsAdvancing user s) user team session _ _ s refl
        λ r e own. check_current-Sound user session s r _ e own (h session r e) refl)
]

pub advance_topic-Keeps :
    (now user team session : ℕ) (s : Store)
    → AllSound s.sessions
    → Keeps user s.sessions (advance_topic now user team session s).0.sessions
unfolding advance_topic
advance_topic-Keeps now user team session s h =
    after_check-Keeps user s (IsAdvancing user s) _ _ h
      (check_advance-Sound now user team session s h) (λ t. commit_advance-Keeps now user s t h)

check_complete-Sound :
    (now user team session : ℕ) (s : Store)
    → Sound s (IsWrapped user s) (check_complete now user team session s)
unfolding check_complete
check_complete-Sound now user team session s = elim (Bool-cases (is_template_team team)) [
  | inl template ↦ rw template (write_template_denial-sessions user 4 now s)
  | inr other ↦ rw other (
      check_owned-Sound (IsWrapped user s) user team session _ _ s refl
        λ r e own. check_wrapped-Sound user session s r e own)
]

commit_complete-Keeps :
    (now user : ℕ) (s : Store) (t : CompleteTicket)
    → AllSound s.sessions
    → IsWrapped user s t
    → Keeps user s.sessions (commit_complete now t s).0.sessions
unfolding commit_complete
commit_complete-Keeps now user s t h (r, e, own, at) =
    Keeps-update user s.sessions (λ r. r.id == t.session) (complete_row now) h (λ x. refl)
      λ id r' e' hit.
        let eq = found t.session id s r r' e e' hit in
        (inr (rw (eq, at) completes, rw (eq, own) refl), ground (arith, eq, h id r' e'))

pub complete_session-Keeps :
    (now user team session : ℕ) (s : Store)
    → AllSound s.sessions
    → Keeps user s.sessions (complete_session now user team session s).0.sessions
unfolding complete_session
complete_session-Keeps now user team session s h =
    after_check-Keeps user s (IsWrapped user s) _ _ h (check_complete-Sound now user team session s)
      (λ t. commit_complete-Keeps now user s t h)
