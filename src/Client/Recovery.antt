-- ===== src/Client/Recovery.antt =====
-- The connection's health after any events.
use project_dipstick.Base.{
  ℕ, ◌≤◌, Bool, true, false, ◌||◌, not, ◌≡◌, refl, ◌∙◌, ◌⊎◌, inl, inr, Option, none, some, List, [],
  ◌∷◌, arith, ◌==◌, find_row, select_rows, count_rows, Bool-cases, Option-cases,
}
use project_dipstick.Client.Health.{
  Health, reauth_required, shows_unknown, retries, Pending, is_reauth, begin_floor, handle_open,
  handle_message, fire, unmount, Event, opened, errored, closed, message, timer_fired, unmounted,
  schedule_retry, compute_retry_delay, handle_terminal, on_close_or_error, on_timer, on_event,
  on_events, mounted, is_grace_expired,
}
use project_dipstick.Client.Timers.{
  IsTidy, IsInterrupted, floor_entries, retry_entries, if-IsTidy, mounted-IsTidy, reauth-IsTidy,
  handle_open-IsTidy, handle_message-IsTidy, unmount-IsTidy, begin_floor-IsTidy, marked-IsTidy,
  no_retry, floor_fired-IsTidy, retry_fired-IsTidy,
}

abbrev pub is_retry : Pending → Bool
is_retry p = elim p.timer [ shows_unknown ↦ false | retries delay ↦ true ]

module _ (random_times : ℕ → ℕ) where
  schedule_retry-IsTidy :
      (h : Health) → IsTidy h → IsInterrupted h → IsTidy (schedule_retry random_times h)
  unfolding schedule_retry
  schedule_retry-IsTidy h t (no_retry, going, live, handled) =
      rw (going, schedule_retry)
        (record {
          delay = compute_retry_delay random_times h.attempt;
          shape = ground (arith, t.shape);
          distinct = ground (arith, t.floor_known);
          floor_known = ground (arith, t.floor_known);
          retry_known = ground arith;
          awaited = ground arith;
          stopped = ground arith;
          heard = ground arith;
        })

  -- A socket's first terminal event.
  handle_terminal-IsTidy :
      (code : Option ℕ) (h : Health)
      → IsTidy h
      → h.retry_timer ≡ none
      → h.unmounted ≡ false
      → h.handled_terminal ≡ true
      → IsTidy (handle_terminal random_times code h)
  unfolding handle_terminal
  handle_terminal-IsTidy code h t no_retry going handled = elim (Bool-cases (is_reauth h.state)) [
    | inl over ↦ rw (over, handle_terminal) t
    | inr live ↦ elim (Bool-cases (is_grace_expired code)) [
      | inl expired ↦ rw (live, expired, handle_terminal) (reauth-IsTidy h t)
      | inr lost ↦
          let (t', interrupted) = begin_floor-IsTidy h t (no_retry, going, live, handled) in
          rw (live, lost, handle_terminal) (schedule_retry-IsTidy (begin_floor h) t' interrupted)
    ]
  ]

  on_close_or_error-IsTidy :
      (code : Option ℕ) (h : Health)
      → IsTidy h
      → h.listening ≡ true
      → IsTidy (on_close_or_error random_times code h)
  unfolding on_close_or_error
  on_close_or_error-IsTidy code h t listens = elim (Bool-cases h.handled_terminal) [
    | inl again ↦ rw (again, on_close_or_error) (marked-IsTidy h t)
    | inr first ↦
        rw (first, on_close_or_error)
          (handle_terminal-IsTidy code (record h { handled_terminal = true }) (marked-IsTidy h t)
            (no_retry h.retry_timer h.handled_terminal t.awaited first) (ground (arith, t.heard))
            refl)
  ]

  -- What a timer does: nothing that is not pending fires.
  on_timer-cases :
      (id : ℕ) (h : Health) (t : IsTidy h)
      → (on_timer random_times id h ≡ h)
        ⊎ (on_timer random_times id h
            ≡ fire
                (record { id = id; timer = shows_unknown })
                (record h { pending = retry_entries h.retry_timer t.delay }))
        ⊎ ((h.retry_timer ≡ some id)
            × (on_timer random_times id h
                ≡ fire
                    (record { id = id; timer = retries t.delay })
                    (record h { pending = floor_entries h.floor_timer })))
  unfolding on_timer find_row select_rows
  on_timer-cases id h t = elim (Option-cases h.floor_timer) [
    | inl no_floor ↦ elim (Option-cases h.retry_timer) [
      | inl no_retry ↦ inl (ground (arith, t.shape))
      | inr (j, retry) ↦ elim (Bool-cases (j == id)) [
        | inl hit ↦ inr (inr (ground arith, ground (arith, t.shape)))
        | inr miss ↦ inl (ground (arith, t.shape))
      ]
    ]
    | inr (i, floor) ↦ elim (Bool-cases (i == id)) [
      | inl hit ↦ inr (inl (ground (arith, t.shape, t.distinct)))
      | inr miss ↦ elim (Option-cases h.retry_timer) [
        | inl no_retry ↦ inl (ground (arith, t.shape))
        | inr (j, retry) ↦ elim (Bool-cases (j == id)) [
          | inl hit ↦ inr (inr (ground arith, ground (arith, t.shape)))
          | inr other ↦ inl (ground (arith, t.shape))
        ]
      ]
    ]
  ]

  on_timer-IsTidy : (id : ℕ) (h : Health) → IsTidy h → IsTidy (on_timer random_times id h)
  on_timer-IsTidy id h t = elim (on_timer-cases id h t) [
    | inl same ↦ rw same t
    | inr (inl floor) ↦ rw floor (floor_fired-IsTidy h id t.delay t)
    | inr (inr (waits, retry)) ↦ rw retry (retry_fired-IsTidy h id t.delay t waits)
  ]

  on_event-IsTidy : (e : Event) (h : Health) → IsTidy h → IsTidy (on_event random_times e h)
  unfolding on_event
  on_event-IsTidy opened h t =
      if-IsTidy h.listening (handle_open h) h (λ hears. handle_open-IsTidy h t) t
  on_event-IsTidy errored h t =
      if-IsTidy h.listening (on_close_or_error random_times none h) h
        (λ hears. on_close_or_error-IsTidy none h t hears) t
  on_event-IsTidy (closed code) h t =
      if-IsTidy h.listening (on_close_or_error random_times (some code) h) h
        (λ hears. on_close_or_error-IsTidy (some code) h t hears) t
  on_event-IsTidy (message r) h t =
      if-IsTidy h.listening (handle_message r h) h (λ hears. handle_message-IsTidy r h t) t
  on_event-IsTidy (timer_fired id) h t = on_timer-IsTidy id h t
  on_event-IsTidy unmounted h t = unmount-IsTidy h t

  pub on_events-IsTidy :
      (es : List Event) (h : Health) → IsTidy h → IsTidy (on_events random_times es h)
  unfolding on_events
  on_events-IsTidy [] h t = t
  on_events-IsTidy (e ∷ es) h t =
      on_events-IsTidy es (on_event random_times e h) (on_event-IsTidy e h t)

  -- Nothing is pending in `reauth_required` or after the unmount.
  stopped-pending :
      (h : Health) → IsTidy h → (is_reauth h.state || h.unmounted) ≡ true → h.pending ≡ []
  stopped-pending h t over = elim (Option-cases h.floor_timer) [
    | inr (i, floor) ↦ absurd (ground (arith, t.stopped))
    | inl no_floor ↦ elim (Option-cases h.retry_timer) [
      | inr (j, retry) ↦ absurd (ground (arith, t.stopped))
      | inl idle ↦ ground (arith, t.shape)
    ]
  ]

  on_timer-idle : (id : ℕ) (h : Health) → h.pending ≡ [] → on_timer random_times id h ≡ h
  unfolding on_timer find_row
  on_timer-idle id h idle = ground arith

  -- In `reauth_required` no event opens a socket or changes the state.
  on_event-stopped :
      (e : Event) (h : Health)
      → IsTidy h
      → is_reauth h.state ≡ true
      → let h' = on_event random_times e h in (h'.state ≡ h.state) × (h'.sockets ≡ h.sockets)
  unfolding on_event handle_open on_close_or_error handle_terminal handle_message on_timer find_row
      unmount
  on_event-stopped (timer_fired id) h t over =
      let same = on_timer-idle id h (stopped-pending h t (ground arith)) in
      (rw same refl, rw same refl)
  on_event-stopped e h t over = (ground arith, ground arith)

  -- After the unmount neither.
  on_event-gone :
      (e : Event) (h : Health)
      → IsTidy h
      → h.unmounted ≡ true
      → let h' = on_event random_times e h in (h'.unmounted ≡ true) × (h'.sockets ≡ h.sockets)
  unfolding on_event unmount
  on_event-gone (timer_fired id) h t gone =
      let same = on_timer-idle id h (stopped-pending h t (ground arith)) in
      (rw same gone, rw same refl)
  on_event-gone e h t gone = (ground (arith, t.heard), ground (arith, t.heard))

  on_events-stopped :
      (es : List Event) (h : Health)
      → IsTidy h
      → h.state ≡ reauth_required
      → let h' = on_events random_times es h in
        (h'.state ≡ reauth_required) × (h'.sockets ≡ h.sockets)
  unfolding on_events
  on_events-stopped [] h t over = (over, refl)
  on_events-stopped (e ∷ es) h t over =
      let (same, sockets) = on_event-stopped e h t (rw over refl) in
      let (still, more) =
        on_events-stopped es (on_event random_times e h) (on_event-IsTidy e h t) (same ∙ over) in
      (still, more ∙ sockets)

  on_events-gone :
      (es : List Event) (h : Health)
      → IsTidy h
      → h.unmounted ≡ true
      → (on_events random_times es h).sockets ≡ h.sockets
  unfolding on_events
  on_events-gone [] h t gone = refl
  on_events-gone (e ∷ es) h t gone =
      let (still, same) = on_event-gone e h t gone in
      on_events-gone es (on_event random_times e h) (on_event-IsTidy e h t) still ∙ same

  -- What can happen before.
  reached-IsTidy : (es : List Event) → IsTidy (on_events random_times es mounted)
  reached-IsTidy es = on_events-IsTidy es mounted mounted-IsTidy

  -- After any events at most one retry and at most one floor timer are pending.
  pub on_events-pending :
      (es : List Event)
      → let h = on_events random_times es mounted in
        (count_rows is_retry h.pending ≤ 1) × (count_rows (λ p. not (is_retry p)) h.pending ≤ 1)
  unfolding count_rows
  on_events-pending es =
      let t = reached-IsTidy es in (ground (arith, t.shape), ground (arith, t.shape))

  -- Once the state is reauth_required, whatever follows leaves it so, opens no socket and leaves no
  -- timer pending.
  pub on_events-reauth :
      (es later : List Event)
      → let h = on_events random_times es mounted in
        h.state ≡ reauth_required
        → let h' = on_events random_times later h in
          (h'.state ≡ reauth_required) × (h'.sockets ≡ h.sockets) × (h'.pending ≡ [])
  on_events-reauth es later over =
      let h = on_events random_times es mounted in
      let t = reached-IsTidy es in
      let (still, sockets) = on_events-stopped later h t over in
      (
        still,
        sockets,
        stopped-pending (on_events random_times later h) (on_events-IsTidy later h t)
            (rw still refl),
      )

  -- After the unmount no socket is opened, whatever follows.
  pub on_events-unmount :
      (es later : List Event)
      → let h = unmount (on_events random_times es mounted) in
        (on_events random_times later h).sockets ≡ h.sockets
  unfolding unmount
  on_events-unmount es later =
      let h = on_events random_times es mounted in
      on_events-gone later (unmount h) (unmount-IsTidy h (reached-IsTidy es)) refl
