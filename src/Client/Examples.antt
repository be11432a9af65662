-- ===== src/Client/Examples.antt =====
-- A connection that is lost, found again and at last ended, and the theorems on it.
use project_dipstick.Base.{
  ℕ, true, false, not, ◌≡◌, ◌≤◌, ◌/◌, refl, List, [], ◌∷◌, count_rows, select_rows, find_row, ◌++◌,
}
use project_dipstick.Client.Health.{
  connected, unknown_reconnecting, reauth_required, Event, opened, errored, closed, message,
  timer_fired, on_events, mounted, unmount,
}
use project_dipstick.Client.Recovery.{
  is_retry, on_events-pending, on_events-reauth, on_events-unmount,
}

client : Unit {0}
unfolding on_events mounted unmount select_rows find_row
client = tt

abbrev half : ℕ → ℕ
half x = x / 2

-- The socket fails and reports it twice; the floor timer (0) fires, then the retry (1).
abbrev lost : List Event
lost = errored ∷ closed 1006 ∷ timer_fired 0 ∷ timer_fired 1 ∷ []

abbrev ended : List Event
ended = lost ++ (opened ∷ message false ∷ message true ∷ [])

health_tests :
    ((on_events half lost mounted).state ≡ unknown_reconnecting)
    × ((on_events half lost mounted).sockets ≡ 2)
    × ((on_events half (lost ++ (opened ∷ [])) mounted).state ≡ connected)
    × ((on_events half (errored ∷ closed 4001 ∷ []) mounted).state ≡ connected)
    × ((on_events half (closed 4001 ∷ []) mounted).state ≡ reauth_required)
unfolding client
health_tests = (refl, refl, refl, refl, refl)

on_events-pending_example :
    (count_rows is_retry (on_events half lost mounted).pending ≤ 1)
    × (count_rows (λ p. not (is_retry p)) (on_events half lost mounted).pending ≤ 1)
on_events-pending_example = on_events-pending half lost

is_ended : (on_events half ended mounted).state ≡ reauth_required
unfolding client
is_ended = refl

on_events-reauth_example :
    let h = on_events half ended mounted in
    let h' = on_events half (closed 1000 ∷ opened ∷ []) h in
    (h'.state ≡ reauth_required) × (h'.sockets ≡ h.sockets) × (h'.pending ≡ [])
on_events-reauth_example = on_events-reauth half ended (closed 1000 ∷ opened ∷ []) is_ended

on_events-unmount_example :
    let h = unmount (on_events half (errored ∷ []) mounted) in
    (on_events half (timer_fired 0 ∷ timer_fired 1 ∷ []) h).sockets ≡ h.sockets
on_events-unmount_example =
    on_events-unmount half (errored ∷ []) (timer_fired 0 ∷ timer_fired 1 ∷ [])
