-- ===== src/Client/Health.antt =====
-- The connection's health in the browser (packages/frontend/src/realtime/connectionHealth.ts): the
-- effect of useConnectionHealth as a state machine. The refs are fields. A pending setTimeout is an
-- entry of `pending`, which a clearTimeout of its handle removes. React's copy of the state is left
-- out, as is the socket itself: `sockets` counts those that were opened.
use project_dipstick.Base.{
  ℕ, ◌+◌, ◌*◌, Bool, true, false, ◌&&◌, not, Option, none, some, List, [], ◌∷◌, ◌++◌, ◌==◌, min,
  if◌then◌else◌, find_row, select_rows, suc, zero,
}

pub data HealthState : Type 0 where
  connected unknown_reconnecting reauth_required : HealthState

-- What a timer does when it fires; a retry with its delay.
pub data Timer : Type 0 where
  shows_unknown : Timer
  retries : ℕ → Timer

pub record Pending : Type 0 where
  pub id : ℕ
  pub timer : Timer

pub record Health : Type 0 where
  pub state : HealthState
  pub attempt : ℕ
  pub retry_timer : Option ℕ
  pub floor_timer : Option ℕ
  pub pending : List Pending
  pub next_timer : ℕ
  pub sockets : ℕ
  pub listening : Bool
  pub handled_terminal : Bool
  pub unmounted : Bool

abbrev pub reauth_grace_expired_close_code : ℕ
reauth_grace_expired_close_code = 4001

abbrev pub staleness_timing_floor_ms : ℕ
staleness_timing_floor_ms = 2000

power_of_two : ℕ → ℕ
power_of_two zero = 1
power_of_two (suc n) = 2 * power_of_two n

unfoldable pub upper_bound : ℕ → ℕ
unfolding power_of_two
upper_bound attempt = min 30000 (1000 * power_of_two attempt)

abbrev pub is_reauth : HealthState → Bool
is_reauth connected = false
is_reauth unknown_reconnecting = false
is_reauth reauth_required = true

abbrev pub is_connected : HealthState → Bool
is_connected connected = true
is_connected unknown_reconnecting = false
is_connected reauth_required = false

abbrev clear : Option ℕ → List Pending → List Pending
clear none ps = ps
clear (some id) ps = select_rows (λ p. not (p.id == id)) ps

unfoldable pub clear_retry_timer : Health → Health
clear_retry_timer h = record h { retry_timer = none; pending = clear h.retry_timer h.pending }

unfoldable pub clear_floor_timer : Health → Health
clear_floor_timer h = record h { floor_timer = none; pending = clear h.floor_timer h.pending }

-- With the effects of entering a state.
unfoldable pub transition_to : HealthState → Health → Health
unfolding clear_retry_timer clear_floor_timer
transition_to connected h = record h { state = connected }
transition_to unknown_reconnecting h = record h { state = unknown_reconnecting }
transition_to reauth_required h = record (clear_floor_timer (clear_retry_timer h)) {
  state = reauth_required;
}

abbrev pub is_unset : Option ℕ → Bool
is_unset none = true
is_unset (some id) = false

unfoldable pub begin_floor : Health → Health
begin_floor h =
    if is_connected h.state && is_unset h.floor_timer
    then record h {
      floor_timer = some h.next_timer;
      pending = h.pending ++ (record { id = h.next_timer; timer = shows_unknown } ∷ []);
      next_timer = h.next_timer + 1;
    }
    else h

unfoldable pub handle_open : Health → Health
unfolding transition_to clear_retry_timer clear_floor_timer
handle_open h =
    if is_reauth h.state
    then h
    else transition_to connected (record (clear_retry_timer (clear_floor_timer h)) { attempt = 0 })

-- A new socket, with listeners on it and on no other.
unfoldable pub open_socket : Health → Health
open_socket h =
    if h.unmounted
    then h
    else record h { sockets = h.sockets + 1; listening = true; handled_terminal = false }

-- The close code, of a CloseEvent.
unfoldable pub is_grace_expired : Option ℕ → Bool
is_grace_expired none = false
is_grace_expired (some code) = code == reauth_grace_expired_close_code

-- A message is a reauth_required message, or one that is passed over.
unfoldable pub handle_message : Bool → Health → Health
unfolding transition_to
handle_message is_reauth_message h =
    if is_reauth h.state
    then h
    else if is_reauth_message
    then transition_to reauth_required h
    else h

unfoldable pub fire : Pending → Health → Health
unfolding open_socket transition_to
fire p h = elim p.timer [
  | shows_unknown ↦
      let h' = record h { floor_timer = none } in
      if is_connected h.state then transition_to unknown_reconnecting h' else h'
  | retries delay ↦ open_socket (record h { retry_timer = none })
]

unfoldable pub unmount : Health → Health
unfolding clear_retry_timer clear_floor_timer
unmount h = record (clear_floor_timer (clear_retry_timer (record h { unmounted = true }))) {
  listening = false;
}

-- What the browser reports, of the current socket or of a timer.
pub data Event : Type 0 where
  opened errored : Event
  closed : ℕ → Event
  message : Bool → Event
  timer_fired : ℕ → Event
  unmounted : Event

-- `random_times x` stands for Math.random() * x.
module _ (random_times : ℕ → ℕ) where
  unfoldable pub compute_retry_delay : ℕ → ℕ
  unfolding upper_bound
  compute_retry_delay attempt = random_times (upper_bound attempt)

  unfoldable pub schedule_retry : Health → Health
  unfolding compute_retry_delay
  schedule_retry h = if h.unmounted then h else record h {
    attempt = h.attempt + 1;
    retry_timer = some h.next_timer;
    pending =
        h.pending
        ++ (record { id = h.next_timer; timer = retries (compute_retry_delay h.attempt) } ∷ []);
    next_timer = h.next_timer + 1;
  }

  unfoldable pub handle_terminal : Option ℕ → Health → Health
  unfolding begin_floor schedule_retry is_grace_expired transition_to
  handle_terminal code h =
      if is_reauth h.state
      then h
      else if is_grace_expired code
      then transition_to reauth_required h
      else schedule_retry (begin_floor h)

  -- Only the first of a socket's error and close counts.
  unfoldable pub on_close_or_error : Option ℕ → Health → Health
  unfolding handle_terminal
  on_close_or_error code h =
      if h.handled_terminal then h else handle_terminal code (record h { handled_terminal = true })

  unfoldable pub on_timer : ℕ → Health → Health
  unfolding fire
  on_timer id h = elim (find_row (λ p. p.id == id) h.pending) [
    | none ↦ h
    | some p ↦ fire p (record h { pending = select_rows (λ q. not (q.id == id)) h.pending })
  ]

  unfoldable pub on_event : Event → Health → Health
  unfolding handle_open on_close_or_error handle_message on_timer unmount
  on_event opened h = if h.listening then handle_open h else h
  on_event errored h = if h.listening then on_close_or_error none h else h
  on_event (closed code) h = if h.listening then on_close_or_error (some code) h else h
  on_event (message r) h = if h.listening then handle_message r h else h
  on_event (timer_fired id) h = on_timer id h
  on_event unmounted h = unmount h

  unfoldable pub on_events : List Event → Health → Health
  unfolding on_event
  on_events [] h = h
  on_events (e ∷ es) h = on_events es (on_event e h)

-- The state after mounting: the first socket is being opened.
unfoldable pub mounted : Health
mounted = record {
  state = connected;
  attempt = 0;
  retry_timer = none;
  floor_timer = none;
  pending = [];
  next_timer = 0;
  sockets = 1;
  listening = true;
  handled_terminal = false;
  unmounted = false;
}
