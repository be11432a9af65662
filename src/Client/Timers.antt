-- ===== src/Client/Timers.antt =====
-- The timers of the connection's health, under each operation.
use project_dipstick.Base.{
  ℕ, Bool, true, false, ◌&&◌, ◌||◌, not, ◌≡◌, refl, inl, inr, Option, none, some, List, [], ◌∷◌,
  ◌++◌, arith, ltb, ◌==◌, if◌then◌else◌, select_rows, Bool-cases, Option-cases,
}
use project_dipstick.Client.Health.{
  Health, connected, reauth_required, shows_unknown, retries, Pending, is_reauth, is_connected,
  is_unset, clear_retry_timer, clear_floor_timer, transition_to, begin_floor, handle_open,
  open_socket, handle_message, fire, unmount, mounted,
}

abbrev pub floor_entries : Option ℕ → List Pending
floor_entries none = []
floor_entries (some id) = record { id = id; timer = shows_unknown } ∷ []

abbrev pub retry_entries : Option ℕ → ℕ → List Pending
retry_entries none delay = []
retry_entries (some id) delay = record { id = id; timer = retries delay } ∷ []

abbrev pub is_below : ℕ → Option ℕ → Bool
is_below n none = true
is_below n (some id) = ltb id n

abbrev pub differ : Option ℕ → Option ℕ → Bool
differ none o = true
differ (some i) none = true
differ (some i) (some j) = not (i == j)

-- The pending timers are those that the two refs name, a retry waits only after a terminal event,
-- and nothing waits in `reauth_required` or after the unmount.
pub record IsTidy (h : Health) : Type 0 where
  pub delay : ℕ
  pub shape : h.pending ≡ floor_entries h.floor_timer ++ retry_entries h.retry_timer delay
  pub distinct : differ h.floor_timer h.retry_timer ≡ true
  pub floor_known : is_below h.next_timer h.floor_timer ≡ true
  pub retry_known : is_below h.next_timer h.retry_timer ≡ true
  pub awaited : (is_unset h.retry_timer || h.handled_terminal) ≡ true
  pub stopped :
      (not (is_reauth h.state || h.unmounted) || (is_unset h.floor_timer && is_unset h.retry_timer))
      ≡ true
  pub heard : (not h.listening || not h.unmounted) ≡ true

pub if-IsTidy :
    (b : Bool) (x y : Health) → (b ≡ true → IsTidy x) → IsTidy y → IsTidy (if b then x else y)
if-IsTidy true x y f t = f refl
if-IsTidy false x y f t = t

pub mounted-IsTidy : IsTidy mounted
unfolding mounted
mounted-IsTidy = record {
  delay = 0;
  shape = refl;
  distinct = refl;
  floor_known = refl;
  retry_known = refl;
  awaited = refl;
  stopped = refl;
  heard = refl;
}

-- After both timers have been cleared nothing is pending.
pub cleared-pending :
    (h : Health)
    → IsTidy h
    → ((clear_floor_timer (clear_retry_timer h)).pending ≡ [])
      × ((clear_retry_timer (clear_floor_timer h)).pending ≡ [])
unfolding clear_floor_timer clear_retry_timer select_rows
cleared-pending h t = elim (Option-cases h.floor_timer) [
  | inl no_floor ↦ elim (Option-cases h.retry_timer) [
    | inl no_retry ↦ (ground (arith, t.shape), ground (arith, t.shape))
    | inr (j, retry) ↦ (ground (arith, t.shape), ground (arith, t.shape))
  ]
  | inr (i, floor) ↦ elim (Option-cases h.retry_timer) [
    | inl no_retry ↦ (ground (arith, t.shape), ground (arith, t.shape))
    | inr (j, retry) ↦ (ground (arith, t.shape, t.distinct), ground (arith, t.shape, t.distinct))
  ]
]

pub quiet-IsTidy :
    (h : Health)
    → h.floor_timer ≡ none
    → h.retry_timer ≡ none
    → h.pending ≡ []
    → (not h.listening || not h.unmounted) ≡ true
    → IsTidy h
quiet-IsTidy h floor retry idle heard = record {
  delay = 0;
  shape = rw (floor, retry) idle;
  distinct = rw (floor) refl;
  floor_known = rw (floor) refl;
  retry_known = rw (retry) refl;
  awaited = ground (arith, retry);
  stopped = ground (arith, floor, retry);
  heard = heard;
}

pub reauth-IsTidy : (h : Health) → IsTidy h → IsTidy (transition_to reauth_required h)
unfolding transition_to clear_retry_timer clear_floor_timer
reauth-IsTidy h t =
    quiet-IsTidy (transition_to reauth_required h) refl refl ((cleared-pending h t).0) t.heard

pub handle_open-IsTidy : (h : Health) → IsTidy h → IsTidy (handle_open h)
unfolding handle_open transition_to clear_retry_timer clear_floor_timer
handle_open-IsTidy h t = elim (Bool-cases (is_reauth h.state)) [
  | inl over ↦ rw (over, handle_open) t
  | inr going ↦
      rw (going, handle_open)
        (quiet-IsTidy
          (record (clear_retry_timer (clear_floor_timer h)) { attempt = 0; state = connected }) refl
          refl ((cleared-pending h t).1) t.heard)
]

pub handle_message-IsTidy : (r : Bool) (h : Health) → IsTidy h → IsTidy (handle_message r h)
unfolding handle_message
handle_message-IsTidy r h t = elim (Bool-cases (is_reauth h.state)) [
  | inl over ↦ rw (over, handle_message) t
  | inr going ↦ elim (Bool-cases r) [
    | inl asks ↦ rw (going, asks, handle_message) (reauth-IsTidy h t)
    | inr other ↦ rw (going, other, handle_message) t
  ]
]

pub unmount-IsTidy : (h : Health) → IsTidy h → IsTidy (unmount h)
unfolding unmount clear_retry_timer clear_floor_timer
unmount-IsTidy h t = quiet-IsTidy (unmount h) refl refl ((cleared-pending h t).0) refl

-- What a terminal event finds when it is the first of its socket and not the last of all.
abbrev pub IsInterrupted : Health → Type 0
IsInterrupted h =
    (h.retry_timer ≡ none)
    × (h.unmounted ≡ false)
    × (is_reauth h.state ≡ false)
    × (h.handled_terminal ≡ true)

pub begin_floor-IsTidy :
    (h : Health)
    → IsTidy h
    → IsInterrupted h
    → IsTidy (begin_floor h) × IsInterrupted (begin_floor h)
unfolding begin_floor
begin_floor-IsTidy h t (no_retry, going, live, handled) =
    elim (Bool-cases (is_connected h.state && is_unset h.floor_timer)) [
      | inl begins ↦
          rw (begins, begin_floor)
            (
              record {
                delay = 0;
                shape = ground (arith, t.shape);
                distinct = ground arith;
                floor_known = ground arith;
                retry_known = ground arith;
                awaited = ground arith;
                stopped = ground arith;
                heard = t.heard;
              },
              (no_retry, going, live, handled),
            )
      | inr runs ↦ rw (runs, begin_floor) (t, (no_retry, going, live, handled))
    ]

pub marked-IsTidy : (h : Health) → IsTidy h → IsTidy (record h { handled_terminal = true })
marked-IsTidy h t = record {
  delay = t.delay;
  shape = t.shape;
  distinct = t.distinct;
  floor_known = t.floor_known;
  retry_known = t.retry_known;
  awaited = ground arith;
  stopped = t.stopped;
  heard = t.heard;
}

pub no_retry :
    (o : Option ℕ) (handled : Bool) → (is_unset o || handled) ≡ true → handled ≡ false → o ≡ none
no_retry none handled a b = refl
no_retry (some id) handled a b = absurd (ground arith)

-- The floor timer fires: the retry, if any, goes on waiting.
pub floor_fired-IsTidy :
    (h : Health) (i d : ℕ)
    → (t : IsTidy h)
    → IsTidy (
        fire
          (record { id = i; timer = shows_unknown })
          (record h { pending = retry_entries h.retry_timer t.delay }))
unfolding fire transition_to
floor_fired-IsTidy h i d t = elim (Bool-cases (is_connected h.state)) [
  | inl here ↦ rw (here) record {
    delay = t.delay;
    shape = refl;
    distinct = refl;
    floor_known = refl;
    retry_known = t.retry_known;
    awaited = t.awaited;
    stopped = ground (arith, t.stopped);
    heard = t.heard;
  }
  | inr away ↦ rw (away) record {
    delay = t.delay;
    shape = refl;
    distinct = refl;
    floor_known = refl;
    retry_known = t.retry_known;
    awaited = t.awaited;
    stopped = ground (arith, t.stopped);
    heard = t.heard;
  }
]

-- The retry fires, which is only pending before the unmount: the floor timer, if any, goes on.
pub retry_fired-IsTidy :
    (h : Health) (j d : ℕ)
    → IsTidy h
    → h.retry_timer ≡ some j
    → IsTidy (
        fire
          (record { id = j; timer = retries d })
          (record h { pending = floor_entries h.floor_timer }))
unfolding fire open_socket
retry_fired-IsTidy h j d t waits = elim (Bool-cases h.unmounted) [
  | inl gone ↦ absurd (ground (arith, t.stopped))
  | inr going ↦
      rw (going, open_socket)
        record {
          delay = 0;
          shape = ground arith;
          distinct = ground arith;
          floor_known = t.floor_known;
          retry_known = refl;
          awaited = refl;
          stopped = ground (arith, t.stopped);
          heard = ground arith;
        }
]
