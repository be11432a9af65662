-- ===== src/Realtime/Registry.antt =====
-- The registry of a pod's WebSocket connections
-- (packages/backend/src/realtime/connection-registry.ts). A connection object is known by a
-- number; the fields that are written after its creation, the timers, and its socket stand in the
-- hub under that number.
use project_dipstick.Base.{
  ℕ, ◌+◌, ◌-◌, Bool, true, false, not, Option, none, some, List, [], ◌∷◌, ◌++◌, ◌==◌, ltb,
  if◌then◌else◌, length, any, select_rows, map_get, map_set, map_delete,
}

pub data Scope : Type 0 where
  session team : Scope

pub data SubscriberPath : Type 0 where
  participant facilitator : SubscriberPath

pub record Connection : Type 0 where
  pub id : ℕ
  pub user_id : ℕ
  pub session_created_at : ℕ
  pub subscriber_path : Option SubscriberPath

-- Handles of pending timers.
pub record Timers : Type 0 where
  pub force_close : Option ℕ
  pub reauth_sweep : Option ℕ
  pub token_refresh : Option ℕ

abbrev pub no_timers : Timers
no_timers = record { force_close = none; reauth_sweep = none; token_refresh = none }

-- A JavaScript Set of connections, in insertion order.
abbrev pub ConnectionSet : Type 0
ConnectionSet = List Connection

abbrev pub has : ℕ → ConnectionSet → Bool
has id set = any (λ c. c.id == id) set

pub record Hub (M : Type 0) : Type 0 where
  pub by_session : List (ℕ × ConnectionSet)
  pub by_team : List (ℕ × ConnectionSet)
  pub timers : ℕ → Timers
  -- Handles given to clearTimeout and clearInterval.
  pub cleared : List ℕ
  -- `readyState` of each socket, and whether its `send` throws.
  pub ready_state : ℕ → ℕ
  pub send_throws : ℕ → Bool
  -- What has been sent, to whom, the newest first.
  pub sent : List (ℕ × M)

module _ {M : Type 0} where
  abbrev pub scope_map : Scope → Hub M → List (ℕ × ConnectionSet)
  scope_map session h = h.by_session
  scope_map team h = h.by_team

  abbrev pub with_map : Scope → List (ℕ × ConnectionSet) → Hub M → Hub M
  with_map session m h = record h { by_session = m }
  with_map team m h = record h { by_team = m }

abbrev set_or_new : Option ConnectionSet → ConnectionSet
set_or_new none = []
set_or_new (some set) = set

-- Set.add.
unfoldable pub add_to : Connection → ConnectionSet → ConnectionSet
add_to c set = if has c.id set then set else set ++ c ∷ []

-- Set.delete.
unfoldable pub remove_from : ℕ → ConnectionSet → ConnectionSet
remove_from id set = select_rows (λ c. not (c.id == id)) set

handles : Option ℕ → List ℕ
handles none = []
handles (some t) = t ∷ []

sizes : List (ℕ × ConnectionSet) → ℕ
sizes [] = 0
sizes ((id, set) ∷ m) = length set + sizes m

module _ {M : Type 0} where
  unfoldable pub register : Scope → ℕ → Connection → Hub M → Hub M
  unfolding add_to map_get map_set
  register scope id c h =
      with_map scope
        (map_set id (add_to c (set_or_new (map_get id (scope_map scope h)))) (scope_map scope h)) h

  -- Clears the three timers of the connection.
  unfoldable pub clear_timers : ℕ → Hub M → Hub M
  unfolding handles
  clear_timers c h = record h {
    timers = λ k. if k == c then no_timers else h.timers k;
    cleared =
        handles (h.timers c).force_close
        ++ (handles (h.timers c).reauth_sweep ++ (handles (h.timers c).token_refresh ++ h.cleared));
  }

  -- The set left after a removal: an empty one loses its entry.
  unfoldable pub shrink : Scope → ℕ → ConnectionSet → Hub M → Hub M
  unfolding map_set map_delete
  shrink scope id [] h = with_map scope (map_delete id (scope_map scope h)) h
  shrink scope id (c ∷ set) h = with_map scope (map_set id (c ∷ set) (scope_map scope h)) h

  unfoldable pub drop_from : Scope → ℕ → ℕ → Option ConnectionSet → Hub M → Hub M
  unfolding shrink remove_from
  drop_from scope id c none h = h
  drop_from scope id c (some set) h = shrink scope id (remove_from c set) h

  unfoldable pub deregister : Scope → ℕ → ℕ → Hub M → Hub M
  unfolding drop_from clear_timers map_get
  deregister scope id c h = drop_from scope id c (map_get id (scope_map scope h)) (clear_timers c h)

  unfoldable pub candidates : Scope → ℕ → Hub M → ConnectionSet
  unfolding map_get
  candidates scope id h = set_or_new (map_get id (scope_map scope h))

  unfoldable pub size : Scope → Hub M → ℕ
  unfolding sizes
  size scope h = sizes (scope_map scope h)

  -- WebSocket.OPEN is 1. A send that throws, or a socket that is not open, deregisters.
  unfoldable pub safe_send : Scope → ℕ → Connection → M → Hub M → Hub M × Bool
  unfolding deregister
  safe_send scope id c message h =
      if not (h.ready_state c.id == 1)
      then (deregister scope id c.id h, false)
      else if h.send_throws c.id
      then (deregister scope id c.id h, false)
      else (record h { sent = (c.id, message) ∷ h.sent }, true)

abbrev pub absolute_lifetime_ms : ℕ
absolute_lifetime_ms = 5400000

-- `now - created` of a clock that has not gone back; a creation in the future is not expired.
unfoldable pub is_past_absolute_lifetime : ℕ → Connection → Bool
is_past_absolute_lifetime now c = ltb absolute_lifetime_ms (now - c.session_created_at)
