-- ===== src/RateLimit/Windows.antt =====
-- The sliding windows of packages/backend/src/auth/sliding-window-limiter.ts: the two Lua scripts
-- and retryAfterSeconds. A sorted set is the list of its scores, the newest first: a member's name
-- is unique. The app server's clock and that of Redis are one clock here, in milliseconds.
use project_dipstick.Base.{
  ℕ, ◌+◌, ◌-◌, ◌/◌, max, Bool, true, false, ◌&&◌, Option, none, some, List, [], ◌∷◌, ltb, leb,
  if◌then◌else◌, length, select_rows, min,
}

pub record ZSet : Type 0 where
  pub scores : List ℕ
  pub expires_at : Option ℕ

abbrev pub empty_zset : ZSet
empty_zset = record { scores = []; expires_at = none }

unfoldable pub has_expired : ℕ → Option ℕ → Bool
has_expired now none = false
has_expired now (some t) = leb t now

unfoldable pub read_zset : ℕ → ZSet → List ℕ
unfolding has_expired
read_zset now z = if has_expired now z.expires_at then [] else z.scores

-- A score that ZREMRANGEBYSCORE from -inf to now - window leaves.
abbrev pub is_recent : ℕ → ℕ → ℕ → Bool
is_recent window now a = ltb now (a + window)

unfoldable pub trim : ℕ → ℕ → ZSet → ZSet
unfolding read_zset
trim window now z = record z { scores = select_rows (is_recent window now) (read_zset now z) }

-- ZADD and PEXPIRE.
unfoldable pub add_score : ℕ → ℕ → ZSet → ZSet
add_score window now z = record { scores = now ∷ z.scores; expires_at = some (now + window) }

abbrev pub minimum : ℕ → List ℕ → ℕ
minimum a [] = a
minimum a (b ∷ bs) = min a (minimum b bs)

-- The lowest score, `now` in an empty set.
abbrev pub oldest_score : ℕ → List ℕ → ℕ
oldest_score now [] = now
oldest_score now (a ∷ rest) = minimum a rest

-- SlidingWindowResult.
pub record Counted : Type 0 where
  pub count : ℕ
  pub oldest : ℕ

-- SLIDING_WINDOW_LUA: every request is recorded, also one that the caller refuses.
unfoldable pub record_and_count : ℕ → ℕ → ZSet → ZSet × Counted
unfolding trim add_score
record_and_count window now z =
    let z' = add_score window now (trim window now z) in
    (z', record { count = length z'.scores; oldest = oldest_score now z'.scores })

-- The wait in whole seconds, rounded up, and at least one.
unfoldable pub retry_after_seconds : ℕ → ℕ → ℕ → ℕ
retry_after_seconds oldest now window = max 1 ((oldest + window - now + 999) / 1000)

pub record Limits : Type 0 where
  pub burst_limit : ℕ
  pub burst_window : ℕ
  pub daily_limit : ℕ
  pub daily_window : ℕ

-- The string key of a breach episode.
pub record Marker : Type 0 where
  pub value : ℕ
  pub expires_at : ℕ

pub record Keys : Type 0 where
  pub burst : ZSet
  pub daily : ZSet
  pub burst_marker : Option Marker
  pub daily_marker : Option Marker

abbrev pub empty_keys : Keys
empty_keys = record {
  burst = empty_zset;
  daily = empty_zset;
  burst_marker = none;
  daily_marker = none;
}

-- DualWindowResult.
pub record Admission : Type 0 where
  pub admitted : Bool
  pub burst_count : ℕ
  pub burst_oldest : ℕ
  pub daily_count : ℕ
  pub daily_oldest : ℕ
  pub burst_episode_new : Bool
  pub daily_episode_new : Bool
  pub burst_suppressed : ℕ
  pub daily_suppressed : ℕ

-- What `breach` does to its marker and what it returns.
pub record Breach : Type 0 where
  pub marker : Option Marker
  pub episode_new : Bool
  pub suppressed : ℕ

open_episode : ℕ → ℕ → ℕ → Breach
open_episode now oldest window = record {
  marker = some (record { value = 1; expires_at = now + max 1 (oldest + window - now) });
  episode_new = true;
  suppressed = 0;
}

-- SET ... NX PX, and INCR if a live marker is in the way.
unfoldable pub breach : ℕ → ℕ → ℕ → Option Marker → Breach
unfolding open_episode
breach now oldest window none = open_episode now oldest window
breach now oldest window (some m) =
    if leb m.expires_at now then open_episode now oldest window else record {
      marker = some (record m { value = m.value + 1 });
      episode_new = false;
      suppressed = m.value;
    }

abbrev pub has_room : ℕ → ZSet → Bool
has_room limit z = ltb (length z.scores) limit

-- A window that has room loses its marker.
unfoldable pub breach_if_full : ℕ → ℕ → ℕ → ZSet → Option Marker → Breach
unfolding breach
breach_if_full now limit window z marker =
    if has_room limit z
    then record { marker = none; episode_new = false; suppressed = 0 }
    else breach now (oldest_score now z.scores) window marker

unfoldable pub reject : Limits → ℕ → ZSet → ZSet → Keys → Keys × Admission
unfolding breach_if_full
reject l now burst daily k =
    let b = breach_if_full now l.burst_limit l.burst_window burst k.burst_marker in
    let d = breach_if_full now l.daily_limit l.daily_window daily k.daily_marker in
    (
      record { burst = burst; daily = daily; burst_marker = b.marker; daily_marker = d.marker },
      record {
        admitted = false;
        burst_count = length burst.scores;
        burst_oldest = oldest_score now burst.scores;
        daily_count = length daily.scores;
        daily_oldest = oldest_score now daily.scores;
        burst_episode_new = b.episode_new;
        daily_episode_new = d.episode_new;
        burst_suppressed = b.suppressed;
        daily_suppressed = d.suppressed;
      },
    )

unfoldable pub accept : Limits → ℕ → ZSet → ZSet → Keys × Admission
unfolding add_score
accept l now burst daily = (
  record {
    burst = add_score l.burst_window now burst;
    daily = add_score l.daily_window now daily;
    burst_marker = none;
    daily_marker = none;
  },
  record {
    admitted = true;
    burst_count = length burst.scores + 1;
    burst_oldest = oldest_score now (now ∷ burst.scores);
    daily_count = length daily.scores + 1;
    daily_oldest = oldest_score now (now ∷ daily.scores);
    burst_episode_new = false;
    daily_episode_new = false;
    burst_suppressed = 0;
    daily_suppressed = 0;
  },
)

-- CONDITIONAL_DUAL_WINDOW_LUA: a request is recorded in both windows if both have room, else in
-- none.
unfoldable pub admit : Limits → ℕ → Keys → Keys × Admission
unfolding trim accept reject
admit l now k =
    let burst = trim l.burst_window now k.burst in
    let daily = trim l.daily_window now k.daily in
    if has_room l.burst_limit burst && has_room l.daily_limit daily
    then accept l now burst daily
    else reject l now burst daily k
