-- ===== src/RateLimit/Bounds.antt =====
-- How many requests a limiter lets through in any window.
use project_dipstick.Base.{
  ℕ, ◌≤◌, ◌<◌, Bool, true, ◌&&◌, ◌≡◌, inl, inr, List, [], ◌∷◌, ◌++◌, arith, if◌then◌else◌, length,
  select_rows, count_rows, Bool-cases, length-select_rows, count_rows_mono,
}
use project_dipstick.RateLimit.Tracking.{
  in_window, IsPast, Holds, IsPast-later, Holds-empty, Holds-trim, Holds-add_score, trim-scores,
}
use project_dipstick.RateLimit.Windows.{
  ZSet, empty_zset, Limits, Keys, empty_keys, has_room, is_recent, trim, add_score, admit, accept,
  reject,
}

-- The limiter's keys, and the times of the requests admitted so far, the newest first.
pub record Log : Type 0 where
  pub keys : Keys
  pub admitted : List ℕ

abbrev pub empty_log : Log
empty_log = record { keys = empty_keys; admitted = [] }

unfoldable pub request : Limits → ℕ → Log → Log
unfolding admit
request l now g =
    let (k, a) = admit l now g.keys in
    record { keys = k; admitted = if a.admitted then now ∷ g.admitted else g.admitted }

-- Requests at these times, the earliest first.
unfoldable pub requests : Limits → List ℕ → Log → Log
unfolding request
requests l [] g = g
requests l (t ∷ ts) g = requests l ts (request l t g)

-- The clock does not go back.
abbrev pub IsOrdered : ℕ → List ℕ → Type 0
IsOrdered last [] = Unit
IsOrdered last (t ∷ ts) = (last ≤ t) × IsOrdered t ts

abbrev pub used : ℕ → ℕ → List ℕ → ℕ
used window t log = count_rows (in_window window t) log

-- The window before any moment has at most `limit` of the log's times.
abbrev pub IsBounded : ℕ → ℕ → List ℕ → Type 0
IsBounded window limit log = (t : ℕ) → used window t log ≤ limit

-- A time that finds room adds no window with more than `limit`.
pub IsBounded-add :
    (window limit now : ℕ) (all log : List ℕ)
    → IsBounded window limit log
    → ((p : ℕ → Bool) → count_rows p log ≤ count_rows p all)
    → length (select_rows (is_recent window now) all) < limit
    → IsBounded window limit (now ∷ log)
unfolding count_rows
IsBounded-add window limit now all log h sub room t = elim (Bool-cases (in_window window t now)) [
  | inr outside ↦ ground (arith, h t)
  | inl inside ↦ ground (
    arith,
    count_rows_mono (in_window window t) (is_recent window now) log (λ a e. ground arith),
    sub (is_recent window now),
    length-select_rows (is_recent window now) all,
  )
]

-- One window of the limiter against the log.
pub record Tracks (window limit last : ℕ) (z : ZSet) (log : List ℕ) : Type 0 where
  pub holds : Holds window last z log
  pub bounded : IsBounded window limit log
  pub past : IsPast last log

Tracks-empty : (window limit : ℕ) → Tracks window limit 0 empty_zset []
unfolding count_rows
Tracks-empty window limit = record {
  holds = Holds-empty window 0;
  bounded = λ t. omega arith;
  past = tt;
}

module _ (window limit last now : ℕ) (z : ZSet) (log : List ℕ) (order : last ≤ now)
    (tracks : Tracks window limit last z log) where
  Tracks-trim : Tracks window limit now (trim window now z) log
  Tracks-trim = record {
    holds = Holds-trim window last now z log tracks.holds order;
    bounded = tracks.bounded;
    past = IsPast-later last now log order tracks.past;
  }

  Tracks-add_score :
      has_room limit (trim window now z) ≡ true
      → Tracks window limit now (add_score window now (trim window now z)) (now ∷ log)
  Tracks-add_score room = record {
    holds = Holds-add_score window last now z log tracks.holds order tracks.past;
    bounded =
        IsBounded-add window limit now log log tracks.bounded (λ p. omega arith)
          (ground (arith, trim-scores window last now z log tracks.holds order));
    past = (omega arith, IsPast-later last now log order tracks.past);
  }

abbrev pub TracksBoth : Limits → ℕ → Log → Type 0
TracksBoth l last g =
    Tracks l.burst_window l.burst_limit last g.keys.burst g.admitted
    × Tracks l.daily_window l.daily_limit last g.keys.daily g.admitted

request-TracksBoth :
    (l : Limits) (last now : ℕ) (g : Log)
    → last ≤ now
    → TracksBoth l last g
    → TracksBoth l now (request l now g)
unfolding request accept reject
request-TracksBoth l last now g order (b, d) =
    elim (Bool-cases (has_room l.burst_limit burst && has_room l.daily_limit daily)) [
      | inl room ↦ rw (room) (
        Tracks-add_score l.burst_window l.burst_limit last now g.keys.burst g.admitted order b
            (ground arith),
        Tracks-add_score l.daily_window l.daily_limit last now g.keys.daily g.admitted order d
            (ground arith),
      )
      | inr full ↦ rw (full) (
        Tracks-trim l.burst_window l.burst_limit last now g.keys.burst g.admitted order b,
        Tracks-trim l.daily_window l.daily_limit last now g.keys.daily g.admitted order d,
      )
    ]
  where
    burst : ZSet
    burst = trim l.burst_window now g.keys.burst

    daily : ZSet
    daily = trim l.daily_window now g.keys.daily

requests-TracksBoth :
    (l : Limits) (last : ℕ) (ts : List ℕ) (g : Log)
    → IsOrdered last ts
    → TracksBoth l last g
    → (end : ℕ) × TracksBoth l end (requests l ts g)
unfolding requests
requests-TracksBoth l last [] g o h = (last, h)
requests-TracksBoth l last (t ∷ ts) g (o, os) h =
    requests-TracksBoth l t ts (request l t g) os (request-TracksBoth l last t g o h)

-- The same, with the moment of the last request before `now`.
pub requests-TracksBoth_before :
    (l : Limits) (last now : ℕ) (ts : List ℕ) (g : Log)
    → IsOrdered last (ts ++ (now ∷ []))
    → TracksBoth l last g
    → (end : ℕ) × (end ≤ now) × TracksBoth l end (requests l ts g)
unfolding requests
requests-TracksBoth_before l last now [] g (o, os) h = (last, o, h)
requests-TracksBoth_before l last now (t ∷ ts) g (o, os) h =
    requests-TracksBoth_before l t now ts (request l t g) os (request-TracksBoth l last t g o h)

pub empty-TracksBoth : (l : Limits) → TracksBoth l 0 empty_log
empty-TracksBoth l =
    (Tracks-empty l.burst_window l.burst_limit, Tracks-empty l.daily_window l.daily_limit)

-- Whatever the requests of one actor, on a clock that does not go back: at no moment does the
-- burst window before it have more admitted requests than the burst limit, nor the daily window
-- more than the daily limit.
pub requests-bounded :
    (l : Limits) (ts : List ℕ) (t : ℕ)
    → IsOrdered 0 ts
    → (used l.burst_window t (requests l ts empty_log).admitted ≤ l.burst_limit)
      × (used l.daily_window t (requests l ts empty_log).admitted ≤ l.daily_limit)
requests-bounded l ts t order =
    let (last, (b, d)) = requests-TracksBoth l 0 ts empty_log order (empty-TracksBoth l) in
    (b.bounded t, d.bounded t)
