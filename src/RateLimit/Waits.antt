-- ===== src/RateLimit/Waits.antt =====
-- What a refused request finds and leaves.
use project_dipstick.Base.{
  ℕ, ◌+◌, ◌*◌, ◌≤◌, ◌<◌, true, false, ◌≡◌, ◌⊎◌, inl, inr, List, [], ◌∷◌, ◌++◌, arith, leb, length,
  select_rows, count_rows, Bool-cases, length-select_rows, length-select_rows_upper,
}
use project_dipstick.RateLimit.Bounds.{
  empty_log, requests, IsOrdered, used, Tracks, requests-TracksBoth_before, empty-TracksBoth,
}
use project_dipstick.RateLimit.TopicWrites.{
  topic_write_limits, burst_wait, daily_wait, classify_topic_write_breach,
}
use project_dipstick.RateLimit.Tracking.{IsPast, IsPast-later, trim-scores, read-trim}
use project_dipstick.RateLimit.Windows.{
  ZSet, Limits, Keys, Admission, has_expired, read_zset, minimum, oldest_score, has_room, is_recent,
  trim, admit, accept, reject, retry_after_seconds,
}

-- Once the lowest score has left the window, one score at least is gone.
minimum-leaves :
    (window t a : ℕ) (xs : List ℕ)
    → minimum a xs + window ≤ t
    → length (select_rows (is_recent window t) (a ∷ xs)) ≤ length xs
unfolding select_rows
minimum-leaves window t a [] h = ground arith
minimum-leaves window t a (b ∷ xs) h =
    ground
      (arith, length-select_rows_upper (is_recent window t) (b ∷ xs), minimum-leaves window t b xs)

select_rows-leaves :
    (window now t limit : ℕ) (xs : List ℕ)
    → 0 < limit
    → length xs ≤ limit
    → (length xs < limit) ⊎ (oldest_score now xs + window ≤ t)
    → length (select_rows (is_recent window t) xs) < limit
unfolding select_rows
select_rows-leaves window now t limit [] pos_limit fits why = ground arith
select_rows-leaves window now t limit (a ∷ xs) pos_limit fits why = elim why [
  | inl room ↦ ground (arith, length-select_rows_upper (is_recent window t) (a ∷ xs))
  | inr left ↦ ground (arith, minimum-leaves window t a xs left)
]

window-frees :
    (window limit now t : ℕ) (z : ZSet)
    → 0 < limit
    → length (trim window now z).scores ≤ limit
    → (length (trim window now z).scores < limit)
      ⊎ (oldest_score now (trim window now z).scores + window ≤ t)
    → has_room limit (trim window t (trim window now z)) ≡ true
unfolding trim read_zset select_rows
window-frees window limit now t z pos_limit fits why =
    elim (Bool-cases (has_expired t z.expires_at)) [
      | inl gone ↦ ground arith
      | inr live ↦ ground (
        arith,
        select_rows-leaves window now t limit (trim window now z).scores pos_limit fits why,
      )
    ]

count_rows-used :
    (window now : ℕ) (xs : List ℕ)
    → IsPast now xs
    → count_rows (is_recent window now) xs ≤ used window now xs
unfolding count_rows
count_rows-used window now [] p = omega arith
count_rows-used window now (x ∷ xs) (p, ps) = ground (arith, count_rows-used window now xs ps)

-- A window never holds more than its limit.
trim-upper :
    (window limit last now : ℕ) (z : ZSet) (log : List ℕ)
    → last ≤ now
    → Tracks window limit last z log
    → length (trim window now z).scores ≤ limit
trim-upper window limit last now z log order h = ground (
  arith,
  trim-scores window last now z log h.holds order,
  length-select_rows (is_recent window now) log,
  count_rows-used window now log (IsPast-later last now log order h.past),
  h.bounded now,
)

retry_enough :
    (oldest now window wait t : ℕ)
    → retry_after_seconds oldest now window ≤ wait
    → now + 1000 * wait ≤ t
    → oldest + window ≤ t
unfolding retry_after_seconds
retry_enough oldest now window wait t h later = omega arith

-- The keys after a refusal hold the trimmed windows.
refused_keys :
    (l : Limits) (now : ℕ) (k : Keys)
    → (admit l now k).1.admitted ≡ false
    → ((admit l now k).0.burst ≡ trim l.burst_window now k.burst)
      × ((admit l now k).0.daily ≡ trim l.daily_window now k.daily)
unfolding admit accept reject
refused_keys l now k h = (ground arith, ground arith)

-- What a refusal reports of the two windows.
refused_counts :
    (l : Limits) (now : ℕ) (k : Keys)
    → (admit l now k).1.admitted ≡ false
    → let r = (admit l now k).1 in
      (r.burst_count ≡ length (trim l.burst_window now k.burst).scores)
      × (r.burst_oldest ≡ oldest_score now (trim l.burst_window now k.burst).scores)
      × (r.daily_count ≡ length (trim l.daily_window now k.daily).scores)
      × (r.daily_oldest ≡ oldest_score now (trim l.daily_window now k.daily).scores)
unfolding admit accept reject
refused_counts l now k h = (ground arith, ground arith, ground arith, ground arith)

-- The wait reported is no shorter than that of a full window.
breach-wait :
    (r : Admission) (now : ℕ)
    → (burst_wait r now ≤ (classify_topic_write_breach r now).retry_after)
      × (daily_wait r now ≤ (classify_topic_write_breach r now).retry_after)
unfolding classify_topic_write_breach
breach-wait r now = (ground arith, ground arith)

has_room-admit :
    (l : Limits) (now : ℕ) (k : Keys)
    → has_room l.burst_limit (trim l.burst_window now k.burst) ≡ true
    → has_room l.daily_limit (trim l.daily_window now k.daily) ≡ true
    → (admit l now k).1.admitted ≡ true
unfolding admit accept
has_room-admit l now k b d = ground arith

burst_why :
    (r : Admission) (now t wait : ℕ)
    → burst_wait r now ≤ wait
    → now + 1000 * wait ≤ t
    → (r.burst_count < 120) ⊎ (r.burst_oldest + 600000 ≤ t)
unfolding burst_wait
burst_why r now t wait h later = elim (Bool-cases (leb 120 r.burst_count)) [
  | inr room ↦ inl (ground arith)
  | inl full ↦ inr (retry_enough r.burst_oldest now 600000 wait t (ground arith) later)
]

daily_why :
    (r : Admission) (now t wait : ℕ)
    → daily_wait r now ≤ wait
    → now + 1000 * wait ≤ t
    → (r.daily_count < 400) ⊎ (r.daily_oldest + 86400000 ≤ t)
unfolding daily_wait
daily_why r now t wait h later = elim (Bool-cases (leb 400 r.daily_count)) [
  | inr room ↦ inl (ground arith)
  | inl full ↦ inr (retry_enough r.daily_oldest now 86400000 wait t (ground arith) later)
]

denied-admit :
    (now t : ℕ) (k : Keys)
    → length (trim 600000 now k.burst).scores ≤ 120
    → length (trim 86400000 now k.daily).scores ≤ 400
    → (admit topic_write_limits now k).1.admitted ≡ false
    → let b = classify_topic_write_breach (admit topic_write_limits now k).1 now in
      now + 1000 * b.retry_after ≤ t
      → (admit topic_write_limits t (admit topic_write_limits now k).0).1.admitted ≡ true
denied-admit now t k fits_burst fits_daily h later =
    let r = (admit topic_write_limits now k).1 in
    let (burst_count, burst_oldest, daily_count, daily_oldest) =
      refused_counts topic_write_limits now k h in
    let (same_burst, same_daily) = refused_keys topic_write_limits now k h in
    let (b, d) = breach-wait r now in
    has_room-admit topic_write_limits t (admit topic_write_limits now k).0
      (rw (same_burst) (
        window-frees 600000 120 now t k.burst (omega arith) fits_burst
          (rw (burst_count, burst_oldest) at (burst_why r now t _ b later))))
      (rw (same_daily) (
        window-frees 86400000 400 now t k.daily (omega arith) fits_daily
          (rw (daily_count, daily_oldest) at (daily_why r now t _ d later))))

-- A refused topic write, after any earlier requests on a clock that does not go back, is admitted
-- once the reported number of seconds has passed, if no other request comes in between.
pub denied-admitted :
    (ts : List ℕ) (now t : ℕ)
    → IsOrdered 0 (ts ++ (now ∷ []))
    → let k = (requests topic_write_limits ts empty_log).keys in
      let r = (admit topic_write_limits now k).1 in
      r.admitted ≡ false
      → now + 1000 * (classify_topic_write_breach r now).retry_after ≤ t
      → (admit topic_write_limits t (admit topic_write_limits now k).0).1.admitted ≡ true
denied-admitted ts now t order h later =
    let g = requests topic_write_limits ts empty_log in
    let (last, before, (b, d)) =
      requests-TracksBoth_before topic_write_limits 0 now ts empty_log order
        (empty-TracksBoth topic_write_limits) in
    denied-admit now t g.keys (trim-upper 600000 120 last now g.keys.burst g.admitted before b)
      (trim-upper 86400000 400 last now g.keys.daily g.admitted before d) h later

-- A refused request is not counted: any later request finds in both windows what it would have
-- found without it.
pub refused-trim :
    (l : Limits) (now t : ℕ) (k : Keys)
    → (admit l now k).1.admitted ≡ false
    → now ≤ t
    → let k' = (admit l now k).0 in
      ((trim l.burst_window t k'.burst).scores ≡ (trim l.burst_window t k.burst).scores)
      × ((trim l.daily_window t k'.daily).scores ≡ (trim l.daily_window t k.daily).scores)
unfolding trim
refused-trim l now t k h later =
    let (b, d) = refused_keys l now k h in
    (
      rw (b) (read-trim l.burst_window now t k.burst later),
      rw (d) (read-trim l.daily_window now t k.daily later),
    )
