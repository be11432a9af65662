-- ===== src/RateLimit/Examples.antt =====
-- Runs of the limiters, and the theorems applied to them.
use project_dipstick.Base.{
  ◌*◌, ℕ, zero, suc, ◌≤◌, true, false, ◌≡◌, refl, List, [], ◌∷◌, ◌++◌, arith, select_rows,
  count_rows,
}
use project_dipstick.RateLimit.Bounds.{Log, empty_log, requests, requests-bounded, IsOrdered, used}
use project_dipstick.RateLimit.Denials.{admit_denial_audit, over_limit}
use project_dipstick.RateLimit.TopicWrites.{topic_write_limits, classify_topic_write_breach}
use project_dipstick.RateLimit.Waits.{denied-admitted, refused-trim}
use project_dipstick.RateLimit.Windows.{Limits, Keys, ZSet, empty_zset, admit, trim, read_zset}

limiter : Unit {0}
unfolding requests admit classify_topic_write_breach admit_denial_audit trim read_zset select_rows
    count_rows
limiter = tt

abbrev small : Limits
small = record { burst_limit = 2; burst_window = 10; daily_limit = 3; daily_window = 100 }

abbrev times : List ℕ
times = 1 ∷ 2 ∷ 3 ∷ 12 ∷ 14 ∷ []

-- The third meets a full burst window, the last a full daily one.
requests_test : (requests small times empty_log).admitted ≡ 12 ∷ 2 ∷ 1 ∷ []
unfolding limiter
requests_test = refl

times-IsOrdered : IsOrdered 0 times
times-IsOrdered = (omega arith, (omega arith, (omega arith, (omega arith, (omega arith, tt)))))

requests-bounded_example :
    (used 10 12 (requests small times empty_log).admitted ≤ 2)
    × (used 100 12 (requests small times empty_log).admitted ≤ 3)
requests-bounded_example = requests-bounded small times 12 times-IsOrdered

abbrev full_keys : Keys
full_keys = (requests small (1 ∷ 2 ∷ []) empty_log).keys

refused : (admit small 3 full_keys).1.admitted ≡ false
unfolding limiter
refused = refl

refused-trim_example :
    ((trim 10 5 (admit small 3 full_keys).0.burst).scores ≡ (trim 10 5 full_keys.burst).scores)
    × ((trim 100 5 (admit small 3 full_keys).0.daily).scores ≡ (trim 100 5 full_keys.daily).scores)
refused-trim_example = refused-trim small 3 5 full_keys refused (omega arith)

abbrev same_time : ℕ → List ℕ
same_time zero = []
same_time (suc n) = 7 ∷ same_time n

same_time-IsOrdered : (n : ℕ) → IsOrdered 7 (same_time n ++ (9 ∷ []))
same_time-IsOrdered zero = (omega arith, tt)
same_time-IsOrdered (suc n) = (omega arith, same_time-IsOrdered n)

abbrev burst_log : Log
burst_log = requests topic_write_limits (same_time 120) empty_log

burst_full : (admit topic_write_limits 9 burst_log.keys).1.admitted ≡ false
unfolding limiter
burst_full = refl

wait :
    (classify_topic_write_breach (admit topic_write_limits 9 burst_log.keys).1 9).retry_after ≡ 600
unfolding limiter
wait = refl

denied-admitted_example :
    (admit topic_write_limits 600009 (admit topic_write_limits 9 burst_log.keys).0).1.admitted
    ≡ true
denied-admitted_example =
    denied-admitted (same_time 120) 9 600009 (omega arith, same_time-IsOrdered 119) burst_full
      (omega (arith, wait))

-- The key of an actor after n denials, one every 5.9 seconds.
abbrev steady : ℕ → ZSet
steady zero = empty_zset
steady (suc n) = (admit_denial_audit true false (n * 5900) (steady n)).0

-- The eleventh and the twelfth are both the first over the limit.
steady_test :
    ((admit_denial_audit true false 59000 (steady 10)).1 ≡ over_limit 11 true)
    × ((admit_denial_audit true false 64900 (steady 11)).1 ≡ over_limit 11 true)
unfolding limiter
steady_test = (refl, refl)
