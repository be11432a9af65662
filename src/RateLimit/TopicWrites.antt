-- ===== src/RateLimit/TopicWrites.antt =====
-- The budget for topic writes (packages/backend/src/routes/topic-write-rate-limit.ts): the limits,
-- classifyTopicWriteBreach and checkTopicWriteBudget. The code and the message of a breach follow
-- from its window.
use project_dipstick.Base.{ℕ, ◌&&◌, max, List, [], ◌∷◌, ◌++◌, ltb, leb, if◌then◌else◌}
use project_dipstick.RateLimit.Windows.{Limits, Keys, Admission, retry_after_seconds, admit}

abbrev pub topic_write_limits : Limits
topic_write_limits = record {
  burst_limit = 120;
  burst_window = 600000;
  daily_limit = 400;
  daily_window = 86400000;
}

pub data Window : Type 0 where
  burst daily : Window

pub record TopicWriteBreach : Type 0 where
  pub limit : Window
  pub retry_after : ℕ
  pub observed_count : ℕ
  pub suppressed_count : ℕ
  pub new_episode_windows : List Window

unfoldable pub burst_wait : Admission → ℕ → ℕ
unfolding retry_after_seconds
burst_wait r now =
    if leb topic_write_limits.burst_limit r.burst_count
    then retry_after_seconds r.burst_oldest now topic_write_limits.burst_window
    else 0

unfoldable pub daily_wait : Admission → ℕ → ℕ
unfolding retry_after_seconds
daily_wait r now =
    if leb topic_write_limits.daily_limit r.daily_count
    then retry_after_seconds r.daily_oldest now topic_write_limits.daily_window
    else 0

abbrev new_episodes : Admission → List Window
new_episodes r =
    (if r.burst_episode_new then burst ∷ [] else [])
    ++ (if r.daily_episode_new then daily ∷ [] else [])

-- The window with the longer wait, the daily one on a tie.
unfoldable pub classify_topic_write_breach : Admission → ℕ → TopicWriteBreach
unfolding burst_wait daily_wait
classify_topic_write_breach r now =
    if ltb 0 (daily_wait r now) && leb (burst_wait r now) (daily_wait r now)
    then record {
      limit = daily;
      retry_after = daily_wait r now;
      observed_count = r.daily_count;
      suppressed_count = r.daily_suppressed;
      new_episode_windows = new_episodes r;
    }
    else record {
      limit = burst;
      retry_after = max 1 (burst_wait r now);
      observed_count = r.burst_count;
      suppressed_count = r.burst_suppressed;
      new_episode_windows = new_episodes r;
    }

-- TopicWriteBudgetDecision.
pub data Decision : Type 0 where
  admitted : Admission → Decision
  denied : Admission → TopicWriteBreach → Decision

abbrev decide : ℕ → Admission → Decision
decide now r = if r.admitted then admitted r else denied r (classify_topic_write_breach r now)

unfoldable pub check_topic_write_budget : ℕ → Keys → Keys × Decision
unfolding admit classify_topic_write_breach
check_topic_write_budget now k = let (k', r) = admit topic_write_limits now k in (k', decide now r)
