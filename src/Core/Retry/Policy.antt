-- ===== src/Core/Retry/Policy.antt =====
-- When shouldRetry of core/queue.go ends the retries of a task, by the two limits of the policy.
use cloud_tasks_emulator.Base.{ℕ, ◌-◌, ◌≤◌, ◌≡◌, ◌||◌, ltb, arith}
use cloud_tasks_emulator.Base.Int.{pos, ltb_ℤ, max_int64}
use cloud_tasks_emulator.Core.Types.{Time, RetryConfig}
use cloud_tasks_emulator.Core.Retry.{time_sub, should_retry}

time_sub-later :
    (a b : Time) (d : ℕ) → b ≤ a → d ≤ max_int64 → ltb_ℤ (time_sub a b) (pos d) ≡ ltb (a - b) d
unfolding time_sub
time_sub-later a b d le fits = ground arith

-- With a limit on the attempts, which -1 is not, a task is tried again exactly while it has had
-- fewer attempts than the limit or less time than the limit on the time: both have to be used up.
-- A time limit of 0 is none. The clock has not gone back, and the time limit is an int64.
pub should_retry-limited :
    (rc : RetryConfig) (count attempts duration : ℕ) (first now : Time)
    → rc.max_attempts ≡ pos attempts
    → rc.max_retry_duration ≡ pos duration
    → duration ≤ max_int64
    → first ≤ now
    → should_retry rc (pos count) first now ≡ (ltb count attempts || ltb (now - first) duration)
unfolding should_retry
should_retry-limited rc count attempts duration first now ha hd fits later =
    rw (ha, hd, time_sub-later now first duration later fits) (ground arith)
