-- ===== src/Core/Limits.antt =====
-- applyQueueDefaults and computeBurstSize of core/queue.go.
use cloud_tasks_emulator.Base.{ℕ, ◌*◌, if◌then◌else◌}
use cloud_tasks_emulator.Base.Int.{ℤ, pos, eq_ℤ}
use cloud_tasks_emulator.Core.Float.{Float64, of_ℕ, ltb_float, eq_float, geb_float}
use cloud_tasks_emulator.Core.Types.{RateLimits, RetryConfig, Queue}

-- The units of time.Duration.
abbrev pub millisecond : ℕ
millisecond = 1000000

abbrev pub second : ℕ
second = 1000000000

abbrev pub minute : ℕ
minute = 60 * second

abbrev pub hour : ℕ
hour = 60 * minute

unfoldable pub compute_burst_size : Float64 → ℤ
unfolding of_ℕ ltb_float geb_float
compute_burst_size rps =
    if ltb_float rps (of_ℕ 0)
    then pos 0
    else if geb_float rps (of_ℕ 500)
    then pos 100
    else if geb_float rps (of_ℕ 50)
    then pos 20
    else if geb_float rps (of_ℕ 1)
    then pos 10
    else pos 5

-- `if x == 0 { x = def }`.
abbrev pub default_ℤ : ℤ → ℤ → ℤ
default_ℤ x def = if eq_ℤ x (pos 0) then def else x

unfoldable pub default_rate_limits : RateLimits → RateLimits
default_rate_limits rl =
    let rate =
      if eq_float rl.max_dispatches_per_second (of_ℕ 0)
      then of_ℕ 500
      else rl.max_dispatches_per_second in
    record {
      max_dispatches_per_second = rate;
      max_burst_size = compute_burst_size rate;
      max_concurrent_dispatches = default_ℤ rl.max_concurrent_dispatches (pos 1000);
    }

unfoldable pub default_retry_config : RetryConfig → RetryConfig
default_retry_config rc = record rc {
  max_attempts = default_ℤ rc.max_attempts (pos 100);
  min_backoff = default_ℤ rc.min_backoff (pos (100 * millisecond));
  max_backoff = default_ℤ rc.max_backoff (pos (3600 * second));
  max_doublings = default_ℤ rc.max_doublings (pos 16);
}

unfoldable pub apply_queue_defaults : Queue → Queue
unfolding default_rate_limits default_retry_config
apply_queue_defaults q = record q {
  rate_limits = default_rate_limits q.rate_limits;
  retry_config = default_retry_config q.retry_config;
}
