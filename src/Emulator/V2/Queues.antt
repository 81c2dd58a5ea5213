-- ===== src/Emulator/V2/Queues.antt =====
-- emulator/v2.go: the queues of google.cloud.tasks.v2 and their conversions.
use cloud_tasks_emulator.Base.{false, Option, none, some, List, [], ◌∷◌, if◌then◌else◌}
use cloud_tasks_emulator.Base.Int.{ℤ, pos}
use cloud_tasks_emulator.Base.Bytes.{Bytes, codes, bytes_eq}
use cloud_tasks_emulator.Core.Float.{finite}
use cloud_tasks_emulator.Core.Types.{
  Time, Duration, State, state_running, state_paused, state_disabled, AppEngineRouting, RateLimits,
  RetryConfig, Queue,
}
use cloud_tasks_emulator.Core.Engine.{
  QueueField, field_rate_limits, field_retry_config, field_app_engine_routing_override,
}
use cloud_tasks_emulator.Emulator.Conv.{time_to_ts, dur_to_duration, duration_to_dur}

-- The rate limits have the core's fields.
pub record V2RetryConfig : Type 0 where
  pub max_attempts : ℤ
  pub max_retry_duration : Option Duration
  pub min_backoff : Option Duration
  pub max_backoff : Option Duration
  pub max_doublings : ℤ

pub data V2State : Type 0 where
  v2_unspecified v2_running v2_paused v2_disabled : V2State

pub record V2Queue : Type 0 where
  pub name : Bytes
  pub app_engine_routing_override : Option AppEngineRouting
  pub rate_limits : Option RateLimits
  pub retry_config : Option V2RetryConfig
  pub state : V2State
  pub purge_time : Option Time

unfoldable pub v2_state_to_core : V2State → State
v2_state_to_core v2_paused = state_paused
v2_state_to_core v2_disabled = state_disabled
v2_state_to_core v2_running = state_running
v2_state_to_core v2_unspecified = state_running

unfoldable pub v2_state_from_core : State → V2State
v2_state_from_core state_paused = v2_paused
v2_state_from_core state_disabled = v2_disabled
v2_state_from_core state_running = v2_running

-- The burst size is not read.
abbrev pub rate_limits_of : Option RateLimits → RateLimits
rate_limits_of none = record {
  max_dispatches_per_second = finite (pos 0);
  max_burst_size = pos 0;
  max_concurrent_dispatches = pos 0;
}
rate_limits_of (some rl) = record rl { max_burst_size = pos 0 }

abbrev pub retry_config_of : Option V2RetryConfig → RetryConfig
retry_config_of none = record {
  max_attempts = pos 0;
  max_retry_duration = pos 0;
  min_backoff = pos 0;
  max_backoff = pos 0;
  max_doublings = pos 0;
}
retry_config_of (some rc) = record {
  max_attempts = rc.max_attempts;
  max_retry_duration = dur_to_duration rc.max_retry_duration;
  min_backoff = dur_to_duration rc.min_backoff;
  max_backoff = dur_to_duration rc.max_backoff;
  max_doublings = rc.max_doublings;
}

abbrev pub v2_queue : V2Queue → Queue
v2_queue q = record {
  name = q.name;
  state = v2_state_to_core q.state;
  rate_limits = rate_limits_of q.rate_limits;
  retry_config = retry_config_of q.retry_config;
  task_ttl = pos 0;
  tombstone_ttl = pos 0;
  pull = false;
  app_engine_routing_override = q.app_engine_routing_override;
  http_override = none;
  purge_time = 0;
  tasks_count = 0;
}

unfoldable pub v2_queue_to_core : Option V2Queue → Option Queue
unfolding v2_state_to_core
v2_queue_to_core none = none
v2_queue_to_core (some q) = some (v2_queue q)

unfoldable pub v2_queue_from_core : Queue → V2Queue
unfolding v2_state_from_core duration_to_dur time_to_ts
v2_queue_from_core q = record {
  name = q.name;
  app_engine_routing_override = q.app_engine_routing_override;
  rate_limits = some q.rate_limits;
  retry_config = some (record {
    max_attempts = q.retry_config.max_attempts;
    max_retry_duration = duration_to_dur q.retry_config.max_retry_duration;
    min_backoff = duration_to_dur q.retry_config.min_backoff;
    max_backoff = duration_to_dur q.retry_config.max_backoff;
    max_doublings = q.retry_config.max_doublings;
  });
  state = v2_state_from_core q.state;
  purge_time = time_to_ts q.purge_time;
}

-- A path that is none of the three is left out.
unfoldable pub v2_queue_fields : List Bytes → List QueueField
v2_queue_fields [] = []
v2_queue_fields (p ∷ paths) =
    let rest = v2_queue_fields paths in
    if bytes_eq p (codes "rate_limits")
    then field_rate_limits ∷ rest
    else if bytes_eq p (codes "retry_config")
    then field_retry_config ∷ rest
    else if bytes_eq p (codes "app_engine_routing_override")
    then field_app_engine_routing_override ∷ rest
    else rest
