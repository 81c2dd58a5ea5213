-- ===== src/Emulator/V2Beta3/Queues.antt =====
-- emulator/v2beta3.go: the queues of google.cloud.tasks.v2beta3 and their conversions. The rate limits,
-- the retry policy and the state have the fields and the values that they have in google.cloud.tasks.v2.
use cloud_tasks_emulator.Base.{
  ℕ, Bool, true, false, Option, none, some, List, [], ◌∷◌, if◌then◌else◌,
}
use cloud_tasks_emulator.Base.Bytes.{Bytes, codes, bytes_eq}
use cloud_tasks_emulator.Std.Strings.{contains_text}
use cloud_tasks_emulator.Core.Types.{
  Time, Duration, State, state_running, state_paused, state_disabled, AppEngineRouting, RateLimits,
  HttpOverride, Queue,
}
use cloud_tasks_emulator.Core.Engine.{
  QueueField, field_rate_limits, field_retry_config, field_http_override,
  field_app_engine_routing_override,
}
use cloud_tasks_emulator.Emulator.Conv.{time_to_ts, dur_to_duration, duration_to_dur}
use cloud_tasks_emulator.Emulator.V2.Queues.{
  V2RetryConfig, V2State, v2_unspecified, v2_running, v2_paused, v2_disabled, rate_limits_of,
  retry_config_of,
}
use cloud_tasks_emulator.Emulator.V2Beta3.Targets.{
  Order, HttpTarget, v2beta3_http_override_to_core, v2beta3_http_override_from_core,
}

pub data QueueType : Type 0 where
  type_unspecified type_pull type_push : QueueType

-- The App Engine queue is one with an override or without. `stats` has the number of tasks.
pub record V2Beta3Queue : Type 0 where
  pub name : Bytes
  pub app_engine_http_queue : Option (Option AppEngineRouting)
  pub http_target : Option HttpTarget
  pub rate_limits : Option RateLimits
  pub retry_config : Option V2RetryConfig
  pub state : V2State
  pub purge_time : Option Time
  pub task_ttl : Option Duration
  pub tombstone_ttl : Option Duration
  pub type : QueueType
  pub stats : Option ℕ

unfoldable pub v2beta3_state_to_core : V2State → State
v2beta3_state_to_core v2_paused = state_paused
v2beta3_state_to_core v2_disabled = state_disabled
v2beta3_state_to_core v2_running = state_running
v2beta3_state_to_core v2_unspecified = state_running

unfoldable pub v2beta3_state_from_core : State → V2State
v2beta3_state_from_core state_paused = v2_paused
v2beta3_state_from_core state_disabled = v2_disabled
v2beta3_state_from_core state_running = v2_running

abbrev pub is_pull_type : QueueType → Bool
is_pull_type type_pull = true
is_pull_type type_push = false
is_pull_type type_unspecified = false

abbrev pub routing_of : Option (Option AppEngineRouting) → Option AppEngineRouting
routing_of none = none
routing_of (some routing) = routing

abbrev pub override_of : Option HttpTarget → Option HttpOverride
override_of none = none
override_of (some h) = some (v2beta3_http_override_to_core h)

abbrev pub v2beta3_queue : V2Beta3Queue → Queue
v2beta3_queue q = record {
  name = q.name;
  state = v2beta3_state_to_core q.state;
  rate_limits = rate_limits_of q.rate_limits;
  retry_config = retry_config_of q.retry_config;
  task_ttl = dur_to_duration q.task_ttl;
  tombstone_ttl = dur_to_duration q.tombstone_ttl;
  pull = is_pull_type q.type;
  app_engine_routing_override = routing_of q.app_engine_http_queue;
  http_override = override_of q.http_target;
  purge_time = 0;
  tasks_count = 0;
}

unfoldable pub v2beta3_queue_to_core : Option V2Beta3Queue → Option Queue
unfolding v2beta3_state_to_core v2beta3_http_override_to_core
v2beta3_queue_to_core none = none
v2beta3_queue_to_core (some q) = some (v2beta3_queue q)

abbrev pub app_engine_queue_of : Option AppEngineRouting → Option (Option AppEngineRouting)
app_engine_queue_of none = none
app_engine_queue_of (some routing) = some (some routing)

abbrev pub target_of_override : Order → Option HttpOverride → Option HttpTarget
target_of_override order none = none
target_of_override order (some o) = some (v2beta3_http_override_from_core order o)

unfoldable pub v2beta3_queue_from_core : Order → Queue → V2Beta3Queue
unfolding v2beta3_state_from_core duration_to_dur time_to_ts v2beta3_http_override_from_core
v2beta3_queue_from_core order q = record {
  name = q.name;
  app_engine_http_queue = app_engine_queue_of q.app_engine_routing_override;
  http_target = target_of_override order q.http_override;
  rate_limits = some q.rate_limits;
  retry_config = some (record {
    max_attempts = q.retry_config.max_attempts;
    max_retry_duration = duration_to_dur q.retry_config.max_retry_duration;
    min_backoff = duration_to_dur q.retry_config.min_backoff;
    max_backoff = duration_to_dur q.retry_config.max_backoff;
    max_doublings = q.retry_config.max_doublings;
  });
  state = v2beta3_state_from_core q.state;
  purge_time = time_to_ts q.purge_time;
  task_ttl = duration_to_dur q.task_ttl;
  tombstone_ttl = duration_to_dur q.tombstone_ttl;
  type = if q.pull then type_pull else type_push;
  stats = some q.tasks_count;
}

-- A path that is none of these is left out.
unfoldable pub v2beta3_queue_fields : List Bytes → List QueueField
unfolding contains_text
v2beta3_queue_fields [] = []
v2beta3_queue_fields (p ∷ paths) =
    let rest = v2beta3_queue_fields paths in
    if bytes_eq p (codes "rate_limits")
    then field_rate_limits ∷ rest
    else if bytes_eq p (codes "retry_config")
    then field_retry_config ∷ rest
    else if bytes_eq p (codes "http_target")
    then field_http_override ∷ rest
    else if contains_text (codes "app_engine") p
    then field_app_engine_routing_override ∷ rest
    else rest
