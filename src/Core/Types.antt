-- ===== src/Core/Types.antt =====
-- core/types.go: the neutral resources that the engine stores.
-- A `time.Time` is the number of nanoseconds since Go's zero time, which is 0 here; a
-- `time.Duration` is an integer number of nanoseconds; a pointer to a struct that the code never
-- changes through is an `Option`.
use cloud_tasks_emulator.Base.{ℕ, Bool, Option, none, []}
use cloud_tasks_emulator.Base.Int.{ℤ}
use cloud_tasks_emulator.Base.Bytes.{Bytes}
use cloud_tasks_emulator.Base.Dict.{Dict}
use cloud_tasks_emulator.Core.Float.{Float64}

abbrev pub Time : Type 0
Time = ℕ

abbrev pub Duration : Type 0
Duration = ℤ

pub data State : Type 0 where
  state_running state_paused state_disabled : State

pub data TargetType : Type 0 where
  target_none target_http target_app_engine target_pull : TargetType

pub data AuthKind : Type 0 where
  auth_none auth_oidc auth_oauth : AuthKind

pub record Auth : Type 0 where
  pub kind : AuthKind
  pub service_account_email : Bytes
  pub audience : Bytes
  pub scope : Bytes

pub record AppEngineRouting : Type 0 where
  pub service : Bytes
  pub version : Bytes
  pub instance_id : Bytes
  pub host : Bytes

pub record Target : Type 0 where
  pub type : TargetType
  pub method : Bytes
  pub headers : Dict Bytes
  pub body : Bytes
  pub url : Bytes
  pub auth : Option Auth
  pub relative_uri : Bytes
  pub app_engine_routing : Option AppEngineRouting
  pub tag : Bytes

-- `max_burst_size` and `max_concurrent_dispatches` are int32.
pub record RateLimits : Type 0 where
  pub max_dispatches_per_second : Float64
  pub max_burst_size : ℤ
  pub max_concurrent_dispatches : ℤ

-- `max_attempts` and `max_doublings` are int32.
pub record RetryConfig : Type 0 where
  pub max_attempts : ℤ
  pub max_retry_duration : Duration
  pub min_backoff : Duration
  pub max_backoff : Duration
  pub max_doublings : ℤ

pub record HttpOverride : Type 0 where
  pub scheme : Bytes
  pub host : Bytes
  pub port : Bytes
  pub path : Bytes
  pub query : Bytes
  pub always_enforce : Bool
  pub method : Bytes
  pub headers : Dict Bytes
  pub auth : Option Auth

pub record Queue : Type 0 where
  pub name : Bytes
  pub state : State
  pub rate_limits : RateLimits
  pub retry_config : RetryConfig
  pub task_ttl : Duration
  pub tombstone_ttl : Duration
  pub pull : Bool
  pub app_engine_routing_override : Option AppEngineRouting
  pub http_override : Option HttpOverride
  pub purge_time : Time
  pub tasks_count : ℕ

-- `code` is a canonical rpc code, an int32.
pub record Attempt : Type 0 where
  pub schedule_time : Time
  pub dispatch_time : Time
  pub response_time : Time
  pub code : ℕ
  pub message : Bytes

-- `dispatch_count` and `response_count` are int32.
pub record Task : Type 0 where
  pub name : Bytes
  pub schedule_time : Time
  pub create_time : Time
  pub dispatch_deadline : Duration
  pub dispatch_count : ℤ
  pub response_count : ℤ
  pub first_attempt : Option Attempt
  pub last_attempt : Option Attempt
  pub target : Target

-- The zero value of `Target`.
abbrev pub empty_target : Target
empty_target = record {
  type = target_none;
  method = [];
  headers = [];
  body = [];
  url = [];
  auth = none;
  relative_uri = [];
  app_engine_routing = none;
  tag = [];
}

-- The zero value of `Attempt`.
abbrev pub zero_attempt : Attempt
zero_attempt = record {
  schedule_time = 0;
  dispatch_time = 0;
  response_time = 0;
  code = 0;
  message = [];
}
