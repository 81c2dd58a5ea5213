-- ===== src/Emulator/V2.antt =====
-- emulator/v2.go: the messages of google.cloud.tasks.v2 that the service reads and writes, and their
-- conversions. A message that may be missing is an option.
pub mod Queues
pub mod Server
pub mod Kept
use cloud_tasks_emulator.Base.{
  ℕ, ◌≡◌, refl, Bool, true, false, not, Option, none, some, List, [], ◌∷◌, ◌==◌, if◌then◌else◌,
}
use cloud_tasks_emulator.Base.Int.{ℤ, pos}
use cloud_tasks_emulator.Base.Bytes.{Bytes, codes, bytes_eq}
use cloud_tasks_emulator.Base.Dict.{Dict}
use cloud_tasks_emulator.Core.Float.{Float64, finite}
use cloud_tasks_emulator.Core.Types.{
  Time, Duration, State, state_running, state_paused, state_disabled, Auth, auth_none, auth_oidc,
  auth_oauth, AppEngineRouting, Target, target_none, target_http, target_app_engine, target_pull,
  empty_target, Queue, Attempt, Task,
}
use cloud_tasks_emulator.Core.Engine.{
  QueueField, field_rate_limits, field_retry_config, field_app_engine_routing_override,
}
use cloud_tasks_emulator.Emulator.Conv.{
  http_method_name, http_method_enum, RpcStatus, rpc_status, ts_to_time, time_to_ts,
  dur_to_duration, duration_to_dur,
}

pub data AuthorizationHeader : Type 0 where
  no_token : AuthorizationHeader
  oidc_token oauth_token : Bytes → Bytes → AuthorizationHeader

pub record HttpRequest : Type 0 where
  pub url : Bytes
  pub http_method : ℕ
  pub headers : Dict Bytes
  pub body : Bytes
  pub authorization_header : AuthorizationHeader

pub record AppEngineHttpRequest : Type 0 where
  pub http_method : ℕ
  pub relative_uri : Bytes
  pub headers : Dict Bytes
  pub body : Bytes
  pub app_engine_routing : Option AppEngineRouting

pub data MessageType : Type 0 where
  no_message : MessageType
  http_request : HttpRequest → MessageType
  app_engine_http_request : AppEngineHttpRequest → MessageType

pub record V2Attempt : Type 0 where
  pub schedule_time : Option Time
  pub dispatch_time : Option Time
  pub response_time : Option Time
  pub response_status : Option RpcStatus

-- `view` is 1 for BASIC and 2 for FULL.
pub record V2Task : Type 0 where
  pub name : Bytes
  pub message_type : MessageType
  pub schedule_time : Option Time
  pub create_time : Option Time
  pub dispatch_deadline : Option Duration
  pub dispatch_count : ℤ
  pub response_count : ℤ
  pub first_attempt : Option V2Attempt
  pub last_attempt : Option V2Attempt
  pub view : ℕ

abbrev pub basic : ℕ
basic = 1

abbrev pub full : ℕ
full = 2

abbrev pub auth_of : AuthorizationHeader → Option Auth
auth_of no_token = none
auth_of (oidc_token email audience) =
    some
      (record { kind = auth_oidc; service_account_email = email; audience = audience; scope = [] })
auth_of (oauth_token email scope) =
    some (record { kind = auth_oauth; service_account_email = email; audience = []; scope = scope })

abbrev v2_auth_from_http : HttpRequest → Option Auth
v2_auth_from_http r = auth_of r.authorization_header

abbrev pub v2_apply_auth : Option Auth → AuthorizationHeader
v2_apply_auth none = no_token
v2_apply_auth (some a) = elim a.kind [
  | auth_oidc ↦ oidc_token a.service_account_email a.audience
  | auth_oauth ↦ oauth_token a.service_account_email a.scope
  | auth_none ↦ no_token
]

abbrev pub target_of : MessageType → Target
target_of no_message = empty_target
target_of (http_request r) = record empty_target {
  type = target_http;
  method = http_method_name r.http_method;
  url = r.url;
  headers = r.headers;
  body = r.body;
  auth = v2_auth_from_http r;
}
target_of (app_engine_http_request r) = record empty_target {
  type = target_app_engine;
  method = http_method_name r.http_method;
  relative_uri = r.relative_uri;
  headers = r.headers;
  body = r.body;
  app_engine_routing = r.app_engine_routing;
}

abbrev pub v2_task : V2Task → Task
v2_task t = record {
  name = t.name;
  schedule_time = ts_to_time t.schedule_time;
  create_time = 0;
  dispatch_deadline = dur_to_duration t.dispatch_deadline;
  dispatch_count = pos 0;
  response_count = pos 0;
  first_attempt = none;
  last_attempt = none;
  target = target_of t.message_type;
}

unfoldable pub v2_task_to_core : Option V2Task → Option Task
v2_task_to_core none = none
v2_task_to_core (some t) = some (v2_task t)

abbrev status_of : Attempt → Option RpcStatus
status_of a = if a.response_time == 0 then none else some (rpc_status a.code a.message)

unfoldable pub v2_attempt_from_core : Option Attempt → Option V2Attempt
unfolding time_to_ts rpc_status
v2_attempt_from_core none = none
v2_attempt_from_core (some a) = some (record {
  schedule_time = time_to_ts a.schedule_time;
  dispatch_time = time_to_ts a.dispatch_time;
  response_time = time_to_ts a.response_time;
  response_status = status_of a;
})

-- The BASIC view omits the body of an App Engine request.
abbrev pub message_of : Target → ℕ → MessageType
message_of target view = elim target.type [
  | target_http ↦ http_request (record {
    url = target.url;
    http_method = http_method_enum target.method;
    headers = target.headers;
    body = target.body;
    authorization_header = v2_apply_auth target.auth;
  })
  | target_app_engine ↦ app_engine_http_request (record {
    http_method = http_method_enum target.method;
    relative_uri = target.relative_uri;
    headers = target.headers;
    body = if view == 2 then target.body else [];
    app_engine_routing = target.app_engine_routing;
  })
  | _ ↦ no_message
]

unfoldable pub view_or_basic : ℕ → ℕ
view_or_basic view = if view == 2 then full else basic

unfoldable pub v2_task_from_core : Task → ℕ → V2Task
unfolding time_to_ts duration_to_dur v2_attempt_from_core view_or_basic
v2_task_from_core t view = record {
  name = t.name;
  message_type = message_of t.target view;
  schedule_time = time_to_ts t.schedule_time;
  create_time = time_to_ts t.create_time;
  dispatch_deadline = duration_to_dur t.dispatch_deadline;
  dispatch_count = t.dispatch_count;
  response_count = t.response_count;
  first_attempt = v2_attempt_from_core t.first_attempt;
  last_attempt = v2_attempt_from_core t.last_attempt;
  view = view_or_basic view;
}
