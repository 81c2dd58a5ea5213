-- ===== src/Emulator/V2Beta3.antt =====
-- emulator/v2beta3.go: the tasks of google.cloud.tasks.v2beta3 that the service reads and writes, and
-- their conversions. The requests to a target, their tokens and the record of an attempt have the fields
-- that they have in google.cloud.tasks.v2.
pub mod Targets
pub mod Queues
pub mod Server
pub mod Kept
pub mod Overrides
use cloud_tasks_emulator.Base.{ℕ, Option, none, some, [], ◌==◌, if◌then◌else◌}
use cloud_tasks_emulator.Base.Int.{ℤ, pos}
use cloud_tasks_emulator.Base.Bytes.{Bytes}
use cloud_tasks_emulator.Core.Types.{
  Time, Duration, Auth, auth_none, auth_oidc, auth_oauth, Target, target_none, target_http,
  target_app_engine, target_pull, empty_target, Attempt, Task,
}
use cloud_tasks_emulator.Emulator.Conv.{
  http_method_name, http_method_enum, rpc_status, ts_to_time, time_to_ts, dur_to_duration,
  duration_to_dur,
}
use cloud_tasks_emulator.Emulator.V2.{
  AuthorizationHeader, no_token, oidc_token, oauth_token, HttpRequest, AppEngineHttpRequest,
  V2Attempt,
}

pub data PayloadType : Type 0 where
  no_payload : PayloadType
  http_payload : HttpRequest → PayloadType
  app_engine_payload : AppEngineHttpRequest → PayloadType
  pull_payload : Bytes → Bytes → PayloadType  -- the payload and the tag

pub record V2Beta3Task : Type 0 where
  pub name : Bytes
  pub payload_type : PayloadType
  pub schedule_time : Option Time
  pub create_time : Option Time
  pub dispatch_deadline : Option Duration
  pub dispatch_count : ℤ
  pub response_count : ℤ
  pub first_attempt : Option V2Attempt
  pub last_attempt : Option V2Attempt
  pub view : ℕ

abbrev pub v2beta3_auth_from_http : HttpRequest → Option Auth
v2beta3_auth_from_http r = elim r.authorization_header [
  | oidc_token email audience ↦
      some (record {
        kind = auth_oidc;
        service_account_email = email;
        audience = audience;
        scope = [];
      })
  | oauth_token email scope ↦
      some
        (record { kind = auth_oauth; service_account_email = email; audience = []; scope = scope })
  | no_token ↦ none
]

-- The header of a request that had none.
abbrev pub v2beta3_apply_auth : Option Auth → AuthorizationHeader
v2beta3_apply_auth none = no_token
v2beta3_apply_auth (some a) = elim a.kind [
  | auth_oidc ↦ oidc_token a.service_account_email a.audience
  | auth_oauth ↦ oauth_token a.service_account_email a.scope
  | auth_none ↦ no_token
]

abbrev pub v2beta3_target : PayloadType → Target
v2beta3_target no_payload = empty_target
v2beta3_target (http_payload r) = record empty_target {
  type = target_http;
  method = http_method_name r.http_method;
  url = r.url;
  headers = r.headers;
  body = r.body;
  auth = v2beta3_auth_from_http r;
}
v2beta3_target (app_engine_payload r) = record empty_target {
  type = target_app_engine;
  method = http_method_name r.http_method;
  relative_uri = r.relative_uri;
  headers = r.headers;
  body = r.body;
  app_engine_routing = r.app_engine_routing;
}
v2beta3_target (pull_payload payload tag) = record empty_target {
  type = target_pull;
  body = payload;
  tag = tag;
}

abbrev pub v2beta3_task : V2Beta3Task → Task
v2beta3_task t = record {
  name = t.name;
  schedule_time = ts_to_time t.schedule_time;
  create_time = 0;
  dispatch_deadline = dur_to_duration t.dispatch_deadline;
  dispatch_count = pos 0;
  response_count = pos 0;
  first_attempt = none;
  last_attempt = none;
  target = v2beta3_target t.payload_type;
}

unfoldable pub v2beta3_task_to_core : Option V2Beta3Task → Option Task
v2beta3_task_to_core none = none
v2beta3_task_to_core (some t) = some (v2beta3_task t)

-- An attempt that has no answer yet has no status.
unfoldable pub v2beta3_attempt_from_core : Option Attempt → Option V2Attempt
unfolding time_to_ts rpc_status
v2beta3_attempt_from_core none = none
v2beta3_attempt_from_core (some a) = some (record {
  schedule_time = time_to_ts a.schedule_time;
  dispatch_time = time_to_ts a.dispatch_time;
  response_time = time_to_ts a.response_time;
  response_status = if a.response_time == 0 then none else some (rpc_status a.code a.message);
})

-- The BASIC view omits the body of an App Engine request.
abbrev pub v2beta3_payload : Target → ℕ → PayloadType
v2beta3_payload target view = elim target.type [
  | target_http ↦ http_payload (record {
    url = target.url;
    http_method = http_method_enum target.method;
    headers = target.headers;
    body = target.body;
    authorization_header = v2beta3_apply_auth target.auth;
  })
  | target_app_engine ↦ app_engine_payload (record {
    http_method = http_method_enum target.method;
    relative_uri = target.relative_uri;
    headers = target.headers;
    body = if view == 2 then target.body else [];
    app_engine_routing = target.app_engine_routing;
  })
  | target_pull ↦ pull_payload target.body target.tag
  | target_none ↦ no_payload
]

-- 1 is BASIC and 2 is FULL.
unfoldable pub v2beta3_view_or_basic : ℕ → ℕ
v2beta3_view_or_basic v = if v == 2 then 2 else 1

unfoldable pub v2beta3_task_from_core : Task → ℕ → V2Beta3Task
unfolding time_to_ts duration_to_dur v2beta3_attempt_from_core v2beta3_view_or_basic
v2beta3_task_from_core t view = record {
  name = t.name;
  payload_type = v2beta3_payload t.target view;
  schedule_time = time_to_ts t.schedule_time;
  create_time = time_to_ts t.create_time;
  dispatch_deadline = duration_to_dur t.dispatch_deadline;
  dispatch_count = t.dispatch_count;
  response_count = t.response_count;
  first_attempt = v2beta3_attempt_from_core t.first_attempt;
  last_attempt = v2beta3_attempt_from_core t.last_attempt;
  view = v2beta3_view_or_basic view;
}
