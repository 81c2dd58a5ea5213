-- ===== src/Core/Dispatch.antt =====
-- The parts of core/dispatch.go around the request: its method, host and deadline, and what its
-- answer means. Override and Request build the request; sending it is net/http's.
pub mod Alike
pub mod Override
pub mod Hosts
pub mod Merged
pub mod Request
pub mod System
pub mod Sent
pub mod Own
pub mod AppEngine
use cloud_tasks_emulator.Base.{
  ℕ, ◌*◌, ◌≡◌, refl, Bool, false, ◌&&◌, ◌||◌, Option, none, some, [], ◌∷◌, ◌++◌, ltb, leb, ◌==◌,
  not, if◌then◌else◌, Bool-cases, inl, inr,
}
use cloud_tasks_emulator.Base.Int.{pos, ltb_ℤ}
use cloud_tasks_emulator.Base.Bytes.{Bytes, codes, is_empty}
use cloud_tasks_emulator.Std.Decimal.{itoa}
use cloud_tasks_emulator.Core.Limits.{minute}
use cloud_tasks_emulator.Core.Status.{
  Code, canceled, unknown, invalid_argument, deadline_exceeded, not_found, already_exists,
  permission_denied, resource_exhausted, failed_precondition, aborted, out_of_range, unimplemented,
  internal, unavailable, data_loss, unauthenticated,
}
use cloud_tasks_emulator.Core.Types.{Duration, Queue, Task, AppEngineRouting}
use cloud_tasks_emulator.Core.Queue.Attempts.{Outcome}

abbrev routed_host : Option AppEngineRouting → Bytes
routed_host none = []
routed_host (some r) = r.host

-- The task's own routing comes first, then the queue's override, then the engine's default.
unfoldable pub app_engine_host : Bytes → Queue → Task → Bytes
app_engine_host default_host q t =
    let own = routed_host t.target.app_engine_routing in
    let overriding = routed_host q.app_engine_routing_override in
    if not (is_empty own)
    then own
    else if not (is_empty overriding)
    then overriding
    else default_host

unfoldable pub method_or_post : Bytes → Bytes
method_or_post m = if is_empty m then codes "POST" else m

unfoldable pub oauth_token : Bytes → Bytes → Bytes
oauth_token email scope = codes "emulator-oauth-token/" ++ (email ++ (b'/' ∷ scope))

unfoldable pub http_to_rpc_code : ℕ → Code
http_to_rpc_code status =
    if status == 400
    then invalid_argument
    else if status == 401
    then unauthenticated
    else if status == 403
    then permission_denied
    else if status == 404
    then not_found
    else if status == 409
    then already_exists
    else if status == 429
    then resource_exhausted
    else if status == 408 || status == 504
    then deadline_exceeded
    else if status == 503
    then unavailable
    else if status == 501
    then unimplemented
    else if leb 500 status
    then internal
    else unknown

-- The numbers of google.rpc.Code; OK is 0.
unfoldable pub code_number : Code → ℕ
code_number canceled = 1
code_number unknown = 2
code_number invalid_argument = 3
code_number deadline_exceeded = 4
code_number not_found = 5
code_number already_exists = 6
code_number permission_denied = 7
code_number resource_exhausted = 8
code_number failed_precondition = 9
code_number aborted = 10
code_number out_of_range = 11
code_number unimplemented = 12
code_number internal = 13
code_number unavailable = 14
code_number data_loss = 15
code_number unauthenticated = 16

-- How long the request may take.
unfoldable pub deadline_of : Task → Duration
deadline_of t = if ltb_ℤ (pos 0) t.dispatch_deadline then t.dispatch_deadline else pos (10 * minute)

-- What became of the request: it could not be built, there was no response, or one with a status.
pub data Response : Type 0 where
  not_built no_response : Bytes → Response
  answered : ℕ → Response

unfoldable pub outcome_of : Response → Outcome
unfolding http_to_rpc_code code_number
outcome_of (not_built message) = record {
  rpc_code = code_number invalid_argument;
  http_code = 0;
  message = message;
}
outcome_of (no_response message) = record {
  rpc_code = code_number unavailable;
  http_code = 0;
  message = message;
}
outcome_of (answered status) =
    if leb 200 status && ltb status 300
    then record { rpc_code = 0; http_code = status; message = [] }
    else record {
      rpc_code = code_number (http_to_rpc_code status);
      http_code = status;
      message = codes "HTTP status " ++ itoa (pos status);
    }
