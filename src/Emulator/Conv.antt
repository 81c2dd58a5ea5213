-- ===== src/Emulator/Conv.antt =====
-- emulator/conv.go: HTTP methods, times, durations and statuses between the protocol buffers and the
-- core. An enum of the protocol buffers is its number. A Timestamp is the time that AsTime gives, and a
-- Duration the one that AsDuration gives, where the message is there.
use cloud_tasks_emulator.Base.{
  ℕ, ◌≡◌, ◌&&◌, Option, none, some, [], ◌==◌, leb, if◌then◌else◌, arith,
}
use cloud_tasks_emulator.Base.Int.{pos, eq_ℤ}
use cloud_tasks_emulator.Base.Bytes.{Bytes, codes, bytes_eq}
use cloud_tasks_emulator.Core.Types.{Time, Duration}

unfoldable pub http_method_name : ℕ → Bytes
http_method_name m =
    if m == 2
    then codes "GET"
    else if m == 3
    then codes "HEAD"
    else if m == 4
    then codes "PUT"
    else if m == 5
    then codes "DELETE"
    else if m == 6
    then codes "PATCH"
    else if m == 7
    then codes "OPTIONS"
    else codes "POST"

unfoldable pub http_method_enum : Bytes → ℕ
http_method_enum name =
    if bytes_eq name (codes "GET")
    then 2
    else if bytes_eq name (codes "HEAD")
    then 3
    else if bytes_eq name (codes "PUT")
    then 4
    else if bytes_eq name (codes "DELETE")
    then 5
    else if bytes_eq name (codes "PATCH")
    then 6
    else if bytes_eq name (codes "OPTIONS")
    then 7
    else 1

pub record RpcStatus : Type 0 where
  pub code : ℕ
  pub message : Bytes

-- OK has no message.
unfoldable pub rpc_status : ℕ → Bytes → RpcStatus
rpc_status code message =
    if code == 0
    then record { code = 0; message = [] }
    else record { code = code; message = message }

abbrev pub ts_to_time : Option Time → Time
ts_to_time none = 0
ts_to_time (some t) = t

unfoldable pub time_to_ts : Time → Option Time
time_to_ts t = if t == 0 then none else some t

abbrev pub dur_to_duration : Option Duration → Duration
dur_to_duration none = pos 0
dur_to_duration (some d) = d

unfoldable pub duration_to_dur : Duration → Option Duration
duration_to_dur d = if eq_ℤ d (pos 0) then none else some d

-- The methods that have a number of their own come back; any other is POST.
pub http_method_enum-http_method_name :
    (m : ℕ) → http_method_enum (http_method_name m) ≡ (if leb 1 m && leb m 7 then m else 1)
unfolding http_method_enum http_method_name bytes_eq
http_method_enum-http_method_name m = ground arith
