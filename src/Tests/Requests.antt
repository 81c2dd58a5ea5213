-- ===== src/Tests/Requests.antt =====
-- Requests for a task: its headers, its queue's override, its URL.
use mathlib.Core.List.Permᴰ
use cloud_tasks_emulator.Base.{
  ◌≡◌, refl, false, not, ◌&&◌, none, some, [], ◌∷◌, ◌++◌, if◌then◌else◌, or_else, arith,
}
use cloud_tasks_emulator.Base.Int.{pos}
use cloud_tasks_emulator.Base.Bytes.{Bytes, codes, bytes_eq, is_empty}
use cloud_tasks_emulator.Base.Dict.{lookup, has, insert}
use cloud_tasks_emulator.Std.Http.{canonical, header_get}
use cloud_tasks_emulator.Std.Strings.{split_last}
use cloud_tasks_emulator.Core.Types.{Queue, Task, HttpOverride, empty_target, target_app_engine}
use cloud_tasks_emulator.Core.Queue.Attempts.{AttemptInfo}
use cloud_tasks_emulator.Core.Dispatch.{app_engine_host}
use cloud_tasks_emulator.Core.Dispatch.Override.{
  Url, UrlLibrary, Effective, apply_http_override, all_digits, override_url, merge_headers,
}
use cloud_tasks_emulator.Core.Dispatch.Hosts.{override_url-host, override_url-brackets}
use cloud_tasks_emulator.Core.Dispatch.Merged.{distinct, merged, apply_http_override-lookup}
use cloud_tasks_emulator.Core.Dispatch.Request.{
  Request, Built, built, refused, Network, build_http_request, build_app_engine_request,
  build_effective, new_request, effective,
}
use cloud_tasks_emulator.Core.Dispatch.System.{suffix, told, single, retry_count}
use cloud_tasks_emulator.Core.Dispatch.Sent.{build_http_request-system}
use cloud_tasks_emulator.Core.Dispatch.Alike.{all_unlike, named_alike, value_alike}
use cloud_tasks_emulator.Core.Dispatch.Own.{build_http_request-own}
use cloud_tasks_emulator.Core.Dispatch.AppEngine.{
  build_app_engine_request-system, build_app_engine_request-content_type,
}
use cloud_tasks_emulator.Core.Engine.Queues.{queue_named}
use cloud_tasks_emulator.Tests.Engines.{queue_1, new_task, http_target}

abbrev plain_override : HttpOverride
plain_override = record {
  scheme = [];
  host = [];
  port = [];
  path = codes "/tasks";
  query = [];
  always_enforce = false;
  method = [];
  headers = (codes "X-Token", codes "queue") ∷ (codes "X-Team", codes "infra") ∷ [];
  auth = none;
}

-- With every text a host.
abbrev host_only : Bytes → Url (Unit {0})
host_only host = record { scheme = []; host = host; path = []; raw_query = []; rest = tt }

abbrev hosts : UrlLibrary (Unit {0})
hosts = record { parse = λ raw. some (host_only raw); print = λ u. u.host ++ u.path }

abbrev net : Network (Unit {0})
net = record {
  order = λ d. d;
  urls = hosts;
  refuse = λ method url. if is_empty url then some (codes "empty url") else none;
  token = λ email audience. email ++ audience;
}

override_url-host_example :
    (override_url plain_override (host_only (codes "localhost:8080"))).host ≡ codes "localhost:8080"
override_url-host_example =
    override_url-host plain_override (host_only (codes "localhost:8080")) refl refl refl refl

override_url-brackets_example :
    (override_url plain_override (host_only (codes "[::1]:8080"))).host
    ≡ codes "::1" ++ codes ":8080"
unfolding all_digits
override_url-brackets_example =
    override_url-brackets plain_override (host_only (codes "[::1]:8080")) (codes "::1")
      (codes "8080") refl refl refl refl refl

abbrev own : Effective
own = record {
  method = [];
  url = codes "localhost";
  headers = (codes "X-Token", codes "task") ∷ [];
  auth = none;
}

apply_http_override-lookup_example :
    lookup (codes "X-Team") (apply_http_override hosts own (some plain_override)).headers
    ≡ merged false
        (lookup (codes "X-Team") plain_override.headers)
        (lookup (codes "X-Team") own.headers)
unfolding distinct has lookup bytes_eq
apply_http_override-lookup_example =
    apply_http_override-lookup hosts own plain_override (codes "X-Team") refl

-- A task that spells a system header as net/http would.
abbrev sly_task : Task
sly_task = record new_task {
  target = record http_target { headers = (codes "x-cloudtasks-queuename", codes "another") ∷ [] };
}

abbrev overriding : Queue
overriding = record (queue_named queue_1) { http_override = some plain_override }

abbrev second_try : AttemptInfo
second_try = record {
  number = pos 2;
  execution_count = pos 1;
  prev_http_code = 503;
  prev_reason = codes "RETURNED_503";
}

abbrev request_of : Built → Request
request_of (built r) = r
request_of (refused m) = record { method = []; url = []; body = []; header = [] }

abbrev sly_request : Request
sly_request = request_of (build_http_request net overriding sly_task second_try)

sly_built : build_http_request net overriding sly_task second_try ≡ built sly_request
unfolding build_http_request build_effective effective apply_http_override new_request split_last
sly_built = refl

build_http_request-system_example :
    lookup (codes "X-CloudTasks" ++ suffix retry_count) sly_request.header
    ≡ single (told overriding sly_task second_try retry_count)
build_http_request-system_example =
    build_http_request-system net overriding sly_task second_try sly_request retry_count sly_built

build_http_request-own_example :
    lookup (canonical (codes "x-cloudtasks-queuename")) sly_request.header
    ≡ some (codes "another" ∷ [])
unfolding effective apply_http_override merge_headers all_unlike named_alike lookup insert bytes_eq
    canonical
build_http_request-own_example =
    build_http_request-own net overriding sly_task second_try sly_request
      (codes "x-cloudtasks-queuename") (codes "another") Permᴰ.refl sly_built refl refl
      (λ e. absurd (ground (arith, e))) (λ e. absurd (ground (arith, e)))

abbrev app_task : Task
app_task = record new_task {
  target = record empty_target {
    type = target_app_engine;
    headers = (codes "content-type", codes "text/plain") ∷ [];
    body = codes "hello";
  };
}

abbrev app_request : Request
app_request =
    request_of
      (build_app_engine_request net (codes "localhost") (queue_named queue_1) app_task second_try)

app_built :
    build_app_engine_request net (codes "localhost") (queue_named queue_1) app_task second_try
    ≡ built app_request
unfolding build_app_engine_request app_engine_host new_request
app_built = refl

build_app_engine_request-system_example :
    lookup (codes "X-AppEngine" ++ suffix retry_count) app_request.header
    ≡ single (told (queue_named queue_1) app_task second_try retry_count)
build_app_engine_request-system_example =
    build_app_engine_request-system net (codes "localhost") (queue_named queue_1) app_task
      second_try app_request retry_count app_built

build_app_engine_request-content_type_example :
    header_get (codes "Content-Type") app_request.header ≡ (
      let own = or_else (value_alike (codes "Content-Type") app_task.target.headers) [] in
      if not (is_empty app_task.target.body) && is_empty own
      then codes "application/octet-stream"
      else own)
unfolding all_unlike named_alike
build_app_engine_request-content_type_example =
    build_app_engine_request-content_type net (codes "localhost") (queue_named queue_1) app_task
      second_try app_request (Permᴰ.refl app_task.target.headers) app_built refl
