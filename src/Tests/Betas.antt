-- ===== src/Tests/Betas.antt =====
-- A client of google.cloud.tasks.v2beta3: a queue with an HTTP target, and a task without a name.
use mathlib.Core.List.{Permᴰ, reverse}
use cloud_tasks_emulator.Base.{List, Option, ◌*◌, ◌≡◌, refl, arith, some, none, [], ◌∷◌, or_else}
use cloud_tasks_emulator.Base.Int.{pos}
use cloud_tasks_emulator.Base.Bytes.{Bytes, bytes_eq, codes}
use cloud_tasks_emulator.Base.Dict.{Dict, delete, has, insert, lookup, Unique}
use cloud_tasks_emulator.Core.Status.{Result, ok, err, ◌>>=◌}
use cloud_tasks_emulator.Core.Limits.{apply_queue_defaults, compute_burst_size, second}
use cloud_tasks_emulator.Core.Naming.{
  find_submatch, matches_id_re, matches_queue_id_re, parse_location_name, parse_queue_name,
  parse_task_name, queue_id, queue_parent, resolve_task_name, task_id, task_queue_of,
}
use cloud_tasks_emulator.Core.Queue.{
  add_task, after_func, effective_task_ttl, effective_tombstone_ttl, modify, new_queue_state,
  rebuild_limits, register, schedule, stop_timer, tombstone_locked, tombstoned,
}
use cloud_tasks_emulator.Core.Engine.{Engine, new_engine, queue_locked, task_queue}
use cloud_tasks_emulator.Core.Engine.Queues.{
  check_queue, create_queue, ensure_queue, try_create_queue,
}
use cloud_tasks_emulator.Core.Engine.Tasks.{create_task, insert_task, next_task_id, try_create_task}
use cloud_tasks_emulator.Core.Engine.Calls.{run, step}
use cloud_tasks_emulator.Core.Validate.{
  check_body_method, check_deadline, header_size, validate_create_task, validate_target,
}
use cloud_tasks_emulator.Emulator.Conv.{http_method_name}
use cloud_tasks_emulator.Emulator.V2.{oidc_token}
use cloud_tasks_emulator.Emulator.V2.Queues.{v2_running}
use cloud_tasks_emulator.Emulator.V2Beta3.{http_payload, V2Beta3Task, v2beta3_task_to_core}
use cloud_tasks_emulator.Emulator.V2Beta3.Targets.{Order, HttpTarget, UriOverride, header_list}
use cloud_tasks_emulator.Emulator.V2Beta3.Queues.{V2Beta3Queue, type_push, v2beta3_queue_to_core}
use cloud_tasks_emulator.Emulator.V2Beta3.Server.{
  v2beta3_create_queue, v2beta3_get_queue, v2beta3_create_task, v2beta3_get_task,
}
use cloud_tasks_emulator.Emulator.V2Beta3.Overrides.{IsSettled}
use cloud_tasks_emulator.Emulator.V2Beta3.Kept.{
  v2beta3_create_task-v2beta3_get_task, v2beta3_create_queue-v2beta3_get_queue,
}
use cloud_tasks_emulator.Tests.Engines.{queue_1, today, plain_config}
use cloud_tasks_emulator.Tests.Services.{empty_queue}

abbrev beta_task : V2Beta3Task
beta_task = record {
  name = [];
  payload_type = http_payload (record {
    url = codes "http://localhost/";
    http_method = 4;
    headers = (codes "X-Team", codes "infra") ∷ [];
    body = codes "{}";
    authorization_header = oidc_token (codes "me") [];
  });
  schedule_time = none;
  create_time = none;
  dispatch_deadline = none;
  dispatch_count = pos 0;
  response_count = pos 0;
  first_attempt = none;
  last_attempt = none;
  view = 0;
}

abbrev task_made : Engine (Unit {0}) × Result V2Beta3Task
task_made = v2beta3_create_task empty_queue queue_1 (some beta_task) 2 today

abbrev task_in : Result V2Beta3Task → V2Beta3Task
task_in (ok t) = t
task_in (err e) = beta_task

task_made_lem : task_made ≡ (task_made.0, ok (task_in task_made.1))
unfolding new_engine task_queue queue_locked create_task v2beta3_create_task v2beta3_task_to_core
    http_method_name try_create_task insert_task next_task_id ensure_queue create_queue
    try_create_queue check_queue run step parse_task_name parse_queue_name parse_location_name
    find_submatch task_queue_of queue_parent queue_id resolve_task_name task_id matches_id_re
    matches_queue_id_re validate_create_task validate_target check_body_method check_deadline
    header_size new_queue_state rebuild_limits add_task register schedule tombstone_locked
    after_func effective_task_ttl effective_tombstone_ttl tombstoned stop_timer modify
    apply_queue_defaults compute_burst_size ◌>>=◌ lookup insert delete has bytes_eq
task_made_lem = refl

v2beta3_create_task-v2beta3_get_task_example :
    (task_in task_made.1 ≡ record beta_task {
      name = (task_in task_made.1).name;
      create_time = some today;
      schedule_time = some (or_else beta_task.schedule_time today);
      dispatch_count = pos 0;
      response_count = pos 0;
      first_attempt = none;
      last_attempt = none;
      view = 2;
    })
    × (task_queue_of (task_in task_made.1).name ≡ queue_1)
    × (v2beta3_get_task task_made.0 (task_in task_made.1).name 2 ≡ ok (task_in task_made.1))
v2beta3_create_task-v2beta3_get_task_example =
    v2beta3_create_task-v2beta3_get_task empty_queue task_made.0 queue_1 beta_task
      (task_in task_made.1) today refl (λ e. cc) (λ e. cc) (λ e. absurd (ground (arith, e)))
      task_made_lem

abbrev to_port : UriOverride
to_port = record {
  scheme = some 2;
  host = some (codes "host");
  port = some (pos 8080);
  path_override = none;
  query_override = some (codes "a=b");
  uri_override_enforce_mode = 2;
}

abbrev team : Dict Bytes
team = (codes "X-Team", codes "infra") ∷ (codes "X-Env", codes "dev") ∷ []

abbrev aimed : HttpTarget
aimed = record {
  uri_override = some to_port;
  http_method = 4;
  header_overrides = some (codes "X-Team", codes "infra") ∷ some (codes "X-Env", codes "dev") ∷ [];
  authorization_header = oidc_token (codes "me") (codes "them");
}

abbrev with_target : V2Beta3Queue
with_target = record {
  name = queue_1;
  app_engine_http_queue = none;
  http_target = some aimed;
  rate_limits = none;
  retry_config = none;
  state = v2_running;
  purge_time = none;
  task_ttl = some (pos (3600 * second));
  tombstone_ttl = none;
  type = type_push;
  stats = none;
}

abbrev place : Bytes
place = codes "projects/p/locations/l"

-- The entries come up as they were put in, or the other way round.
abbrev as_made : Order
as_made m = m

abbrev backwards : Order
backwards m = reverse m

abbrev made : Engine (Unit {0}) × Result V2Beta3Queue
made = v2beta3_create_queue as_made (new_engine plain_config) place (some with_target)

abbrev queue_in : Result V2Beta3Queue → V2Beta3Queue
queue_in (ok q) = q
queue_in (err e) = with_target

made_queue : made ≡ (made.0, ok (queue_in made.1))
unfolding v2beta3_create_queue create_queue try_create_queue check_queue ◌>>=◌ parse_queue_name
    parse_location_name find_submatch queue_id queue_parent matches_queue_id_re has lookup
    new_engine v2beta3_queue_to_core bytes_eq
made_queue = refl

to_port-IsSettled : IsSettled to_port
to_port-IsSettled = record {
  scheme = refl;
  host = λ e. absurd (ground (arith, e));
  port = refl;
  path = λ e. cc;
  query = λ e. absurd (ground (arith, e));
  mode = refl;
  says = refl;
}

v2beta3_create_queue-v2beta3_get_queue_example :
    (a : List (Option (Bytes × Bytes))) × (b : List (Option (Bytes × Bytes))) × Permᴰ a
      aimed.header_overrides
    × Permᴰ b aimed.header_overrides
    × ((queue_in made.1).name ≡ queue_1)
    × ((queue_in made.1).http_target ≡ some (record aimed { header_overrides = a }))
    × (v2beta3_get_queue backwards made.0 queue_1
        ≡ ok (record (queue_in made.1) {
          http_target = some (record aimed { header_overrides = b });
        }))
unfolding header_list Unique has lookup bytes_eq
v2beta3_create_queue-v2beta3_get_queue_example =
    v2beta3_create_queue-v2beta3_get_queue as_made backwards (new_engine plain_config) made.0 place
      with_target (queue_in made.1) aimed team (Permᴰ.cons refl (Permᴰ.cons refl Permᴰ.nil))
      (Permᴰ.swap refl refl) refl to_port-IsSettled (omega arith) refl (refl, (refl, tt)) made_queue
