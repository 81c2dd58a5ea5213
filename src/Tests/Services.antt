-- ===== src/Tests/Services.antt =====
-- A client of google.cloud.tasks.v2: a task that it sends, and an update with a mask.
use cloud_tasks_emulator.Base.{◌+◌, ◌*◌, ◌≡◌, refl, some, none, List, [], ◌∷◌, length}
use cloud_tasks_emulator.Base.Int.{pos}
use cloud_tasks_emulator.Base.Bytes.{Bytes, bytes_eq, codes}
use cloud_tasks_emulator.Base.Dict.{delete, has, insert, lookup}
use cloud_tasks_emulator.Core.Status.{Result, ok, err, ◌>>=◌}
use cloud_tasks_emulator.Core.Limits.{apply_queue_defaults, compute_burst_size, second}
use cloud_tasks_emulator.Core.Naming.{
  find_submatch, matches_id_re, matches_queue_id_re, parse_location_name, parse_queue_name,
  parse_task_name, queue_id, queue_parent, resolve_task_name, task_id, task_queue_of,
}
use cloud_tasks_emulator.Core.Queue.{
  QueueState, add_task, after_func, effective_task_ttl, effective_tombstone_ttl, modify,
  new_queue_state, rebuild_limits, register, schedule, stop_timer, tombstone_locked, tombstoned,
}
use cloud_tasks_emulator.Core.Engine.{Engine, new_engine, queue_locked, task_queue}
use cloud_tasks_emulator.Core.Engine.Queues.{
  check_queue, create_queue, ensure_queue, try_create_queue, queue_named, update_queue,
  try_update_queue,
}
use cloud_tasks_emulator.Core.Engine.Tasks.{create_task, insert_task, next_task_id, try_create_task}
use cloud_tasks_emulator.Core.Engine.Calls.{ensures_queue, run, step}
use cloud_tasks_emulator.Core.Validate.{
  check_body_method, check_deadline, header_size, validate_create_task, validate_target,
}
use cloud_tasks_emulator.Emulator.Conv.{http_method_name}
use cloud_tasks_emulator.Emulator.V2.{oidc_token, http_request, V2Task, v2_task_to_core, full}
use cloud_tasks_emulator.Emulator.V2.Queues.{
  V2Queue, v2_running, v2_queue_to_core, v2_queue_from_core, v2_queue_fields, rate_limits_of,
  retry_config_of,
}
use cloud_tasks_emulator.Emulator.V2.Server.{v2_create_task, v2_get_task, v2_update_queue}
use cloud_tasks_emulator.Emulator.V2.Kept.{
  v2_create_task-v2_get_task, all_unknown, v2_update_queue_unknown,
}
use cloud_tasks_emulator.Tests.Engines.{amd64, queue_1, task_1, today, plain_config}

-- A PUT with a token.
abbrev sent : V2Task
sent = record {
  name = task_1;
  message_type = http_request (record {
    url = codes "http://localhost/";
    http_method = 4;
    headers = (codes "X-Team", codes "infra") ∷ [];
    body = codes "{}";
    authorization_header = oidc_token (codes "me") [];
  });
  schedule_time = some (today + second);
  create_time = none;
  dispatch_deadline = some (pos (30 * second));
  dispatch_count = pos 0;
  response_count = pos 0;
  first_attempt = none;
  last_attempt = none;
  view = 0;
}

abbrev pub empty_queue : Engine (Unit {0})
empty_queue = run amd64 tt (new_engine plain_config) (ensures_queue queue_1 ∷ [])

abbrev created : Engine (Unit {0}) × Result V2Task
created = v2_create_task empty_queue queue_1 (some sent) full today

abbrev task_in : Result V2Task → V2Task
task_in (ok t) = t
task_in (err e) = sent

created_task : created ≡ (created.0, ok (task_in created.1))
unfolding new_engine task_queue queue_locked create_task v2_create_task v2_task_to_core
    http_method_name try_create_task insert_task next_task_id ensure_queue create_queue
    try_create_queue check_queue run step parse_task_name parse_queue_name parse_location_name
    find_submatch task_queue_of queue_parent queue_id resolve_task_name task_id matches_id_re
    matches_queue_id_re validate_create_task validate_target check_body_method check_deadline
    header_size new_queue_state rebuild_limits add_task register schedule tombstone_locked
    after_func effective_task_ttl effective_tombstone_ttl tombstoned stop_timer modify
    apply_queue_defaults compute_burst_size ◌>>=◌ lookup insert delete has bytes_eq
created_task = refl

v2_create_task-v2_get_task_example :
    v2_get_task created.0 (task_in created.1).name full ≡ ok (task_in created.1)
v2_create_task-v2_get_task_example =
    v2_create_task-v2_get_task empty_queue created.0 queue_1 sent (task_in created.1) full today
      created_task

abbrev update : V2Queue
update = record {
  name = queue_1;
  app_engine_routing_override = none;
  rate_limits = none;
  retry_config = none;
  state = v2_running;
  purge_time = none;
}

abbrev nested_mask : List Bytes
nested_mask = codes "rate_limits.max_dispatches_per_second" ∷ []

abbrev old_state : QueueState
old_state = new_queue_state (apply_queue_defaults (queue_named queue_1))

abbrev updated : Engine (Unit {0}) × Result V2Queue
updated = v2_update_queue empty_queue (some update) nested_mask

abbrev queue_in : Result V2Queue → V2Queue
queue_in (ok q) = q
queue_in (err e) = update

updated_queue : updated ≡ (updated.0, ok (queue_in updated.1))
unfolding v2_update_queue v2_queue_to_core v2_queue_fields update_queue try_update_queue check_queue
    ◌>>=◌ run step ensure_queue create_queue try_create_queue parse_queue_name parse_location_name
    find_submatch queue_id queue_parent matches_queue_id_re has lookup insert new_engine bytes_eq
updated_queue = refl

old_state_lem : lookup queue_1 empty_queue.queues ≡ some old_state
unfolding ◌>>=◌ run step ensure_queue create_queue try_create_queue check_queue parse_queue_name
    parse_location_name find_submatch queue_id queue_parent matches_queue_id_re has lookup insert
    new_engine bytes_eq
old_state_lem = refl

v2_update_queue_unknown_example :
    (us : QueueState) × (lookup queue_1 updated.0.queues ≡ some us)
    × (us.q
        ≡ apply_queue_defaults (record old_state.q {
          rate_limits = rate_limits_of update.rate_limits;
          retry_config = retry_config_of update.retry_config;
          app_engine_routing_override = update.app_engine_routing_override;
          http_override = none;
        }))
    × (us.tasks ≡ old_state.tasks)
    × (queue_in updated.1 ≡ v2_queue_from_core (record us.q { tasks_count = length us.tasks }))
unfolding all_unknown bytes_eq
v2_update_queue_unknown_example =
    v2_update_queue_unknown empty_queue updated.0 update (queue_in updated.1) nested_mask old_state
      refl old_state_lem updated_queue
