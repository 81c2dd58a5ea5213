-- ===== src/Tests/Lives.antt =====
-- The life of a task in an engine: created, found, deleted, reserved.
use cloud_tasks_emulator.Base.{
  ◌==◌, ◌+◌, ◌*◌, ◌≡◌, refl, true, some, List, [], ◌∷◌, ℕ, is_some, or_else, ltb, if◌then◌else◌,
}
use cloud_tasks_emulator.Base.Int.{pos, pos_part}
use cloud_tasks_emulator.Base.Bytes.{bytes_eq}
use cloud_tasks_emulator.Base.Dict.{delete, has, insert, lookup}
use cloud_tasks_emulator.Core.Status.{
  Result, already_exists, fail, not_found, ok, task_not_found, task_reserved, ◌>>=◌,
}
use cloud_tasks_emulator.Core.Limits.{apply_queue_defaults, compute_burst_size, second}
use cloud_tasks_emulator.Core.Naming.{
  find_submatch, matches_id_re, matches_queue_id_re, parse_location_name, parse_queue_name,
  parse_task_name, queue_id, queue_parent, resolve_task_name, task_id, task_queue_of,
}
use cloud_tasks_emulator.Core.Types.{Task}
use cloud_tasks_emulator.Core.Queue.{
  QueueState, add_task, after_func, effective_task_ttl, effective_tombstone_ttl, modify,
  new_queue_state, rebuild_limits, register, schedule, stop_timer, tombstone_locked, tombstoned,
}
use cloud_tasks_emulator.Core.Engine.{Engine, new_engine, queue_locked, task_queue}
use cloud_tasks_emulator.Core.Engine.Queues.{
  check_queue, create_queue, ensure_queue, queue_named, try_create_queue,
}
use cloud_tasks_emulator.Core.Engine.Tasks.{
  create_task, delete_task, find_task, fresh_state, get_task, insert_task, next_task_id, stamped,
  try_create_task, try_delete_task,
}
use cloud_tasks_emulator.Core.Engine.Calls.{
  Call, creates_task, ensures_queue, run, run-new_engine-IsValid, step,
}
use cloud_tasks_emulator.Core.Engine.Lifecycle.{delete_task-get_task}
use cloud_tasks_emulator.Core.Engine.Reserved.{delete_task-create_task}
use cloud_tasks_emulator.Core.Engine.Created.{create_task-get_task}
use cloud_tasks_emulator.Core.Validate.{
  check_body_method, check_deadline, header_size, validate_create_task, validate_target,
}
use cloud_tasks_emulator.Core.Queue.Removal.{remove_locked, remove_state}
use cloud_tasks_emulator.Core.Queue.Delivery.{reserves}
use cloud_tasks_emulator.Core.Engine.Iam.{
  resource_queue, get_iam_policy, try_set_iam_policy, set_iam_policy,
}
use cloud_tasks_emulator.Core.Engine.Policies.{set_iam_policy-get_iam_policy}
use cloud_tasks_emulator.Tests.Engines.{amd64, queue_1, task_1, today, new_task, plain_config}

abbrev one_task : List (Call (Unit {0}))
one_task = ensures_queue queue_1 ∷ creates_task queue_1 (some new_task) today ∷ []

abbrev started : Engine (Unit {0})
started = run amd64 tt (new_engine plain_config) one_task

abbrev after_delete : Engine (Unit {0})
after_delete = (delete_task started task_1 (today + second)).0

deleted : delete_task started task_1 (today + second) ≡ (after_delete, ok tt)
unfolding new_engine task_queue queue_locked delete_task try_delete_task find_task create_task
    try_create_task insert_task next_task_id ensure_queue create_queue try_create_queue check_queue
    run step parse_task_name parse_queue_name parse_location_name find_submatch task_queue_of
    queue_parent queue_id resolve_task_name task_id matches_id_re matches_queue_id_re
    validate_create_task validate_target check_body_method check_deadline header_size
    new_queue_state rebuild_limits add_task register schedule tombstone_locked after_func
    effective_task_ttl effective_tombstone_ttl tombstoned stop_timer modify remove_locked
    remove_state apply_queue_defaults compute_burst_size ◌>>=◌ lookup insert delete has bytes_eq
deleted = refl

delete_task-get_task_example : get_task after_delete task_1 ≡ fail not_found (task_not_found task_1)
delete_task-get_task_example =
    delete_task-get_task started after_delete task_1 (today + second)
      (run-new_engine-IsValid amd64 tt plain_config one_task) deleted

abbrev created : Engine (Unit {0}) × Result Task
created =
    create_task (run amd64 tt (new_engine plain_config) (ensures_queue queue_1 ∷ [])) queue_1
      (some new_task) today

abbrev stored_task : Task
stored_task = stamped today task_1 new_task

created_task : created ≡ (created.0, ok stored_task)
unfolding new_engine task_queue queue_locked delete_task try_delete_task find_task create_task
    try_create_task insert_task next_task_id ensure_queue create_queue try_create_queue check_queue
    run step parse_task_name parse_queue_name parse_location_name find_submatch task_queue_of
    queue_parent queue_id resolve_task_name task_id matches_id_re matches_queue_id_re
    validate_create_task validate_target check_body_method check_deadline header_size
    new_queue_state rebuild_limits add_task register schedule tombstone_locked after_func
    effective_task_ttl effective_tombstone_ttl tombstoned stop_timer modify remove_locked
    remove_state apply_queue_defaults compute_burst_size ◌>>=◌ lookup insert delete has bytes_eq
created_task = refl

create_task-get_task_example :
    (get_task created.0 task_1 ≡ ok stored_task)
    × (is_some (parse_task_name task_1) ≡ true)
    × (task_queue_of task_1 ≡ queue_1)
    × (stored_task ≡ record new_task {
      name = task_1;
      create_time = today;
      schedule_time = if new_task.schedule_time == 0 then today else new_task.schedule_time;
      dispatch_count = pos 0;
      response_count = pos 0;
    })
create_task-get_task_example =
    create_task-get_task (run amd64 tt (new_engine plain_config) (ensures_queue queue_1 ∷ []))
      created.0 queue_1 new_task stored_task today created_task

abbrev tombstone_queue : QueueState
tombstone_queue =
    add_task started.settings today (fresh_state stored_task)
      (new_queue_state (apply_queue_defaults (queue_named queue_1)))

queue_of_started : task_queue started task_1 ≡ ok tombstone_queue
unfolding new_engine task_queue queue_locked delete_task try_delete_task find_task create_task
    try_create_task insert_task next_task_id ensure_queue create_queue try_create_queue check_queue
    run step parse_task_name parse_queue_name parse_location_name find_submatch task_queue_of
    queue_parent queue_id resolve_task_name task_id matches_id_re matches_queue_id_re
    validate_create_task validate_target check_body_method check_deadline header_size
    new_queue_state rebuild_limits add_task register schedule tombstone_locked after_func
    effective_task_ttl effective_tombstone_ttl tombstoned stop_timer modify remove_locked
    remove_state apply_queue_defaults compute_burst_size ◌>>=◌ lookup insert delete has bytes_eq
queue_of_started = refl

reserves_names : reserves started.settings tombstone_queue ≡ true
unfolding new_engine task_queue queue_locked delete_task try_delete_task find_task create_task
    try_create_task insert_task next_task_id ensure_queue create_queue try_create_queue check_queue
    run step parse_task_name parse_queue_name parse_location_name find_submatch task_queue_of
    queue_parent queue_id resolve_task_name task_id matches_id_re matches_queue_id_re
    validate_create_task validate_target check_body_method check_deadline header_size
    new_queue_state rebuild_limits add_task register schedule tombstone_locked after_func
    effective_task_ttl effective_tombstone_ttl tombstoned stop_timer modify remove_locked
    remove_state apply_queue_defaults compute_burst_size ◌>>=◌ lookup insert delete has bytes_eq
reserves_names = refl

valid_id : matches_id_re (task_id task_1) ≡ true
unfolding new_engine task_queue queue_locked delete_task try_delete_task find_task create_task
    try_create_task insert_task next_task_id ensure_queue create_queue try_create_queue check_queue
    run step parse_task_name parse_queue_name parse_location_name find_submatch task_queue_of
    queue_parent queue_id resolve_task_name task_id matches_id_re matches_queue_id_re
    validate_create_task validate_target check_body_method check_deadline header_size
    new_queue_state rebuild_limits add_task register schedule tombstone_locked after_func
    effective_task_ttl effective_tombstone_ttl tombstoned stop_timer modify remove_locked
    remove_state apply_queue_defaults compute_burst_size ◌>>=◌ lookup insert delete has bytes_eq
valid_id = refl

valid_task : validate_create_task (today + 2 * second) new_task ≡ ok tt
unfolding new_engine task_queue queue_locked delete_task try_delete_task find_task create_task
    try_create_task insert_task next_task_id ensure_queue create_queue try_create_queue check_queue
    run step parse_task_name parse_queue_name parse_location_name find_submatch task_queue_of
    queue_parent queue_id resolve_task_name task_id matches_id_re matches_queue_id_re
    validate_create_task validate_target check_body_method check_deadline header_size
    new_queue_state rebuild_limits add_task register schedule tombstone_locked after_func
    effective_task_ttl effective_tombstone_ttl tombstoned stop_timer modify remove_locked
    remove_state apply_queue_defaults compute_burst_size ◌>>=◌ lookup insert delete has bytes_eq
valid_task = refl

delete_task-create_task_example :
    (create_task after_delete (task_queue_of task_1) (some new_task) (today + 2 * second)).1 ≡ (
      if ltb
        (today + 2 * second)
        (today + second + pos_part (effective_tombstone_ttl started.settings tombstone_queue))
      then fail already_exists (task_reserved task_1)
      else ok (stamped (today + 2 * second) task_1 new_task))
delete_task-create_task_example =
    delete_task-create_task started after_delete new_task (today + second) (today + 2 * second)
      tombstone_queue (run-new_engine-IsValid amd64 tt plain_config one_task) queue_of_started
      deleted reserves_names valid_id valid_task

-- With numbers in the place of policies.
abbrev seven : ℕ
seven = 7

abbrev governed : Engine ℕ
governed = run amd64 0 (new_engine plain_config) (ensures_queue queue_1 ∷ [])

abbrev after_policy : Engine ℕ
after_policy = (set_iam_policy 0 governed queue_1 (some 7)).0

policy_set : set_iam_policy 0 governed queue_1 (some 7) ≡ (after_policy, ok 7)
unfolding new_engine task_queue queue_locked delete_task try_delete_task find_task create_task
    try_create_task insert_task next_task_id ensure_queue create_queue try_create_queue check_queue
    run step parse_task_name parse_queue_name parse_location_name find_submatch task_queue_of
    queue_parent queue_id resolve_task_name task_id matches_id_re matches_queue_id_re
    validate_create_task validate_target check_body_method check_deadline header_size
    new_queue_state rebuild_limits add_task register schedule tombstone_locked after_func
    effective_task_ttl effective_tombstone_ttl tombstoned stop_timer modify remove_locked
    remove_state apply_queue_defaults compute_burst_size ◌>>=◌ lookup insert delete has bytes_eq
    set_iam_policy try_set_iam_policy resource_queue
policy_set = refl

set_iam_policy-get_iam_policy_example :
    (get_iam_policy 0 after_policy queue_1 ≡ ok 7)
    × (seven ≡ or_else (some seven) 0)
    × (get_iam_policy 0 after_policy task_1 ≡ get_iam_policy 0 governed task_1)
set_iam_policy-get_iam_policy_example =
    set_iam_policy-get_iam_policy 0 governed after_policy queue_1 task_1 (some 7) 7
      (unfold bytes_eq in refl) policy_set
