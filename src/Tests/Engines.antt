-- ===== src/Tests/Engines.antt =====
-- A short life of an engine: a queue, a task in it, and what may happen to the task.
use cloud_tasks_emulator.Base.{◌+◌, ◌*◌, false, none, some, List, [], ◌∷◌}
use cloud_tasks_emulator.Base.Int.{pos, negsuc, max_int64}
use cloud_tasks_emulator.Base.Bytes.{Bytes, codes}
use cloud_tasks_emulator.Core.Limits.{second}
use cloud_tasks_emulator.Core.Retry.{Machine}
use cloud_tasks_emulator.Core.Types.{Time, Task, Target, empty_target, target_http, state_paused}
use cloud_tasks_emulator.Core.Queue.Attempts.{AttemptSnapshot, Outcome, Clock}
use cloud_tasks_emulator.Core.Engine.{Config, new_engine}
use cloud_tasks_emulator.Core.Engine.Valid.{EngineIsValid}
use cloud_tasks_emulator.Core.Engine.Calls.{
  Call, ensures_queue, creates_task, sets_state, fires_task, delivers, deletes_task, purges_queue,
  run, run-new_engine-IsValid,
}

-- The conversion of amd64.
abbrev pub amd64 : Machine
amd64 = record { too_large = negsuc max_int64; not_a_number = negsuc max_int64 }

abbrev pub queue_1 : Bytes
queue_1 = codes "projects/p/locations/l/queues/q-1"

abbrev pub task_1 : Bytes
task_1 = codes "projects/p/locations/l/queues/q-1/tasks/t_1"

-- A moment after the Unix epoch.
abbrev pub today : Time
today = 63000000000 * second

abbrev pub http_target : Target
http_target = record empty_target { type = target_http; url = codes "http://localhost/" }

abbrev pub new_task : Task
new_task = record {
  name = task_1;
  schedule_time = 0;
  create_time = 0;
  dispatch_deadline = pos 0;
  dispatch_count = pos 0;
  response_count = pos 0;
  first_attempt = none;
  last_attempt = none;
  target = http_target;
}

abbrev pub unavailable_target : AttemptSnapshot → Outcome
unavailable_target snap = record {
  rpc_code = 14;
  http_code = 503;
  message = codes "HTTP status 503";
}

abbrev pub plain_config : Config
plain_config = record {
  default_app_engine_host = [];
  task_ttl = pos 0;
  tombstone_ttl = pos 0;
  hard_reset_on_purge = false;
}

abbrev pub soon : Clock
soon = record {
  began = today;
  sent = today + second;
  received = today + 2 * second;
  applied = today + 2 * second;
}

abbrev history : List (Call (Unit {0}))
history =
    ensures_queue queue_1
    ∷ creates_task queue_1 (some new_task) today
    ∷ sets_state queue_1 state_paused
    ∷ fires_task queue_1 0 today
    ∷ delivers queue_1 0 unavailable_target soon
    ∷ deletes_task task_1 (today + 3 * second)
    ∷ purges_queue queue_1 (today + 4 * second)
    ∷ []

run-new_engine-IsValid_example : EngineIsValid (run amd64 tt (new_engine plain_config) history)
run-new_engine-IsValid_example = run-new_engine-IsValid amd64 tt plain_config history
