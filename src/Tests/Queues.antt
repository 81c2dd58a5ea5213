-- ===== src/Tests/Queues.antt =====
-- A queue of one task, and the outcomes of an attempt at it.
use cloud_tasks_emulator.Base.{
  ℕ, ◌+◌, ◌*◌, ◌≡◌, refl, ltb, ◌||◌, ◌≤◌, ◌-◌, ◌%◌, ◌==◌, if◌then◌else◌, min, arith, false, List,
  [], ◌∷◌,
}
use cloud_tasks_emulator.Base.Int.{pos, int32, ◌+ℤ◌}
use cloud_tasks_emulator.Base.Dict.{lookup, has, Unique}
use cloud_tasks_emulator.Core.Limits.{second, millisecond}
use cloud_tasks_emulator.Core.Types.{Attempt, RetryConfig}
use cloud_tasks_emulator.Core.Retry.{backoff, should_retry}
use cloud_tasks_emulator.Core.Retry.Delays.{delay, backoff-bounds, backoff-delay}
use cloud_tasks_emulator.Core.Retry.Policy.{should_retry-limited}
use cloud_tasks_emulator.Core.Retry.Overflow.{backoff-overflow}
use cloud_tasks_emulator.Core.Queue.{
  Settings, TaskState, QueueState, blank_state, new_queue_state, add_task, rebuild_limits,
}
use cloud_tasks_emulator.Core.Queue.Removal.{purge, stop}
use cloud_tasks_emulator.Core.Queue.Attempts.{Outcome, add_time, record_attempt, apply_attempt}
use cloud_tasks_emulator.Core.Queue.Valid.{IsValid, new_queue_state-IsValid, add_task-IsValid}
use cloud_tasks_emulator.Core.Queue.Late.{Deaf, purge-Deaf, stop-Deaf}
use cloud_tasks_emulator.Core.Queue.Delivery.{Removed, apply_attempt-Removed}
use cloud_tasks_emulator.Core.Queue.Retries.{Rescheduled, retried, apply_attempt-Rescheduled}
use cloud_tasks_emulator.Core.Queue.Ends.{Sent, Trying, Ended, apply_all, apply_all-Ended}
use cloud_tasks_emulator.Core.Queue.Unique.{add_task-Unique}
use cloud_tasks_emulator.Core.Runtime.{deletes, operate}
use cloud_tasks_emulator.Core.Book.{perform}
use cloud_tasks_emulator.Core.Book.Shows.{Shows, book_of, book_of-Shows}
use cloud_tasks_emulator.Core.Book.Performed.{operate-Shows}
use cloud_tasks_emulator.Core.Engine.Queues.{queue_named}
use cloud_tasks_emulator.Core.Engine.Tasks.{fresh_state}
use cloud_tasks_emulator.Tests.Engines.{amd64, queue_1, task_1, today, new_task}

abbrev pub day_settings : Settings
day_settings = record {
  task_ttl = pos (1000000 * second);
  tombstone_ttl = pos (3600 * second);
  hard_reset_on_purge = false;
}

abbrev patient : RetryConfig
patient = record {
  max_attempts = pos 5;
  max_retry_duration = pos 0;
  min_backoff = pos (100 * millisecond);
  max_backoff = pos (3600 * second);
  max_doublings = pos 16;
}

-- Doubled 30 times, an hour is above the int64s.
abbrev hasty : RetryConfig
hasty = record patient { min_backoff = pos (3600 * second); max_doublings = pos 30 }

abbrev lone_task : TaskState
lone_task = fresh_state new_task

abbrev lone : QueueState
lone = record (blank_state (record (queue_named queue_1) { retry_config = patient })) {
  heap = lone_task ∷ [];
  tasks = (task_1, 0) ∷ [];
}

abbrev try_1 : Attempt
try_1 = record {
  schedule_time = today;
  dispatch_time = today;
  response_time = today + second;
  code = 0;
  message = [];
}

abbrev done : Outcome
done = record { rpc_code = 0; http_code = 200; message = [] }

abbrev failing : Outcome
failing = record { rpc_code = 14; http_code = 503; message = [] }

apply_attempt-Removed_example :
    Removed day_settings 0
      (today + second)
      task_1
      lone
      (apply_attempt day_settings amd64 0 try_1 today done (today + second) lone)
apply_attempt-Removed_example =
    apply_attempt-Removed day_settings amd64 0 try_1 today done (today + second) lone_task lone refl
      refl refl

abbrev retried_task : TaskState
retried_task =
    retried amd64 lone (record_attempt lone_task try_1 today failing) failing (today + second)

apply_attempt-Rescheduled_example :
    Rescheduled 0
      (today + second)
      retried_task
      lone
      (apply_attempt day_settings amd64 0 try_1 today failing (today + second) lone)
    × (retried_task.t.dispatch_count ≡ int32 (lone_task.t.dispatch_count +ℤ pos 1))
    × (retried_task.t.schedule_time
        ≡ add_time
            (today + second)
            (backoff amd64 patient (int32 (lone_task.t.dispatch_count +ℤ pos 1))))
unfolding should_retry record_attempt int32 ◌+ℤ◌
apply_attempt-Rescheduled_example =
    apply_attempt-Rescheduled day_settings amd64 0 try_1 today failing (today + second) lone_task
      lone refl refl refl refl refl

backoff-bounds_example : (d : ℕ) × (backoff amd64 hasty (pos 32) ≡ pos d) × (d ≤ 3600 * second)
backoff-bounds_example = backoff-bounds amd64 hasty (pos 32) (3600 * second) refl

backoff-delay_example :
    backoff amd64 patient (pos 18) ≡ pos (min (delay (100 * millisecond) 16 17) (3600 * second))
unfolding delay
backoff-delay_example =
    backoff-delay amd64 patient (100 * millisecond) (3600 * second) 16 17 refl refl refl
      (omega arith) (omega arith) (omega arith) (omega arith) (omega arith)

backoff-overflow_example :
    backoff amd64 hasty (pos 32) ≡ (if (31 - 30) % 2 == 0 then pos (3600 * second) else pos 0)
backoff-overflow_example =
    backoff-overflow amd64 hasty (3600 * second) (3600 * second) 30 31 refl refl refl refl
      (omega arith) (omega arith) (omega arith) (omega arith) (omega arith)

abbrev busy : QueueState
busy = add_task day_settings today lone_task (new_queue_state (queue_named queue_1))

busy-IsValid : IsValid busy
unfolding new_queue_state rebuild_limits lookup
busy-IsValid =
    add_task-IsValid day_settings today lone_task (new_queue_state (queue_named queue_1)) refl refl
      (new_queue_state-IsValid (queue_named queue_1))

purge-Deaf_example : Deaf (purge day_settings today busy)
purge-Deaf_example = purge-Deaf day_settings today busy busy-IsValid

stop-Deaf_example : Deaf (stop busy)
stop-Deaf_example = stop-Deaf busy busy-IsValid

should_retry-limited_example :
    should_retry (record patient { max_retry_duration = pos second }) (pos 4) today (today + second)
    ≡ (ltb 4 5 || ltb (today + second - today) second)
should_retry-limited_example =
    should_retry-limited (record patient { max_retry_duration = pos second }) 4 5 second today
      (today + second) refl refl (omega arith) (omega arith)

abbrev failure : ℕ → Sent
failure n = record { record_of = try_1; sent = today; outcome = failing; now = today + n * second }

-- Five failures in a row, of which each is applied a second after the one before.
abbrev failures : List Sent
failures = failure 1 ∷ failure 2 ∷ failure 3 ∷ failure 4 ∷ failure 5 ∷ []

lone-Trying : Trying 0 task_1 5 0 lone
lone-Trying = record {
  task = (lone_task, refl, (refl, refl), (refl, refl));
  push = refl;
  attempts = refl;
  untimed = refl;
}

apply_all-Ended_example : Ended 0 task_1 (apply_all day_settings amd64 0 failures lone)
apply_all-Ended_example =
    apply_all-Ended day_settings amd64 0 task_1 5 0 failures lone lone-Trying (omega arith)
      (omega arith) (omega arith)

busy-Unique : Unique busy.tasks
unfolding Unique new_queue_state rebuild_limits lookup has
busy-Unique =
    add_task-Unique day_settings today lone_task (new_queue_state (queue_named queue_1)) tt

-- The only task is deleted.
operate-Shows_example :
    Shows
      (operate day_settings (deletes task_1 today) busy)
      (perform day_settings (deletes task_1 today) (book_of busy))
operate-Shows_example =
    operate-Shows day_settings (deletes task_1 today) busy (book_of busy) busy-IsValid busy-Unique
      (book_of-Shows busy)
