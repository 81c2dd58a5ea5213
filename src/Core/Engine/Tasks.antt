-- ===== src/Core/Engine/Tasks.antt =====
-- The operations on tasks of core/engine.go.
use cloud_tasks_emulator.Base.{
  ℕ, ◌+◌, ◌-◌, ◌*◌, ◌%◌, ◌^◌, false, Option, none, some, List, [], ◌∷◌, ◌==◌, if◌then◌else◌,
  get_elem?,
}
use cloud_tasks_emulator.Base.Int.{ℤ, pos}
use cloud_tasks_emulator.Base.Bytes.{Bytes, is_empty}
use cloud_tasks_emulator.Base.Dict.{lookup, has, keys}
use cloud_tasks_emulator.Std.Decimal.{format_nat}
use cloud_tasks_emulator.Std.Sort.{sort_strings}
use cloud_tasks_emulator.Core.Status.{
  Result, ok, err, fail, ◌>>=◌, ◌>>◌, reject_if, or_fail, invalid_argument, already_exists,
  not_found, failed_precondition, invalid_parent, task_required, task_exists, task_reserved,
  task_not_found, run_pull_queue, run_pull_task,
}
use cloud_tasks_emulator.Core.Limits.{second}
use cloud_tasks_emulator.Core.Naming.{parse_queue_name, resolve_task_name, task_queue_of}
use cloud_tasks_emulator.Core.Page.{paginate, max_list_tasks_page_size}
use cloud_tasks_emulator.Core.Retry.{Machine}
use cloud_tasks_emulator.Core.Types.{Time, Task}
use cloud_tasks_emulator.Core.Validate.{validate_create_task}
use cloud_tasks_emulator.Core.Queue.{
  Settings, TaskState, QueueState, modify, is_pull, stop_timer, add_task, tombstoned,
}
use cloud_tasks_emulator.Core.Queue.Removal.{remove_locked}
use cloud_tasks_emulator.Core.Queue.Attempts.{AttemptSnapshot, Outcome, Clock, attempt}
use cloud_tasks_emulator.Core.Engine.{Engine, put_queue, reply, queue_locked, task_queue}

-- The Unix epoch, 62135596800 s after Go's zero time, and `uint64(t.UnixNano())`.
abbrev epoch : ℕ
epoch = 62135596800 * second

unfoldable pub unix_nano : Time → ℕ
unix_nano t = (t + 2 ^ 64 - epoch % 2 ^ 64) % 2 ^ 64

-- The id is made from the sequence number that the counter has after its increment, in uint64.
unfoldable pub next_task_id : Time → QueueState → QueueState × Bytes
next_task_id now qs =
    let seq = (qs.id_seq + 1) % 2 ^ 64 in
    (record qs { id_seq = seq }, format_nat ((unix_nano now + seq) % 2 ^ 64))

-- An id is taken from the counter only where no name is provided.
abbrev pub counted : Bytes → Time → QueueState → QueueState
counted provided now qs = if is_empty provided then (next_task_id now qs).0 else qs

-- The task as it is stored: named, created now, due now if no time is given, never dispatched.
abbrev pub stamped : Time → Bytes → Task → Task
stamped now name t = record t {
  name = name;
  create_time = now;
  schedule_time = if t.schedule_time == 0 then now else t.schedule_time;
  dispatch_count = pos 0;
  response_count = pos 0;
}

abbrev pub fresh_state : Task → TaskState
fresh_state t = record {
  t = t;
  timer = none;
  ttl_timer = none;
  removed = false;
  first_attempt_time = 0;
  last_http_code = 0;
  last_retry_reason = [];
  execution_count = pos 0;
}

-- The part of CreateTask under the queue's lock: the stored task, or the name is taken.
unfoldable pub insert_task : Settings → Time → Task → QueueState → Result QueueState
insert_task s now t qs = do
  reject_if (has t.name qs.tasks) already_exists (task_exists t.name)
  reject_if (tombstoned t.name now qs) already_exists (task_reserved t.name)
  ok (add_task s now (fresh_state t) qs)

-- What is left of the queue when the insertion fails, which keeps the counter's step.
abbrev pub or_keep {ℓ} : {A : Type ℓ} → Result A → A → A
or_keep (ok a) b = a
or_keep (err x) b = b

abbrev pub with_task : Result QueueState → Task → Result Task
with_task (ok qs) t = ok t
with_task (err x) t = err x

abbrev pub given_task : Option Task → Result Task
given_task none = fail invalid_argument task_required
given_task (some t) = ok t

-- The task state that a name of the queue's map points to.
unfoldable pub find_task : Bytes → QueueState → Result (ℕ × TaskState)
find_task name qs = do
  p ← or_fail (lookup name qs.tasks) not_found (task_not_found name)
  ts ← or_fail (get_elem? qs.heap p) not_found (task_not_found name)
  ok (p, ts)

unfoldable pub tasks_of : List Bytes → QueueState → List Task
tasks_of [] qs = []
tasks_of (name ∷ names) qs = elim (find_task name qs) [
  | err x ↦ tasks_of names qs
  | ok found ↦ found.1.t ∷ tasks_of names qs
]

-- RunTask up to its attempt: the timer is stopped and the task is due now.
unfoldable pub begin_run : Bytes → Time → QueueState → Result (ℕ × QueueState)
begin_run name now qs = do
  reject_if qs.q.pull failed_precondition run_pull_queue
  (p, ts) ← find_task name qs
  reject_if (is_pull ts.t.target.type) failed_precondition run_pull_task
  let started = record qs {
    timers = stop_timer ts.timer qs.timers;
    heap = modify qs.heap p (λ x. record x { t = record ts.t { schedule_time = now } });
  }
  ok (p, started)

module _ {P : Type 0} where
  -- The reply is in two parts: an error of the second is reported with the counter moved on.
  abbrev pub settle : {A : Type 0} → Engine P → Result (Engine P × Result A) → Engine P × Result A
  settle e (ok r) = r
  settle e (err x) = (e, err x)

  unfoldable pub try_create_task :
      Engine P → Bytes → Option Task → Time → Result (Engine P × Result Task)
  try_create_task e parent given now = do
    _ ← or_fail (parse_queue_name parent) invalid_argument (invalid_parent parent)
    t ← given_task given
    validate_create_task now t
    qs ← queue_locked e parent
    name ← resolve_task_name parent t.name (next_task_id now qs).1
    let stored = stamped now name t
    let qs' = counted t.name now qs
    let r = insert_task e.settings now stored qs'
    ok (put_queue parent (or_keep r qs') e, with_task r stored)

  unfoldable pub create_task : Engine P → Bytes → Option Task → Time → Engine P × Result Task
  create_task e parent given now = settle e (try_create_task e parent given now)

  unfoldable pub get_task : Engine P → Bytes → Result Task
  get_task e name = do qs ← task_queue e name; (p, ts) ← find_task name qs; ok ts.t

  unfoldable pub list_tasks : Engine P → Bytes → ℤ → Bytes → Result (List Task × Bytes)
  list_tasks e parent page_size page_token = do
    qs ← queue_locked e parent
    (page, next) ←
        paginate (sort_strings (keys qs.tasks)) page_size page_token max_list_tasks_page_size
    ok (tasks_of page qs, next)

  unfoldable pub try_delete_task : Engine P → Bytes → Time → Result (Engine P × (Unit {0}))
  try_delete_task e name now = do
    qs ← task_queue e name
    (p, ts) ← find_task name qs
    ok (put_queue (task_queue_of name) (remove_locked e.settings p now qs) e, tt)

  unfoldable pub delete_task : Engine P → Bytes → Time → Engine P × Result (Unit {0})
  delete_task e name now = reply e (try_delete_task e name now)

  -- The task is delivered once, whatever its schedule, and returned as the attempt left it.
  unfoldable pub try_run_task :
      Machine → (AttemptSnapshot → Outcome) → Engine P → Bytes → Clock → Result (Engine P × Task)
  try_run_task mach dispatch e name clock = do
    qs ← task_queue e name
    (p, started) ← begin_run name clock.began qs
    let attempted = attempt e.settings mach dispatch p clock started
    ts ← or_fail (get_elem? attempted.heap p) not_found (task_not_found name)
    ok (put_queue (task_queue_of name) attempted e, ts.t)

  unfoldable pub run_task :
      Machine → (AttemptSnapshot → Outcome) → Engine P → Bytes → Clock → Engine P × Result Task
  run_task mach dispatch e name clock = reply e (try_run_task mach dispatch e name clock)
