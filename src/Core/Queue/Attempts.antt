-- ===== src/Core/Queue/Attempts.antt =====
-- The delivery attempts of core/queue.go: what a timer runs, the snapshot that is handed to the
-- dispatch, and what the outcome of the dispatch does to the task. The dispatch itself runs with no
-- lock held, so its outcome is an argument.
use cloud_tasks_emulator.Base.{
  ℕ, suc, ◌+◌, ◌-◌, ◌++◌, not, Option, none, some, ◌∷◌, ltb, ◌==◌, if◌then◌else◌, get_elem?,
  is_some,
}
use cloud_tasks_emulator.Base.Int.{ℤ, pos, pos_part, neg_part, ◌+ℤ◌, int32}
use cloud_tasks_emulator.Base.Bytes.{Bytes, codes, is_empty}
use cloud_tasks_emulator.Std.Decimal.{itoa}
use cloud_tasks_emulator.Core.Limits.{second}
use cloud_tasks_emulator.Core.Retry.{Machine, backoff, should_retry}
use cloud_tasks_emulator.Core.Types.{Time, Queue, Task, Attempt, zero_attempt}
use cloud_tasks_emulator.Core.Queue.{
  Limiter, Settings, TaskState, QueueState, modify, is_held, fires, schedule,
}
use cloud_tasks_emulator.Core.Queue.Removal.{remove_locked}

abbrev pub pause_poll_interval : ℕ
pause_poll_interval = second

-- What `fire` does under the lock: nothing more for a removed task, another timer while the queue
-- is held, or else it goes on with the limiter and the semaphore that it read.
pub data Fired : Type 0 where
  dropped held : Fired
  proceeds : Limiter → ℕ → Fired

unfoldable pub fire_state : ℕ → Time → TaskState → QueueState → QueueState × Fired
unfolding modify
fire_state p now ts qs =
    if ts.removed
    then (qs, dropped)
    else if is_held qs.q.state
    then (
      record qs {
        timers =
            record { id = qs.next_timer; due = now + pause_poll_interval; action = fires p }
            ∷ qs.timers;
        next_timer = suc qs.next_timer;
        heap = modify qs.heap p (λ x. record x { timer = some qs.next_timer });
      },
      held,
    )
    else (qs, proceeds qs.limiter qs.concurrency)

unfoldable pub fire : ℕ → Time → QueueState → QueueState × Fired
unfolding fire_state
fire p now qs = elim (get_elem? qs.heap p) [
  | none ↦ (qs, dropped)
  | some ts ↦ fire_state p now ts qs
]

-- `number` and `execution_count` are int32.
pub record AttemptInfo : Type 0 where
  pub number : ℤ
  pub execution_count : ℤ
  pub prev_http_code : ℕ
  pub prev_reason : Bytes

pub record AttemptSnapshot : Type 0 where
  pub task : Task
  pub queue : Queue
  pub info : AttemptInfo
  pub scheduled : Time

abbrev snapshot_of : QueueState → TaskState → AttemptSnapshot
snapshot_of qs ts = record {
  task = ts.t;
  queue = qs.q;
  info = record {
    number = int32 (ts.t.dispatch_count +ℤ pos 1);
    execution_count = ts.execution_count;
    prev_http_code = ts.last_http_code;
    prev_reason = ts.last_retry_reason;
  };
  scheduled = ts.t.schedule_time;
}

unfoldable pub snapshot_attempt : ℕ → QueueState → Option AttemptSnapshot
snapshot_attempt p qs = elim (get_elem? qs.heap p) [
  | none ↦ none
  | some ts ↦ if ts.removed then none else some (snapshot_of qs ts)
]

-- What the dispatch returns: the rpc code, the HTTP status (0 for no response), and the message.
pub record Outcome : Type 0 where
  pub rpc_code : ℕ
  pub http_code : ℕ
  pub message : Bytes

unfoldable pub retry_reason : ℕ → Bytes → Bytes
retry_reason http_code message =
    if not (http_code == 0)
    then codes "RETURNED_" ++ itoa (pos http_code)
    else if not (is_empty message)
    then codes "CONNECTION_ERROR: " ++ message
    else codes "CONNECTION_ERROR"

-- The first attempt keeps the two times alone.
abbrev first_of : Attempt → Attempt
first_of att = record zero_attempt {
  schedule_time = att.schedule_time;
  dispatch_time = att.dispatch_time;
}

-- The counters and the record of an attempt, as `applyAttempt` writes them before it decides.
unfoldable pub record_attempt : TaskState → Attempt → Time → Outcome → TaskState
record_attempt ts att dispatch_time o =
    let t = ts.t in
    let responded = not (o.http_code == 0) in
    let first = not (is_some t.first_attempt) in
    record ts {
      t = record t {
        dispatch_count = int32 (t.dispatch_count +ℤ pos 1);
        response_count = if responded then int32 (t.response_count +ℤ pos 1) else t.response_count;
        last_attempt = some att;
        first_attempt = if first then some (first_of att) else t.first_attempt;
      };
      execution_count =
          if responded
          then (if ltb o.http_code 500
              then int32 (ts.execution_count +ℤ pos 1)
              else ts.execution_count)
          else ts.execution_count;
      first_attempt_time = if first then dispatch_time else ts.first_attempt_time;
      last_http_code = o.http_code;
    }

-- `time.Now().Add(d)`; the delay is at least 0 unless the queue has a negative max_backoff.
abbrev pub add_time : Time → ℤ → Time
add_time now d = now + pos_part d - neg_part d

-- The end of `applyAttempt`, on the recorded task state: done, dropped, or scheduled again.
unfoldable pub finish_attempt :
    Settings → Machine → ℕ → Time → Outcome → TaskState → QueueState → QueueState
unfolding modify remove_locked
finish_attempt s mach p now o ts qs =
    let reasoned = record ts { last_retry_reason = retry_reason o.http_code o.message } in
    if o.rpc_code == 0
    then remove_locked s p now (record qs { heap = modify qs.heap p (λ _. ts) })
    else if not (should_retry qs.q.retry_config ts.t.dispatch_count ts.first_attempt_time now)
    then remove_locked s p now (record qs { heap = modify qs.heap p (λ _. reasoned) })
    else (let delay = backoff mach qs.q.retry_config ts.t.dispatch_count in
        let rescheduled = record reasoned {
          t = record ts.t { schedule_time = add_time now delay };
        } in
        schedule p now (record qs { heap = modify qs.heap p (λ _. rescheduled) }))

unfoldable pub apply_attempt :
    Settings → Machine → ℕ → Attempt → Time → Outcome → Time → QueueState → QueueState
apply_attempt s mach p att dispatch_time o now qs = elim (get_elem? qs.heap p) [
  | none ↦ qs
  | some ts ↦
      if ts.removed
      then qs
      else finish_attempt s mach p now o (record_attempt ts att dispatch_time o) qs
]

-- The attempt that the code makes of a snapshot and an outcome.
unfoldable pub attempt_of : AttemptSnapshot → Time → Time → Outcome → Attempt
attempt_of snap dispatch_time response_time o = record {
  schedule_time = snap.scheduled;
  dispatch_time = dispatch_time;
  response_time = response_time;
  code = o.rpc_code;
  message = o.message;
}

-- The times that an attempt reads off the clock: when the call began, when the request was sent,
-- when its outcome was in, and when that was applied.
pub record Clock : Type 0 where
  pub began : Time
  pub sent : Time
  pub received : Time
  pub applied : Time

-- `attempt`, with nothing else done to the queue while the dispatch is under way.
unfoldable pub attempt :
    Settings → Machine → (AttemptSnapshot → Outcome) → ℕ → Clock → QueueState → QueueState
attempt s mach dispatch p clock qs = elim (snapshot_attempt p qs) [
  | none ↦ qs
  | some snap ↦
      let o = dispatch snap in
      apply_attempt s mach p (attempt_of snap clock.sent clock.received o) clock.sent o
        clock.applied qs
]
