-- ===== src/Core/Queue.antt =====
-- core/queue.go: the runtime state of a queue and the operations that its lock protects. A task
-- state and a semaphore are shared through pointers, which are indices into the queue's heaps; the
-- timers are those that the Go runtime has armed for the queue. An operation takes the time at
-- which it runs, which is what every `time.Now()` in it returns.
pub mod Removal
pub mod Attempts
pub mod Heap
pub mod Links
pub mod Valid
pub mod Sweep
pub mod Outcomes
pub mod Frames
pub mod Delivery
pub mod Retries
pub mod Added
pub mod Late
pub mod Gates
pub mod Ends
pub mod Unique
pub mod Cells
use cloud_tasks_emulator.Base.{
  ℕ, zero, suc, ◌+◌, ◌≤◌, Bool, true, false, ◌||◌, Option, none, some, List, [], ◌∷◌, ◌++◌, ltb,
  leb, ◌==◌, if◌then◌else◌, length, get_elem?, set,
}
use cloud_tasks_emulator.Base.Int.{ℤ, pos, pos_part, ◌+ℤ◌, ltb_ℤ, int32}
use cloud_tasks_emulator.Base.Bytes.{Bytes, codes}
use cloud_tasks_emulator.Base.Dict.{Dict, lookup, insert, delete}
use cloud_tasks_emulator.Core.Float.{Float64}
use cloud_tasks_emulator.Core.Limits.{second}
use cloud_tasks_emulator.Core.Types.{
  Time, Duration, State, state_running, state_paused, state_disabled, TargetType, target_none,
  target_http, target_app_engine, target_pull, Queue, Task, Attempt, zero_attempt,
}

-- What the engine's configuration says to a queue.
pub record Settings : Type 0 where
  pub task_ttl : Duration
  pub tombstone_ttl : Duration
  pub hard_reset_on_purge : Bool

-- `execution_count` is an int32. A timer is named by its number among the queue's timers.
pub record TaskState : Type 0 where
  pub t : Task
  pub timer : Option ℕ
  pub ttl_timer : Option ℕ
  pub removed : Bool
  pub first_attempt_time : Time
  pub last_http_code : ℕ
  pub last_retry_reason : Bytes
  pub execution_count : ℤ

-- What an armed timer runs.
pub data Action : Type 0 where
  fires expires : ℕ → Action
  clears : Bytes → Action

pub record Timer : Type 0 where
  pub id : ℕ
  pub due : Time
  pub action : Action

-- The arguments of the rate.NewLimiter that made the limiter.
pub record Limiter : Type 0 where
  pub limit : Float64
  pub burst : ℤ

-- A buffered channel, of which only the number of held elements matters.
pub record Semaphore : Type 0 where
  pub capacity : ℕ
  pub held : ℕ

pub record QueueState : Type 0 where
  pub q : Queue
  pub tasks : Dict ℕ
  pub tombstones : Dict Time
  pub limiter : Limiter
  pub concurrency : ℕ
  pub id_seq : ℕ  -- uint64
  pub heap : List TaskState
  pub semaphores : List Semaphore
  pub timers : List Timer
  pub next_timer : ℕ

-- `*p = f(*p)`; no pointer of the code dangles.
unfoldable pub modify {ℓ} : {A : Type ℓ} → List A → ℕ → (A → A) → List A
modify xs p f = elim (get_elem? xs p) [ none ↦ xs | some x ↦ set xs p (f x) ]

abbrev at_least_one : ℤ → ℤ
at_least_one n = if ltb_ℤ n (pos 1) then pos 1 else n

unfoldable pub rebuild_limits : QueueState → QueueState
rebuild_limits qs = record qs {
  limiter = record {
    limit = qs.q.rate_limits.max_dispatches_per_second;
    burst = at_least_one qs.q.rate_limits.max_burst_size;
  };
  semaphores =
      qs.semaphores
      ++ record {
        capacity = pos_part (at_least_one qs.q.rate_limits.max_concurrent_dispatches);
        held = 0;
      }
        ∷ [];
  concurrency = length qs.semaphores;
}

-- A queue state before `rebuild_limits`, which makes the limiter and the semaphore.
abbrev pub blank_state : Queue → QueueState
blank_state q = record {
  q = q;
  tasks = [];
  tombstones = [];
  limiter = record { limit = q.rate_limits.max_dispatches_per_second; burst = pos 1 };
  concurrency = 0;
  id_seq = 0;
  heap = [];
  semaphores = [];
  timers = [];
  next_timer = 0;
}

unfoldable pub new_queue_state : Queue → QueueState
unfolding rebuild_limits
new_queue_state q = rebuild_limits (blank_state q)

abbrev override : Duration → Duration → Duration
override own engine = if ltb_ℤ (pos 0) own then own else engine

unfoldable pub effective_task_ttl : Settings → QueueState → Duration
effective_task_ttl s qs = override qs.q.task_ttl s.task_ttl

unfoldable pub effective_tombstone_ttl : Settings → QueueState → Duration
effective_tombstone_ttl s qs = override qs.q.tombstone_ttl s.tombstone_ttl

-- `time.AfterFunc(d, f)` called at `now`: a negative delay is none.
unfoldable pub after_func : Time → Duration → Action → QueueState → QueueState
after_func now d f qs = record qs {
  timers = record { id = qs.next_timer; due = now + pos_part d; action = f } ∷ qs.timers;
  next_timer = suc qs.next_timer;
}

-- `timer.Stop()`: a timer that has gone off is not among the armed ones.
unfoldable pub stop_timer : Option ℕ → List Timer → List Timer
stop_timer none ts = ts
stop_timer (some i) [] = []
stop_timer (some i) (t ∷ ts) =
    let rest = stop_timer (some i) ts in if t.id == i then rest else t ∷ rest

abbrev pub is_pull : TargetType → Bool
is_pull target_pull = true
is_pull _ = false

abbrev pub is_held : State → Bool
is_held state_running = false
is_held state_paused = true
is_held state_disabled = true

-- The timer of a task state, armed at `now` to fire it at `due`; a time in the past is now.
unfoldable pub arm_fire : ℕ → Time → Time → QueueState → QueueState
unfolding modify
arm_fire p now due qs = record qs {
  timers =
      record { id = qs.next_timer; due = if ltb due now then now else due; action = fires p }
      ∷ qs.timers;
  next_timer = suc qs.next_timer;
  heap = modify qs.heap p (λ ts. record ts { timer = some qs.next_timer });
}

-- The tests of `schedule` on the task state that it reads.
schedule_state : ℕ → Time → TaskState → QueueState → QueueState
unfolding arm_fire
schedule_state p now ts qs =
    if ts.removed || qs.q.pull || is_pull ts.t.target.type
    then qs
    else arm_fire p now ts.t.schedule_time qs

unfoldable pub schedule : ℕ → Time → QueueState → QueueState
unfolding schedule_state
schedule p now qs = elim (get_elem? qs.heap p) [ none ↦ qs | some ts ↦ schedule_state p now ts qs ]

-- `qs.tasks[ts.t.Name] = ts`, and the timer of its lifetime. The caller has made the task state; the
-- heap takes it in.
unfoldable pub register : Settings → Time → TaskState → QueueState → QueueState
unfolding after_func effective_task_ttl
register s now ts qs =
    let p = length qs.heap in
    after_func now (effective_task_ttl s qs) (expires p) (record qs {
      heap = qs.heap ++ record ts { ttl_timer = some qs.next_timer } ∷ [];
      tasks = insert ts.t.name p qs.tasks;
    })

unfoldable pub add_task : Settings → Time → TaskState → QueueState → QueueState
unfolding register schedule
add_task s now ts qs = schedule (length qs.heap) now (register s now ts qs)

unfoldable pub tombstone_locked : Settings → Bytes → Time → QueueState → QueueState
unfolding effective_tombstone_ttl after_func
tombstone_locked s name now qs =
    let ttl = effective_tombstone_ttl s qs in
    if ltb_ℤ ttl (pos 0)
    then qs
    else after_func now ttl (clears name)
        (record qs { tombstones = insert name (now + pos_part ttl) qs.tombstones })

-- The function that the tombstone's timer runs.
unfoldable pub clear_tombstone : Bytes → Time → QueueState → QueueState
clear_tombstone name now qs = elim (lookup name qs.tombstones) [
  | none ↦ qs
  | some exp ↦ if ltb now exp then qs else record qs { tombstones = delete name qs.tombstones }
]

-- A name is free again from the expiry on.
abbrev pub reserved_until : Option Time → Time → Bool
reserved_until none now = false
reserved_until (some exp) now = ltb now exp

unfoldable pub tombstoned : Bytes → Time → QueueState → Bool
tombstoned name now qs = reserved_until (lookup name qs.tombstones) now
