-- ===== src/Core/Book/Turns.antt =====
-- What each step of a queue of core/queue.go at work is for the book that it shows.
use cloud_tasks_emulator.Base.{
  ℕ, ◌≡◌, Bool, true, false, not, ◌||◌, Option, none, some, List, is_some, if◌then◌else◌, ltb, ◌==◌,
  get_elem?,
}
use cloud_tasks_emulator.Base.Int.{pos, int32, ◌+ℤ◌}
use cloud_tasks_emulator.Base.Bytes.{Bytes, bytes_eq}
use cloud_tasks_emulator.Core.Types.{Time, Task}
use cloud_tasks_emulator.Core.Retry.{Machine, should_retry}
use cloud_tasks_emulator.Core.Queue.{
  Settings, TaskState, QueueState, Action, fires, expires, clears,
}
use cloud_tasks_emulator.Core.Queue.Attempts.{Outcome}
use cloud_tasks_emulator.Core.Runtime.{
  Passes, Runtime, Step, goes_off, admits, begins, delivers, runs_task, calls, Reach, here, next,
}
use cloud_tasks_emulator.Core.Book.{Book, perform, enter, strike}

-- The task state that a pointer leads to, if it is not removed.
abbrev pub live_at : ℕ → List TaskState → Option TaskState
live_at p heap = elim (get_elem? heap p) [
  | none ↦ none
  | some ts ↦ if ts.removed then none else some ts
]

-- A task that was tried once more: its attempt is counted, and its times have changed.
pub record Tried (t u : Task) : Type 0 where
  pub name : u.name ≡ t.name
  pub target : u.target ≡ t.target
  pub created : u.create_time ≡ t.create_time
  pub deadline : u.dispatch_deadline ≡ t.dispatch_deadline
  pub counted : u.dispatch_count ≡ int32 (t.dispatch_count +ℤ pos 1)

-- The task is done, or its policy gives it no further attempt after this one.
abbrev pub is_over : QueueState → TaskState → Time → Outcome → Time → Bool
is_over qs ts sent o now =
    o.rpc_code == 0
    || not (
        should_retry qs.q.retry_config (int32 (ts.t.dispatch_count +ℤ pos 1))
          (if not (is_some ts.t.first_attempt) then sent else ts.first_attempt_time) now)

abbrev pub Decided : Settings → Task → Time → Bool → Book → Book → Type 0
Decided s t now true b c = c ≡ strike s t.name now b
Decided s t now false b c = (u : Task) × Tried t u × (c ≡ enter u b)

-- An outcome strikes a task that is over, and moves another one on. A task that has left stays away.
abbrev pub OutcomeTurn :
    Settings → QueueState → Time → Outcome → Time → Option TaskState → Book → Book → Type 0
OutcomeTurn s qs sent o now none b c = c ≡ b
OutcomeTurn s qs sent o now (some ts) b c = Decided s ts.t now (is_over qs ts sent o now) b c

abbrev pub struck : Settings → Time → Option TaskState → Book → Book
struck s now none b = b
struck s now (some ts) b = strike s ts.t.name now b

-- A reservation that is over; an earlier timer finds one that was renewed.
abbrev pub released : Bytes → Time → Option Time → Book → Book
released name now none b = b
released name now (some expiry) b =
    if ltb now expiry
    then b
    else record b { reserved = λ n. if bytes_eq name n then none else b.reserved n }

-- A timer that fires a task changes nothing yet, one that ends its lifetime strikes it, and one that
-- frees a name does so when its time is over.
abbrev pub ActionTurn : Settings → Action → Time → List TaskState → Book → Book → Type 0
ActionTurn s (fires p) now heap b c = c ≡ b
ActionTurn s (expires p) now heap b c = c ≡ struck s now (live_at p heap) b
ActionTurn s (clears name) now heap b c = c ≡ released name now (b.reserved name) b

-- RunTask makes its task due at once.
abbrev pub RunTurn : Bytes → Time → Book → Book → Type 0
RunTurn name now b c =
    (t : Task) × (b.tasks name ≡ some t) × (c ≡ enter (record t { schedule_time = now }) b)

module _ {s : Settings} {mach : Machine} {passes : Passes} where
  -- The book after a step: a call does what it promises.
  abbrev pub StepTurn : {rt us : Runtime} → Step s mach passes rt us → Book → Book → Type 0
  StepTurn (goes_off rt i t now at due) b c = ActionTurn s t.action now rt.qs.heap b c
  StepTurn (admits rt i w x now at found free let_in) b c = c ≡ b
  StepTurn (begins rt i f now at idle) b c = c ≡ b
  StepTurn (delivers rt i f snap sent o received now at sending) b c =
      OutcomeTurn s rt.qs sent o now (live_at f.task rt.qs.heap) b c
  StepTurn (runs_task rt name now begun h) b c = RunTurn name now b c
  StepTurn (calls rt call) b c = c ≡ perform s call b

  -- The books that go with the steps of a history, one after the other.
  abbrev pub Follows : {rt us : Runtime} → Reach s mach passes rt us → Book → Book → Type 0
  Follows here b c = c ≡ b
  Follows (next r st) b d = (c : Book) × Follows r b c × StepTurn st c d
