-- ===== src/Core/Runtime.antt =====
-- A queue of core/queue.go at work: the goroutines that its timers and RunTask start, between their
-- lockings of the queue. `fire` leaves the lock, waits for the limiter and for a place in the
-- semaphore, sends with no lock held, applies the outcome, and gives the place back; meanwhile calls
-- and other timers act on the queue. When a limiter lets a goroutine pass is golang.org/x/time/rate's
-- and an argument; a goroutine is admitted at such a time, when a place is free.
pub mod Valid
pub mod Gated
pub mod Calls
pub mod Kept
pub mod Drain
use cloud_tasks_emulator.Base.{
  ℕ, zero, suc, ◌+◌, ◌-◌, ◌<◌, ◌≤◌, ◌≡◌, Bool, true, false, Option, none, some, List, [], ◌∷◌, ◌++◌,
  get_elem?, set, ◌==◌, if◌then◌else◌,
}
use cloud_tasks_emulator.Base.Bytes.{Bytes}
use cloud_tasks_emulator.Core.Status.{ok, err}
use cloud_tasks_emulator.Core.Types.{Time, State, Queue, Task}
use cloud_tasks_emulator.Core.Retry.{Machine}
use cloud_tasks_emulator.Core.Queue.{
  Settings, QueueState, Limiter, Semaphore, Timer, Action, fires, expires, clears, modify,
  stop_timer, clear_tombstone,
}
use cloud_tasks_emulator.Core.Queue.Removal.{remove_locked, expire, purge, stop}
use cloud_tasks_emulator.Core.Queue.Attempts.{
  Fired, dropped, held, proceeds, fire, AttemptSnapshot, snapshot_attempt, attempt_of, Outcome,
  apply_attempt,
}
use cloud_tasks_emulator.Core.Engine.{QueueField}
use cloud_tasks_emulator.Core.Engine.Queues.{update_state}
use cloud_tasks_emulator.Core.Engine.Tasks.{
  next_task_id, insert_task, or_keep, find_task, begin_run,
}

-- A goroutine that waits to be admitted, with the limiter and the semaphore that it read under the lock.
pub record Waiter : Type 0 where
  pub task : ℕ
  pub gate : ℕ
  pub limiter : Limiter

-- A goroutine in `attempt`, with the place that it holds: RunTask holds none. Once it has its
-- snapshot it is sending, from the time on that it has read.
pub record Flight : Type 0 where
  pub task : ℕ
  pub gate : Option ℕ
  pub sending : Option (AttemptSnapshot × Time)

pub record Runtime : Type 0 where
  pub qs : QueueState
  pub waiting : List Waiter
  pub inside : List Flight

unfoldable pub remove_at {ℓ} : {A : Type ℓ} → List A → ℕ → List A
remove_at [] i = []
remove_at (x ∷ xs) zero = xs
remove_at (x ∷ xs) (suc i) = x ∷ remove_at xs i

-- What a call of the engine does to the queue under the lock.
pub data Call : Type 0 where
  inserts : Task → Time → Call
  takes_id : Time → Call
  deletes : Bytes → Time → Call
  purges : Time → Call
  stops : Call
  sets_state : State → Call
  updates : Queue → List QueueField → Call

unfoldable pub operate : Settings → Call → QueueState → QueueState
operate s (inserts t now) qs = or_keep (insert_task s now t qs) qs
operate s (takes_id now) qs = (next_task_id now qs).0
operate s (deletes name now) qs = elim (find_task name qs) [
  | err x ↦ qs
  | ok found ↦ remove_locked s found.0 now qs
]
operate s (purges now) qs = purge s now qs
operate s stops qs = stop qs
operate s (sets_state st) qs = record qs { q = record qs.q { state = st } }
operate s (updates q fields) qs = update_state q fields qs

-- The goroutine goes on to wait if `fire` says so.
unfoldable pub fired : ℕ → QueueState × Fired → Runtime → Runtime
fired p (qs, dropped) rt = record rt { qs = qs }
fired p (qs, held) rt = record rt { qs = qs }
fired p (qs, proceeds l g) rt = record rt {
  qs = qs;
  waiting = rt.waiting ++ record { task = p; gate = g; limiter = l } ∷ [];
}

unfoldable pub run_action : Settings → Action → Time → Runtime → Runtime
unfolding fired
run_action s (fires p) now rt = fired p (fire p now rt.qs) rt
run_action s (expires p) now rt = record rt { qs = expire s p now rt.qs }
run_action s (clears name) now rt = record rt { qs = clear_tombstone name now rt.qs }

-- A timer that goes off is no longer armed.
unfoldable pub go_off : Settings → Timer → Time → Runtime → Runtime
unfolding run_action
go_off s t now rt =
    run_action s t.action now
      (record rt { qs = record rt.qs { timers = stop_timer (some t.id) rt.qs.timers } })

-- `concurrency <- struct{}{}`.
unfoldable pub acquire : ℕ → QueueState → QueueState
unfolding modify
acquire g qs = record qs {
  semaphores = modify qs.semaphores g (λ x. record x { held = x.held + 1 });
}

-- `<-concurrency`, for a goroutine that holds a place.
unfoldable pub release : Option ℕ → QueueState → QueueState
unfolding modify
release none qs = qs
release (some g) qs = record qs {
  semaphores = modify qs.semaphores g (λ x. record x { held = x.held - 1 });
}

unfoldable pub admit : ℕ → Waiter → Runtime → Runtime
unfolding acquire
admit i w rt = record rt {
  qs = acquire w.gate rt.qs;
  waiting = remove_at rt.waiting i;
  inside = rt.inside ++ record { task = w.task; gate = some w.gate; sending = none } ∷ [];
}

-- The end of a goroutine.
unfoldable pub leave : ℕ → Flight → Runtime → Runtime
unfolding release
leave i f rt = record rt { qs = release f.gate rt.qs; inside = remove_at rt.inside i }

-- The first half of `attempt`: the snapshot, or nothing to do.
unfoldable pub begin : ℕ → Flight → Time → Runtime → Runtime
unfolding leave
begin i f now rt = elim (snapshot_attempt f.task rt.qs) [
  | none ↦ leave i f rt
  | some snap ↦ record rt { inside = set rt.inside i (record f { sending = some (snap, now) }) }
]

-- The second half: the outcome is in and is applied.
unfoldable pub deliver :
    Settings
    → Machine
    → ℕ
    → Flight
    → AttemptSnapshot
    → Time
    → Outcome
    → Time
    → Time
    → Runtime
    → Runtime
unfolding leave
deliver s mach i f snap sent o received now rt = leave i f (record rt {
  qs = apply_attempt s mach f.task (attempt_of snap sent received o) sent o now rt.qs;
})

-- RunTask sends on its own goroutine, past the limiter and the semaphore.
unfoldable pub start_run : ℕ × QueueState → Runtime → Runtime
start_run (p, qs) rt = record rt {
  qs = qs;
  inside = rt.inside ++ record { task = p; gate = none; sending = none } ∷ [];
}

-- golang.org/x/time/rate: whether a limiter lets a goroutine, by its place among those that wait, pass at
-- a time.
abbrev pub Passes : Type 0
Passes = Runtime → ℕ → Time → Bool

module _ (s : Settings) (mach : Machine) (passes : Passes) where
  -- One step of one of the goroutines, of a timer or of a caller.
  pub data Step : Runtime → Runtime → Type 0 where
    goes_off :
        (rt : Runtime) (i : ℕ) (t : Timer) (now : Time)
        → get_elem? rt.qs.timers i ≡ some t
        → t.due ≤ now
        → Step rt (go_off s t now rt)
    admits :
        (rt : Runtime) (i : ℕ) (w : Waiter) (x : Semaphore) (now : Time)
        → get_elem? rt.waiting i ≡ some w
        → get_elem? rt.qs.semaphores w.gate ≡ some x
        → x.held < x.capacity
        → passes rt i now ≡ true
        → Step rt (admit i w rt)
    begins :
        (rt : Runtime) (i : ℕ) (f : Flight) (now : Time)
        → get_elem? rt.inside i ≡ some f
        → f.sending ≡ none
        → Step rt (begin i f now rt)
    delivers :
        (rt : Runtime) (i : ℕ) (f : Flight) (snap : AttemptSnapshot) (sent : Time) (o : Outcome)
        (received now : Time)
        → get_elem? rt.inside i ≡ some f
        → f.sending ≡ some (snap, sent)
        → Step rt (deliver s mach i f snap sent o received now rt)
    runs_task :
        (rt : Runtime) (name : Bytes) (now : Time) (begun : ℕ × QueueState)
        → begin_run name now rt.qs ≡ ok begun
        → Step rt (start_run begun rt)
    calls : (rt : Runtime) (c : Call) → Step rt (record rt { qs = operate s c rt.qs })

  pub data Reach (rt : Runtime) : Runtime → Type 0 where
    here : Reach rt rt
    next : {us vs : Runtime} → Reach rt us → Step us vs → Reach rt vs
