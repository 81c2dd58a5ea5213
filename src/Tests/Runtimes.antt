-- ===== src/Tests/Runtimes.antt =====
-- A queue at work: a task comes in, its timer goes off, its goroutine is admitted and sends.
use cloud_tasks_emulator.Base.{◌≡◌, refl, true, arith, none, some, [], All}
use cloud_tasks_emulator.Base.Dict.{lookup, insert, has, delete}
use cloud_tasks_emulator.Base.Bytes.{bytes_eq}
use cloud_tasks_emulator.Core.Float.{ltb_float}
use cloud_tasks_emulator.Core.Types.{Queue}
use cloud_tasks_emulator.Core.Status.{◌>>=◌}
use cloud_tasks_emulator.Core.Limits.{compute_burst_size, apply_queue_defaults}
use cloud_tasks_emulator.Core.Queue.{
  Limiter, Timer, fires, modify, stop_timer, new_queue_state, rebuild_limits, add_task, register,
  schedule, arm_fire, after_func, tombstoned, tombstone_locked, effective_task_ttl,
  effective_tombstone_ttl,
}
use cloud_tasks_emulator.Core.Queue.Attempts.{fire, fire_state, snapshot_attempt}
use cloud_tasks_emulator.Core.Engine.Queues.{queue_named}
use cloud_tasks_emulator.Core.Engine.Tasks.{insert_task}
use cloud_tasks_emulator.Core.Runtime.{
  Passes, Runtime, Waiter, Flight, inserts, operate, fired, run_action, go_off, acquire, admit,
  remove_at, begin, Reach, here, next, calls, goes_off, admits, begins,
}
use cloud_tasks_emulator.Core.Runtime.Valid.{RuntimeIsValid}
use cloud_tasks_emulator.Core.Runtime.Drain.{idle, Reach-RuntimeIsValid-idle, Reach-drains}
use cloud_tasks_emulator.Core.Book.{Book, new_book}
use cloud_tasks_emulator.Core.Book.Turns.{Follows}
use cloud_tasks_emulator.Core.Book.Shows.{Shows}
use cloud_tasks_emulator.Core.Book.Reached.{Reach-Shows}
use cloud_tasks_emulator.Tests.Engines.{amd64, queue_1, today, new_task}
use cloud_tasks_emulator.Tests.Queues.{day_settings}

abbrev narrow : Queue
narrow = apply_queue_defaults (queue_named queue_1)

abbrev entered : Runtime
entered = record (idle narrow) {
  qs = operate day_settings (inserts new_task today) (idle narrow).qs;
}

abbrev first_timer : Timer
first_timer = record { id = 1; due = today; action = fires 0 }

abbrev pub off : Runtime
off = go_off day_settings first_timer today entered

abbrev narrow_limiter : Limiter
narrow_limiter = (new_queue_state narrow).limiter

-- A limiter that lets pass whom it is asked for.
abbrev at_once : Passes
at_once rt i now = true

abbrev first : Waiter
first = record { task = 0; gate = 0; limiter = narrow_limiter }

abbrev admitted : Runtime
admitted = admit 0 first off

abbrev entrant : Flight
entrant = record { task = 0; gate = some 0; sending = none }

-- The goroutine is sending.
abbrev busy : Runtime
busy = begin 0 entrant today admitted

off-Reach : Reach day_settings amd64 at_once (idle narrow) off
unfolding operate insert_task ◌>>=◌ fired run_action go_off acquire admit remove_at begin
    new_queue_state rebuild_limits add_task register schedule arm_fire after_func tombstoned
    tombstone_locked effective_task_ttl effective_tombstone_ttl modify stop_timer fire fire_state
    snapshot_attempt compute_burst_size apply_queue_defaults insert lookup has delete bytes_eq
off-Reach =
    next (next here (calls (idle narrow) (inserts new_task today)))
      (goes_off entered 0 first_timer today refl (omega arith))

busy-Reach : Reach day_settings amd64 at_once (idle narrow) busy
unfolding operate insert_task ◌>>=◌ fired run_action go_off acquire admit remove_at begin
    new_queue_state rebuild_limits add_task register schedule arm_fire after_func tombstoned
    tombstone_locked effective_task_ttl effective_tombstone_ttl modify stop_timer fire fire_state
    snapshot_attempt compute_burst_size apply_queue_defaults insert lookup has delete bytes_eq
busy-Reach =
    next
      (next off-Reach (
        admits off 0 first (record { capacity = 1000; held = 0 }) today refl refl (omega arith)
          refl))
      (begins admitted 0 entrant today refl refl)

Reach-RuntimeIsValid-idle_example : RuntimeIsValid busy
Reach-RuntimeIsValid-idle_example =
    Reach-RuntimeIsValid-idle day_settings amd64 at_once narrow busy busy-Reach

Reach-drains_example :
    (us : Runtime) × Reach day_settings amd64 at_once off us
    × (us.waiting ≡ [])
    × (us.inside ≡ [])
    × All (λ x. x.held ≡ 0) us.qs.semaphores
unfolding operate insert_task ◌>>=◌ fired run_action go_off acquire admit remove_at begin
    new_queue_state rebuild_limits add_task register schedule arm_fire after_func tombstoned
    tombstone_locked effective_task_ttl effective_tombstone_ttl modify stop_timer fire fire_state
    snapshot_attempt compute_burst_size apply_queue_defaults insert lookup has delete bytes_eq
    ltb_float
Reach-drains_example =
    Reach-drains day_settings amd64 at_once narrow off (λ us i w e h. (today, refl)) off-Reach
      (refl, tt)

Reach-Shows_example : (b : Book) × Follows busy-Reach (new_book narrow) b × Shows busy.qs b
Reach-Shows_example = Reach-Shows day_settings amd64 at_once narrow busy busy-Reach
