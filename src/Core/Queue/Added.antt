-- ===== src/Core/Queue/Added.antt =====
-- What adding a task does to a queue state of core/queue.go.
use cloud_tasks_emulator.Base.{
  ℕ, ◌≡◌, refl, ◌||◌, some, get_elem?, length, arith, Bool-cases, inl, inr,
}
use cloud_tasks_emulator.Base.Dict.{insert}
use cloud_tasks_emulator.Core.Types.{Time}
use cloud_tasks_emulator.Core.Queue.{
  QueueState, TaskState, Settings, is_pull, schedule, schedule_state, arm_fire, register,
  after_func, add_task,
}
use cloud_tasks_emulator.Core.Queue.Heap.{get_elem?-modify, get_elem?-append_one}

-- Scheduling changes a timer, not a task.
schedule-task :
    (p : ℕ) (now : Time) (qs : QueueState) (ts : TaskState)
    → get_elem? qs.heap p ≡ some ts
    → ((schedule p now qs).tasks ≡ qs.tasks)
      × ((x : TaskState) × (get_elem? (schedule p now qs).heap p ≡ some x) × (x.t ≡ ts.t))
unfolding schedule schedule_state arm_fire
schedule-task p now qs ts at =
    elim (Bool-cases (ts.removed || qs.q.pull || is_pull ts.t.target.type)) [
      | inl idle ↦ rw (at, schedule, idle) (refl, (ts, at, refl))
      | inr armed ↦
          rw (at, schedule, armed)
            (
              refl,
              (
                record ts { timer = some qs.next_timer },
                ground (
                  arith,
                  get_elem?-modify qs.heap p p (λ x. record x { timer = some qs.next_timer }) ts at,
                ),
                refl,
              ),
            )
    ]

-- The task has a new pointer, which its name leads to.
pub add_task_lem :
    (s : Settings) (now : Time) (ts : TaskState) (qs : QueueState)
    → ((add_task s now ts qs).tasks ≡ insert ts.t.name (length qs.heap) qs.tasks)
      × ((x : TaskState) × (get_elem? (add_task s now ts qs).heap (length qs.heap) ≡ some x)
          × (x.t ≡ ts.t))
unfolding add_task register after_func
add_task_lem s now ts qs =
    let p = length qs.heap in
    let held = record ts { ttl_timer = some qs.next_timer } in
    schedule-task p now (register s now ts qs) held
      (ground (arith, get_elem?-append_one qs.heap held p))
