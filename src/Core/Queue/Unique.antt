-- ===== src/Core/Queue/Unique.antt =====
-- The map of tasks of core/queue.go has no name twice, whatever is done to the queue.
use cloud_tasks_emulator.Base.{
  ℕ, ◌≡◌, inl, inr, get_elem?, length, ◌==◌, arith, Bool-cases, Option-cases,
}
use cloud_tasks_emulator.Base.Bytes.{Bytes}
use cloud_tasks_emulator.Base.Dict.{Unique, delete, insert-Unique, delete-Unique}
use cloud_tasks_emulator.Core.Types.{Time, Attempt}
use cloud_tasks_emulator.Core.Retry.{Machine, should_retry}
use cloud_tasks_emulator.Core.Queue.{
  Settings, TaskState, QueueState, schedule, schedule_state, arm_fire, after_func, add_task,
  tombstone_locked, clear_tombstone,
}
use cloud_tasks_emulator.Core.Queue.Removal.{retire, unlink, remove_state, remove_locked, expire}
use cloud_tasks_emulator.Core.Queue.Attempts.{
  Outcome, fire, fire_state, finish_attempt, apply_attempt,
}
use cloud_tasks_emulator.Core.Queue.Outcomes.{
  apply_attempt_absent, apply_attempt_removed, apply_attempt_live,
}
use cloud_tasks_emulator.Core.Queue.Added.{add_task_lem}

pub tasks-schedule : (p : ℕ) (now : Time) (qs : QueueState) → (schedule p now qs).tasks ≡ qs.tasks
unfolding schedule schedule_state arm_fire
tasks-schedule p now qs = ground arith

pub tasks-tombstone_locked :
    (s : Settings) (name : Bytes) (now : Time) (qs : QueueState)
    → (tombstone_locked s name now qs).tasks ≡ qs.tasks
unfolding tombstone_locked after_func
tasks-tombstone_locked s name now qs = ground arith

tasks-remove_state :
    (s : Settings) (p : ℕ) (now : Time) (ts : TaskState) (qs : QueueState)
    → (remove_state s p now ts qs).tasks ≡ delete ts.t.name qs.tasks
unfolding remove_state unlink retire
tasks-remove_state s p now ts qs = tasks-tombstone_locked s ts.t.name now (unlink p ts qs)

pub remove_locked-Unique :
    (s : Settings) (p : ℕ) (now : Time) (qs : QueueState)
    → Unique qs.tasks
    → Unique (remove_locked s p now qs).tasks
unfolding remove_locked
remove_locked-Unique s p now qs u = elim (Option-cases (get_elem? qs.heap p)) [
  | inl e ↦ rw (e, remove_locked) u
  | inr (ts, e) ↦
      rw (e, remove_locked, tasks-remove_state s p now ts qs) (delete-Unique ts.t.name qs.tasks u)
]

pub expire-Unique :
    (s : Settings) (p : ℕ) (now : Time) (qs : QueueState)
    → Unique qs.tasks
    → Unique (expire s p now qs).tasks
unfolding expire
expire-Unique s p now qs u = elim (Option-cases (get_elem? qs.heap p)) [
  | inl e ↦ rw (e, expire) u
  | inr (ts, e) ↦ elim (Bool-cases ts.removed) [
    | inl gone ↦ rw (e, expire, gone) u
    | inr live ↦
        rw (e, expire, live, tasks-remove_state s p now ts qs) (delete-Unique ts.t.name qs.tasks u)
  ]
]

pub add_task-Unique :
    (s : Settings) (now : Time) (ts : TaskState) (qs : QueueState)
    → Unique qs.tasks
    → Unique (add_task s now ts qs).tasks
add_task-Unique s now ts qs u =
    rw (add_task_lem s now ts qs).0 (insert-Unique ts.t.name (length qs.heap) qs.tasks u)

finish_attempt-Unique :
    (s : Settings) (mach : Machine) (p : ℕ) (now : Time) (o : Outcome) (ts : TaskState)
    (qs : QueueState)
    → Unique qs.tasks
    → Unique (finish_attempt s mach p now o ts qs).tasks
unfolding finish_attempt
finish_attempt-Unique s mach p now o ts qs u = elim (Bool-cases (o.rpc_code == 0)) [
  | inl done ↦ rw done (remove_locked-Unique s p now _ u)
  | inr failed ↦
      elim (Bool-cases
        (should_retry qs.q.retry_config ts.t.dispatch_count ts.first_attempt_time now)) [
          | inl again ↦ rw (failed, again, tasks-schedule p now _) u
          | inr over ↦ rw (failed, over) (remove_locked-Unique s p now _ u)
        ]
]

pub apply_attempt-Unique :
    (s : Settings) (mach : Machine) (p : ℕ) (att : Attempt) (sent : Time) (o : Outcome) (now : Time)
    (qs : QueueState)
    → Unique qs.tasks
    → Unique (apply_attempt s mach p att sent o now qs).tasks
apply_attempt-Unique s mach p att sent o now qs u = elim (Option-cases (get_elem? qs.heap p)) [
  | inl e ↦ rw (apply_attempt_absent s mach p att sent o now qs e) u
  | inr (ts, e) ↦ elim (Bool-cases ts.removed) [
    | inl gone ↦ rw (apply_attempt_removed s mach p att sent o now qs ts e gone) u
    | inr live ↦
        rw (apply_attempt_live s mach p att sent o now qs ts e live)
          (finish_attempt-Unique s mach p now o _ qs u)
  ]
]

pub tasks-fire : (p : ℕ) (now : Time) (qs : QueueState) → (fire p now qs).0.tasks ≡ qs.tasks
unfolding fire fire_state
tasks-fire p now qs = ground arith

pub tasks-clear_tombstone :
    (name : Bytes) (now : Time) (qs : QueueState) → (clear_tombstone name now qs).tasks ≡ qs.tasks
unfolding clear_tombstone
tasks-clear_tombstone name now qs = ground arith
