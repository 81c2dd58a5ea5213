-- ===== src/Core/Queue/Gates.antt =====
-- The operations of core/queue.go leave the semaphores and the limiter alone: only rebuildLimits makes
-- new ones.
use cloud_tasks_emulator.Base.{
  ℕ, List, ◌≡◌, refl, ◌∙◌, ◌==◌, ◌∷◌, [], get_elem?, length, arith, Bool-cases, Option-cases, inl,
  inr,
}
use cloud_tasks_emulator.Base.Bytes.{Bytes}
use cloud_tasks_emulator.Base.Dict.{Dict}
use cloud_tasks_emulator.Core.Types.{Time, Attempt}
use cloud_tasks_emulator.Core.Retry.{Machine, should_retry}
use cloud_tasks_emulator.Core.Queue.{
  Settings, TaskState, QueueState, Semaphore, Limiter, arm_fire, schedule, schedule_state,
  after_func, register, add_task, tombstone_locked, clear_tombstone,
}
use cloud_tasks_emulator.Core.Queue.Removal.{
  retire, unlink, remove_state, remove_locked, expire, purge_one, each_task, purge, stop_one, stop,
}
use cloud_tasks_emulator.Core.Queue.Attempts.{
  Outcome, Clock, fire, fire_state, AttemptSnapshot, snapshot_attempt, finish_attempt,
  apply_attempt, attempt,
}
use cloud_tasks_emulator.Core.Queue.Outcomes.{
  apply_attempt_absent, apply_attempt_removed, apply_attempt_live,
}

-- The semaphores, which of them is the current one, and the limiter.
unfoldable pub gates_of : QueueState → List Semaphore × ℕ × Limiter
gates_of qs = (qs.semaphores, qs.concurrency, qs.limiter)

-- A write to a task state.
heap-gates_of :
    (qs : QueueState) (h : List TaskState) → gates_of (record qs { heap = h }) ≡ gates_of qs
unfolding gates_of
heap-gates_of qs h = refl

unlink-gates_of :
    (p : ℕ) (ts : TaskState) (qs : QueueState) → gates_of (unlink p ts qs) ≡ gates_of qs
unfolding unlink retire gates_of
unlink-gates_of p ts qs = refl

retire-gates_of :
    (p : ℕ) (ts : TaskState) (qs : QueueState) → gates_of (retire p ts qs) ≡ gates_of qs
unfolding retire gates_of
retire-gates_of p ts qs = refl

pub schedule-gates_of :
    (p : ℕ) (now : Time) (qs : QueueState) → gates_of (schedule p now qs) ≡ gates_of qs
unfolding schedule schedule_state arm_fire gates_of
schedule-gates_of p now qs = ground arith

pub add_task-gates_of :
    (s : Settings) (now : Time) (ts : TaskState) (qs : QueueState)
    → gates_of (add_task s now ts qs) ≡ gates_of qs
unfolding add_task
add_task-gates_of s now ts qs =
    schedule-gates_of (length qs.heap) now (register s now ts qs) ∙ registered
  where
    registered : gates_of (register s now ts qs) ≡ gates_of qs
    registered = unfold register after_func gates_of in refl

pub tombstone_locked-gates_of :
    (s : Settings) (name : Bytes) (now : Time) (qs : QueueState)
    → gates_of (tombstone_locked s name now qs) ≡ gates_of qs
unfolding tombstone_locked after_func gates_of
tombstone_locked-gates_of s name now qs = ground arith

pub remove_locked-gates_of :
    (s : Settings) (p : ℕ) (now : Time) (qs : QueueState)
    → gates_of (remove_locked s p now qs) ≡ gates_of qs
unfolding remove_locked remove_state
remove_locked-gates_of s p now qs = elim (Option-cases (get_elem? qs.heap p)) [
  | inl e ↦ rw (e, remove_locked) refl
  | inr (ts, e) ↦
      rw (e, remove_locked)
        (tombstone_locked-gates_of s ts.t.name now (unlink p ts qs) ∙ unlink-gates_of p ts qs)
]

finish_attempt-gates_of :
    (s : Settings) (mach : Machine) (p : ℕ) (now : Time) (o : Outcome) (ts : TaskState)
    (qs : QueueState)
    → gates_of (finish_attempt s mach p now o ts qs) ≡ gates_of qs
unfolding finish_attempt
finish_attempt-gates_of s mach p now o ts qs = elim (Bool-cases (o.rpc_code == 0)) [
  | inl done ↦ rw done (remove_locked-gates_of s p now _ ∙ heap-gates_of qs _)
  | inr failed ↦
      elim (Bool-cases
        (should_retry qs.q.retry_config ts.t.dispatch_count ts.first_attempt_time now)) [
          | inl again ↦ rw (failed, again) (schedule-gates_of p now _ ∙ heap-gates_of qs _)
          | inr over ↦ rw (failed, over) (remove_locked-gates_of s p now _ ∙ heap-gates_of qs _)
        ]
]

pub apply_attempt-gates_of :
    (s : Settings) (mach : Machine) (p : ℕ) (att : Attempt) (sent : Time) (o : Outcome) (now : Time)
    (qs : QueueState)
    → gates_of (apply_attempt s mach p att sent o now qs) ≡ gates_of qs
apply_attempt-gates_of s mach p att sent o now qs = elim (Option-cases (get_elem? qs.heap p)) [
  | inl e ↦ rw (apply_attempt_absent s mach p att sent o now qs e) refl
  | inr (ts, e) ↦ elim (Bool-cases ts.removed) [
    | inl gone ↦ rw (apply_attempt_removed s mach p att sent o now qs ts e gone) refl
    | inr live ↦
        rw (apply_attempt_live s mach p att sent o now qs ts e live)
          (finish_attempt-gates_of s mach p now o _ qs)
  ]
]

pub attempt-gates_of :
    (s : Settings) (mach : Machine) (dispatch : AttemptSnapshot → Outcome) (p : ℕ) (clock : Clock)
    (qs : QueueState)
    → gates_of (attempt s mach dispatch p clock qs) ≡ gates_of qs
unfolding attempt
attempt-gates_of s mach dispatch p clock qs = elim (Option-cases (snapshot_attempt p qs)) [
  | inl e ↦ rw (e, attempt) refl
  | inr (snap, e) ↦
      rw (e, attempt) (apply_attempt-gates_of s mach p _ clock.sent _ clock.applied qs)
]

purge_one-gates_of :
    (s : Settings) (now : Time) (p : ℕ) (qs : QueueState)
    → gates_of (purge_one s now p qs) ≡ gates_of qs
unfolding purge_one
purge_one-gates_of s now p qs = elim (Option-cases (get_elem? qs.heap p)) [
  | inl e ↦ rw (e, purge_one) refl
  | inr (ts, e) ↦
      rw (e, purge_one)
        (tombstone_locked-gates_of s ts.t.name now (retire p ts qs) ∙ retire-gates_of p ts qs)
]

each_task-gates_of :
    (f : ℕ → QueueState → QueueState) (m : Dict ℕ) (qs : QueueState)
    → ((p : ℕ) (us : QueueState) → gates_of (f p us) ≡ gates_of us)
    → gates_of (each_task f m qs) ≡ gates_of qs
unfolding each_task
each_task-gates_of f [] qs h = refl
each_task-gates_of f ((name, p) ∷ m) qs h = each_task-gates_of f m (f p qs) h ∙ h p qs

pub purge-gates_of :
    (s : Settings) (now : Time) (qs : QueueState) → gates_of (purge s now qs) ≡ gates_of qs
unfolding purge
purge-gates_of s now qs =
    tail ∙ each_task-gates_of (purge_one s now) qs.tasks qs (purge_one-gates_of s now)
  where
    tail : gates_of (purge s now qs) ≡ gates_of (each_task (purge_one s now) qs.tasks qs)
    tail = unfold gates_of in refl

pub fire-gates_of :
    (p : ℕ) (now : Time) (qs : QueueState) → gates_of (fire p now qs).0 ≡ gates_of qs
unfolding fire fire_state gates_of
fire-gates_of p now qs = ground arith

pub expire-gates_of :
    (s : Settings) (p : ℕ) (now : Time) (qs : QueueState)
    → gates_of (expire s p now qs) ≡ gates_of qs
unfolding expire remove_state
expire-gates_of s p now qs = elim (Option-cases (get_elem? qs.heap p)) [
  | inl e ↦ rw (e, expire) refl
  | inr (ts, e) ↦ elim (Bool-cases ts.removed) [
    | inl gone ↦ rw (e, expire) (simp gone)
    | inr live ↦
        rw (e, expire)
          (simp live
            (tombstone_locked-gates_of s ts.t.name now (unlink p ts qs) ∙ unlink-gates_of p ts qs))
  ]
]

pub clear_tombstone-gates_of :
    (name : Bytes) (now : Time) (qs : QueueState)
    → gates_of (clear_tombstone name now qs) ≡ gates_of qs
unfolding clear_tombstone gates_of
clear_tombstone-gates_of name now qs = ground arith

stop_one-gates_of : (p : ℕ) (qs : QueueState) → gates_of (stop_one p qs) ≡ gates_of qs
unfolding stop_one
stop_one-gates_of p qs = elim (Option-cases (get_elem? qs.heap p)) [
  | inl e ↦ rw (e, stop_one) refl
  | inr (ts, e) ↦ rw (e, stop_one) (retire-gates_of p ts qs)
]

pub stop-gates_of : (qs : QueueState) → gates_of (stop qs) ≡ gates_of qs
unfolding stop
stop-gates_of qs = tail ∙ each_task-gates_of stop_one qs.tasks qs stop_one-gates_of
  where
    tail : gates_of (stop qs) ≡ gates_of (each_task stop_one qs.tasks qs)
    tail = unfold gates_of in refl
