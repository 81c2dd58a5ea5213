-- ===== src/Core/Queue/Frames.antt =====
-- The operations of core/queue.go leave the queue resource alone, but for its purge time.
use cloud_tasks_emulator.Base.{
  ℕ, ◌≡◌, refl, ap, ◌∙◌, ◌==◌, ◌∷◌, [], get_elem?, length, arith, Bool-cases, Option-cases, inl,
  inr,
}
use cloud_tasks_emulator.Base.Bytes.{Bytes}
use cloud_tasks_emulator.Base.Dict.{Dict}
use cloud_tasks_emulator.Core.Types.{Time, Attempt, Queue}
use cloud_tasks_emulator.Core.Retry.{Machine, should_retry}
use cloud_tasks_emulator.Core.Queue.{
  Settings, TaskState, QueueState, arm_fire, schedule, schedule_state, after_func, register,
  add_task, tombstone_locked, clear_tombstone,
}
use cloud_tasks_emulator.Core.Queue.Removal.{
  retire, unlink, remove_state, remove_locked, expire, purge_one, each_task, purge,
}
use cloud_tasks_emulator.Core.Queue.Attempts.{
  Outcome, Clock, fire, fire_state, AttemptSnapshot, snapshot_attempt, finish_attempt,
  apply_attempt, attempt,
}
use cloud_tasks_emulator.Core.Queue.Outcomes.{
  apply_attempt_absent, apply_attempt_removed, apply_attempt_live,
}

pub schedule-q : (p : ℕ) (now : Time) (qs : QueueState) → (schedule p now qs).q ≡ qs.q
unfolding schedule schedule_state arm_fire
schedule-q p now qs = ground arith

pub add_task-q :
    (s : Settings) (now : Time) (ts : TaskState) (qs : QueueState) → (add_task s now ts qs).q ≡ qs.q
unfolding add_task register after_func
add_task-q s now ts qs = schedule-q (length qs.heap) now (register s now ts qs)

pub tombstone_locked-q :
    (s : Settings) (name : Bytes) (now : Time) (qs : QueueState)
    → (tombstone_locked s name now qs).q ≡ qs.q
unfolding tombstone_locked after_func
tombstone_locked-q s name now qs = ground arith

pub remove_locked-q :
    (s : Settings) (p : ℕ) (now : Time) (qs : QueueState) → (remove_locked s p now qs).q ≡ qs.q
unfolding remove_locked remove_state unlink retire
remove_locked-q s p now qs = elim (Option-cases (get_elem? qs.heap p)) [
  | inl e ↦ rw (e, remove_locked) refl
  | inr (ts, e) ↦ rw (e, remove_locked) (tombstone_locked-q s ts.t.name now _)
]

finish_attempt-q :
    (s : Settings) (mach : Machine) (p : ℕ) (now : Time) (o : Outcome) (ts : TaskState)
    (qs : QueueState)
    → (finish_attempt s mach p now o ts qs).q ≡ qs.q
unfolding finish_attempt
finish_attempt-q s mach p now o ts qs = elim (Bool-cases (o.rpc_code == 0)) [
  | inl done ↦ rw done (remove_locked-q s p now _)
  | inr failed ↦
      elim (Bool-cases
        (should_retry qs.q.retry_config ts.t.dispatch_count ts.first_attempt_time now)) [
          | inl again ↦ rw (failed, again) (schedule-q p now _)
          | inr over ↦ rw (failed, over) (remove_locked-q s p now _)
        ]
]

pub apply_attempt-q :
    (s : Settings) (mach : Machine) (p : ℕ) (att : Attempt) (sent : Time) (o : Outcome) (now : Time)
    (qs : QueueState)
    → (apply_attempt s mach p att sent o now qs).q ≡ qs.q
apply_attempt-q s mach p att sent o now qs = elim (Option-cases (get_elem? qs.heap p)) [
  | inl e ↦ rw (apply_attempt_absent s mach p att sent o now qs e) refl
  | inr (ts, e) ↦ elim (Bool-cases ts.removed) [
    | inl gone ↦ rw (apply_attempt_removed s mach p att sent o now qs ts e gone) refl
    | inr live ↦
        rw (apply_attempt_live s mach p att sent o now qs ts e live)
          (finish_attempt-q s mach p now o _ qs)
  ]
]

pub attempt-q :
    (s : Settings) (mach : Machine) (dispatch : AttemptSnapshot → Outcome) (p : ℕ) (clock : Clock)
    (qs : QueueState)
    → (attempt s mach dispatch p clock qs).q ≡ qs.q
unfolding attempt
attempt-q s mach dispatch p clock qs = elim (Option-cases (snapshot_attempt p qs)) [
  | inl e ↦ rw (e, attempt) refl
  | inr (snap, e) ↦ rw (e, attempt) (apply_attempt-q s mach p _ clock.sent _ clock.applied qs)
]

pub purge_one-q :
    (s : Settings) (now : Time) (p : ℕ) (qs : QueueState) → (purge_one s now p qs).q ≡ qs.q
unfolding purge_one retire
purge_one-q s now p qs = elim (Option-cases (get_elem? qs.heap p)) [
  | inl e ↦ rw (e, purge_one) refl
  | inr (ts, e) ↦ rw (e, purge_one) (tombstone_locked-q s ts.t.name now _)
]

pub each_task-q :
    (f : ℕ → QueueState → QueueState) (m : Dict ℕ) (qs : QueueState)
    → ((p : ℕ) (us : QueueState) → (f p us).q ≡ us.q)
    → (each_task f m qs).q ≡ qs.q
unfolding each_task
each_task-q f [] qs h = refl
each_task-q f ((name, p) ∷ m) qs h = each_task-q f m (f p qs) h ∙ h p qs

pub purge-q :
    (s : Settings) (now : Time) (qs : QueueState)
    → (purge s now qs).q ≡ record (qs.q) { purge_time = now }
unfolding purge
purge-q s now qs =
    ap {A = Queue} {B = Queue} (λ q. record q { purge_time = now })
      (each_task-q (purge_one s now) qs.tasks qs (purge_one-q s now))

pub fire-q : (p : ℕ) (now : Time) (qs : QueueState) → (fire p now qs).0.q ≡ qs.q
unfolding fire fire_state
fire-q p now qs = ground arith

pub expire-q : (s : Settings) (p : ℕ) (now : Time) (qs : QueueState) → (expire s p now qs).q ≡ qs.q
unfolding expire remove_state unlink retire
expire-q s p now qs = elim (Option-cases (get_elem? qs.heap p)) [
  | inl e ↦ rw (e, expire) refl
  | inr (ts, e) ↦ elim (Bool-cases ts.removed) [
    | inl gone ↦ rw (e, expire) (simp gone)
    | inr live ↦ rw (e, expire) (simp live (tombstone_locked-q s ts.t.name now _))
  ]
]

pub clear_tombstone-q :
    (name : Bytes) (now : Time) (qs : QueueState) → (clear_tombstone name now qs).q ≡ qs.q
unfolding clear_tombstone
clear_tombstone-q name now qs = ground arith
