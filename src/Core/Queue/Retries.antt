-- ===== src/Core/Queue/Retries.antt =====
-- The retry of a task after a failed attempt, in core/queue.go.
use cloud_tasks_emulator.Base.{
  ℕ, ◌≡◌, refl, true, false, some, ◌∷◌, ltb, ◌==◌, if◌then◌else◌, get_elem?, arith,
}
use cloud_tasks_emulator.Base.Int.{pos, int32, ◌+ℤ◌}
use cloud_tasks_emulator.Core.Types.{Time, Attempt}
use cloud_tasks_emulator.Core.Retry.{Machine, backoff, should_retry}
use cloud_tasks_emulator.Core.Queue.{
  Settings, TaskState, QueueState, fires, modify, is_pull, schedule, schedule_state, arm_fire,
}
use cloud_tasks_emulator.Core.Queue.Heap.{get_elem?-modify}
use cloud_tasks_emulator.Core.Queue.Attempts.{
  Outcome, retry_reason, record_attempt, add_time, finish_attempt, apply_attempt,
}
use cloud_tasks_emulator.Core.Queue.Outcomes.{apply_attempt_live}
use cloud_tasks_emulator.Core.Queue.Delivery.{is_final}

-- A task that is scheduled again: its state is `x` with the new timer, which fires it at the time
-- that the state has, or at once if that is past; nothing else of the queue changes.
pub record Rescheduled (p : ℕ) (now : Time) (x : TaskState) (qs us : QueueState) : Type 0 where
  pub heap :
      (q : ℕ)
      → get_elem? us.heap q
        ≡ (if p == q then some (record x { timer = some qs.next_timer }) else get_elem? qs.heap q)
  pub timers :
      us.timers
      ≡ record {
        id = qs.next_timer;
        due = if ltb x.t.schedule_time now then now else x.t.schedule_time;
        action = fires p;
      }
        ∷ qs.timers
  pub tasks : us.tasks ≡ qs.tasks
  pub tombstones : us.tombstones ≡ qs.tombstones

schedule-Rescheduled :
    (p : ℕ) (now : Time) (ts x : TaskState) (qs : QueueState)
    → get_elem? qs.heap p ≡ some ts
    → x.removed ≡ false
    → qs.q.pull ≡ false
    → is_pull x.t.target.type ≡ false
    → Rescheduled p now x qs (schedule p now (record qs { heap = modify qs.heap p (λ _. x) }))
unfolding schedule schedule_state arm_fire
schedule-Rescheduled p now ts x qs at live push target =
    let once : (q : ℕ)
        → get_elem? (modify qs.heap p (λ _. x)) q
          ≡ (if p == q then some x else get_elem? qs.heap q) =
      λ q. get_elem?-modify qs.heap p q (λ _. x) ts at in
    let here : get_elem? (modify qs.heap p (λ _. x)) p ≡ some x = ground (arith, once p) in
    let twice : (q : ℕ) → _ = λ q.
      get_elem?-modify (modify qs.heap p (λ _. x)) p q
        (λ y. record y { timer = some qs.next_timer }) x here in
    rw (here, schedule, live, push, target)
      (record {
        heap = λ q. ground (arith, once q, twice q);
        timers = refl;
        tasks = refl;
        tombstones = refl;
      })

-- The state of a task after a failed attempt that is followed by another: the counters and the times
-- that `applyAttempt` has recorded, the reason, and the schedule time after the backoff.
unfoldable pub retried : Machine → QueueState → TaskState → Outcome → Time → TaskState
retried mach qs us o now = record us {
  last_retry_reason = retry_reason o.http_code o.message;
  t = record us.t {
    schedule_time = add_time now (backoff mach qs.q.retry_config us.t.dispatch_count);
  };
}

finish_attempt-Rescheduled :
    (s : Settings) (mach : Machine) (p : ℕ) (now : Time) (o : Outcome) (ts us : TaskState)
    (qs : QueueState)
    → get_elem? qs.heap p ≡ some ts
    → us.removed ≡ false
    → qs.q.pull ≡ false
    → is_pull us.t.target.type ≡ false
    → is_final qs us o now ≡ false
    → Rescheduled p now (retried mach qs us o now) qs (finish_attempt s mach p now o us qs)
unfolding finish_attempt retried
finish_attempt-Rescheduled s mach p now o ts us qs at live push target more =
    let failed : (o.rpc_code == 0) ≡ false = ground arith in
    let again : should_retry qs.q.retry_config us.t.dispatch_count us.first_attempt_time now
        ≡ true =
      ground arith in
    rw (failed, again)
      (schedule-Rescheduled p now ts (unfold retried in retried mach qs us o now) qs at live push
        target)

-- The outcome of an attempt at a task that is not removed, of a push queue, when the rpc code is
-- not OK and the retry policy allows another attempt: the dispatch count is one more, as an int32,
-- the task is due after the backoff for that count, a timer is armed for then, or for now if that is
-- past, and the names, the reserved names and every other task are as they were.
pub apply_attempt-Rescheduled :
    (s : Settings) (mach : Machine) (p : ℕ) (att : Attempt) (sent : Time) (o : Outcome) (now : Time)
    (ts : TaskState) (qs : QueueState)
    → get_elem? qs.heap p ≡ some ts
    → ts.removed ≡ false
    → qs.q.pull ≡ false
    → is_pull ts.t.target.type ≡ false
    → is_final qs (record_attempt ts att sent o) o now ≡ false
    → Rescheduled p now
        (retried mach qs (record_attempt ts att sent o) o now)
        qs
        (apply_attempt s mach p att sent o now qs)
      × ((retried mach qs (record_attempt ts att sent o) o now).t.dispatch_count
          ≡ int32 (ts.t.dispatch_count +ℤ pos 1))
      × ((retried mach qs (record_attempt ts att sent o) o now).t.schedule_time
          ≡ add_time now (backoff mach qs.q.retry_config (int32 (ts.t.dispatch_count +ℤ pos 1))))
unfolding retried record_attempt
apply_attempt-Rescheduled s mach p att sent o now ts qs at live push target more = (
  rw (apply_attempt_live s mach p att sent o now qs ts at live) (
      finish_attempt-Rescheduled s mach p now o ts (record_attempt ts att sent o) qs at live push
        target more),
  refl,
  refl,
)
