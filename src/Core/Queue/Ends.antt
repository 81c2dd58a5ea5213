-- ===== src/Core/Queue/Ends.antt =====
-- How the retries of a task of core/queue.go come to an end.
use cloud_tasks_emulator.Base.{
  ℕ, ◌+◌, ◌<◌, ◌≤◌, ◌^◌, ◌≡◌, ap, ◌∙◌, true, false, none, some, List, [], ◌∷◌, ltb, get_elem?,
  length, arith, Bool-cases, inl, inr, subst, ◌⊎◌,
}
use cloud_tasks_emulator.Base.Int.{ℤ, pos, int32, ◌+ℤ◌}
use cloud_tasks_emulator.Base.Bytes.{Bytes, bytes_eq_iff}
use cloud_tasks_emulator.Base.Dict.{lookup}
use cloud_tasks_emulator.Core.Types.{Time, Attempt, RetryConfig, Queue}
use cloud_tasks_emulator.Core.Retry.{Machine, should_retry}
use cloud_tasks_emulator.Core.Queue.{Settings, TaskState, QueueState, is_pull}
use cloud_tasks_emulator.Core.Queue.Attempts.{Outcome, record_attempt, apply_attempt}
use cloud_tasks_emulator.Core.Queue.Outcomes.{apply_attempt_removed}
use cloud_tasks_emulator.Core.Queue.Frames.{apply_attempt-q}
use cloud_tasks_emulator.Core.Queue.Delivery.{Removed, is_final, apply_attempt-Removed}
use cloud_tasks_emulator.Core.Queue.Retries.{retried, apply_attempt-Rescheduled}

-- What one call of `attempt` hands to `applyAttempt`, and when.
pub record Sent : Type 0 where
  pub record_of : Attempt
  pub sent : Time
  pub outcome : Outcome
  pub now : Time

module _ (s : Settings) (mach : Machine) (p : ℕ) where
  -- The outcomes of a task's attempts, applied one after the other.
  unfoldable pub apply_all : List Sent → QueueState → QueueState
  apply_all [] qs = qs
  apply_all (d ∷ ds) qs =
      apply_all ds (apply_attempt s mach p d.record_of d.sent d.outcome d.now qs)

-- The task is marked as removed and its name leads nowhere.
pub record Ended (p : ℕ) (name : Bytes) (qs : QueueState) : Type 0 where
  pub marked : (x : TaskState) × (get_elem? qs.heap p ≡ some x) × (x.removed ≡ true)
  pub unnamed : lookup name qs.tasks ≡ none

apply_all_gone :
    (s : Settings) (mach : Machine) (p : ℕ) (name : Bytes) (ds : List Sent) (qs : QueueState)
    → Ended p name qs
    → Ended p name (apply_all s mach p ds qs)
unfolding apply_all
apply_all_gone s mach p name [] qs e = e
apply_all_gone s mach p name (d ∷ ds) qs e =
    let (x, at, gone) = e.marked in
    rw (apply_attempt_removed s mach p d.record_of d.sent d.outcome d.now qs x at gone)
      (apply_all_gone s mach p name ds qs e)

Removed-Ended :
    (s : Settings) (p : ℕ) (now : Time) (name : Bytes) (qs us : QueueState)
    → Removed s p now name qs us
    → Ended p name us
Removed-Ended s p now name qs us r =
    let (x, gone, heap) = r.heap in
    record {
      marked = (x, ground (arith, heap p), gone);
      unnamed = ground (arith, r.tasks name, bytes_eq_iff name name);
    }

-- With no limit on the time, the number of attempts alone decides.
should_retry-count :
    (rc : RetryConfig) (n c : ℕ) (first now : Time)
    → rc.max_attempts ≡ pos n
    → rc.max_retry_duration ≡ pos 0
    → should_retry rc (pos c) first now ≡ ltb c n
unfolding should_retry
should_retry-count rc n c first now ha hd = rw (ha, hd) (ground arith)

-- A task that is neither done nor removed, after `c` attempts, in a push queue whose policy allows `n`
-- attempts and sets no limit on the time.
pub record Trying (p : ℕ) (name : Bytes) (n c : ℕ) (qs : QueueState) : Type 0 where
  pub task :
      (ts : TaskState) × (get_elem? qs.heap p ≡ some ts)
      × ((ts.removed ≡ false) × (is_pull ts.t.target.type ≡ false))
      × ((ts.t.name ≡ name) × (ts.t.dispatch_count ≡ pos c))
  pub push : qs.q.pull ≡ false
  pub attempts : qs.q.retry_config.max_attempts ≡ pos n
  pub untimed : qs.q.retry_config.max_retry_duration ≡ pos 0

int32-next : (c : ℕ) → c + 1 < 2 ^ 31 → int32 (pos c +ℤ pos 1) ≡ pos (c + 1)
unfolding int32 ◌+ℤ◌
int32-next c fits = ground arith

-- One more attempt: the task is done with, or it has had fewer attempts than are allowed.
apply_attempt-Trying :
    (s : Settings) (mach : Machine) (p : ℕ) (name : Bytes) (n c : ℕ) (d : Sent) (qs : QueueState)
    → c + 1 < 2 ^ 31
    → Trying p name n c qs
    → Ended p name (apply_attempt s mach p d.record_of d.sent d.outcome d.now qs)
      ⊎ ((c + 1 < n)
          × Trying p name n (c + 1) (apply_attempt s mach p d.record_of d.sent d.outcome d.now qs))
unfolding record_attempt retried
apply_attempt-Trying s mach p name n c d qs fits w =
    let (ts, at, (live, target), (named, counted)) = w.task in
    let us : QueueState = apply_attempt s mach p d.record_of d.sent d.outcome d.now qs in
    let next : int32 (ts.t.dispatch_count +ℤ pos 1) ≡ pos (c + 1) =
      ap (λ (i : ℤ). int32 (i +ℤ pos 1)) counted ∙ int32-next c fits in
    let rs = record_attempt ts d.record_of d.sent d.outcome in
    let again : should_retry qs.q.retry_config rs.t.dispatch_count rs.first_attempt_time d.now
        ≡ ltb (c + 1) n =
      ap (λ (i : ℤ). should_retry qs.q.retry_config i rs.first_attempt_time d.now) next
      ∙ should_retry-count qs.q.retry_config n (c + 1) rs.first_attempt_time d.now w.attempts
          w.untimed in
    elim (Bool-cases (is_final qs rs d.outcome d.now)) [
      | inl final ↦ inl (
          subst (λ x. Ended p x us) named
            (Removed-Ended s p d.now ts.t.name qs us (
              apply_attempt-Removed s mach p d.record_of d.sent d.outcome d.now ts qs at live
                final)))
      | inr more ↦
          let (r, counts, due) =
            apply_attempt-Rescheduled s mach p d.record_of d.sent d.outcome d.now ts qs at live
              w.push target more in
          let same : us.q ≡ qs.q = apply_attempt-q s mach p d.record_of d.sent d.outcome d.now qs in
          inr (
            ground (arith, again, more),
            record {
              task = (
                record (retried mach qs rs d.outcome d.now) { timer = some qs.next_timer },
                ground (arith, r.heap p),
                (live, target),
                (named, next),
              );
              push = ap (λ (q : Queue). q.pull) same ∙ w.push;
              attempts = ap (λ (q : Queue). q.retry_config.max_attempts) same ∙ w.attempts;
              untimed = ap (λ (q : Queue). q.retry_config.max_retry_duration) same ∙ w.untimed;
            },
          )
    ]

-- A task of a push queue that has had `c` of the `n` attempts that the policy allows, with no limit on
-- the time, is done with after `n - c` further outcomes at most, whatever they are and whenever they
-- come: it is marked as removed and its name is out of the map.
pub apply_all-Ended :
    (s : Settings) (mach : Machine) (p : ℕ) (name : Bytes) (n c : ℕ) (ds : List Sent)
    (qs : QueueState)
    → Trying p name n c qs
    → c < n
    → n < 2 ^ 31
    → n ≤ c + length ds
    → Ended p name (apply_all s mach p ds qs)
unfolding apply_all
apply_all-Ended s mach p name n c [] qs w lt fits enough = absurd (omega arith)
apply_all-Ended s mach p name n c (d ∷ ds) qs w lt fits enough =
    let us : QueueState = apply_attempt s mach p d.record_of d.sent d.outcome d.now qs in
    elim (apply_attempt-Trying s mach p name n c d qs (omega arith) w) [
      | inl e ↦ apply_all_gone s mach p name ds us e
      | inr (more, w') ↦ apply_all-Ended s mach p name n (c + 1) ds us w' more fits (omega arith)
    ]
