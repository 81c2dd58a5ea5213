-- ===== src/Core/Queue/Delivery.antt =====
-- What the outcome of a delivery attempt does to a task and to its queue, in core/queue.go.
use cloud_tasks_emulator.Base.{
  ℕ, ◌+◌, ◌≡◌, refl, subst, Bool, true, false, not, ◌&&◌, ◌||◌, none, some, ◌==◌, if◌then◌else◌,
  get_elem?, arith, Bool-cases, inl, inr,
}
use cloud_tasks_emulator.Base.Int.{ltb_ℤ, pos, pos_part}
use cloud_tasks_emulator.Base.Bytes.{Bytes, bytes_eq}
use cloud_tasks_emulator.Base.Dict.{lookup, lookup-insert, lookup-delete}
use cloud_tasks_emulator.Core.Types.{Time, Attempt}
use cloud_tasks_emulator.Core.Retry.{Machine, should_retry}
use cloud_tasks_emulator.Core.Queue.{
  Settings, TaskState, QueueState, modify, after_func, effective_tombstone_ttl, tombstone_locked,
}
use cloud_tasks_emulator.Core.Queue.Heap.{get_elem?-modify}
use cloud_tasks_emulator.Core.Queue.Removal.{
  mark_removed, retire, unlink, remove_state, remove_locked,
}
use cloud_tasks_emulator.Core.Queue.Attempts.{
  Outcome, retry_reason, record_attempt, finish_attempt, apply_attempt,
}
use cloud_tasks_emulator.Core.Queue.Outcomes.{apply_attempt_live}

-- The name is reserved from the removal to its expiry.
abbrev pub reserves : Settings → QueueState → Bool
reserves s qs = not (ltb_ℤ (effective_tombstone_ttl s qs) (pos 0))

module _ (s : Settings) (p : ℕ) (now : Time) (ts : TaskState) (qs : QueueState) where
  remove_state-tasks :
      (n : Bytes)
      → lookup n (remove_state s p now ts qs).tasks
        ≡ (if bytes_eq ts.t.name n then none else lookup n qs.tasks)
  unfolding remove_state unlink retire tombstone_locked after_func
  remove_state-tasks n =
      elim (Bool-cases (ltb_ℤ (effective_tombstone_ttl s (unlink p ts qs)) (pos 0))) [
        | inl e ↦ rw (e, lookup-delete ts.t.name n qs.tasks) refl
        | inr e ↦ rw (e, lookup-delete ts.t.name n qs.tasks) refl
      ]

  remove_state-tombstones :
      (n : Bytes)
      → lookup n (remove_state s p now ts qs).tombstones ≡ (
          if bytes_eq ts.t.name n && reserves s qs
          then some (now + pos_part (effective_tombstone_ttl s qs))
          else lookup n qs.tombstones)
  unfolding remove_state unlink retire tombstone_locked after_func effective_tombstone_ttl
  remove_state-tombstones n = elim (Bool-cases (ltb_ℤ (effective_tombstone_ttl s qs) (pos 0))) [
    | inl e ↦ rw e (ground arith)
    | inr e ↦ rw (e, lookup-insert ts.t.name n _ qs.tombstones) (ground arith)
  ]

  remove_state-heap :
      (q : ℕ)
      → get_elem? qs.heap p ≡ some ts
      → get_elem? (remove_state s p now ts qs).heap q
        ≡ (if p == q then some (mark_removed ts) else get_elem? qs.heap q)
  unfolding remove_state unlink retire tombstone_locked after_func
  remove_state-heap q at =
      elim (Bool-cases (ltb_ℤ (effective_tombstone_ttl s (unlink p ts qs)) (pos 0))) [
        | inl e ↦ rw (e, get_elem?-modify qs.heap p q mark_removed ts at) refl
        | inr e ↦ rw (e, get_elem?-modify qs.heap p q mark_removed ts at) refl
      ]

-- The state that a task is left in by its removal: its name is gone and may be reserved, its state
-- is marked, and whatever has another name or pointer is as it was.
pub record Removed (s : Settings) (p : ℕ) (now : Time) (name : Bytes) (qs us : QueueState)
    : Type 0 where
  pub tasks :
      (n : Bytes) → lookup n us.tasks ≡ (if bytes_eq name n then none else lookup n qs.tasks)
  pub tombstones :
      (n : Bytes)
      → lookup n us.tombstones ≡ (
          if bytes_eq name n && reserves s qs
          then some (now + pos_part (effective_tombstone_ttl s qs))
          else lookup n qs.tombstones)
  pub heap :
      (x : TaskState) × (x.removed ≡ true)
      × ((q : ℕ) → get_elem? us.heap q ≡ (if p == q then some x else get_elem? qs.heap q))

-- What `removeLocked` does to a task whose pointer stands in the heap.
pub remove_locked-Removed :
    (s : Settings) (p : ℕ) (now : Time) (ts : TaskState) (qs : QueueState)
    → get_elem? qs.heap p ≡ some ts
    → Removed s p now ts.t.name qs (remove_locked s p now qs)
unfolding remove_locked
remove_locked-Removed s p now ts qs at =
    rw (at, remove_locked)
      (record {
        tasks = remove_state-tasks s p now ts qs;
        tombstones = remove_state-tombstones s p now ts qs;
        heap = (mark_removed ts, refl, λ q. remove_state-heap s p now ts qs q at);
      })

-- Writing over the state first, under the same name, makes no difference.
Removed-written :
    (s : Settings) (p : ℕ) (now : Time) (ts us : TaskState) (qs : QueueState)
    → get_elem? qs.heap p ≡ some ts
    → us.t.name ≡ ts.t.name
    → Removed s p now ts.t.name qs
        (remove_locked s p now (record qs { heap = modify qs.heap p (λ _. us) }))
unfolding effective_tombstone_ttl
Removed-written s p now ts us qs at named =
    let written : (q : ℕ)
        → get_elem? (modify qs.heap p (λ _. us)) q
          ≡ (if p == q then some us else get_elem? qs.heap q) =
      λ q. get_elem?-modify qs.heap p q (λ _. us) ts at in
    let ws : QueueState = record qs { heap = modify qs.heap p (λ _. us) } in
    let r =
      subst (λ name. Removed s p now name ws (remove_locked s p now ws)) named
        (remove_locked-Removed s p now us ws (ground (arith, written p))) in
    record {
      tasks = r.tasks;
      tombstones = r.tombstones;
      heap = (r.heap.0, r.heap.1, λ q. ground (arith, r.heap.2 q, written q));
    }

-- The task is not scheduled again.
abbrev pub is_final : QueueState → TaskState → Outcome → Time → Bool
is_final qs us o now =
    o.rpc_code == 0
    || not (should_retry qs.q.retry_config us.t.dispatch_count us.first_attempt_time now)

finish_attempt-Removed :
    (s : Settings) (mach : Machine) (p : ℕ) (now : Time) (o : Outcome) (ts us : TaskState)
    (qs : QueueState)
    → get_elem? qs.heap p ≡ some ts
    → us.t.name ≡ ts.t.name
    → is_final qs us o now ≡ true
    → Removed s p now ts.t.name qs (finish_attempt s mach p now o us qs)
unfolding finish_attempt
finish_attempt-Removed s mach p now o ts us qs at named final =
    elim (Bool-cases (o.rpc_code == 0)) [
      | inl done ↦ rw done (Removed-written s p now ts us qs at named)
      | inr failed ↦
          let over : should_retry qs.q.retry_config us.t.dispatch_count us.first_attempt_time now
              ≡ false =
            ground arith in
          rw (failed, over)
            (Removed-written s p now ts
              (record us { last_retry_reason = retry_reason o.http_code o.message }) qs at named)
    ]

-- The outcome of an attempt at a task that is not removed, when the rpc code is OK or the retry
-- policy, read after the counters are moved on, allows no further attempt: the task leaves the map
-- and is marked as removed, its name is reserved for the tombstone TTL if that is not negative, and
-- every other name and pointer is as it was.
pub apply_attempt-Removed :
    (s : Settings) (mach : Machine) (p : ℕ) (att : Attempt) (sent : Time) (o : Outcome) (now : Time)
    (ts : TaskState) (qs : QueueState)
    → get_elem? qs.heap p ≡ some ts
    → ts.removed ≡ false
    → is_final qs (record_attempt ts att sent o) o now ≡ true
    → Removed s p now ts.t.name qs (apply_attempt s mach p att sent o now qs)
apply_attempt-Removed s mach p att sent o now ts qs at live final =
    rw (apply_attempt_live s mach p att sent o now qs ts at live) (
      finish_attempt-Removed s mach p now o ts (record_attempt ts att sent o) qs at
        (unfold record_attempt in refl) final)
