-- ===== src/Core/Queue/Sweep.antt =====
-- The two loops over all tasks of core/queue.go, purge and stop, keep the invariant.
use cloud_tasks_emulator.Base.{
  ℕ, ◌<◌, ◌≡◌, refl, none, some, [], ◌∷◌, ◌==◌, if◌then◌else◌, length, get_elem?, arith, Bool-cases,
  Option-cases, ◌⊎◌, inl, inr,
}
use cloud_tasks_emulator.Base.Int.{ltb_ℤ, pos}
use cloud_tasks_emulator.Base.Bytes.{Bytes, bytes_eq}
use cloud_tasks_emulator.Base.Dict.{Dict, lookup}
use cloud_tasks_emulator.Core.Types.{Time}
use cloud_tasks_emulator.Core.Queue.{
  Settings, TaskState, QueueState, after_func, effective_tombstone_ttl, tombstone_locked,
}
use cloud_tasks_emulator.Core.Queue.Heap.{get_elem?-modify}
use cloud_tasks_emulator.Core.Queue.Removal.{
  mark_removed, retire, purge_one, purge, each_task, stop_one, stop,
}
use cloud_tasks_emulator.Core.Queue.Links.{live_name, Linked}
use cloud_tasks_emulator.Core.Queue.Valid.{Below, Below-suc, Below-stop_timer, IsValid}

abbrev HasPointer : Dict ℕ → ℕ → Type 0
HasPointer [] p = ⊥
HasPointer ((name, q) ∷ m) p = (q ≡ p) ⊎ HasPointer m p

HasPointer-lookup : (name : Bytes) (m : Dict ℕ) (p : ℕ) → lookup name m ≡ some p → HasPointer m p
unfolding lookup
HasPointer-lookup name [] p h = cc
HasPointer-lookup name ((j, q) ∷ m) p h = elim (Bool-cases (bytes_eq j name)) [
  | inl e ↦ inl (ground arith)
  | inr e ↦ inr (HasPointer-lookup name m p (ground arith))
]

-- The part of the invariant that a loop over the tasks keeps at every round.
record Frame (qs : QueueState) : Type 0 where
  numbered : Below qs.next_timer qs.timers
  gate : qs.concurrency < length qs.semaphores

-- A round removes the task at its pointer, and no other.
record Removes (f : ℕ → QueueState → QueueState) : Type 0 where
  live :
      (p q : ℕ) (qs : QueueState)
      → live_name (f p qs).heap q ≡ (if p == q then none else live_name qs.heap q)
  frame : (p : ℕ) (qs : QueueState) → Frame qs → Frame (f p qs)

module _ (f : ℕ → QueueState → QueueState) (r : Removes f) where
  each_task-Frame : (m : Dict ℕ) (qs : QueueState) → Frame qs → Frame (each_task f m qs)
  unfolding each_task
  each_task-Frame [] qs h = h
  each_task-Frame ((name, p) ∷ m) qs h = each_task-Frame m (f p qs) (r.frame p qs h)

  each_task-dead :
      (m : Dict ℕ) (qs : QueueState) (p : ℕ)
      → (live_name qs.heap p ≡ none) ⊎ HasPointer m p
      → live_name (each_task f m qs).heap p ≡ none
  unfolding each_task
  each_task-dead [] qs p (inl h) = h
  each_task-dead [] qs p (inr h) = absurd h
  each_task-dead ((name, q) ∷ m) qs p (inl h) =
      each_task-dead m (f q qs) p (inl (ground (arith, r.live q p qs)))
  each_task-dead ((name, q) ∷ m) qs p (inr (inl e)) =
      each_task-dead m (f q qs) p (inl (ground (arith, r.live q p qs)))
  each_task-dead ((name, q) ∷ m) qs p (inr (inr h)) = each_task-dead m (f q qs) p (inr h)

  -- With every task of the map removed, the empty map fits the heap.
  each_task-Linked :
      (qs : QueueState) → Linked qs.tasks qs.heap → Linked [] (each_task f qs.tasks qs).heap
  unfolding lookup
  each_task-Linked qs w = record {
    points = λ name p h. cc;
    pointed = λ name p h. elim (Option-cases (live_name qs.heap p)) [
      | inl e ↦ cc (each_task-dead qs.tasks qs p (inl e))
      | inr (n, e) ↦
          cc (each_task-dead qs.tasks qs p (inr (HasPointer-lookup n qs.tasks p (w.pointed n p e))))
    ];
  }

heap-tombstone_locked :
    (s : Settings) (name : Bytes) (now : Time) (qs : QueueState)
    → (tombstone_locked s name now qs).heap ≡ qs.heap
unfolding tombstone_locked after_func
heap-tombstone_locked s name now qs =
    elim (Bool-cases (ltb_ℤ (effective_tombstone_ttl s qs) (pos 0))) [
      | inl e ↦ rw e refl
      | inr e ↦ rw e refl
    ]

Frame-tombstone_locked :
    (s : Settings) (name : Bytes) (now : Time) (qs : QueueState)
    → Frame qs
    → Frame (tombstone_locked s name now qs)
unfolding tombstone_locked after_func
Frame-tombstone_locked s name now qs v =
    elim (Bool-cases (ltb_ℤ (effective_tombstone_ttl s qs) (pos 0))) [
      | inl e ↦ rw e v
      | inr e ↦ rw e (record {
        numbered = (omega arith, Below-suc qs.next_timer qs.timers v.numbered);
        gate = v.gate;
      })
    ]

retire-live :
    (p q : ℕ) (ts : TaskState) (qs : QueueState)
    → get_elem? qs.heap p ≡ some ts
    → live_name (retire p ts qs).heap q ≡ (if p == q then none else live_name qs.heap q)
unfolding retire
retire-live p q ts qs at = ground (arith, get_elem?-modify qs.heap p q mark_removed ts at)

Frame-retire : (p : ℕ) (ts : TaskState) (qs : QueueState) → Frame qs → Frame (retire p ts qs)
unfolding retire
Frame-retire p ts qs v = record {
  numbered =
      Below-stop_timer qs.next_timer ts.ttl_timer _
        (Below-stop_timer qs.next_timer ts.timer qs.timers v.numbered);
  gate = v.gate;
}

stop_one-Removes : Removes stop_one
unfolding stop_one
stop_one-Removes = record {
  live = λ p q qs. elim (Option-cases (get_elem? qs.heap p)) [
    | inl e ↦ rw (e, stop_one) (ground arith)
    | inr (ts, e) ↦ rw (e, stop_one) (retire-live p q ts qs e)
  ];
  frame = λ p qs v. elim (Option-cases (get_elem? qs.heap p)) [
    | inl e ↦ rw (e, stop_one) v
    | inr (ts, e) ↦ rw (e, stop_one) (Frame-retire p ts qs v)
  ];
}

purge_one-Removes : (s : Settings) (now : Time) → Removes (purge_one s now)
unfolding purge_one
purge_one-Removes s now = record {
  live = λ p q qs. elim (Option-cases (get_elem? qs.heap p)) [
    | inl e ↦ rw (e, purge_one) (ground arith)
    | inr (ts, e) ↦
        rw (e, purge_one, heap-tombstone_locked s ts.t.name now (retire p ts qs))
          (retire-live p q ts qs e)
  ];
  frame = λ p qs v. elim (Option-cases (get_elem? qs.heap p)) [
    | inl e ↦ rw (e, purge_one) v
    | inr (ts, e) ↦
        rw (e, purge_one) (Frame-tombstone_locked s ts.t.name now _ (Frame-retire p ts qs v))
  ];
}

pub purge-IsValid :
    (s : Settings) (now : Time) (qs : QueueState) → IsValid qs → IsValid (purge s now qs)
unfolding purge
purge-IsValid s now qs v =
    let frame =
      each_task-Frame (purge_one s now) (purge_one-Removes s now) qs.tasks qs
        (record { numbered = v.numbered; gate = v.gate }) in
    record {
      links = each_task-Linked (purge_one s now) (purge_one-Removes s now) qs v.links;
      numbered = frame.numbered;
      gate = frame.gate;
    }

pub stop-IsValid : (qs : QueueState) → IsValid qs → IsValid (stop qs)
unfolding stop
stop-IsValid qs v =
    let frame =
      each_task-Frame stop_one stop_one-Removes qs.tasks qs
        (record { numbered = v.numbered; gate = v.gate }) in
    record {
      links = each_task-Linked stop_one stop_one-Removes qs v.links;
      numbered = frame.numbered;
      gate = frame.gate;
    }
