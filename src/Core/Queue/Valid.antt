-- ===== src/Core/Queue/Valid.antt =====
-- The invariant of a queue state of core/queue.go, and the operations that keep it.
use cloud_tasks_emulator.Base.{
  ℕ, suc, ◌<◌, ◌≡◌, refl, false, Option, none, some, List, [], ◌∷◌, ◌==◌, length, length-append,
  get_elem?, All, arith, Bool-cases, Option-cases, inl, inr, ltb,
}
use cloud_tasks_emulator.Base.Int.{ltb_ℤ, pos}
use cloud_tasks_emulator.Base.Bytes.{Bytes}
use cloud_tasks_emulator.Base.Dict.{lookup}
use cloud_tasks_emulator.Core.Types.{Time, Duration, Queue}
use cloud_tasks_emulator.Core.Queue.{
  Settings, TaskState, Timer, QueueState, Action, rebuild_limits, blank_state, new_queue_state,
  after_func, stop_timer, schedule, arm_fire, schedule_state, register, add_task,
  effective_tombstone_ttl, tombstone_locked, clear_tombstone,
}
use cloud_tasks_emulator.Core.Queue.Removal.{
  mark_removed, unlink, remove_state, remove_locked, expire,
}
use cloud_tasks_emulator.Core.Queue.Links.{
  Linked, Linked-empty, Linked-modify, Linked-remove, Linked-add,
}

abbrev pub Below : ℕ → List Timer → Type 0
Below n = All (λ t. t.id < n)

-- The map and the heap agree, the armed timers have numbers that were given out, and the current
-- semaphore exists.
pub record IsValid (qs : QueueState) : Type 0 where
  pub links : Linked qs.tasks qs.heap
  pub numbered : Below qs.next_timer qs.timers
  pub gate : qs.concurrency < length qs.semaphores

pub Below-suc : (n : ℕ) (ts : List Timer) → Below n ts → Below (suc n) ts
Below-suc n [] h = tt
Below-suc n (t ∷ ts) h = (omega arith, Below-suc n ts h.1)

pub Below-stop_timer :
    (n : ℕ) (o : Option ℕ) (ts : List Timer) → Below n ts → Below n (stop_timer o ts)
unfolding stop_timer
Below-stop_timer n none ts h = h
Below-stop_timer n (some i) [] h = tt
Below-stop_timer n (some i) (t ∷ ts) h = elim (Bool-cases (t.id == i)) [
  | inl e ↦ rw e (Below-stop_timer n (some i) ts h.1)
  | inr e ↦ rw e (h.0, Below-stop_timer n (some i) ts h.1)
]

pub rebuild_limits-IsValid :
    (qs : QueueState)
    → Linked qs.tasks qs.heap
    → Below qs.next_timer qs.timers
    → IsValid (rebuild_limits qs)
unfolding rebuild_limits
rebuild_limits-IsValid qs l n = record {
  links = l;
  numbered = n;
  gate = omega (arith, length-append {0} qs.semaphores);
}

pub new_queue_state-IsValid : (q : Queue) → IsValid (new_queue_state q)
unfolding new_queue_state
new_queue_state-IsValid q = rebuild_limits-IsValid (blank_state q) Linked-empty tt

pub after_func-IsValid :
    (now : Time) (d : Duration) (f : Action) (qs : QueueState)
    → IsValid qs
    → IsValid (after_func now d f qs)
unfolding after_func
after_func-IsValid now d f qs v = record {
  links = v.links;
  numbered = (omega arith, Below-suc qs.next_timer qs.timers v.numbered);
  gate = v.gate;
}

pub arm_fire-IsValid :
    (p : ℕ) (now due : Time) (qs : QueueState) (ts : TaskState)
    → get_elem? qs.heap p ≡ some ts
    → IsValid qs
    → IsValid (arm_fire p now due qs)
unfolding arm_fire
arm_fire-IsValid p now due qs ts at v = record {
  links = Linked-modify qs.tasks qs.heap p _ ts at refl v.links;
  numbered = (omega arith, Below-suc qs.next_timer qs.timers v.numbered);
  gate = v.gate;
}

pub schedule-IsValid :
    (p : ℕ) (now : Time) (qs : QueueState) → IsValid qs → IsValid (schedule p now qs)
unfolding schedule schedule_state
schedule-IsValid p now qs v = elim (Option-cases (get_elem? qs.heap p)) [
  | inl e ↦ rw (e, schedule) v
  | inr (ts, e) ↦
      let armed = arm_fire-IsValid p now ts.t.schedule_time qs ts e v in
      rw (e, schedule) (ground (arith, armed))
]

pub register-IsValid :
    (s : Settings) (now : Time) (ts : TaskState) (qs : QueueState)
    → ts.removed ≡ false
    → lookup ts.t.name qs.tasks ≡ none
    → IsValid qs
    → IsValid (register s now ts qs)
unfolding register after_func
register-IsValid s now ts qs live free v = record {
  links =
      Linked-add qs.tasks qs.heap (record ts { ttl_timer = some qs.next_timer }) live free v.links;
  numbered = (omega arith, Below-suc qs.next_timer qs.timers v.numbered);
  gate = v.gate;
}

pub add_task-IsValid :
    (s : Settings) (now : Time) (ts : TaskState) (qs : QueueState)
    → ts.removed ≡ false
    → lookup ts.t.name qs.tasks ≡ none
    → IsValid qs
    → IsValid (add_task s now ts qs)
unfolding add_task
add_task-IsValid s now ts qs live free v =
    schedule-IsValid (length qs.heap) now (register s now ts qs)
      (register-IsValid s now ts qs live free v)

pub tombstone_locked-IsValid :
    (s : Settings) (name : Bytes) (now : Time) (qs : QueueState)
    → IsValid qs
    → IsValid (tombstone_locked s name now qs)
unfolding tombstone_locked after_func
tombstone_locked-IsValid s name now qs v =
    elim (Bool-cases (ltb_ℤ (effective_tombstone_ttl s qs) (pos 0))) [
      | inl e ↦ rw e v
      | inr e ↦ rw e (record {
        links = v.links;
        numbered = (omega arith, Below-suc qs.next_timer qs.timers v.numbered);
        gate = v.gate;
      })
    ]

pub clear_tombstone-IsValid :
    (name : Bytes) (now : Time) (qs : QueueState)
    → IsValid qs
    → IsValid (clear_tombstone name now qs)
unfolding clear_tombstone
clear_tombstone-IsValid name now qs v = elim (Option-cases (lookup name qs.tombstones)) [
  | inl e ↦ rw (e, clear_tombstone) v
  | inr (exp, e) ↦ elim (Bool-cases (ltb now exp)) [
    | inl early ↦ rw (e, clear_tombstone, early) v
    | inr late ↦
        rw (e, clear_tombstone, late)
          (record { links = v.links; numbered = v.numbered; gate = v.gate })
  ]
]

unlink-IsValid :
    (p : ℕ) (ts : TaskState) (qs : QueueState)
    → get_elem? qs.heap p ≡ some ts
    → ts.removed ≡ false
    → IsValid qs
    → IsValid (unlink p ts qs)
unfolding unlink
unlink-IsValid p ts qs at live v = record {
  links = Linked-remove qs.tasks qs.heap p mark_removed ts at live refl v.links;
  numbered =
      Below-stop_timer qs.next_timer ts.ttl_timer _
        (Below-stop_timer qs.next_timer ts.timer qs.timers v.numbered);
  gate = v.gate;
}

pub remove_state-IsValid :
    (s : Settings) (p : ℕ) (now : Time) (ts : TaskState) (qs : QueueState)
    → get_elem? qs.heap p ≡ some ts
    → ts.removed ≡ false
    → IsValid qs
    → IsValid (remove_state s p now ts qs)
unfolding remove_state
remove_state-IsValid s p now ts qs at live v =
    tombstone_locked-IsValid s ts.t.name now (unlink p ts qs) (unlink-IsValid p ts qs at live v)

pub remove_locked-IsValid :
    (s : Settings) (p : ℕ) (now : Time) (ts : TaskState) (qs : QueueState)
    → get_elem? qs.heap p ≡ some ts
    → ts.removed ≡ false
    → IsValid qs
    → IsValid (remove_locked s p now qs)
unfolding remove_locked
remove_locked-IsValid s p now ts qs at live v =
    rw (at, remove_locked) (remove_state-IsValid s p now ts qs at live v)

pub expire-IsValid :
    (s : Settings) (p : ℕ) (now : Time) (qs : QueueState) → IsValid qs → IsValid (expire s p now qs)
unfolding expire
expire-IsValid s p now qs v = elim (Option-cases (get_elem? qs.heap p)) [
  | inl e ↦ rw (e, expire) v
  | inr (ts, e) ↦ elim (Bool-cases ts.removed) [
    | inl gone ↦ rw (e, expire, gone) v
    | inr live ↦ rw (e, expire, live) (remove_state-IsValid s p now ts qs e live v)
  ]
]
