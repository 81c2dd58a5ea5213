-- ===== src/Core/Queue/Cells.antt =====
-- The tasks that stand behind the pointers of core/queue.go, and the operations that leave every one of
-- them alone.
use cloud_tasks_emulator.Base.{
  ℕ, ◌≡◌, refl, ap, false, ◌||◌, none, some, Option, get_elem?, ◌==◌, if◌then◌else◌, arith,
  Bool-cases, Option-cases, inl, inr,
}
use cloud_tasks_emulator.Base.Bytes.{Bytes, bytes_eq, bytes_eq_iff}
use cloud_tasks_emulator.Base.Dict.{Dict, lookup}
use cloud_tasks_emulator.Core.Types.{Time, Task}
use cloud_tasks_emulator.Core.Queue.{
  TaskState, QueueState, schedule, schedule_state, arm_fire, is_pull, is_held,
}
use cloud_tasks_emulator.Core.Queue.Heap.{get_elem?-modify}
use cloud_tasks_emulator.Core.Queue.Attempts.{fire, fire_state}
use cloud_tasks_emulator.Core.Queue.Links.{Linked}

abbrev pub task_of : Option TaskState → Option Task
task_of none = none
task_of (some ts) = some ts.t

abbrev pub cell : ℕ → QueueState → Option Task
cell p qs = task_of (get_elem? qs.heap p)

-- The task that a name leads to.
unfoldable pub task_named : Bytes → QueueState → Option Task
task_named name qs = elim (lookup name qs.tasks) [ none ↦ none | some p ↦ cell p qs ]

-- Nothing that a client could see differs.
pub record Same (qs us : QueueState) : Type 0 where
  pub q : us.q ≡ qs.q
  pub tasks : us.tasks ≡ qs.tasks
  pub tombstones : us.tombstones ≡ qs.tombstones
  pub cells : (p : ℕ) → cell p us ≡ cell p qs

pub Same-refl : (qs : QueueState) → Same qs qs
Same-refl qs = record { q = refl; tasks = refl; tombstones = refl; cells = λ p. refl }

-- A new timer in a task state.
arm_fire-Same :
    (p : ℕ) (now due : Time) (qs : QueueState) (ts : TaskState)
    → get_elem? qs.heap p ≡ some ts
    → Same qs (arm_fire p now due qs)
unfolding arm_fire
arm_fire-Same p now due qs ts at = record {
  q = refl;
  tasks = refl;
  tombstones = refl;
  cells = λ x.
      ground
        (arith, get_elem?-modify qs.heap p x (λ y. record y { timer = some qs.next_timer }) ts at);
}

pub schedule-Same : (p : ℕ) (now : Time) (qs : QueueState) → Same qs (schedule p now qs)
unfolding schedule schedule_state
schedule-Same p now qs = elim (Option-cases (get_elem? qs.heap p)) [
  | inl e ↦ rw (e, schedule) (Same-refl qs)
  | inr (ts, e) ↦ elim (Bool-cases (ts.removed || qs.q.pull || is_pull ts.t.target.type)) [
    | inl idle ↦ rw (e, schedule, idle) (Same-refl qs)
    | inr armed ↦ rw (e, schedule, armed) (arm_fire-Same p now ts.t.schedule_time qs ts e)
  ]
]

pub fire-Same : (p : ℕ) (now : Time) (qs : QueueState) → Same qs (fire p now qs).0
unfolding fire fire_state
fire-Same p now qs = elim (Option-cases (get_elem? qs.heap p)) [
  | inl e ↦ rw (e, fire) (Same-refl qs)
  | inr (ts, e) ↦ elim (Bool-cases ts.removed) [
    | inl gone ↦ rw (e, fire, gone) (Same-refl qs)
    | inr live ↦ elim (Bool-cases (is_held qs.q.state)) [
      | inl held ↦
          rw (e, fire, live, held)
            (record {
              q = refl;
              tasks = refl;
              tombstones = refl;
              cells = λ x. ground (
                arith,
                get_elem?-modify qs.heap p x (λ y. record y { timer = some qs.next_timer }) ts e,
              );
            })
      | inr running ↦ rw (e, fire, live, running) (Same-refl qs)
    ]
  ]
]

pub Same-task_named :
    (qs us : QueueState) (name : Bytes) → Same qs us → task_named name us ≡ task_named name qs
unfolding task_named
Same-task_named qs us name same =
    let found = ap (λ (m : Dict ℕ). lookup name m) same.tasks in
    elim (Option-cases (lookup name qs.tasks)) [
      | inl e ↦ ground (arith, found)
      | inr (p, e) ↦ ground (arith, found, same.cells p)
    ]

module _ (qs us : QueueState) (p : ℕ) (ts : TaskState) (w : Linked qs.tasks qs.heap)
    (at : get_elem? qs.heap p ≡ some ts) (live : ts.removed ≡ false) where
  -- A live task's name leads to it.
  pub task_named_live : task_named ts.t.name qs ≡ some ts.t
  unfolding task_named
  task_named_live = ground (arith, w.pointed ts.t.name p)

  -- Another task at its pointer is seen under its name alone.
  pub task_named_written :
      (x : Task) (name : Bytes)
      → us.tasks ≡ qs.tasks
      → ((y : ℕ) → cell y us ≡ (if p == y then some x else cell y qs))
      → task_named name us ≡ (if bytes_eq ts.t.name name then some x else task_named name qs)
  unfolding task_named
  task_named_written x name same cells =
      let found = ap (λ (m : Dict ℕ). lookup name m) same in
      elim (Option-cases (lookup name qs.tasks)) [
        | inl e ↦ ground (arith, found, w.pointed ts.t.name p, bytes_eq_iff ts.t.name name)
        | inr (y, e) ↦ ground (
          arith,
          found,
          cells y,
          w.pointed ts.t.name p,
          w.points name y,
          bytes_eq_iff ts.t.name name,
        )
      ]

  -- A task without its name is seen no more.
  pub task_named_struck :
      (name : Bytes)
      → ((n : Bytes)
          → lookup n us.tasks ≡ (if bytes_eq ts.t.name n then none else lookup n qs.tasks))
      → ((y : ℕ) → (p == y) ≡ false → cell y us ≡ cell y qs)
      → task_named name us ≡ (if bytes_eq ts.t.name name then none else task_named name qs)
  unfolding task_named
  task_named_struck name tasks cells = elim (Option-cases (lookup name qs.tasks)) [
    | inl e ↦ ground (arith, tasks name)
    | inr (y, e) ↦ ground (
      arith,
      tasks name,
      cells y,
      w.pointed ts.t.name p,
      w.points name y,
      bytes_eq_iff ts.t.name name,
    )
  ]
