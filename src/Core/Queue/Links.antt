-- ===== src/Core/Queue/Links.antt =====
-- The map of tasks and the heap of task states of core/queue.go: a name points to a state exactly
-- when that state carries the name and is not removed.
use cloud_tasks_emulator.Base.{
  ℕ, ◌≡◌, true, false, Option, none, some, List, [], ◌∷◌, ◌++◌, ◌==◌, if◌then◌else◌, length,
  get_elem?, arith,
}
use cloud_tasks_emulator.Base.Bytes.{Bytes, bytes_eq_iff}
use cloud_tasks_emulator.Base.Dict.{Dict, lookup, insert, delete, lookup-insert, lookup-delete}
use cloud_tasks_emulator.Core.Queue.{TaskState, modify}
use cloud_tasks_emulator.Core.Queue.Heap.{get_elem?-modify, get_elem?-append_one, get_elem?-ge}

-- The name of a state that is not removed.
abbrev pub name_of : TaskState → Option Bytes
name_of ts = if ts.removed then none else some ts.t.name

abbrev pub live_name : List TaskState → ℕ → Option Bytes
live_name heap p = elim (get_elem? heap p) [ none ↦ none | some ts ↦ name_of ts ]

pub record Linked (tasks : Dict ℕ) (heap : List TaskState) : Type 0 where
  pub points : (name : Bytes) (p : ℕ) → lookup name tasks ≡ some p → live_name heap p ≡ some name
  pub pointed : (name : Bytes) (p : ℕ) → live_name heap p ≡ some name → lookup name tasks ≡ some p

-- A new queue.
pub Linked-empty : Linked [] []
unfolding lookup
Linked-empty = record { points = λ name p h. cc; pointed = λ name p h. cc }

module _ (tasks : Dict ℕ) (heap : List TaskState) where
  live_name-modify :
      (p q : ℕ) (f : TaskState → TaskState) (ts : TaskState)
      → get_elem? heap p ≡ some ts
      → live_name (modify heap p f) q ≡ (if p == q then name_of (f ts) else live_name heap q)
  live_name-modify p q f ts at = ground (arith, get_elem?-modify heap p q f ts at)

  live_name-append_one :
      (q : ℕ) (ts : TaskState)
      → live_name (heap ++ ts ∷ []) q ≡ (if length heap == q then name_of ts else live_name heap q)
  live_name-append_one q ts = ground (arith, get_elem?-append_one heap ts q)

  -- A write that keeps the name and the mark.
  pub Linked-modify :
      (p : ℕ) (f : TaskState → TaskState) (ts : TaskState)
      → get_elem? heap p ≡ some ts
      → name_of (f ts) ≡ name_of ts
      → Linked tasks heap
      → Linked tasks (modify heap p f)
  Linked-modify p f ts at same w = record {
    points = λ name q h. ground (arith, live_name-modify p q f ts at, w.points name q);
    pointed = λ name q h. ground (arith, live_name-modify p q f ts at, w.pointed name q);
  }

  -- A state is marked and its name is taken out of the map.
  pub Linked-remove :
      (p : ℕ) (f : TaskState → TaskState) (ts : TaskState)
      → get_elem? heap p ≡ some ts
      → ts.removed ≡ false
      → (f ts).removed ≡ true
      → Linked tasks heap
      → Linked (delete ts.t.name tasks) (modify heap p f)
  Linked-remove p f ts at live marked w = record {
    points = λ name q h. ground (
      arith,
      live_name-modify p q f ts at,
      w.points name q,
      w.pointed ts.t.name p,
      lookup-delete ts.t.name name tasks,
      bytes_eq_iff ts.t.name name,
    );
    pointed = λ name q h. ground (
      arith,
      live_name-modify p q f ts at,
      w.pointed name q,
      w.pointed ts.t.name p,
      lookup-delete ts.t.name name tasks,
      bytes_eq_iff ts.t.name name,
    );
  }

  -- A new state under a name that is free.
  pub Linked-add :
      (ts : TaskState)
      → ts.removed ≡ false
      → lookup ts.t.name tasks ≡ none
      → Linked tasks heap
      → Linked (insert ts.t.name (length heap) tasks) (heap ++ ts ∷ [])
  Linked-add ts live free w = record {
    points = λ name q h. ground (
      arith,
      live_name-append_one q ts,
      get_elem?-ge heap q,
      w.points name q,
      lookup-insert ts.t.name name (length heap) tasks,
      bytes_eq_iff ts.t.name name,
    );
    pointed = λ name q h. ground (
      arith,
      live_name-append_one q ts,
      get_elem?-ge heap q,
      w.pointed name q,
      lookup-insert ts.t.name name (length heap) tasks,
      bytes_eq_iff ts.t.name name,
    );
  }
