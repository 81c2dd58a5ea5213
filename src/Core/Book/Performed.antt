-- ===== src/Core/Book/Performed.antt =====
-- The calls of core/engine.go on a queue do to the book that it shows what they promise.
use cloud_tasks_emulator.Base.{
  ℕ, ◌≡◌, sym, ap, subst, ◌∙◌, Option, none, some, length, is_some, arith, Bool-cases, Option-cases,
  inl, inr,
}
use cloud_tasks_emulator.Base.Bytes.{Bytes}
use cloud_tasks_emulator.Base.Dict.{lookup, has, Unique, lookup-insert}
use cloud_tasks_emulator.Core.Status.{Result, ok, err, Result-cases, ◌>>=◌, Ensures-elim}
use cloud_tasks_emulator.Core.Types.{Time, Queue, Task}
use cloud_tasks_emulator.Core.Limits.{apply_queue_defaults}
use cloud_tasks_emulator.Core.Queue.{
  Settings, TaskState, QueueState, after_func, register, add_task, tombstoned, reserved_until,
  rebuild_limits,
}
use cloud_tasks_emulator.Core.Queue.Heap.{get_elem?-append_one, get_elem?-ge}
use cloud_tasks_emulator.Core.Queue.Removal.{remove_locked, purge, stop}
use cloud_tasks_emulator.Core.Queue.Links.{Linked}
use cloud_tasks_emulator.Core.Queue.Valid.{IsValid}
use cloud_tasks_emulator.Core.Queue.Frames.{remove_locked-q}
use cloud_tasks_emulator.Core.Queue.Delivery.{remove_locked-Removed}
use cloud_tasks_emulator.Core.Queue.Cells.{task_named, schedule-Same}
use cloud_tasks_emulator.Core.Queue.Unique.{remove_locked-Unique, add_task-Unique}
use cloud_tasks_emulator.Core.Engine.Queues.{update_state, set_fields, mask}
use cloud_tasks_emulator.Core.Engine.Tasks.{
  fresh_state, next_task_id, insert_task, or_keep, find_task,
}
use cloud_tasks_emulator.Core.Engine.Kept.{find_task-Ensures}
use cloud_tasks_emulator.Core.Runtime.{
  Call, inserts, takes_id, deletes, purges, stops, sets_state, updates, operate,
}
use cloud_tasks_emulator.Core.Book.{Book, still, enter, strike, perform}
use cloud_tasks_emulator.Core.Book.Shows.{Shows, Same-Shows, Removed-Shows}
use cloud_tasks_emulator.Core.Book.Swept.{has-task_named, purge-Shows, stop-Shows}

register-Shows :
    (s : Settings) (now : Time) (ts : TaskState) (qs : QueueState) (b : Book)
    → Linked qs.tasks qs.heap
    → Shows qs b
    → Shows (register s now ts qs) (enter ts.t b)
unfolding register after_func task_named
register-Shows s now ts qs b links w = record {
  config = w.config;
  tasks = λ n.
      let p = length qs.heap in
      let held = record ts { ttl_timer = some qs.next_timer } in
      let found = lookup-insert ts.t.name n p qs.tasks in
      elim (Option-cases (lookup n qs.tasks)) [
        | inl e ↦ ground (arith, w.tasks n, found, e, get_elem?-append_one qs.heap held p)
        | inr (y, e) ↦ ground (
          arith,
          w.tasks n,
          found,
          e,
          get_elem?-append_one qs.heap held p,
          get_elem?-append_one qs.heap held y,
          links.points n y,
          get_elem?-ge qs.heap y,
        )
      ];
  reserved = w.reserved;
}

add_task-Shows :
    (s : Settings) (now : Time) (ts : TaskState) (qs : QueueState) (b : Book)
    → Linked qs.tasks qs.heap
    → Shows qs b
    → Shows (add_task s now ts qs) (enter ts.t b)
unfolding add_task
add_task-Shows s now ts qs b links w =
    Same-Shows (register s now ts qs) (add_task s now ts qs) (enter ts.t b)
      (schedule-Same (length qs.heap) now (register s now ts qs))
      (register-Shows s now ts qs b links w)

-- The two tests of CreateTask under the lock.
insert_task-Shows :
    (s : Settings) (now : Time) (t : Task) (qs : QueueState) (b : Book)
    → Linked qs.tasks qs.heap
    → Shows qs b
    → Shows (or_keep (insert_task s now t qs) qs) (perform s (inserts t now) b)
unfolding insert_task ◌>>=◌ perform tombstoned
insert_task-Shows s now t qs b links w =
    let taken : is_some (b.tasks t.name) ≡ has t.name qs.tasks =
      ap is_some (w.tasks t.name) ∙ sym (has-task_named qs t.name links) in
    let kept : still (b.reserved t.name) now ≡ reserved_until (lookup t.name qs.tombstones) now =
      ap (λ (o : Option Time). still o now) (w.reserved t.name) ∙ ground arith in
    elim (Bool-cases (has t.name qs.tasks)) [
      | inl there ↦ rw (taken, there) w
      | inr free ↦ elim (Bool-cases (reserved_until (lookup t.name qs.tombstones) now)) [
        | inl used ↦ rw (taken, kept, free, used) w
        | inr unused ↦
            rw (taken, kept, free, unused) (add_task-Shows s now (fresh_state t) qs b links w)
      ]
    ]

abbrev task_found : Result (ℕ × TaskState) → Option Task
task_found (err x) = none
task_found (ok found) = some found.1.t

find_task-task_named :
    (name : Bytes) (qs : QueueState) → task_named name qs ≡ task_found (find_task name qs)
unfolding task_named find_task ◌>>=◌
find_task-task_named name qs = elim (Option-cases (lookup name qs.tasks)) [
  | inl e ↦ ground (arith, e)
  | inr (p, e) ↦ ground (arith, e)
]

delete-Shows :
    (s : Settings) (name : Bytes) (now : Time) (qs : QueueState) (b : Book)
    → IsValid qs
    → Shows qs b
    → Shows (operate s (deletes name now) qs) (perform s (deletes name now) b)
unfolding operate perform
delete-Shows s name now qs b v w =
    let seen : b.tasks name ≡ task_found (find_task name qs) =
      w.tasks name ∙ find_task-task_named name qs in
    elim (Result-cases (find_task name qs)) [
      | inl (x, e) ↦ rw (seen, e, operate) w
      | inr ((p, ts), e) ↦
          let (_, at, live, named) = Ensures-elim (find_task-Ensures name qs v) e in
          rw (seen, e, operate)
            (subst (λ n. Shows (remove_locked s p now qs) (strike s n now b)) named
              (Removed-Shows qs (remove_locked s p now qs) b p ts v.links at live w s now
                (remove_locked-q s p now qs) (remove_locked-Removed s p now ts qs at)))
    ]

-- A call of the engine on a valid queue that shows a book does to the book what the call promises: an
-- insertion enters the task unless its name is taken or still reserved, a deletion strikes a task that
-- is there and reserves its name, a purge clears the tasks and reserves their names or, as a hard reset,
-- frees every name, a stop clears the tasks, and an update or a new state changes the configuration
-- alone.
pub operate-Shows :
    (s : Settings) (c : Call) (qs : QueueState) (b : Book)
    → IsValid qs
    → Unique qs.tasks
    → Shows qs b
    → Shows (operate s c qs) (perform s c b)
unfolding operate perform
operate-Shows s (inserts t now) qs b v u w =
    unfold perform in insert_task-Shows s now t qs b v.links w
operate-Shows s (takes_id now) qs b v u w =
    unfold next_task_id in
    record { config = w.config; tasks = unfold task_named in w.tasks; reserved = w.reserved }
operate-Shows s (deletes name now) qs b v u w =
    unfold operate perform in delete-Shows s name now qs b v w
operate-Shows s (purges now) qs b v u w = purge-Shows s now qs b v.links u w
operate-Shows s stops qs b v u w = stop-Shows qs b w
operate-Shows s (sets_state st) qs b v u w = record {
  config = ap (λ (q : Queue). record q { state = st }) w.config;
  tasks = unfold task_named in w.tasks;
  reserved = w.reserved;
}
operate-Shows s (updates q fields) qs b v u w =
    unfold update_state rebuild_limits in
    record {
      config = ap (λ (old : Queue). apply_queue_defaults (set_fields q (mask fields) old)) w.config;
      tasks = unfold task_named in w.tasks;
      reserved = w.reserved;
    }

-- No call brings a name into the map twice.
pub operate-Unique :
    (s : Settings) (c : Call) (qs : QueueState) → Unique qs.tasks → Unique (operate s c qs).tasks
unfolding operate insert_task ◌>>=◌
operate-Unique s (inserts t now) qs u =
    let added = add_task-Unique s now (fresh_state t) qs u in ground (arith, added, u)
operate-Unique s (takes_id now) qs u = unfold next_task_id in u
operate-Unique s (deletes name now) qs u = elim (Result-cases (find_task name qs)) [
  | inl (x, e) ↦ rw (e, operate) u
  | inr (found, e) ↦ rw (e, operate) (remove_locked-Unique s found.0 now qs u)
]
operate-Unique s (purges now) qs u = unfold purge Unique in tt
operate-Unique s stops qs u = unfold stop Unique in tt
operate-Unique s (sets_state st) qs u = u
operate-Unique s (updates q fields) qs u = unfold update_state rebuild_limits in u
