-- ===== src/Core/Engine/Lifecycle.antt =====
-- The life of a task through the calls of core/engine.go: created, read, deleted, and its name
-- reserved.
use cloud_tasks_emulator.Base.{
  ℕ, ◌≡◌, refl, ap, ◌∙◌, subst, true, none, some, arith, Option-cases, inl, inr, is_some,
}
use cloud_tasks_emulator.Base.Bytes.{Bytes, bytes_eq_refl}
use cloud_tasks_emulator.Base.Dict.{lookup, lookup-insert}
use cloud_tasks_emulator.Core.Status.{
  Result, ok, err, fail, ◌>>=◌, or_fail, >>=-eq-ok, Ensures-elim, not_found, task_not_found,
}
use cloud_tasks_emulator.Core.Naming.{
  parse_queue_name, parse_task_name, resolve_task_name, task_queue_of,
}
use cloud_tasks_emulator.Core.Types.{Time, Task}
use cloud_tasks_emulator.Core.Validate.{validate_create_task}
use cloud_tasks_emulator.Core.Queue.{QueueState}
use cloud_tasks_emulator.Core.Queue.Removal.{remove_locked}
use cloud_tasks_emulator.Core.Queue.Delivery.{Removed, remove_locked-Removed}
use cloud_tasks_emulator.Core.Engine.{Engine, put_queue, reply, queue_locked, task_queue}
use cloud_tasks_emulator.Core.Engine.Tasks.{
  next_task_id, counted, stamped, insert_task, or_keep, with_task, find_task, try_create_task,
  create_task, get_task, try_delete_task, delete_task,
}
use cloud_tasks_emulator.Core.Engine.Valid.{EngineIsValid}
use cloud_tasks_emulator.Core.Engine.Kept.{find_task-Ensures, task_queue-Ensures}

pub reply-eq-ok :
    {P A : Type 0} (e : Engine P) (r : Result (Engine P × A)) {e' : Engine P} {a : A}
    → reply e r ≡ (e', ok a)
    → r ≡ ok (e', a)
reply-eq-ok e (ok r) h = ap ok (ground arith)
reply-eq-ok e (err x) h = cc

find_task-absent :
    (name : Bytes) (qs : QueueState)
    → lookup name qs.tasks ≡ none
    → find_task name qs ≡ fail not_found (task_not_found name)
unfolding find_task ◌>>=◌
find_task-absent name qs h = rw (h, or_fail) refl

module _ {P : Type 0} where
  pub queue_locked-put_queue :
      (e : Engine P) (name : Bytes) (qs : QueueState)
      → queue_locked (put_queue name qs e) name ≡ ok qs
  unfolding queue_locked
  queue_locked-put_queue e name qs =
      rw (lookup-insert name name qs e.queues, bytes_eq_refl name, or_fail) refl

  -- The queue of a task name is the one that was stored last.
  task_queue-put_queue :
      (e : Engine P) (name : Bytes) {qs : QueueState} (us : QueueState)
      → task_queue e name ≡ ok qs
      → task_queue (put_queue (task_queue_of name) us e) name ≡ ok us
  unfolding task_queue ◌>>=◌
  task_queue-put_queue e name us h = elim (Option-cases (parse_task_name name)) [
    | inl none_there ↦ absurd (ground arith)
    | inr (parts, parsed) ↦ rw parsed (queue_locked-put_queue e (task_queue_of name) us)
  ]

  get_task-absent :
      (e : Engine P) (name : Bytes) (qs : QueueState)
      → task_queue e name ≡ ok qs
      → lookup name qs.tasks ≡ none
      → get_task e name ≡ fail not_found (task_not_found name)
  unfolding get_task ◌>>=◌
  get_task-absent e name qs at gone = rw (at, find_task-absent name qs gone) refl

  -- What a DeleteTask without an error did: the task's queue is replaced by one in which the task is
  -- removed, as `removeLocked` does it.
  pub delete_task-Removed :
      (e e' : Engine P) (name : Bytes) (now : Time)
      → EngineIsValid e
      → delete_task e name now ≡ (e', ok tt)
      → (qs : QueueState) × (p : ℕ) × (task_queue e name ≡ ok qs)
        × (e' ≡ put_queue (task_queue_of name) (remove_locked e.settings p now qs) e)
        × Removed e.settings p now name qs (remove_locked e.settings p now qs)
  unfolding delete_task try_delete_task
  delete_task-Removed e e' name now v h =
      let (qs, at, h1) = >>=-eq-ok (task_queue e name) _ (reply-eq-ok e _ h) in
      let (found, there, h2) = >>=-eq-ok (find_task name qs) _ h1 in
      let (_, cell, _, named) =
        Ensures-elim
          (find_task-Ensures name qs (Ensures-elim (task_queue-Ensures e name v) at).valid) there in
      let stored : e' ≡ put_queue (task_queue_of name) (remove_locked e.settings found.0 now qs) e =
        ground arith in
      (
        qs,
        found.0,
        at,
        stored,
        subst (λ n. Removed e.settings found.0 now n qs (remove_locked e.settings found.0 now qs))
            named (remove_locked-Removed e.settings found.0 now found.1 qs cell),
      )

  -- After DeleteTask without an error, GetTask of the same name reports that there is no such task.
  pub delete_task-get_task :
      (e e' : Engine P) (name : Bytes) (now : Time)
      → EngineIsValid e
      → delete_task e name now ≡ (e', ok tt)
      → get_task e' name ≡ fail not_found (task_not_found name)
  delete_task-get_task e e' name now v h =
      let (qs, p, at, stored, r) = delete_task-Removed e e' name now v h in
      rw stored (
        get_task-absent (put_queue (task_queue_of name) (remove_locked e.settings p now qs) e) name
          _ (task_queue-put_queue e name _ at) (r.tasks name ∙ rw (bytes_eq_refl name) refl))

  -- CreateTask with everything in order up to the insertion.
  pub create_task-insert_task :
      (e : Engine P) (parent name : Bytes) (t : Task) (now : Time) (qs : QueueState)
      → is_some (parse_queue_name parent) ≡ true
      → validate_create_task now t ≡ ok tt
      → queue_locked e parent ≡ ok qs
      → resolve_task_name parent t.name (next_task_id now qs).1 ≡ ok name
      → create_task e parent (some t) now ≡ (
        put_queue parent
            (or_keep
              (insert_task e.settings now (stamped now name t) (counted t.name now qs))
              (counted t.name now qs))
            e,
        with_task
            (insert_task e.settings now (stamped now name t) (counted t.name now qs))
            (stamped now name t),
      )
  unfolding create_task try_create_task ◌>>=◌
  create_task-insert_task e parent name t now qs parsed fine at named =
      elim (Option-cases (parse_queue_name parent)) [
        | inl e1 ↦ absurd (ground arith)
        | inr (parts, e1) ↦ rw (e1, fine, at, named) refl
      ]
