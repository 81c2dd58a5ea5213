-- ===== src/Core/Engine/Created.antt =====
-- What CreateTask of core/engine.go stores, and where GetTask finds it.
use cloud_tasks_emulator.Base.{
  ℕ, ◌≡◌, refl, ap, ◌∙◌, subst, true, some, ◌∷◌, [], length, All, arith, Option-cases, inl, inr,
  is_some, ◌==◌, if◌then◌else◌,
}
use cloud_tasks_emulator.Base.Int.{pos}
use cloud_tasks_emulator.Base.Bytes.{Bytes, bytes_eq_refl}
use cloud_tasks_emulator.Base.Dict.{lookup-insert}
use cloud_tasks_emulator.Std.Decimal.{IsDigit, format_nat-IsDigit, format_nat-ne_nil}
use cloud_tasks_emulator.Core.Status.{
  Result, ok, err, ◌>>=◌, or_fail, or_fail-eq-ok, Ensures, Ensures-bind, Ensures-elim, on_ok,
}
use cloud_tasks_emulator.Core.Naming.{parse_task_name, task_queue_of}
use cloud_tasks_emulator.Core.Naming.Matching.{NoSlash, IsSegment}
use cloud_tasks_emulator.Core.Naming.Names.{resolve_task_name-task_queue_of}
use cloud_tasks_emulator.Core.Types.{Time, Task}
use cloud_tasks_emulator.Core.Queue.{QueueState, TaskState, Settings, add_task}
use cloud_tasks_emulator.Core.Queue.Added.{add_task_lem}
use cloud_tasks_emulator.Core.Engine.{Engine, put_queue, queue_locked, task_queue}
use cloud_tasks_emulator.Core.Engine.Tasks.{
  next_task_id, counted, stamped, fresh_state, insert_task, or_keep, with_task, settle, find_task,
  try_create_task, create_task, get_task,
}
use cloud_tasks_emulator.Core.Engine.Lifecycle.{queue_locked-put_queue}

digits-NoSlash : (s : Bytes) → All IsDigit s → NoSlash s
digits-NoSlash [] h = tt
digits-NoSlash (c ∷ s) h = (ground (arith, h.0), digits-NoSlash s h.1)

-- A generated id is a segment.
next_task_id-IsSegment : (now : Time) (qs : QueueState) → IsSegment (next_task_id now qs).1
unfolding next_task_id
next_task_id-IsSegment now qs = (format_nat-ne_nil _, digits-NoSlash _ (format_nat-IsDigit _))

-- The task that was added is found under its name.
add_task-find_task :
    (s : Settings) (now : Time) (ts : TaskState) (qs : QueueState)
    → (p : ℕ) × (x : TaskState) × (find_task ts.t.name (add_task s now ts qs) ≡ ok (p, x))
      × (x.t ≡ ts.t)
unfolding find_task ◌>>=◌
add_task-find_task s now ts qs =
    let p = length qs.heap in
    let (names, (x, cell, same)) = add_task_lem s now ts qs in
    (
      p,
      x,
      rw
          (
            names,
            lookup-insert ts.t.name ts.t.name p qs.tasks,
            bytes_eq_refl ts.t.name,
            or_fail,
            cell,
          )
          refl,
      same,
    )

insert_task-eq-ok :
    (s : Settings) (now : Time) (t : Task) (qs : QueueState) {t' : Task}
    → with_task (insert_task s now t qs) t ≡ ok t'
    → (insert_task s now t qs ≡ ok (add_task s now (fresh_state t) qs)) × (t ≡ t')
unfolding insert_task ◌>>=◌
insert_task-eq-ok s now t qs h = ground arith

module _ {P : Type 0} where
  settle-eq-ok :
      {A : Type 0} (e : Engine P) (r : Result (Engine P × Result A)) {e' : Engine P} {a : A}
      → settle e r ≡ (e', ok a)
      → r ≡ ok (e', ok a)
  settle-eq-ok e (ok r) h = ap ok h
  settle-eq-ok e (err x) h = cc

  get_task-found :
      (e : Engine P) (name : Bytes) (qs : QueueState) (p : ℕ) (x : TaskState)
      → is_some (parse_task_name name) ≡ true
      → queue_locked e (task_queue_of name) ≡ ok qs
      → find_task name qs ≡ ok (p, x)
      → get_task e name ≡ ok x.t
  unfolding get_task task_queue ◌>>=◌
  get_task-found e name qs p x parsed at found = elim (Option-cases (parse_task_name name)) [
    | inl e1 ↦ absurd (ground arith)
    | inr (parts, e1) ↦ rw (e1, at, found) refl
  ]

  -- What is known of a created task, by the engine that it was created in.
  abbrev Stored : Bytes → Task → Time → Engine P → Task → Type 0
  Stored parent t now e t' =
      (get_task e t'.name ≡ ok t')
      × (is_some (parse_task_name t'.name) ≡ true)
      × (task_queue_of t'.name ≡ parent)
      × (t' ≡ stamped now t'.name t)

  insert_task-Stored :
      (e : Engine P) (parent name : Bytes) (t : Task) (now : Time) (qs : QueueState) {t' : Task}
      → is_some (parse_task_name name) ≡ true
      → task_queue_of name ≡ parent
      → with_task (insert_task e.settings now (stamped now name t) qs) (stamped now name t) ≡ ok t'
      → Stored parent t now
          (put_queue parent (or_keep (insert_task e.settings now (stamped now name t) qs) qs) e)
          t'
  insert_task-Stored e parent name t now qs {t'} parsed own h =
      let new = stamped now name t in
      let (inserted, same) = insert_task-eq-ok e.settings now new qs h in
      let (p, x, found, kept) = add_task-find_task e.settings now (fresh_state new) qs in
      let us = add_task e.settings now (fresh_state new) qs in
      subst (Stored parent t now _) same (
        rw (inserted, or_keep)
          (
            get_task-found (put_queue parent us e) name us p x parsed
                  (rw own (queue_locked-put_queue e parent us)) found
                ∙ ap ok kept,
            parsed,
            own,
            refl,
          ))

  try_create_task-Stored :
      (e : Engine P) (parent : Bytes) (t : Task) (now : Time)
      → Ensures
          (λ r. (t' : Task) → r.1 ≡ ok t' → Stored parent t now r.0 t')
          (try_create_task e parent (some t) now)
  unfolding try_create_task
  try_create_task-Stored e parent t now = Ensures-bind λ parts hp. Ensures-bind λ t1 ht.
      Ensures-bind λ _ _. Ensures-bind λ qs at. Ensures-bind λ name resolved. on_ok λ t' h.
        let (parsed, own) =
          resolve_task_name-task_queue_of parent t1.name (next_task_id now qs).1
            (or_fail-eq-ok _ _ _ hp) (next_task_id-IsSegment now qs) resolved in
        let same : t1 ≡ t = cc in
        let us = counted t1.name now qs in
        let made =
          put_queue parent (or_keep (insert_task e.settings now (stamped now name t1) us) us) e in
        subst (λ x. Stored parent x now made t') same
          (insert_task-Stored e parent name t1 now (counted t1.name now qs) parsed own h)

  -- After CreateTask without an error, GetTask of the returned task's name gives the returned task;
  -- the name parses and belongs to the parent, and the task is the given one with that name, created
  -- now, with no attempts counted, and due at its schedule time, or now if it has none.
  pub create_task-get_task :
      (e e' : Engine P) (parent : Bytes) (t t' : Task) (now : Time)
      → create_task e parent (some t) now ≡ (e', ok t')
      → (get_task e' t'.name ≡ ok t')
        × (is_some (parse_task_name t'.name) ≡ true)
        × (task_queue_of t'.name ≡ parent)
        × (t' ≡ record t {
          name = t'.name;
          create_time = now;
          schedule_time = if t.schedule_time == 0 then now else t.schedule_time;
          dispatch_count = pos 0;
          response_count = pos 0;
        })
  unfolding create_task
  create_task-get_task e e' parent t t' now h =
      Ensures-elim (try_create_task-Stored e parent t now) (settle-eq-ok e _ h) t' refl
