-- ===== src/Core/Engine/Reserved.antt =====
-- The names that core/engine.go keeps reserved after a task is gone, and the tasks that it stores.
use cloud_tasks_emulator.Base.{
  ℕ, ◌+◌, ◌≡◌, refl, ap, ◌∙◌, subst, true, false, none, some, ◌∷◌, [], arith, Bool-cases,
  Option-cases, inl, inr, is_some, if◌then◌else◌, ltb,
}
use cloud_tasks_emulator.Base.Int.{pos_part}
use cloud_tasks_emulator.Base.Bytes.{Bytes, bytes_eq_refl}
use cloud_tasks_emulator.Base.Dict.{lookup, has}
use cloud_tasks_emulator.Core.Status.{Result, ok, fail, ◌>>=◌, already_exists, task_reserved}
use cloud_tasks_emulator.Core.Naming.{
  parse_queue_name, parse_task_name, resolve_task_name, task_queue_of, task_id, matches_id_re,
  queue_name, task_name,
}
use cloud_tasks_emulator.Core.Naming.Names.{
  parse_task_name_iff, parse_queue_name_iff, resolve_task_name_iff,
}
use cloud_tasks_emulator.Core.Types.{Time, Task}
use cloud_tasks_emulator.Core.Validate.{validate_create_task}
use cloud_tasks_emulator.Core.Queue.{
  QueueState, Settings, tombstoned, reserved_until, effective_tombstone_ttl,
}
use cloud_tasks_emulator.Core.Queue.Removal.{remove_locked}
use cloud_tasks_emulator.Core.Queue.Delivery.{reserves, Removed}
use cloud_tasks_emulator.Core.Engine.{Engine, put_queue, queue_locked, task_queue}
use cloud_tasks_emulator.Core.Engine.Tasks.{
  next_task_id, counted, stamped, insert_task, with_task, create_task, delete_task,
}
use cloud_tasks_emulator.Core.Engine.Valid.{EngineIsValid}
use cloud_tasks_emulator.Core.Engine.Lifecycle.{
  queue_locked-put_queue, delete_task-Removed, create_task-insert_task,
}

-- The queue of a task name that parses is a queue name.
parse_queue_name-task_queue_of :
    (name : Bytes)
    → is_some (parse_task_name name) ≡ true
    → is_some (parse_queue_name (task_queue_of name)) ≡ true
unfolding task_queue_of
parse_queue_name-task_queue_of name h = elim (Option-cases (parse_task_name name)) [
  | inl e ↦ absurd (ground arith)
  | inr ((p, l, q, t), e) ↦
      let (_, sp, sl, sq, _) = (parse_task_name_iff name p l q t).0 e in
      rw (e, task_queue_of, (parse_queue_name_iff (queue_name p l q) p l q).1 (refl, sp, sl, sq))
        refl
]

parse_task_name-nil : is_some (parse_task_name []) ≡ false
unfolding task_name
parse_task_name-nil = elim (Option-cases (parse_task_name [])) [
  | inl e ↦ rw e refl
  | inr ((p, l, q, t), e) ↦ absurd (cc ((parse_task_name_iff [] p l q t).0 e).0)
]

-- A name with a valid id is accepted for its own queue.
resolve_task_name-own_queue :
    (name generated : Bytes)
    → is_some (parse_task_name name) ≡ true
    → matches_id_re (task_id name) ≡ true
    → resolve_task_name (task_queue_of name) name generated ≡ ok name
resolve_task_name-own_queue [] generated h id = absurd (ground (arith, parse_task_name-nil))
resolve_task_name-own_queue (c ∷ s) generated h id =
    (resolve_task_name_iff (task_queue_of (c ∷ s)) generated (c ∷ s) c s).1 (refl, h, id, refl)

-- The insertion of a name that no task has fails exactly while the name is reserved.
insert_task-free :
    (s : Settings) (now : Time) (t : Task) (qs : QueueState)
    → lookup t.name qs.tasks ≡ none
    → with_task (insert_task s now t qs) t
      ≡ (if tombstoned t.name now qs then fail already_exists (task_reserved t.name) else ok t)
unfolding insert_task ◌>>=◌ has
insert_task-free s now t qs free = elim (Bool-cases (tombstoned t.name now qs)) [
  | inl e ↦ rw (free, e) refl
  | inr e ↦ rw (free, e) refl
]

-- The step of the counter leaves the tasks and the names alone.
counted_lem :
    (provided : Bytes) (now : Time) (qs : QueueState)
    → ((counted provided now qs).tasks ≡ qs.tasks)
      × ((counted provided now qs).tombstones ≡ qs.tombstones)
unfolding next_task_id
counted_lem [] now qs = (refl, refl)
counted_lem (c ∷ s) now qs = (refl, refl)

module _ {P : Type 0} where
  queue_of_task :
      (e : Engine P) (name : Bytes) {qs : QueueState}
      → task_queue e name ≡ ok qs
      → is_some (parse_task_name name) ≡ true
  unfolding task_queue ◌>>=◌
  queue_of_task e name h = elim (Option-cases (parse_task_name name)) [
    | inl e1 ↦ absurd (ground arith)
    | inr (parts, e1) ↦ rw e1 refl
  ]

  -- The same, from the queue that the removal left.
  create_task-Removed :
      (e : Engine P) (t : Task) (s : Settings) (p : ℕ) (now later : Time) (qs us : QueueState)
      → is_some (parse_task_name t.name) ≡ true
      → queue_locked e (task_queue_of t.name) ≡ ok us
      → Removed s p now t.name qs us
      → reserves s qs ≡ true
      → matches_id_re (task_id t.name) ≡ true
      → validate_create_task later t ≡ ok tt
      → (create_task e (task_queue_of t.name) (some t) later).1 ≡ (
          if ltb later (now + pos_part (effective_tombstone_ttl s qs))
          then fail already_exists (task_reserved t.name)
          else ok (stamped later t.name t))
  unfolding tombstoned
  create_task-Removed e t s p now later qs us parsed at r kept id fine =
      let cs = counted t.name later us in
      let (tasks, stones) = counted_lem t.name later us in
      let free : lookup t.name cs.tasks ≡ none =
        ap (lookup t.name) tasks ∙ r.tasks t.name ∙ rw (bytes_eq_refl t.name) refl in
      let reserved : lookup t.name cs.tombstones
          ≡ some (now + pos_part (effective_tombstone_ttl s qs)) =
        ap (lookup t.name) stones ∙ r.tombstones t.name ∙ rw (bytes_eq_refl t.name, kept) refl in
      ap (λ (o : Engine P × Result Task). o.1)
        (create_task-insert_task e (task_queue_of t.name) t.name t later us
          (parse_queue_name-task_queue_of t.name parsed) fine at
          (resolve_task_name-own_queue t.name _ parsed id))
      ∙ insert_task-free e.settings later (stamped later t.name t) cs free
      ∙ rw (reserved, reserved_until) refl

  -- After DeleteTask without an error, under a tombstone TTL that is not negative, CreateTask with
  -- the deleted name, a valid id, and a task that passes the validation is refused because the name
  -- was used recently, as long as the TTL counted from the deletion is not over; from then on the
  -- task is created.
  pub delete_task-create_task :
      (e e' : Engine P) (t : Task) (now later : Time) (qs : QueueState)
      → EngineIsValid e
      → task_queue e t.name ≡ ok qs
      → delete_task e t.name now ≡ (e', ok tt)
      → reserves e.settings qs ≡ true
      → matches_id_re (task_id t.name) ≡ true
      → validate_create_task later t ≡ ok tt
      → (create_task e' (task_queue_of t.name) (some t) later).1 ≡ (
          if ltb later (now + pos_part (effective_tombstone_ttl e.settings qs))
          then fail already_exists (task_reserved t.name)
          else ok (stamped later t.name t))
  unfolding tombstoned
  delete_task-create_task e e' t now later qs v at h kept id fine =
      let (qs', p, at', stored, r) = delete_task-Removed e e' t.name now v h in
      let same : qs' ≡ qs = ground arith in
      rw stored (
        create_task-Removed
          (put_queue (task_queue_of t.name) (remove_locked e.settings p now qs') e) t e.settings p
          now later qs (remove_locked e.settings p now qs') (queue_of_task e t.name at)
          (queue_locked-put_queue e (task_queue_of t.name) _)
          (subst (λ x. Removed e.settings p now t.name x (remove_locked e.settings p now qs')) same
            r)
          kept id fine)
