-- ===== src/Core/Engine/Kept.antt =====
-- The operations on tasks and policies of core/engine.go keep the engine's invariant.
use cloud_tasks_emulator.Base.{
  ◌≡◌, refl, ap, ◌∙◌, false, Option, none, some, ◌∷◌, [], get_elem?, arith, is_some,
}
use cloud_tasks_emulator.Base.Bytes.{Bytes}
use cloud_tasks_emulator.Base.Dict.{lookup, has}
use cloud_tasks_emulator.Core.Status.{
  Result, ok, err, Ensures, on_ok, Ensures-bind, Ensures-elim, or_fail-eq-ok, reject_if-eq-ok,
}
use cloud_tasks_emulator.Core.Naming.{task_queue_of}
use cloud_tasks_emulator.Core.Types.{Time, Task, Queue}
use cloud_tasks_emulator.Core.Retry.{Machine}
use cloud_tasks_emulator.Core.Queue.{Settings, TaskState, QueueState}
use cloud_tasks_emulator.Core.Queue.Removal.{remove_locked}
use cloud_tasks_emulator.Core.Queue.Attempts.{AttemptSnapshot, Outcome, Clock, attempt}
use cloud_tasks_emulator.Core.Queue.Links.{live_name, name_of}
use cloud_tasks_emulator.Core.Queue.Valid.{
  IsValid, add_task-IsValid, remove_locked-IsValid, Below-stop_timer,
}
use cloud_tasks_emulator.Core.Queue.Outcomes.{modify-IsValid, attempt-IsValid}
use cloud_tasks_emulator.Core.Queue.Frames.{add_task-q, remove_locked-q, attempt-q}
use cloud_tasks_emulator.Core.Engine.{Engine, task_queue}
use cloud_tasks_emulator.Core.Engine.Tasks.{
  next_task_id, counted, stamped, fresh_state, insert_task, or_keep, settle, find_task, begin_run,
  try_create_task, try_delete_task, try_run_task,
}
use cloud_tasks_emulator.Core.Engine.Iam.{try_set_iam_policy}
use cloud_tasks_emulator.Core.Engine.Valid.{
  Fits, EngineIsValid, Keeps, put_queue-IsValid, queue_locked-Ensures,
}

absent : {A : Type 0} (o : Option A) → is_some o ≡ false → o ≡ none
absent none h = refl
absent (some a) h = cc

-- A task that is inserted keeps its queue valid; its name was free.
pub insert_task-Ensures :
    (s : Settings) (now : Time) (t : Task) (name : Bytes) (qs : QueueState)
    → Fits name qs
    → Ensures (Fits name) (insert_task s now t qs)
unfolding insert_task
insert_task-Ensures s now t name qs f = Ensures-bind λ _ h. Ensures-bind λ _ _. on_ok (record {
  valid =
      add_task-IsValid s now (fresh_state t) qs refl
        (absent (lookup t.name qs.tasks)
          (unfold has in reject_if-eq-ok (has t.name qs.tasks) _ _ h))
        f.valid;
  named = ap (λ (q : Queue). q.name) (add_task-q s now (fresh_state t) qs) ∙ f.named;
})

pub or_keep-Fits :
    (name : Bytes) (r : Result QueueState) (qs : QueueState)
    → Ensures (Fits name) r
    → Fits name qs
    → Fits name (or_keep r qs)
or_keep-Fits name (ok us) qs (on_ok h) f = h
or_keep-Fits name (err x) qs h f = f

counted-Fits :
    (name provided : Bytes) (now : Time) (qs : QueueState)
    → Fits name qs
    → Fits name (counted provided now qs)
unfolding next_task_id
counted-Fits name [] now qs f = record {
  valid = record { links = f.valid.links; numbered = f.valid.numbered; gate = f.valid.gate };
  named = f.named;
}
counted-Fits name (c ∷ s) now qs f = f

name_of-eq-some :
    (ts : TaskState) {name : Bytes}
    → name_of ts ≡ some name
    → (ts.removed ≡ false) × (ts.t.name ≡ name)
name_of-eq-some ts h = ground arith

-- What a name of the map leads to.
pub find_task-Ensures :
    (name : Bytes) (qs : QueueState)
    → IsValid qs
    → Ensures
        (λ r.
          (lookup name qs.tasks ≡ some r.0)
          × (get_elem? qs.heap r.0 ≡ some r.1)
          × (r.1.removed ≡ false)
          × (r.1.t.name ≡ name))
        (find_task name qs)
unfolding find_task
find_task-Ensures name qs v = Ensures-bind λ p hp. Ensures-bind λ ts ht.
    let found : lookup name qs.tasks ≡ some p = or_fail-eq-ok _ _ _ hp in
    let at : get_elem? qs.heap p ≡ some ts = or_fail-eq-ok _ _ _ ht in
    let (live, named) =
      name_of-eq-some ts {name = name} (rw (at, live_name) at (v.links.points name p found)) in
    on_ok (found, at, live, named)

module _ {P : Type 0} where
  abbrev Settles : {A : Type 0} → Result (Engine P × Result A) → Type 0
  Settles = Ensures (λ r. EngineIsValid r.0)

  pub settle-IsValid :
      {A : Type 0} (e : Engine P) (r : Result (Engine P × Result A))
      → EngineIsValid e
      → Settles r
      → EngineIsValid (settle e r).0
  settle-IsValid e (ok (e', a)) v (on_ok h) = h
  settle-IsValid e (err x) v h = v

  pub try_create_task-Settles :
      (e : Engine P) (parent : Bytes) (given : Option Task) (now : Time)
      → EngineIsValid e
      → Settles (try_create_task e parent given now)
  unfolding try_create_task
  try_create_task-Settles e parent given now v = Ensures-bind λ _ _. Ensures-bind λ t _.
      Ensures-bind λ _ _. Ensures-bind λ qs h. Ensures-bind λ name _.
        let f =
          counted-Fits parent t.name now qs (Ensures-elim (queue_locked-Ensures e parent v) h) in
        let inserted = insert_task-Ensures e.settings now (stamped now name t) parent _ f in
        on_ok (put_queue-IsValid parent _ e (or_keep-Fits parent _ _ inserted f) v)

  pub task_queue-Ensures :
      (e : Engine P) (name : Bytes)
      → EngineIsValid e
      → Ensures (Fits (task_queue_of name)) (task_queue e name)
  unfolding task_queue
  task_queue-Ensures e name v = Ensures-bind λ _ _. queue_locked-Ensures e (task_queue_of name) v

  pub try_delete_task-Keeps :
      (e : Engine P) (name : Bytes) (now : Time)
      → EngineIsValid e
      → Keeps (try_delete_task e name now)
  unfolding try_delete_task
  try_delete_task-Keeps e name now v = Ensures-bind λ qs h. Ensures-bind λ found g.
      let f = Ensures-elim (task_queue-Ensures e name v) h in
      let (_, at, live, _) = Ensures-elim (find_task-Ensures name qs f.valid) g in
      on_ok (
        put_queue-IsValid (task_queue_of name) (remove_locked e.settings found.0 now qs) e
          (record {
            valid = remove_locked-IsValid e.settings found.0 now found.1 qs at live f.valid;
            named =
                ap (λ (q : Queue). q.name) (remove_locked-q e.settings found.0 now qs) ∙ f.named;
          })
          v)

pub begin_run-Ensures :
    (name queue : Bytes) (now : Time) (qs : QueueState)
    → Fits queue qs
    → Ensures (λ r. Fits queue r.1) (begin_run name now qs)
unfolding begin_run
begin_run-Ensures name queue now qs f = Ensures-bind λ _ _. Ensures-bind λ found g.
    Ensures-bind λ _ _.
      let (_, at, live, _) = Ensures-elim (find_task-Ensures name qs f.valid) g in
      let due =
        modify-IsValid qs found.0 (λ x. record x { t = record (found.1.t) { schedule_time = now } })
          found.1 at refl f.valid in
      on_ok (record {
        valid = record {
          links = due.links;
          numbered = Below-stop_timer qs.next_timer found.1.timer qs.timers f.valid.numbered;
          gate = f.valid.gate;
        };
        named = f.named;
      })

module _ {P : Type 0} where
  pub try_run_task-Keeps :
      (mach : Machine) (dispatch : AttemptSnapshot → Outcome) (e : Engine P) (name : Bytes)
      (clock : Clock)
      → EngineIsValid e
      → Keeps (try_run_task mach dispatch e name clock)
  unfolding try_run_task
  try_run_task-Keeps mach dispatch e name clock v = Ensures-bind λ qs h. Ensures-bind λ begun g.
      Ensures-bind λ _ _.
        let f = Ensures-elim (task_queue-Ensures e name v) h in
        let b = Ensures-elim (begin_run-Ensures name (task_queue_of name) clock.began qs f) g in
        on_ok (
          put_queue-IsValid (task_queue_of name)
            (attempt e.settings mach dispatch begun.0 clock begun.1) e
            (record {
              valid = attempt-IsValid e.settings mach dispatch begun.0 clock begun.1 b.valid;
              named =
                  ap (λ (q : Queue). q.name)
                    (attempt-q e.settings mach dispatch begun.0 clock begun.1)
                  ∙ b.named;
            })
            v)

  pub try_set_iam_policy-Keeps :
      (empty_policy : P) (e : Engine P) (resource : Bytes) (policy : Option P)
      → EngineIsValid e
      → Keeps (try_set_iam_policy empty_policy e resource policy)
  unfolding try_set_iam_policy
  try_set_iam_policy-Keeps empty_policy e resource policy v =
      Ensures-bind λ _ _. on_ok (record { queue = v.queue })
