-- ===== src/Core/Engine/Calls.antt =====
-- Sequences of the calls and timer events that change the engine of core/engine.go.
use cloud_tasks_emulator.Base.{
  ℕ, ◌≡◌, ap, ◌∙◌, Option, none, some, List, [], ◌∷◌, Option-cases, inl, inr, Bool-cases,
}
use cloud_tasks_emulator.Base.Bytes.{Bytes}
use cloud_tasks_emulator.Base.Dict.{lookup, has}
use cloud_tasks_emulator.Core.Types.{Time, State, Queue, Task}
use cloud_tasks_emulator.Core.Naming.{parse_queue_name, queue_parent}
use cloud_tasks_emulator.Core.Retry.{Machine}
use cloud_tasks_emulator.Core.Queue.{QueueState, clear_tombstone}
use cloud_tasks_emulator.Core.Queue.Removal.{expire}
use cloud_tasks_emulator.Core.Queue.Attempts.{AttemptSnapshot, Outcome, Clock, fire, attempt}
use cloud_tasks_emulator.Core.Queue.Valid.{expire-IsValid, clear_tombstone-IsValid}
use cloud_tasks_emulator.Core.Queue.Outcomes.{fire-IsValid, attempt-IsValid}
use cloud_tasks_emulator.Core.Queue.Frames.{attempt-q, fire-q, expire-q, clear_tombstone-q}
use cloud_tasks_emulator.Core.Engine.{Engine, QueueField, Config, new_engine, put_queue}
use cloud_tasks_emulator.Core.Engine.Queues.{
  create_queue, update_queue, delete_queue, purge_queue, set_queue_state, ensure_queue, queue_named,
}
use cloud_tasks_emulator.Core.Engine.Tasks.{create_task, delete_task, run_task}
use cloud_tasks_emulator.Core.Engine.Iam.{set_iam_policy}
use cloud_tasks_emulator.Core.Engine.Valid.{
  Fits, EngineIsValid, put_queue-IsValid, reply-IsValid, try_create_queue-Keeps,
  try_update_queue-Keeps, try_delete_queue-Keeps, try_purge_queue-Keeps, try_set_queue_state-Keeps,
}
use cloud_tasks_emulator.Core.Engine.Kept.{
  settle-IsValid, try_create_task-Settles, try_delete_task-Keeps, try_run_task-Keeps,
  try_set_iam_policy-Keeps,
}

-- A call with its arguments, or an event of a timer of the named queue. `delivers` is the attempt
-- that follows a timer once the limiter and the semaphore let it through.
pub data Call (P : Type 0) : Type 0 where
  creates_queue : Bytes → Option Queue → Call P
  updates_queue : Option Queue → List QueueField → Call P
  deletes_queue : Bytes → Call P
  purges_queue : Bytes → Time → Call P
  sets_state : Bytes → State → Call P
  ensures_queue : Bytes → Call P
  creates_task : Bytes → Option Task → Time → Call P
  deletes_task : Bytes → Time → Call P
  runs_task : Bytes → (AttemptSnapshot → Outcome) → Clock → Call P
  sets_policy : Bytes → Option P → Call P
  fires_task : Bytes → ℕ → Time → Call P
  delivers : Bytes → ℕ → (AttemptSnapshot → Outcome) → Clock → Call P
  expires_task : Bytes → ℕ → Time → Call P
  clears_name : Bytes → Bytes → Time → Call P

name_of_q : (a b : QueueState) {name : Bytes} → a.q ≡ b.q → b.q.name ≡ name → a.q.name ≡ name
name_of_q a b e named = ap (λ (q : Queue). q.name) e ∙ named

module _ {P : Type 0} where
  -- An event of a queue that is gone reaches nobody.
  abbrev pub on_queue : Bytes → (QueueState → QueueState) → Option QueueState → Engine P → Engine P
  on_queue name f none e = e
  on_queue name f (some qs) e = put_queue name (f qs) e

  abbrev pub in_queue : Bytes → (QueueState → QueueState) → Engine P → Engine P
  in_queue name f e = on_queue name f (lookup name e.queues) e

  unfoldable pub step : Machine → P → Engine P → Call P → Engine P
  step mach empty e (creates_queue parent q) = (create_queue e parent q).0
  step mach empty e (updates_queue q fields) = (update_queue e q fields).0
  step mach empty e (deletes_queue name) = (delete_queue e name).0
  step mach empty e (purges_queue name now) = (purge_queue e name now).0
  step mach empty e (sets_state name st) = (set_queue_state e name st).0
  step mach empty e (ensures_queue name) = (ensure_queue e name).0
  step mach empty e (creates_task parent t now) = (create_task e parent t now).0
  step mach empty e (deletes_task name now) = (delete_task e name now).0
  step mach empty e (runs_task name dispatch clock) = (run_task mach dispatch e name clock).0
  step mach empty e (sets_policy resource policy) = (set_iam_policy empty e resource policy).0
  step mach empty e (fires_task name p now) = in_queue name (λ qs. (fire p now qs).0) e
  step mach empty e (delivers name p dispatch clock) =
      in_queue name (attempt e.settings mach dispatch p clock) e
  step mach empty e (expires_task name p now) = in_queue name (expire e.settings p now) e
  step mach empty e (clears_name name task now) = in_queue name (clear_tombstone task now) e

  unfoldable pub run : Machine → P → Engine P → List (Call P) → Engine P
  run mach empty e [] = e
  run mach empty e (c ∷ cs) = run mach empty (step mach empty e c) cs

  in_queue-IsValid :
      (name : Bytes) (f : QueueState → QueueState) (e : Engine P)
      → ((qs : QueueState) → Fits name qs → Fits name (f qs))
      → EngineIsValid e
      → EngineIsValid (in_queue name f e)
  in_queue-IsValid name f e keep v = elim (Option-cases (lookup name e.queues)) [
    | inl h ↦ rw h v
    | inr (qs, h) ↦ rw h (put_queue-IsValid name (f qs) e (keep qs (v.queue name qs h)) v)
  ]

  create_queue-IsValid :
      (e : Engine P) (parent : Bytes) (given : Option Queue)
      → EngineIsValid e
      → EngineIsValid (create_queue e parent given).0
  unfolding create_queue
  create_queue-IsValid e parent given v =
      reply-IsValid e _ v (try_create_queue-Keeps e parent given v)

  ensure_queue-IsValid :
      (e : Engine P) (name : Bytes) → EngineIsValid e → EngineIsValid (ensure_queue e name).0
  unfolding ensure_queue
  ensure_queue-IsValid e name v = elim (Option-cases (parse_queue_name name)) [
    | inl h ↦ rw (h, ensure_queue) v
    | inr (parts, h) ↦ elim (Bool-cases (has name e.queues)) [
      | inl old ↦ rw (h, ensure_queue, old) v
      | inr new ↦
          rw (h, ensure_queue, new)
            (create_queue-IsValid e (queue_parent name) (some (queue_named name)) v)
    ]
  ]

  -- Every call and every timer event keeps the engine valid.
  pub step-IsValid :
      (mach : Machine) (empty : P) (e : Engine P) (c : Call P)
      → EngineIsValid e
      → EngineIsValid (step mach empty e c)
  unfolding step update_queue delete_queue purge_queue set_queue_state create_task delete_task
      run_task set_iam_policy
  step-IsValid mach empty e (creates_queue parent q) v = create_queue-IsValid e parent q v
  step-IsValid mach empty e (updates_queue q fields) v =
      reply-IsValid e _ v (try_update_queue-Keeps e q fields v)
  step-IsValid mach empty e (deletes_queue name) v =
      reply-IsValid e _ v (try_delete_queue-Keeps e name v)
  step-IsValid mach empty e (purges_queue name now) v =
      reply-IsValid e _ v (try_purge_queue-Keeps e name now v)
  step-IsValid mach empty e (sets_state name st) v =
      reply-IsValid e _ v (try_set_queue_state-Keeps e name st v)
  step-IsValid mach empty e (ensures_queue name) v = ensure_queue-IsValid e name v
  step-IsValid mach empty e (creates_task parent t now) v =
      settle-IsValid e _ v (try_create_task-Settles e parent t now v)
  step-IsValid mach empty e (deletes_task name now) v =
      reply-IsValid e _ v (try_delete_task-Keeps e name now v)
  step-IsValid mach empty e (runs_task name dispatch clock) v =
      reply-IsValid e _ v (try_run_task-Keeps mach dispatch e name clock v)
  step-IsValid mach empty e (sets_policy resource policy) v =
      reply-IsValid e _ v (try_set_iam_policy-Keeps empty e resource policy v)
  step-IsValid mach empty e (fires_task name p now) v =
      in_queue-IsValid name _ e
        (λ qs f. record {
          valid = fire-IsValid p now qs f.valid;
          named = name_of_q (fire p now qs).0 qs (fire-q p now qs) f.named;
        })
        v
  step-IsValid mach empty e (delivers name p dispatch clock) v =
      in_queue-IsValid name _ e
        (λ qs f. record {
          valid = attempt-IsValid e.settings mach dispatch p clock qs f.valid;
          named =
              name_of_q (attempt e.settings mach dispatch p clock qs) qs
                (attempt-q e.settings mach dispatch p clock qs) f.named;
        })
        v
  step-IsValid mach empty e (expires_task name p now) v =
      in_queue-IsValid name _ e
        (λ qs f. record {
          valid = expire-IsValid e.settings p now qs f.valid;
          named = name_of_q (expire e.settings p now qs) qs (expire-q e.settings p now qs) f.named;
        })
        v
  step-IsValid mach empty e (clears_name name task now) v =
      in_queue-IsValid name _ e
        (λ qs f. record {
          valid = clear_tombstone-IsValid task now qs f.valid;
          named =
              name_of_q (clear_tombstone task now qs) qs (clear_tombstone-q task now qs) f.named;
        })
        v

  run-IsValid :
      (mach : Machine) (empty : P) (e : Engine P) (cs : List (Call P))
      → EngineIsValid e
      → EngineIsValid (run mach empty e cs)
  unfolding run
  run-IsValid mach empty e [] v = v
  run-IsValid mach empty e (c ∷ cs) v =
      run-IsValid mach empty (step mach empty e c) cs (step-IsValid mach empty e c v)

  -- Whatever the calls and the timers do, and in whatever order, from a new engine on: every queue
  -- is stored under its own name; in it a task name leads to a task state exactly when that state
  -- has the name and is not removed; the armed timers have numbers that were given out; and the
  -- current semaphore exists.
  pub run-new_engine-IsValid :
      (mach : Machine) (empty : P) (cfg : Config) (cs : List (Call P))
      → EngineIsValid (run mach empty (new_engine cfg) cs)
  unfolding new_engine lookup
  run-new_engine-IsValid mach empty cfg cs =
      run-IsValid mach empty (new_engine cfg) cs (record { queue = λ name qs h. cc })
