-- ===== src/Emulator/V2/Server.antt =====
-- emulator/v2.go: the calls of google.cloud.tasks.v2 on the engine. `P` stands for the IAM policy.
use cloud_tasks_emulator.Base.{ℕ, Option, List, map}
use cloud_tasks_emulator.Base.Int.{ℤ}
use cloud_tasks_emulator.Base.Bytes.{Bytes}
use cloud_tasks_emulator.Core.Status.{Result, ok, err}
use cloud_tasks_emulator.Core.Types.{Time, Queue, Task, state_paused, state_running}
use cloud_tasks_emulator.Core.Retry.{Machine}
use cloud_tasks_emulator.Core.Queue.Attempts.{AttemptSnapshot, Outcome, Clock}
use cloud_tasks_emulator.Core.Engine.{Engine}
use cloud_tasks_emulator.Core.Engine.Queues.{
  create_queue, get_queue, list_queues, update_queue, delete_queue, purge_queue, set_queue_state,
}
use cloud_tasks_emulator.Core.Engine.Tasks.{
  create_task, get_task, list_tasks, delete_task, run_task,
}
use cloud_tasks_emulator.Core.Engine.Iam.{get_iam_policy, set_iam_policy, test_iam_permissions}
use cloud_tasks_emulator.Emulator.V2.{V2Task, v2_task_to_core, v2_task_from_core}
use cloud_tasks_emulator.Emulator.V2.Queues.{
  V2Queue, v2_queue_to_core, v2_queue_from_core, v2_queue_fields,
}

-- `if err != nil { return nil, err }`, and the result converted.
abbrev pub result_as {ℓ μ} : {A : Type ℓ} {B : Type μ} → (A → B) → Result A → Result B
result_as f (err e) = err e
result_as f (ok a) = ok (f a)

abbrev pub reply_as {ℓ μ} :
    {S : Type 0} {A : Type ℓ} {B : Type μ} → (A → B) → S × Result A → S × Result B
reply_as f (e, r) = (e, result_as f r)

abbrev queue_page : List Queue × Bytes → List V2Queue × Bytes
queue_page (qs, next) = (map v2_queue_from_core qs, next)

abbrev task_page : ℕ → List Task × Bytes → List V2Task × Bytes
task_page view (ts, next) = (map (λ t. v2_task_from_core t view) ts, next)

module _ {P : Type 0} where
  unfoldable pub v2_list_queues : Engine P → Bytes → ℤ → Bytes → Result (List V2Queue × Bytes)
  unfolding v2_queue_from_core
  v2_list_queues e parent page_size page_token =
      result_as queue_page (list_queues e parent page_size page_token)

  unfoldable pub v2_get_queue : Engine P → Bytes → Result V2Queue
  v2_get_queue e name = result_as v2_queue_from_core (get_queue e name)

  unfoldable pub v2_create_queue : Engine P → Bytes → Option V2Queue → Engine P × Result V2Queue
  v2_create_queue e parent q =
      reply_as v2_queue_from_core (create_queue e parent (v2_queue_to_core q))

  unfoldable pub v2_update_queue :
      Engine P → Option V2Queue → List Bytes → Engine P × Result V2Queue
  v2_update_queue e q paths =
      reply_as v2_queue_from_core (update_queue e (v2_queue_to_core q) (v2_queue_fields paths))

  unfoldable pub v2_delete_queue : Engine P → Bytes → Engine P × Result (Unit {0})
  v2_delete_queue e name = reply_as (λ qs. tt) (delete_queue e name)

  unfoldable pub v2_purge_queue : Engine P → Bytes → Time → Engine P × Result V2Queue
  v2_purge_queue e name now = reply_as v2_queue_from_core (purge_queue e name now)

  unfoldable pub v2_pause_queue : Engine P → Bytes → Engine P × Result V2Queue
  v2_pause_queue e name = reply_as v2_queue_from_core (set_queue_state e name state_paused)

  unfoldable pub v2_resume_queue : Engine P → Bytes → Engine P × Result V2Queue
  v2_resume_queue e name = reply_as v2_queue_from_core (set_queue_state e name state_running)

  unfoldable pub v2_list_tasks : Engine P → Bytes → ℕ → ℤ → Bytes → Result (List V2Task × Bytes)
  v2_list_tasks e parent view page_size page_token =
      result_as (task_page view) (list_tasks e parent page_size page_token)

  unfoldable pub v2_get_task : Engine P → Bytes → ℕ → Result V2Task
  v2_get_task e name view = result_as (λ t. v2_task_from_core t view) (get_task e name)

  unfoldable pub v2_create_task :
      Engine P → Bytes → Option V2Task → ℕ → Time → Engine P × Result V2Task
  v2_create_task e parent t view now =
      reply_as (λ t'. v2_task_from_core t' view) (create_task e parent (v2_task_to_core t) now)

  unfoldable pub v2_delete_task : Engine P → Bytes → Time → Engine P × Result (Unit {0})
  v2_delete_task e name now = delete_task e name now

  unfoldable pub v2_run_task :
      Machine
      → (AttemptSnapshot → Outcome)
      → Engine P
      → Bytes
      → ℕ
      → Clock
      → Engine P × Result V2Task
  v2_run_task mach dispatch e name view clock =
      reply_as (λ t. v2_task_from_core t view) (run_task mach dispatch e name clock)

  unfoldable pub v2_get_iam_policy : P → Engine P → Bytes → Result P
  v2_get_iam_policy empty e resource = get_iam_policy empty e resource

  unfoldable pub v2_set_iam_policy : P → Engine P → Bytes → Option P → Engine P × Result P
  v2_set_iam_policy empty e resource policy = set_iam_policy empty e resource policy

  unfoldable pub v2_test_iam_permissions : Engine P → Bytes → List Bytes → Result (List Bytes)
  v2_test_iam_permissions e resource permissions = test_iam_permissions e resource permissions
