-- ===== src/Emulator/V2Beta3/Server.antt =====
-- emulator/v2beta3.go: the calls of google.cloud.tasks.v2beta3 on the engine. `P` stands for the IAM policy.
use cloud_tasks_emulator.Base.{ℕ, Option, List, map}
use cloud_tasks_emulator.Base.Int.{ℤ}
use cloud_tasks_emulator.Base.Bytes.{Bytes}
use cloud_tasks_emulator.Core.Status.{Result}
use cloud_tasks_emulator.Core.Types.{Time, Queue, Task, state_paused, state_running}
use cloud_tasks_emulator.Core.Retry.{Machine}
use cloud_tasks_emulator.Core.Queue.Attempts.{AttemptSnapshot, Outcome, Clock}
use cloud_tasks_emulator.Core.Engine.{Engine}
use cloud_tasks_emulator.Core.Engine.Queues.{
  create_queue, get_queue, list_queues, update_queue, delete_queue, purge_queue, set_queue_state,
}
use cloud_tasks_emulator.Core.Engine.Tasks.{
  create_task, get_task, list_tasks, delete_task, run_task,
}
use cloud_tasks_emulator.Core.Engine.Iam.{get_iam_policy, set_iam_policy, test_iam_permissions}
use cloud_tasks_emulator.Emulator.V2.Server.{result_as, reply_as}
use cloud_tasks_emulator.Emulator.V2Beta3.{
  V2Beta3Task, v2beta3_task_to_core, v2beta3_task_from_core,
}
use cloud_tasks_emulator.Emulator.V2Beta3.Targets.{Order}
use cloud_tasks_emulator.Emulator.V2Beta3.Queues.{
  V2Beta3Queue, v2beta3_queue_to_core, v2beta3_queue_from_core, v2beta3_queue_fields,
}

abbrev queue_page : Order → List Queue × Bytes → List V2Beta3Queue × Bytes
queue_page order (qs, next) = (map (v2beta3_queue_from_core order) qs, next)

abbrev task_page : ℕ → List Task × Bytes → List V2Beta3Task × Bytes
task_page view (ts, next) = (map (λ t. v2beta3_task_from_core t view) ts, next)

module _ {P : Type 0} where
  unfoldable pub v2beta3_list_queues :
      Order → Engine P → Bytes → ℤ → Bytes → Result (List V2Beta3Queue × Bytes)
  unfolding v2beta3_queue_from_core
  v2beta3_list_queues order e parent page_size page_token =
      result_as (queue_page order) (list_queues e parent page_size page_token)

  unfoldable pub v2beta3_get_queue : Order → Engine P → Bytes → Result V2Beta3Queue
  v2beta3_get_queue order e name = result_as (v2beta3_queue_from_core order) (get_queue e name)

  unfoldable pub v2beta3_create_queue :
      Order → Engine P → Bytes → Option V2Beta3Queue → Engine P × Result V2Beta3Queue
  v2beta3_create_queue order e parent q =
      reply_as (v2beta3_queue_from_core order) (create_queue e parent (v2beta3_queue_to_core q))

  unfoldable pub v2beta3_update_queue :
      Order → Engine P → Option V2Beta3Queue → List Bytes → Engine P × Result V2Beta3Queue
  v2beta3_update_queue order e q paths =
      reply_as (v2beta3_queue_from_core order)
        (update_queue e (v2beta3_queue_to_core q) (v2beta3_queue_fields paths))

  unfoldable pub v2beta3_delete_queue : Engine P → Bytes → Engine P × Result (Unit {0})
  v2beta3_delete_queue e name = reply_as (λ qs. tt) (delete_queue e name)

  unfoldable pub v2beta3_purge_queue :
      Order → Engine P → Bytes → Time → Engine P × Result V2Beta3Queue
  v2beta3_purge_queue order e name now =
      reply_as (v2beta3_queue_from_core order) (purge_queue e name now)

  unfoldable pub v2beta3_pause_queue : Order → Engine P → Bytes → Engine P × Result V2Beta3Queue
  v2beta3_pause_queue order e name =
      reply_as (v2beta3_queue_from_core order) (set_queue_state e name state_paused)

  unfoldable pub v2beta3_resume_queue : Order → Engine P → Bytes → Engine P × Result V2Beta3Queue
  v2beta3_resume_queue order e name =
      reply_as (v2beta3_queue_from_core order) (set_queue_state e name state_running)

  unfoldable pub v2beta3_list_tasks :
      Engine P → Bytes → ℕ → ℤ → Bytes → Result (List V2Beta3Task × Bytes)
  v2beta3_list_tasks e parent view page_size page_token =
      result_as (task_page view) (list_tasks e parent page_size page_token)

  unfoldable pub v2beta3_get_task : Engine P → Bytes → ℕ → Result V2Beta3Task
  v2beta3_get_task e name view = result_as (λ t. v2beta3_task_from_core t view) (get_task e name)

  unfoldable pub v2beta3_create_task :
      Engine P → Bytes → Option V2Beta3Task → ℕ → Time → Engine P × Result V2Beta3Task
  v2beta3_create_task e parent t view now =
      reply_as (λ t'. v2beta3_task_from_core t' view)
        (create_task e parent (v2beta3_task_to_core t) now)

  unfoldable pub v2beta3_delete_task : Engine P → Bytes → Time → Engine P × Result (Unit {0})
  v2beta3_delete_task e name now = delete_task e name now

  unfoldable pub v2beta3_run_task :
      Machine
      → (AttemptSnapshot → Outcome)
      → Engine P
      → Bytes
      → ℕ
      → Clock
      → Engine P × Result V2Beta3Task
  v2beta3_run_task mach dispatch e name view clock =
      reply_as (λ t. v2beta3_task_from_core t view) (run_task mach dispatch e name clock)

  unfoldable pub v2beta3_get_iam_policy : P → Engine P → Bytes → Result P
  v2beta3_get_iam_policy empty e resource = get_iam_policy empty e resource

  unfoldable pub v2beta3_set_iam_policy : P → Engine P → Bytes → Option P → Engine P × Result P
  v2beta3_set_iam_policy empty e resource policy = set_iam_policy empty e resource policy

  unfoldable pub v2beta3_test_iam_permissions : Engine P → Bytes → List Bytes → Result (List Bytes)
  v2beta3_test_iam_permissions e resource permissions = test_iam_permissions e resource permissions
