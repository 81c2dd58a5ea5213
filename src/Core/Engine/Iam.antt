-- ===== src/Core/Engine/Iam.antt =====
-- The IAM operations of core/engine.go. `P` is the policy message, `empty_policy` its zero value.
use cloud_tasks_emulator.Base.{Option, List, or_else}
use cloud_tasks_emulator.Base.Bytes.{Bytes}
use cloud_tasks_emulator.Base.Dict.{lookup, insert}
use cloud_tasks_emulator.Core.Status.{
  Result, ok, ◌>>=◌, or_fail, invalid_argument, invalid_resource,
}
use cloud_tasks_emulator.Core.Naming.{parse_queue_name}
use cloud_tasks_emulator.Core.Queue.{QueueState}
use cloud_tasks_emulator.Core.Engine.{Engine, reply, queue_locked}

module _ {P : Type 0} where
  -- The resource has to be an existing queue.
  unfoldable pub resource_queue : Engine P → Bytes → Result QueueState
  resource_queue e resource = do
    _ ← or_fail (parse_queue_name resource) invalid_argument (invalid_resource resource)
    queue_locked e resource

  unfoldable pub get_iam_policy : P → Engine P → Bytes → Result P
  get_iam_policy empty_policy e resource = do
    _ ← resource_queue e resource
    ok (or_else (lookup resource e.policies) empty_policy)

  -- A missing policy is stored as the empty one.
  unfoldable pub try_set_iam_policy : P → Engine P → Bytes → Option P → Result (Engine P × P)
  try_set_iam_policy empty_policy e resource policy = do
    _ ← resource_queue e resource
    let stored = or_else policy empty_policy
    ok (record e { policies = insert resource stored e.policies }, stored)

  unfoldable pub set_iam_policy : P → Engine P → Bytes → Option P → Engine P × Result P
  set_iam_policy empty_policy e resource policy =
      reply e (try_set_iam_policy empty_policy e resource policy)

  unfoldable pub test_iam_permissions : Engine P → Bytes → List Bytes → Result (List Bytes)
  test_iam_permissions e resource permissions = do _ ← resource_queue e resource; ok permissions
