-- ===== src/Core/Engine.antt =====
-- core/engine.go: the engine's maps of queues and policies, and the operations on queues and IAM
-- policies. `P` stands for the IAM policy message, which the engine copies and stores whole. An
-- operation runs as one step; the lock that the source takes more than once in it is not modelled.
pub mod Queues
pub mod Tasks
pub mod Iam
pub mod Valid
pub mod Kept
pub mod Calls
pub mod Lifecycle
pub mod Created
pub mod Reserved
pub mod Policies
pub mod Made
pub mod Updated
use cloud_tasks_emulator.Base.{
  ℕ, ◌*◌, Bool, true, false, not, Option, none, some, List, [], ◌∷◌, length, or_else, if◌then◌else◌,
}
use cloud_tasks_emulator.Base.Int.{ℤ, pos, eq_ℤ}
use cloud_tasks_emulator.Base.Bytes.{Bytes, bytes_eq, is_empty}
use cloud_tasks_emulator.Base.Dict.{Dict, lookup, insert, delete, has, keys}
use cloud_tasks_emulator.Std.Sort.{sort_strings}
use cloud_tasks_emulator.Core.Status.{
  Result, ok, err, fail, ◌>>=◌, ◌>>◌, reject_if, or_fail, invalid_argument, already_exists,
  not_found, invalid_parent, queue_name_required, invalid_queue_name, invalid_queue_id,
  name_not_parent, queue_exists, queue_not_found, invalid_resource, invalid_task_name,
}
use cloud_tasks_emulator.Core.Limits.{hour, apply_queue_defaults, default_ℤ}
use cloud_tasks_emulator.Core.Naming.{
  parse_location_name, parse_queue_name, parse_task_name, matches_queue_id_re, queue_parent,
  queue_id, task_queue_of,
}
use cloud_tasks_emulator.Core.Page.{paginate, max_list_queues_page_size}
use cloud_tasks_emulator.Core.Types.{Time, Duration, State, Queue, state_running}
use cloud_tasks_emulator.Core.Float.{Float64, finite}
use cloud_tasks_emulator.Core.Queue.{Settings, QueueState, rebuild_limits, new_queue_state}
use cloud_tasks_emulator.Core.Queue.Removal.{purge, stop}

-- The signing issuer is left to the signer, which is not modelled.
pub record Config : Type 0 where
  pub default_app_engine_host : Bytes
  pub task_ttl : Duration
  pub tombstone_ttl : Duration
  pub hard_reset_on_purge : Bool

pub record Engine (P : Type 0) : Type 0 where
  pub queues : Dict QueueState
  pub policies : Dict P
  pub default_app_engine_host : Bytes
  pub settings : Settings

unfoldable pub new_engine : {P : Type 0} → Config → Engine P
new_engine cfg = record {
  queues = [];
  policies = [];
  default_app_engine_host = cfg.default_app_engine_host;
  settings = record {
    task_ttl = default_ℤ cfg.task_ttl (pos (31 * 24 * hour));
    tombstone_ttl = default_ℤ cfg.tombstone_ttl (pos (24 * hour));
    hard_reset_on_purge = cfg.hard_reset_on_purge;
  };
}

pub data QueueField : Type 0 where
  field_rate_limits field_retry_config : QueueField
  field_app_engine_routing_override field_http_override : QueueField

-- The queue is stored back under its name.
abbrev pub put_queue : {P : Type 0} → Bytes → QueueState → Engine P → Engine P
put_queue name qs e = record e { queues = insert name qs e.queues }

-- An operation that fails leaves the engine as it was.
abbrev pub reply : {P A : Type 0} → Engine P → Result (Engine P × A) → Engine P × Result A
reply e (ok (e', a)) = (e', ok a)
reply e (err x) = (e, err x)

unfoldable pub queue_locked : {P : Type 0} → Engine P → Bytes → Result QueueState
queue_locked e name = or_fail (lookup name e.queues) not_found (queue_not_found name)

-- The queue that a task name belongs to.
unfoldable pub task_queue : {P : Type 0} → Engine P → Bytes → Result QueueState
unfolding queue_locked
task_queue e name = do
  _ ← or_fail (parse_task_name name) invalid_argument (invalid_task_name name)
  queue_locked e (task_queue_of name)

-- A copy of the queue, with the number of its tasks.
unfoldable pub snapshot : QueueState → Queue
snapshot qs = record qs.q { tasks_count = length qs.tasks }
