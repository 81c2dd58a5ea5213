-- ===== src/Core/Engine/Queues.antt =====
-- The operations on queues of core/engine.go.
use cloud_tasks_emulator.Base.{false, not, Option, none, some, List, [], ◌∷◌, if◌then◌else◌}
use cloud_tasks_emulator.Base.Int.{ℤ, pos}
use cloud_tasks_emulator.Base.Bytes.{Bytes, bytes_eq, is_empty}
use cloud_tasks_emulator.Base.Dict.{Dict, lookup, delete, has}
use cloud_tasks_emulator.Std.Sort.{sort_strings}
use cloud_tasks_emulator.Core.Status.{
  Result, ok, err, fail, ◌>>=◌, ◌>>◌, reject_if, or_fail, invalid_argument, already_exists,
  invalid_parent, queue_name_required, invalid_queue_name, invalid_queue_id, name_not_parent,
  queue_exists,
}
use cloud_tasks_emulator.Core.Limits.{apply_queue_defaults}
use cloud_tasks_emulator.Core.Float.{finite}
use cloud_tasks_emulator.Core.Naming.{
  parse_location_name, parse_queue_name, matches_queue_id_re, queue_parent, queue_id,
}
use cloud_tasks_emulator.Core.Page.{paginate, max_list_queues_page_size}
use cloud_tasks_emulator.Core.Types.{Time, State, state_running, Queue}
use cloud_tasks_emulator.Core.Queue.{QueueState, rebuild_limits, new_queue_state}
use cloud_tasks_emulator.Core.Queue.Removal.{purge, stop}
use cloud_tasks_emulator.Core.Engine.{
  Engine, QueueField, field_rate_limits, field_retry_config, field_app_engine_routing_override,
  field_http_override, put_queue, reply, queue_locked, snapshot,
}

-- `q == nil || q.Name == ""`.
abbrev pub named : Option Queue → Result Queue
named none = fail invalid_argument queue_name_required
named (some q) = if is_empty q.name then fail invalid_argument queue_name_required else ok q

-- The checks that CreateQueue and UpdateQueue share.
unfoldable pub check_queue : Option Queue → Result Queue
check_queue given = do
  q ← named given
  _ ← or_fail (parse_queue_name q.name) invalid_argument (invalid_queue_name q.name)
  reject_if (not (matches_queue_id_re (queue_id q.name))) invalid_argument
      (invalid_queue_id (queue_id q.name))
  ok q

-- The names of the parent's queues.
unfoldable pub names_of : Bytes → Dict QueueState → List Bytes
names_of parent [] = []
names_of parent ((name, qs) ∷ m) =
    if bytes_eq (queue_parent name) parent then name ∷ names_of parent m else names_of parent m

-- The queues of a page; every name on it is one of the map.
unfoldable pub queues_of : List Bytes → Dict QueueState → List Queue
queues_of [] m = []
queues_of (name ∷ names) m = elim (lookup name m) [
  | none ↦ queues_of names m
  | some qs ↦ snapshot qs ∷ queues_of names m
]

-- One round of the loop over the fields of an update mask.
abbrev pub set_field : Queue → QueueField → Queue → Queue
set_field q field_rate_limits old = record old { rate_limits = q.rate_limits }
set_field q field_retry_config old = record old { retry_config = q.retry_config }
set_field q field_app_engine_routing_override old = record old {
  app_engine_routing_override = q.app_engine_routing_override;
}
set_field q field_http_override old = record old { http_override = q.http_override }

unfoldable pub set_fields : Queue → List QueueField → Queue → Queue
set_fields q [] old = old
set_fields q (f ∷ fs) old = set_fields q fs (set_field q f old)

-- An empty mask means every field.
abbrev pub mask : List QueueField → List QueueField
mask [] =
    field_rate_limits ∷ field_retry_config ∷ field_app_engine_routing_override ∷ field_http_override
    ∷ []
mask (f ∷ fs) = f ∷ fs

unfoldable pub update_state : Queue → List QueueField → QueueState → QueueState
update_state q fields qs =
    rebuild_limits (record qs { q = apply_queue_defaults (set_fields q (mask fields) qs.q) })

module _ {P : Type 0} where
  -- A queue state is made from the defaulted queue and stored.
  abbrev pub store_new : Engine P → Queue → Engine P × Queue
  store_new e q =
      let qs = new_queue_state (apply_queue_defaults q) in (put_queue q.name qs e, snapshot qs)

  unfoldable pub try_create_queue : Engine P → Bytes → Option Queue → Result (Engine P × Queue)
  try_create_queue e parent given = do
    _ ← or_fail (parse_location_name parent) invalid_argument (invalid_parent parent)
    q ← check_queue given
    reject_if (not (bytes_eq (queue_parent q.name) parent)) invalid_argument name_not_parent
    reject_if (has q.name e.queues) already_exists (queue_exists q.name)
    ok (store_new e q)

  unfoldable pub create_queue : Engine P → Bytes → Option Queue → Engine P × Result Queue
  create_queue e parent given = reply e (try_create_queue e parent given)

  unfoldable pub get_queue : Engine P → Bytes → Result Queue
  get_queue e name = do qs ← queue_locked e name; ok (snapshot qs)

  unfoldable pub list_queues : Engine P → Bytes → ℤ → Bytes → Result (List Queue × Bytes)
  list_queues e parent page_size page_token = do
    _ ← or_fail (parse_location_name parent) invalid_argument (invalid_parent parent)
    (page, next) ←
        paginate (sort_strings (names_of parent e.queues)) page_size page_token
          max_list_queues_page_size
    ok (queues_of page e.queues, next)

  -- A queue that does not exist is created.
  abbrev pub update_found :
      Engine P → Queue → List QueueField → Option QueueState → Engine P × Queue
  update_found e q fields none = store_new e q
  update_found e q fields (some qs) =
      let updated = update_state q fields qs in (put_queue q.name updated e, snapshot updated)

  unfoldable pub try_update_queue :
      Engine P → Option Queue → List QueueField → Result (Engine P × Queue)
  try_update_queue e given fields = do
    q ← check_queue given
    ok (update_found e q fields (lookup q.name e.queues))

  unfoldable pub update_queue : Engine P → Option Queue → List QueueField → Engine P × Result Queue
  update_queue e given fields = reply e (try_update_queue e given fields)

  -- The timers of the queue are stopped, and the engine forgets it and its policy. What is still in
  -- flight for it finds its task removed.
  unfoldable pub try_delete_queue : Engine P → Bytes → Result (Engine P × QueueState)
  try_delete_queue e name = do
    qs ← queue_locked e name
    ok (record e { queues = delete name e.queues; policies = delete name e.policies }, stop qs)

  unfoldable pub delete_queue : Engine P → Bytes → Engine P × Result QueueState
  delete_queue e name = reply e (try_delete_queue e name)

  unfoldable pub try_purge_queue : Engine P → Bytes → Time → Result (Engine P × Queue)
  try_purge_queue e name now = do
    qs ← queue_locked e name
    let purged = purge e.settings now qs
    ok (put_queue name purged e, snapshot purged)

  unfoldable pub purge_queue : Engine P → Bytes → Time → Engine P × Result Queue
  purge_queue e name now = reply e (try_purge_queue e name now)

  unfoldable pub try_set_queue_state : Engine P → Bytes → State → Result (Engine P × Queue)
  try_set_queue_state e name st = do
    qs ← queue_locked e name
    let changed = record qs { q = record qs.q { state = st } }
    ok (put_queue name changed e, snapshot changed)

  unfoldable pub set_queue_state : Engine P → Bytes → State → Engine P × Result Queue
  set_queue_state e name st = reply e (try_set_queue_state e name st)

-- The queue that EnsureQueue creates: a name and zero values.
abbrev pub queue_named : Bytes → Queue
queue_named name = record {
  name = name;
  state = state_running;
  rate_limits = record {
    max_dispatches_per_second = finite (pos 0);
    max_burst_size = pos 0;
    max_concurrent_dispatches = pos 0;
  };
  retry_config = record {
    max_attempts = pos 0;
    max_retry_duration = pos 0;
    min_backoff = pos 0;
    max_backoff = pos 0;
    max_doublings = pos 0;
  };
  task_ttl = pos 0;
  tombstone_ttl = pos 0;
  pull = false;
  app_engine_routing_override = none;
  http_override = none;
  purge_time = 0;
  tasks_count = 0;
}

-- An error of CreateQueue is passed on; nothing else is returned.
abbrev pub error_of {ℓ} : {A : Type ℓ} → Result A → Result (Unit {0})
error_of (ok a) = ok tt
error_of (err x) = err x

unfoldable pub ensure_queue : {P : Type 0} → Engine P → Bytes → Engine P × Result (Unit {0})
ensure_queue e name = elim (parse_queue_name name) [
  | none ↦ (e, fail invalid_argument (invalid_queue_name name))
  | some parts ↦
      if has name e.queues
      then (e, ok tt)
      else (let (e', r) = create_queue e (queue_parent name) (some (queue_named name)) in
          (e', error_of r))
]
