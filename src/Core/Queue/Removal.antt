-- ===== src/Core/Queue/Removal.antt =====
-- The ways out of a queue in core/queue.go: removal, expiry, purge and stop. The source walks its map
-- of tasks in no set order; here it is the order of the dictionary.
use cloud_tasks_emulator.Base.{ℕ, true, none, some, [], ◌∷◌, if◌then◌else◌, get_elem?}
use cloud_tasks_emulator.Base.Dict.{Dict, delete}
use cloud_tasks_emulator.Core.Types.{Time}
use cloud_tasks_emulator.Core.Queue.{
  Settings, TaskState, QueueState, modify, stop_timer, tombstone_locked,
}

abbrev pub mark_removed : TaskState → TaskState
mark_removed ts = record ts { removed = true }

-- `removed = true`, and both timers are stopped.
unfoldable pub retire : ℕ → TaskState → QueueState → QueueState
unfolding modify stop_timer
retire p ts qs = record qs {
  heap = modify qs.heap p mark_removed;
  timers = stop_timer ts.ttl_timer (stop_timer ts.timer qs.timers);
}

-- The task leaves the map as well.
unfoldable pub unlink : ℕ → TaskState → QueueState → QueueState
unfolding retire
unlink p ts qs =
    let retired = retire p ts qs in record retired { tasks = delete ts.t.name retired.tasks }

unfoldable pub remove_state : Settings → ℕ → Time → TaskState → QueueState → QueueState
unfolding unlink tombstone_locked
remove_state s p now ts qs = tombstone_locked s ts.t.name now (unlink p ts qs)

unfoldable pub remove_locked : Settings → ℕ → Time → QueueState → QueueState
unfolding remove_state
remove_locked s p now qs = elim (get_elem? qs.heap p) [
  | none ↦ qs
  | some ts ↦ remove_state s p now ts qs
]

unfoldable pub expire : Settings → ℕ → Time → QueueState → QueueState
unfolding remove_state
expire s p now qs = elim (get_elem? qs.heap p) [
  | none ↦ qs
  | some ts ↦ if ts.removed then qs else remove_state s p now ts qs
]

-- One round of the loop of `purge`.
unfoldable pub purge_one : Settings → Time → ℕ → QueueState → QueueState
unfolding retire tombstone_locked
purge_one s now p qs = elim (get_elem? qs.heap p) [
  | none ↦ qs
  | some ts ↦ tombstone_locked s ts.t.name now (retire p ts qs)
]

-- `for _, ts := range qs.tasks`.
unfoldable pub each_task : (ℕ → QueueState → QueueState) → Dict ℕ → QueueState → QueueState
each_task f [] qs = qs
each_task f ((name, p) ∷ m) qs = each_task f m (f p qs)

unfoldable pub purge : Settings → Time → QueueState → QueueState
purge s now qs =
    let purged = each_task (purge_one s now) qs.tasks qs in
    record purged {
      tasks = [];
      tombstones = if s.hard_reset_on_purge then [] else purged.tombstones;
      q = record purged.q { purge_time = now };
    }

unfoldable pub stop_one : ℕ → QueueState → QueueState
unfolding retire
stop_one p qs = elim (get_elem? qs.heap p) [ none ↦ qs | some ts ↦ retire p ts qs ]

unfoldable pub stop : QueueState → QueueState
stop qs = let stopped = each_task stop_one qs.tasks qs in record stopped { tasks = [] }
