-- ===== src/Core/Book.antt =====
-- What a queue of core/queue.go is for its clients: a book of the tasks by their names and of the names
-- that are reserved. The heap of task states, the pointers and the timers are forgotten.
pub mod Turns
pub mod Shows
pub mod Swept
pub mod Performed
pub mod Stepped
pub mod Reached
use cloud_tasks_emulator.Base.{
  ℕ, ◌+◌, ◌≤◌, ◌≡◌, ◌⊎◌, Bool, true, false, not, ◌&&◌, ◌||◌, Option, none, some, is_some,
  if◌then◌else◌, ltb,
}
use cloud_tasks_emulator.Base.Int.{pos, pos_part, ltb_ℤ, int32, ◌+ℤ◌}
use cloud_tasks_emulator.Base.Bytes.{Bytes, bytes_eq}
use cloud_tasks_emulator.Core.Types.{Time, Duration, Queue, Task}
use cloud_tasks_emulator.Core.Limits.{apply_queue_defaults}
use cloud_tasks_emulator.Core.Queue.{Settings}
use cloud_tasks_emulator.Core.Engine.Queues.{set_fields, mask}
use cloud_tasks_emulator.Core.Runtime.{
  Call, inserts, takes_id, deletes, purges, stops, sets_state, updates,
}

pub record Book : Type 0 where
  pub config : Queue
  pub tasks : Bytes → Option Task
  pub reserved : Bytes → Option Time

abbrev pub new_book : Queue → Book
new_book q = record { config = q; tasks = λ n. none; reserved = λ n. none }

-- The queue's own lifetime of a reserved name where it is positive, else the engine's.
abbrev pub lifetime : Settings → Book → Duration
lifetime s b =
    if ltb_ℤ (pos 0) b.config.tombstone_ttl then b.config.tombstone_ttl else s.tombstone_ttl

-- A negative lifetime reserves nothing.
abbrev pub reserves_names : Settings → Book → Bool
reserves_names s b = not (ltb_ℤ (lifetime s b) (pos 0))

abbrev pub still : Option Time → Time → Bool
still none now = false
still (some expiry) now = ltb now expiry

-- The task under a name is written.
abbrev pub enter : Task → Book → Book
enter t b = record b { tasks = λ n. if bytes_eq t.name n then some t else b.tasks n }

-- The task leaves, and its name is reserved from now on.
abbrev pub strike : Settings → Bytes → Time → Book → Book
strike s name now b = record b {
  tasks = λ n. if bytes_eq name n then none else b.tasks n;
  reserved = λ n.
      if bytes_eq name n && reserves_names s b
      then some (now + pos_part (lifetime s b))
      else b.reserved n;
}

-- Every task leaves, and their names are reserved, or else no name is after a hard reset.
abbrev pub wipe : Settings → Time → Book → Book
wipe s now b = record {
  config = record b.config { purge_time = now };
  tasks = λ n. none;
  reserved = λ n.
      if s.hard_reset_on_purge
      then none
      else if is_some (b.tasks n) && reserves_names s b
      then some (now + pos_part (lifetime s b))
      else b.reserved n;
}

-- What the calls of the engine on a queue promise.
unfoldable pub perform : Settings → Call → Book → Book
perform s (inserts t now) b =
    if is_some (b.tasks t.name) || still (b.reserved t.name) now then b else enter t b
perform s (takes_id now) b = b
perform s (deletes name now) b = if is_some (b.tasks name) then strike s name now b else b
perform s (purges now) b = wipe s now b
perform s stops b = record b { tasks = λ n. none }
perform s (sets_state st) b = record b { config = record b.config { state = st } }
perform s (updates q fields) b = record b {
  config = apply_queue_defaults (set_fields q (mask fields) b.config);
}
