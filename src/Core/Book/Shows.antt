-- ===== src/Core/Book/Shows.antt =====
-- A queue state of core/queue.go and the book that it shows.
use cloud_tasks_emulator.Base.{
  ℕ, ◌≡◌, refl, sym, ap, ◌∙◌, false, some, ◌==◌, if◌then◌else◌, get_elem?, arith,
}
use cloud_tasks_emulator.Base.Int.{ltb_ℤ, pos}
use cloud_tasks_emulator.Base.Bytes.{Bytes}
use cloud_tasks_emulator.Base.Dict.{lookup}
use cloud_tasks_emulator.Core.Types.{Time, Queue, Task}
use cloud_tasks_emulator.Core.Queue.{Settings, TaskState, QueueState, effective_tombstone_ttl}
use cloud_tasks_emulator.Core.Queue.Links.{Linked}
use cloud_tasks_emulator.Core.Queue.Delivery.{Removed}
use cloud_tasks_emulator.Core.Queue.Cells.{
  cell, task_named, Same, Same-task_named, task_named_written, task_named_struck,
}
use cloud_tasks_emulator.Core.Book.{Book, lifetime, enter, strike}

-- The book has the queue's configuration, its tasks by name, and its reserved names.
pub record Shows (qs : QueueState) (b : Book) : Type 0 where
  pub config : b.config ≡ qs.q
  pub tasks : (name : Bytes) → b.tasks name ≡ task_named name qs
  pub reserved : (name : Bytes) → b.reserved name ≡ lookup name qs.tombstones

unfoldable pub book_of : QueueState → Book
book_of qs = record {
  config = qs.q;
  tasks = λ name. task_named name qs;
  reserved = λ name. lookup name qs.tombstones;
}

pub book_of-Shows : (qs : QueueState) → Shows qs (book_of qs)
unfolding book_of
book_of-Shows qs = record { config = refl; tasks = λ n. refl; reserved = λ n. refl }

pub lifetime_lem :
    (s : Settings) (qs : QueueState) (b : Book)
    → b.config ≡ qs.q
    → lifetime s b ≡ effective_tombstone_ttl s qs
unfolding effective_tombstone_ttl
lifetime_lem s qs b same =
    ap (λ (q : Queue). if ltb_ℤ (pos 0) q.tombstone_ttl then q.tombstone_ttl else s.tombstone_ttl)
      same

pub Same-Shows : (qs us : QueueState) (b : Book) → Same qs us → Shows qs b → Shows us b
Same-Shows qs us b same w = record {
  config = w.config ∙ sym same.q;
  tasks = λ n. w.tasks n ∙ sym (Same-task_named qs us n same);
  reserved = λ n. w.reserved n ∙ sym (ap (lookup n) same.tombstones);
}

module _ (qs us : QueueState) (b : Book) (p : ℕ) (ts : TaskState) (links : Linked qs.tasks qs.heap)
    (at : get_elem? qs.heap p ≡ some ts) (live : ts.removed ≡ false) (w : Shows qs b) where
  pub Removed-Shows :
      (s : Settings) (now : Time)
      → us.q ≡ qs.q
      → Removed s p now ts.t.name qs us
      → Shows us (strike s ts.t.name now b)
  Removed-Shows s now same r =
      let ttl = lifetime_lem s qs b w.config in
      let (x, gone, heap) = r.heap in
      record {
        config = w.config ∙ sym same;
        tasks = λ n. ground (
          arith,
          w.tasks n,
          task_named_struck qs us p ts links at live n r.tasks
              (λ y off. ground (arith, heap y, off)),
        );
        reserved = λ n. ground (arith, w.reserved n, ttl, r.tombstones n);
      }

  -- Another task at the pointer, with the same name.
  pub written-Shows :
      (x : Task)
      → x.name ≡ ts.t.name
      → us.q ≡ qs.q
      → us.tasks ≡ qs.tasks
      → us.tombstones ≡ qs.tombstones
      → ((y : ℕ) → cell y us ≡ (if p == y then some x else cell y qs))
      → Shows us (enter x b)
  written-Shows x named q tasks tombstones cells = record {
    config = w.config ∙ sym q;
    tasks = λ n.
        ground
          (arith, named, w.tasks n, task_named_written qs us p ts links at live x n tasks cells);
    reserved = λ n. w.reserved n ∙ sym (ap (lookup n) tombstones);
  }
