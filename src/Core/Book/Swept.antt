-- ===== src/Core/Book/Swept.antt =====
-- What purge and the stop of a deleted queue in core/queue.go do to the book that the queue shows.
use cloud_tasks_emulator.Base.{
  ℕ, ◌+◌, ◌≡◌, refl, sym, ap, ◌∙◌, ◌&&◌, Option, none, some, [], ◌∷◌, if◌then◌else◌, get_elem?, All,
  is_some, arith, Bool-cases, Option-cases, inl, inr,
}
use cloud_tasks_emulator.Base.Int.{ltb_ℤ, pos, pos_part}
use cloud_tasks_emulator.Base.Bytes.{Bytes, bytes_eq, bytes_eq_iff, bytes_eq_refl}
use cloud_tasks_emulator.Base.Dict.{Dict, lookup, has, Unique, lookup-insert}
use cloud_tasks_emulator.Core.Types.{Time, Queue}
use cloud_tasks_emulator.Core.Queue.{
  Settings, TaskState, QueueState, after_func, effective_tombstone_ttl, tombstone_locked,
}
use cloud_tasks_emulator.Core.Queue.Heap.{get_elem?-modify}
use cloud_tasks_emulator.Core.Queue.Removal.{
  mark_removed, retire, purge_one, each_task, purge, stop_one, stop,
}
use cloud_tasks_emulator.Core.Queue.Links.{Linked}
use cloud_tasks_emulator.Core.Queue.Delivery.{reserves}
use cloud_tasks_emulator.Core.Queue.Frames.{purge_one-q, each_task-q}
use cloud_tasks_emulator.Core.Queue.Cells.{task_named}
use cloud_tasks_emulator.Core.Runtime.Valid.{All-weaken}
use cloud_tasks_emulator.Core.Book.{Book, wipe}
use cloud_tasks_emulator.Core.Book.Shows.{Shows, lifetime_lem}

abbrev name_in : Option TaskState → Option Bytes
name_in none = none
name_in (some ts) = some ts.t.name

-- Each entry's pointer stands for a task of the entry's name.
abbrev Entered : QueueState → Dict ℕ → Type 0
Entered qs = All (λ e. name_in (get_elem? qs.heap e.1) ≡ some e.0)

-- Where no name stands twice each entry is found.
All-lookup : (m : Dict ℕ) → Unique m → All (λ e. lookup e.0 m ≡ some e.1) m
unfolding lookup Unique has
All-lookup [] u = tt
All-lookup ((j, v) ∷ m) u = (
  ground (arith, bytes_eq_refl j),
  All-weaken (λ e. lookup e.0 m ≡ some e.1) (λ e. lookup e.0 ((j, v) ∷ m) ≡ some e.1) m
      (λ e h. ground (arith, u.0, h, bytes_eq_iff j e.0)) (All-lookup m u.1),
)

all-Entered : (qs : QueueState) → Linked qs.tasks qs.heap → Unique qs.tasks → Entered qs qs.tasks
all-Entered qs w u =
    All-weaken (λ e. lookup e.0 qs.tasks ≡ some e.1)
      (λ e. name_in (get_elem? qs.heap e.1) ≡ some e.0) qs.tasks
      (λ e h. ground (arith, h, w.points e.0 e.1)) (All-lookup qs.tasks u)

-- A name is in the map exactly when a task is seen under it.
pub has-task_named :
    (qs : QueueState) (name : Bytes)
    → Linked qs.tasks qs.heap
    → has name qs.tasks ≡ is_some (task_named name qs)
unfolding has task_named
has-task_named qs name w = elim (Option-cases (lookup name qs.tasks)) [
  | inl e ↦ ground (arith, e)
  | inr (p, e) ↦ ground (arith, e, w.points name p)
]

module _ (s : Settings) (now : Time) where
  purge_one-name_in :
      (p : ℕ) (qs : QueueState) (x : ℕ)
      → name_in (get_elem? (purge_one s now p qs).heap x) ≡ name_in (get_elem? qs.heap x)
  unfolding purge_one retire tombstone_locked after_func
  purge_one-name_in p qs x = elim (Option-cases (get_elem? qs.heap p)) [
    | inl e ↦ rw (e, purge_one) refl
    | inr (ts, e) ↦
        let written = get_elem?-modify qs.heap p x mark_removed ts e in
        elim (Bool-cases (ltb_ℤ (effective_tombstone_ttl s (retire p ts qs)) (pos 0))) [
          | inl none_kept ↦ rw (e, purge_one, none_kept) (ground (arith, written))
          | inr kept ↦ rw (e, purge_one, kept) (ground (arith, written))
        ]
  ]

  purge_one-tombstones :
      (p : ℕ) (qs : QueueState) (name n : Bytes)
      → name_in (get_elem? qs.heap p) ≡ some name
      → lookup n (purge_one s now p qs).tombstones ≡ (
          if bytes_eq name n && reserves s qs
          then some (now + pos_part (effective_tombstone_ttl s qs))
          else lookup n qs.tombstones)
  unfolding purge_one retire tombstone_locked after_func effective_tombstone_ttl
  purge_one-tombstones p qs name n at = elim (Option-cases (get_elem? qs.heap p)) [
    | inl e ↦ cc
    | inr (ts, e) ↦
        let named : ts.t.name ≡ name = ground (arith, at, e) in
        elim (Bool-cases (ltb_ℤ (effective_tombstone_ttl s qs) (pos 0))) [
          | inl none_kept ↦ rw (e, purge_one, none_kept) (ground arith)
          | inr kept ↦
              rw (e, purge_one, kept, lookup-insert ts.t.name n _ qs.tombstones, named)
                (ground arith)
        ]
  ]

  Entered-purge_one :
      (p : ℕ) (qs : QueueState) (m : Dict ℕ) → Entered qs m → Entered (purge_one s now p qs) m
  Entered-purge_one p qs m h =
      All-weaken (λ e. name_in (get_elem? qs.heap e.1) ≡ some e.0)
        (λ e. name_in (get_elem? (purge_one s now p qs).heap e.1) ≡ some e.0) m
        (λ e h'. purge_one-name_in p qs e.1 ∙ h') h

  -- The whole loop reserves the names of the map.
  each_task-tombstones :
      (m : Dict ℕ) (qs : QueueState) (n : Bytes)
      → Entered qs m
      → lookup n (each_task (purge_one s now) m qs).tombstones ≡ (
          if has n m && reserves s qs
          then some (now + pos_part (effective_tombstone_ttl s qs))
          else lookup n qs.tombstones)
  unfolding each_task has lookup effective_tombstone_ttl
  each_task-tombstones [] qs n h = refl
  each_task-tombstones ((name, p) ∷ m) qs n h =
      let us : QueueState = purge_one s now p qs in
      let ttl =
        ap
          (λ (q : Queue).
            if ltb_ℤ (pos 0) q.tombstone_ttl then q.tombstone_ttl else s.tombstone_ttl)
          (purge_one-q s now p qs) in
      ground (
        arith,
        each_task-tombstones m us n (Entered-purge_one p qs m h.1),
        purge_one-tombstones p qs name n h.0,
        ttl,
      )

  -- A purge clears the tasks and reserves their names.
  pub purge-Shows :
      (qs : QueueState) (b : Book)
      → Linked qs.tasks qs.heap
      → Unique qs.tasks
      → Shows qs b
      → Shows (purge s now qs) (wipe s now b)
  unfolding purge task_named lookup
  purge-Shows qs b links u w =
      let same = each_task-q (purge_one s now) qs.tasks qs (purge_one-q s now) in
      record {
        config =
            ap (λ (q : Queue). record q { purge_time = now }) w.config
            ∙ ap (λ (q : Queue). record q { purge_time = now }) (sym same);
        tasks = λ n. refl;
        reserved = λ n. elim (Bool-cases s.hard_reset_on_purge) [
          | inl hard ↦ rw hard refl
          | inr soft ↦ rw soft (
              ground (
                arith,
                w.reserved n,
                w.tasks n,
                has-task_named qs n links,
                lifetime_lem s qs b w.config,
                each_task-tombstones qs.tasks qs n (all-Entered qs links u),
              ))
        ];
      }

stop_one-frame :
    (p : ℕ) (qs : QueueState)
    → ((stop_one p qs).q ≡ qs.q) × ((stop_one p qs).tombstones ≡ qs.tombstones)
unfolding stop_one retire
stop_one-frame p qs = (ground arith, ground arith)

each_task-stop_one :
    (m : Dict ℕ) (qs : QueueState)
    → ((each_task stop_one m qs).q ≡ qs.q) × ((each_task stop_one m qs).tombstones ≡ qs.tombstones)
unfolding each_task
each_task-stop_one [] qs = (refl, refl)
each_task-stop_one ((name, p) ∷ m) qs =
    let (q, tombstones) = each_task-stop_one m (stop_one p qs) in
    (q ∙ (stop_one-frame p qs).0, tombstones ∙ (stop_one-frame p qs).1)

-- The stop of a queue clears the tasks alone.
pub stop-Shows :
    (qs : QueueState) (b : Book) → Shows qs b → Shows (stop qs) (record b { tasks = λ n. none })
unfolding stop task_named lookup
stop-Shows qs b w = record {
  config = w.config ∙ sym (each_task-stop_one qs.tasks qs).0;
  tasks = λ n. refl;
  reserved = λ n. w.reserved n ∙ sym (ap (lookup n) (each_task-stop_one qs.tasks qs).1);
}
