-- ===== src/Core/Book/Stepped.antt =====
-- Every step of a queue of core/queue.go at work is a step of the book that it shows.
use cloud_tasks_emulator.Base.{
  ℕ, ◌≡◌, refl, sym, ◌∙◌, subst, Bool, true, false, Option, none, some, ◌==◌, ltb, get_elem?,
  if◌then◌else◌, arith, Bool-cases, Option-cases, inl, inr,
}
use cloud_tasks_emulator.Base.Bytes.{Bytes, bytes_eq}
use cloud_tasks_emulator.Base.Dict.{lookup, lookup-delete}
use cloud_tasks_emulator.Core.Status.{Ensures, on_ok, Ensures-bind, Ensures-elim}
use cloud_tasks_emulator.Core.Types.{Time, Attempt, Task}
use cloud_tasks_emulator.Core.Retry.{Machine, should_retry}
use cloud_tasks_emulator.Core.Queue.{
  Settings, TaskState, QueueState, modify, schedule, clear_tombstone,
}
use cloud_tasks_emulator.Core.Queue.Heap.{get_elem?-modify}
use cloud_tasks_emulator.Core.Queue.Removal.{remove_locked, expire}
use cloud_tasks_emulator.Core.Queue.Valid.{IsValid}
use cloud_tasks_emulator.Core.Queue.Frames.{apply_attempt-q, remove_locked-q}
use cloud_tasks_emulator.Core.Queue.Links.{Linked}
use cloud_tasks_emulator.Core.Queue.Attempts.{
  Outcome, record_attempt, finish_attempt, apply_attempt,
}
use cloud_tasks_emulator.Core.Queue.Outcomes.{
  apply_attempt_absent, apply_attempt_removed, apply_attempt_live,
}
use cloud_tasks_emulator.Core.Queue.Delivery.{
  Removed, is_final, remove_locked-Removed, apply_attempt-Removed,
}
use cloud_tasks_emulator.Core.Queue.Cells.{task_named, task_named_live, Same, schedule-Same}
use cloud_tasks_emulator.Core.Engine.Tasks.{begin_run}
use cloud_tasks_emulator.Core.Engine.Kept.{find_task-Ensures}
use cloud_tasks_emulator.Core.Book.{Book, enter, strike}
use cloud_tasks_emulator.Core.Book.Turns.{
  live_at, Tried, is_over, Decided, OutcomeTurn, struck, released, RunTurn,
}
use cloud_tasks_emulator.Core.Book.Shows.{Shows, Same-Shows, Removed-Shows, written-Shows}

-- A book that the queue shows, of which something is known.
abbrev pub Shown : (Book → Type 0) → QueueState → Type 0
Shown P us = (c : Book) × P c × Shows us c

pub Shown-rests : (qs us : QueueState) (b : Book) → Same qs us → Shows qs b → Shown (λ c. c ≡ b) us
Shown-rests qs us b same w = (b, refl, Same-Shows qs us b same w)

live_at-some :
    (p : ℕ) (qs : QueueState) (ts : TaskState)
    → get_elem? qs.heap p ≡ some ts
    → ts.removed ≡ false
    → live_at p qs.heap ≡ some ts
live_at-some p qs ts at live = ground (arith, at, live)

live_at-absent : (p : ℕ) (qs : QueueState) → get_elem? qs.heap p ≡ none → live_at p qs.heap ≡ none
live_at-absent p qs at = ground (arith, at)

live_at-removed :
    (p : ℕ) (qs : QueueState) (ts : TaskState)
    → get_elem? qs.heap p ≡ some ts
    → ts.removed ≡ true
    → live_at p qs.heap ≡ none
live_at-removed p qs ts at gone = ground (arith, at, gone)

module _ (s : Settings) (qs us : QueueState) (b : Book) (p : ℕ) (ts : TaskState)
    (links : Linked qs.tasks qs.heap) (at : get_elem? qs.heap p ≡ some ts)
    (live : ts.removed ≡ false) (w : Shows qs b) where
  seen : b.tasks ts.t.name ≡ some ts.t
  seen = w.tasks ts.t.name ∙ task_named_live qs us p ts links at live

  Shown-strikes :
      (now : Time)
      → us.q ≡ qs.q
      → Removed s p now ts.t.name qs us
      → Shown (λ c. c ≡ strike s ts.t.name now b) us
  Shown-strikes now same r =
      (strike s ts.t.name now b, refl, Removed-Shows qs us b p ts links at live w s now same r)

-- A task that is tried again.
retry-Shown :
    (s : Settings) (p : ℕ) (now : Time) (ts x : TaskState) (qs : QueueState) (b : Book)
    → Linked qs.tasks qs.heap
    → get_elem? qs.heap p ≡ some ts
    → ts.removed ≡ false
    → Tried ts.t x.t
    → Shows qs b
    → Shown
        (Decided s ts.t now false b)
        (schedule p now (record qs { heap = modify qs.heap p (λ _. x) }))
retry-Shown s p now ts x qs b links at live m w =
    let ws : QueueState = record qs { heap = modify qs.heap p (λ _. x) } in
    let same = schedule-Same p now ws in
    (
      enter x.t b,
      (x.t, m, refl),
      written-Shows qs (schedule p now ws) b p ts links at live w x.t m.name same.q same.tasks
          same.tombstones
          (λ y. ground (arith, same.cells y, get_elem?-modify qs.heap p y (λ _. x) ts at)),
    )

again-Shown :
    (s : Settings) (mach : Machine) (p : ℕ) (att : Attempt) (sent : Time) (o : Outcome) (now : Time)
    (ts : TaskState) (qs : QueueState) (b : Book)
    → Linked qs.tasks qs.heap
    → get_elem? qs.heap p ≡ some ts
    → ts.removed ≡ false
    → is_final qs (record_attempt ts att sent o) o now ≡ false
    → Shows qs b
    → Shown
        (Decided s ts.t now false b)
        (finish_attempt s mach p now o (record_attempt ts att sent o) qs)
unfolding finish_attempt record_attempt
again-Shown s mach p att sent o now ts qs b links at live more w =
    let us = record_attempt ts att sent o in
    let failed : (o.rpc_code == 0) ≡ false = ground arith in
    let again : should_retry qs.q.retry_config us.t.dispatch_count us.first_attempt_time now
        ≡ true =
      ground arith in
    rw (failed, again)
      (retry-Shown s p now ts _ qs b links at live
        (record { name = refl; target = refl; created = refl; deadline = refl; counted = refl }) w)

module _ (s : Settings) (mach : Machine) (p : ℕ) (att : Attempt) (sent : Time) (o : Outcome)
    (now : Time) (qs : QueueState) (b : Book) (links : Linked qs.tasks qs.heap)
    (w : Shows qs b) where
  attempt_live-Shown :
      (ts : TaskState)
      → get_elem? qs.heap p ≡ some ts
      → ts.removed ≡ false
      → Shown (OutcomeTurn s qs sent o now (some ts) b) (apply_attempt s mach p att sent o now qs)
  unfolding record_attempt
  attempt_live-Shown ts e live =
      let us : QueueState = apply_attempt s mach p att sent o now qs in
      elim (Bool-cases (is_over qs ts sent o now)) [
        | inl final ↦
            subst (λ (d : Bool). Shown (Decided s ts.t now d b) us) (sym final)
              (Shown-strikes s qs us b p ts links e live w now
                (apply_attempt-q s mach p att sent o now qs)
                (apply_attempt-Removed s mach p att sent o now ts qs e live final))
        | inr more ↦
            subst (λ (d : Bool). Shown (Decided s ts.t now d b) us) (sym more)
              (rw (apply_attempt_live s mach p att sent o now qs ts e live)
                (again-Shown s mach p att sent o now ts qs b links e live more w))
      ]

  pub apply_attempt-Shown :
      Shown
        (OutcomeTurn s qs sent o now (live_at p qs.heap) b)
        (apply_attempt s mach p att sent o now qs)
  apply_attempt-Shown =
      let us : QueueState = apply_attempt s mach p att sent o now qs in
      let Goal : Option TaskState → Type 0 = λ x. Shown (OutcomeTurn s qs sent o now x b) us in
      elim (Option-cases (get_elem? qs.heap p)) [
        | inl e ↦
            subst Goal (sym (live_at-absent p qs e))
              (rw (apply_attempt_absent s mach p att sent o now qs e) (b, refl, w))
        | inr (ts, e) ↦ elim (Bool-cases ts.removed) [
          | inl gone ↦
              subst Goal (sym (live_at-removed p qs ts e gone))
                (rw (apply_attempt_removed s mach p att sent o now qs ts e gone) (b, refl, w))
          | inr live ↦ subst Goal (sym (live_at-some p qs ts e live)) (attempt_live-Shown ts e live)
        ]
      ]

pub expire-Shown :
    (s : Settings) (p : ℕ) (now : Time) (qs : QueueState) (b : Book)
    → Linked qs.tasks qs.heap
    → Shows qs b
    → Shown (λ c. c ≡ struck s now (live_at p qs.heap) b) (expire s p now qs)
unfolding expire remove_locked
expire-Shown s p now qs b links w =
    let Goal : Option TaskState → Type 0 =
      λ x. Shown (λ c. c ≡ struck s now x b) (expire s p now qs) in
    elim (Option-cases (get_elem? qs.heap p)) [
      | inl e ↦ subst Goal (sym (live_at-absent p qs e)) (rw (e, expire) (b, refl, w))
      | inr (ts, e) ↦ elim (Bool-cases ts.removed) [
        | inl gone ↦
            subst Goal (sym (live_at-removed p qs ts e gone)) (rw (e, expire, gone) (b, refl, w))
        | inr live ↦
            let same : expire s p now qs ≡ remove_locked s p now qs =
              rw (e, expire, remove_locked, live) refl in
            subst Goal (sym (live_at-some p qs ts e live)) (
              subst (Shown (λ c. c ≡ strike s ts.t.name now b)) (sym same) (
                Shown-strikes s qs (remove_locked s p now qs) b p ts links e live w now
                  (remove_locked-q s p now qs) (remove_locked-Removed s p now ts qs e)))
      ]
    ]

pub clear_tombstone-Shown :
    (name : Bytes) (now : Time) (qs : QueueState) (b : Book)
    → Shows qs b
    → Shown (λ c. c ≡ released name now (b.reserved name) b) (clear_tombstone name now qs)
unfolding clear_tombstone task_named
clear_tombstone-Shown name now qs b w =
    let us = clear_tombstone name now qs in
    let Goal : Option Time → Type 0 = λ x. Shown (λ c. c ≡ released name now x b) us in
    subst Goal (sym (w.reserved name)) (elim (Option-cases (lookup name qs.tombstones)) [
      | inl e ↦ subst Goal (sym e) (rw (e, clear_tombstone) (b, refl, w))
      | inr (exp, e) ↦
          let Late : Bool → Type 0 = λ early.
            Shown
              (λ c. c ≡ (
                if early
                then b
                else record b { reserved = λ n. if bytes_eq name n then none else b.reserved n }))
              us in
          subst Goal (sym e) (elim (Bool-cases (ltb now exp)) [
            | inl early ↦ subst Late (sym early) (rw (e, clear_tombstone, early) (b, refl, w))
            | inr late ↦ subst Late (sym late) (
                rw (e, clear_tombstone, late)
                  (
                    record b { reserved = λ n. if bytes_eq name n then none else b.reserved n },
                    refl,
                    record {
                      config = w.config;
                      tasks = w.tasks;
                      reserved =
                          λ n. ground (arith, w.reserved n, lookup-delete name n qs.tombstones);
                    },
                  ))
          ])
    ])

-- RunTask makes the task due at once.
pub begin_run-Shown :
    (name : Bytes) (now : Time) (qs : QueueState) (b : Book)
    → IsValid qs
    → Shows qs b
    → Ensures (λ r. Shown (RunTurn name now b) r.1) (begin_run name now qs)
unfolding begin_run
begin_run-Shown name now qs b v w = Ensures-bind λ _ _. Ensures-bind λ found h. Ensures-bind λ _ _.
    let (p, ts) = found in
    let (_, at, live, named) = Ensures-elim (find_task-Ensures name qs v) h in
    let x : Task = record ts.t { schedule_time = now } in
    on_ok (
      enter x b,
      (
        ts.t,
        subst (λ (n : Bytes). b.tasks n ≡ some ts.t) named
            (w.tasks ts.t.name ∙ task_named_live qs qs p ts v.links at live),
        refl,
      ),
      written-Shows qs _ b p ts v.links at live w x refl refl refl refl
          (λ y. ground (arith, get_elem?-modify qs.heap p y (λ z. record z { t = x }) ts at)),
    )
