-- ===== src/Core/Book/Reached.antt =====
-- Whatever is done to a queue of core/queue.go at work, it shows a book.
use cloud_tasks_emulator.Base.{ℕ, ◌≡◌, refl, sym, subst, Option, none, some, Option-cases, inl, inr}
use cloud_tasks_emulator.Base.Bytes.{Bytes}
use cloud_tasks_emulator.Base.Dict.{lookup, Unique}
use cloud_tasks_emulator.Core.Status.{Ensures, on_ok, Ensures-bind, Ensures-elim}
use cloud_tasks_emulator.Core.Types.{Time, Queue}
use cloud_tasks_emulator.Core.Retry.{Machine}
use cloud_tasks_emulator.Core.Queue.{
  Settings, QueueState, Action, fires, expires, clears, stop_timer, new_queue_state, rebuild_limits,
}
use cloud_tasks_emulator.Core.Queue.Links.{Linked}
use cloud_tasks_emulator.Core.Queue.Attempts.{
  Fired, dropped, held, proceeds, fire, snapshot_attempt, attempt_of,
}
use cloud_tasks_emulator.Core.Queue.Cells.{task_named, fire-Same}
use cloud_tasks_emulator.Core.Queue.Unique.{
  expire-Unique, apply_attempt-Unique, tasks-fire, tasks-clear_tombstone,
}
use cloud_tasks_emulator.Core.Engine.Tasks.{begin_run}
use cloud_tasks_emulator.Core.Runtime.{
  Passes, Runtime, Flight, fired, run_action, go_off, acquire, release, admit, leave, begin,
  deliver, start_run, Step, goes_off, admits, begins, delivers, runs_task, calls, Reach, here, next,
}
use cloud_tasks_emulator.Core.Runtime.Valid.{RuntimeIsValid}
use cloud_tasks_emulator.Core.Runtime.Drain.{idle, Reach-RuntimeIsValid-idle}
use cloud_tasks_emulator.Core.Book.{Book, new_book, perform}
use cloud_tasks_emulator.Core.Book.Turns.{live_at, OutcomeTurn, ActionTurn, StepTurn, Follows}
use cloud_tasks_emulator.Core.Book.Shows.{Shows}
use cloud_tasks_emulator.Core.Book.Performed.{operate-Shows, operate-Unique}
use cloud_tasks_emulator.Core.Book.Stepped.{
  Shown, Shown-rests, apply_attempt-Shown, expire-Shown, clear_tombstone-Shown, begin_run-Shown,
}

fired-qs : (p : ℕ) (us : QueueState) (f : Fired) (rt : Runtime) → (fired p (us, f) rt).qs ≡ us
unfolding fired
fired-qs p us dropped rt = refl
fired-qs p us held rt = refl
fired-qs p us (proceeds l g) rt = refl

-- A timer that is no longer armed, and places in semaphores, are not in the book.
run_action-Shown :
    (s : Settings) (a : Action) (now : Time) (rt : Runtime) (b : Book)
    → Linked rt.qs.tasks rt.qs.heap
    → Shows rt.qs b
    → Shown (ActionTurn s a now rt.qs.heap b) (run_action s a now rt).qs
unfolding run_action
run_action-Shown s (fires p) now rt b links w =
    subst (Shown (λ c. c ≡ b)) (sym (fired-qs p (fire p now rt.qs).0 (fire p now rt.qs).1 rt))
      (Shown-rests rt.qs (fire p now rt.qs).0 b (fire-Same p now rt.qs) w)
run_action-Shown s (expires p) now rt b links w = expire-Shown s p now rt.qs b links w
run_action-Shown s (clears name) now rt b links w = clear_tombstone-Shown name now rt.qs b w

run_action-Unique :
    (s : Settings) (a : Action) (now : Time) (rt : Runtime)
    → Unique rt.qs.tasks
    → Unique (run_action s a now rt).qs.tasks
unfolding run_action
run_action-Unique s (fires p) now rt u =
    subst (λ (us : QueueState). Unique us.tasks)
      (sym (fired-qs p (fire p now rt.qs).0 (fire p now rt.qs).1 rt))
      (subst Unique (sym (tasks-fire p now rt.qs)) u)
run_action-Unique s (expires p) now rt u = expire-Unique s p now rt.qs u
run_action-Unique s (clears name) now rt u =
    subst Unique (sym (tasks-clear_tombstone name now rt.qs)) u

module _ (P : Book → Type 0) where
  -- What the book does not have: the timers and the semaphores.
  release-Shown : (o : Option ℕ) (qs : QueueState) → Shown P qs → Shown P (release o qs)
  unfolding release task_named
  release-Shown none qs w = w
  release-Shown (some g) qs (c, t, w) =
      (c, t, record { config = w.config; tasks = w.tasks; reserved = w.reserved })

begin-Shown :
    (b : Book) (i : ℕ) (f : Flight) (now : Time) (rt : Runtime)
    → Shows rt.qs b
    → Shown (λ c. c ≡ b) (begin i f now rt).qs
unfolding begin leave
begin-Shown b i f now rt w = elim (Option-cases (snapshot_attempt f.task rt.qs)) [
  | inl e ↦ rw (e, begin) (release-Shown (λ c. c ≡ b) f.gate rt.qs (b, refl, w))
  | inr (snap, e) ↦ rw (e, begin) (b, refl, w)
]

tasks-release : (o : Option ℕ) (qs : QueueState) → (release o qs).tasks ≡ qs.tasks
unfolding release
tasks-release none qs = refl
tasks-release (some g) qs = refl

begin-Unique :
    (i : ℕ) (f : Flight) (now : Time) (rt : Runtime)
    → Unique rt.qs.tasks
    → Unique (begin i f now rt).qs.tasks
unfolding begin leave
begin-Unique i f now rt u = elim (Option-cases (snapshot_attempt f.task rt.qs)) [
  | inl e ↦ rw (e, begin, tasks-release f.gate rt.qs) u
  | inr (snap, e) ↦ rw (e, begin) u
]

begin_run-Unique :
    (name : Bytes) (now : Time) (qs : QueueState)
    → Ensures (λ r. r.1.tasks ≡ qs.tasks) (begin_run name now qs)
unfolding begin_run
begin_run-Unique name now qs =
    Ensures-bind λ _ _. Ensures-bind λ _ _. Ensures-bind λ _ _. on_ok refl

module _ {s : Settings} {mach : Machine} {passes : Passes} where
  -- A step of a valid queue at work.
  Step-Shown :
      {rt us : Runtime} (b : Book) (st : Step s mach passes rt us)
      → RuntimeIsValid rt
      → Unique rt.qs.tasks
      → Shows rt.qs b
      → Shown (StepTurn st b) us.qs
  unfolding go_off admit acquire deliver leave start_run task_named
  Step-Shown b (goes_off rt i t now at due) v u w =
      run_action-Shown s t.action now
        (record rt { qs = record (rt.qs) { timers = stop_timer (some t.id) rt.qs.timers } }) b
        v.queue.links
        (record { config = w.config; tasks = unfold task_named in w.tasks; reserved = w.reserved })
  Step-Shown b (admits rt i x y now at found free let_in) v u w = (
    b,
    refl,
    record { config = w.config; tasks = unfold task_named in w.tasks; reserved = w.reserved },
  )
  Step-Shown b (begins rt i f now at idle) v u w = begin-Shown b i f now rt w
  Step-Shown b (delivers rt i f snap sent o received now at sending) v u w =
      release-Shown (OutcomeTurn s rt.qs sent o now (live_at f.task rt.qs.heap) b) f.gate _ (
        apply_attempt-Shown s mach f.task (attempt_of snap sent received o) sent o now rt.qs b
          v.queue.links w)
  Step-Shown b (runs_task rt name now (p, us) h) v u w =
      Ensures-elim (begin_run-Shown name now rt.qs b v.queue w) h
  Step-Shown b (calls rt c) v u w = (perform s c b, refl, operate-Shows s c rt.qs b v.queue u w)

  Step-Unique :
      {rt us : Runtime} → Step s mach passes rt us → Unique rt.qs.tasks → Unique us.qs.tasks
  unfolding go_off admit acquire deliver leave start_run
  Step-Unique (goes_off rt i t now at due) u =
      run_action-Unique s t.action now
        (record rt { qs = record (rt.qs) { timers = stop_timer (some t.id) rt.qs.timers } }) u
  Step-Unique (admits rt i x y now at found free let_in) u = u
  Step-Unique (begins rt i f now at idle) u = begin-Unique i f now rt u
  Step-Unique (delivers rt i f snap sent o received now at sending) u =
      subst Unique (sym (tasks-release f.gate _))
        (apply_attempt-Unique s mach f.task (attempt_of snap sent received o) sent o now rt.qs u)
  Step-Unique (runs_task rt name now (p, us) h) u =
      subst Unique (sym (Ensures-elim (begin_run-Unique name now rt.qs) h)) u
  Step-Unique (calls rt c) u = operate-Unique s c rt.qs u

  Reach-Unique :
      {rt us : Runtime} → Reach s mach passes rt us → Unique rt.qs.tasks → Unique us.qs.tasks
  Reach-Unique here u = u
  Reach-Unique (next r st) u = Step-Unique st (Reach-Unique r u)

idle-Shows : (q : Queue) → Shows (idle q).qs (new_book q)
unfolding new_queue_state rebuild_limits task_named lookup
idle-Shows q = record { config = refl; tasks = λ n. refl; reserved = λ n. refl }

idle-Unique : (q : Queue) → Unique (idle q).qs.tasks
unfolding new_queue_state rebuild_limits Unique
idle-Unique q = tt

-- Whatever goroutines, timers and calls do to a new queue, in whatever order, it shows a book that goes
-- with its history step for step: a call does to the book what it promises; an outcome of an attempt
-- strikes its task, with its name reserved from then on, when the code is OK or the policy gives no
-- further attempt, and else moves the task on with one more attempt and the same name, target, creation
-- and deadline; the end of a task's lifetime strikes it; RunTask makes its task due; a timer that frees a
-- name does so if the reservation is over and not renewed; an outcome or a timer of a task that has left,
-- a firing, an admission and the beginning of an attempt change nothing.
pub Reach-Shows :
    (s : Settings) (mach : Machine) (passes : Passes) (q : Queue) (rt : Runtime)
    (r : Reach s mach passes (idle q) rt)
    → (b : Book) × Follows r (new_book q) b × Shows rt.qs b
Reach-Shows s mach passes q rt here = (new_book q, refl, idle-Shows q)
Reach-Shows s mach passes q rt (next {us} r st) =
    let (b, turns, w) = Reach-Shows s mach passes q us r in
    let (c, turn, w') =
      Step-Shown b st (Reach-RuntimeIsValid-idle s mach passes q us r)
        (Reach-Unique r (idle-Unique q)) w in
    (c, (b, turns, turn), w')
