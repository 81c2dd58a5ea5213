-- ===== src/Core/Runtime/Kept.antt =====
-- Every step of a queue of core/queue.go at work keeps what holds of it.
use cloud_tasks_emulator.Base.{
  ℕ, ◌+◌, ◌<◌, ◌≡◌, refl, ap, sym, subst, true, Option, none, some, List, get_elem?, length, arith,
  inl, inr, Option-cases,
}
use cloud_tasks_emulator.Base.Int.{ltb_ℤ, pos}
use cloud_tasks_emulator.Base.Bytes.{Bytes}
use cloud_tasks_emulator.Core.Status.{ok, Ensures, on_ok, Ensures-bind, Ensures-elim}
use cloud_tasks_emulator.Core.Types.{Time}
use cloud_tasks_emulator.Core.Retry.{Machine}
use cloud_tasks_emulator.Core.Queue.{
  Settings, QueueState, Semaphore, Limiter, Timer, Action, fires, expires, clears, stop_timer,
  clear_tombstone,
}
use cloud_tasks_emulator.Core.Queue.Removal.{expire}
use cloud_tasks_emulator.Core.Queue.Heap.{length-modify}
use cloud_tasks_emulator.Core.Queue.Attempts.{
  Fired, dropped, held, proceeds, fire, fire_state, snapshot_attempt, attempt_of, AttemptSnapshot,
  Outcome, apply_attempt,
}
use cloud_tasks_emulator.Core.Queue.Valid.{
  IsValid, expire-IsValid, clear_tombstone-IsValid, Below-stop_timer,
}
use cloud_tasks_emulator.Core.Queue.Outcomes.{fire-IsValid, apply_attempt-IsValid}
use cloud_tasks_emulator.Core.Queue.Gates.{
  gates_of, expire-gates_of, clear_tombstone-gates_of, fire-gates_of, apply_attempt-gates_of,
}
use cloud_tasks_emulator.Core.Engine.Tasks.{begin_run}
use cloud_tasks_emulator.Core.Engine.Kept.{begin_run-Ensures}
use cloud_tasks_emulator.Core.Runtime.{
  Passes, Waiter, Flight, Runtime, fired, run_action, go_off, acquire, release, admit, leave, begin,
  deliver, start_run, Step, goes_off, admits, begins, delivers, runs_task, calls, Reach, here, next,
}
use cloud_tasks_emulator.Core.Runtime.Valid.{RuntimeIsValid}
use cloud_tasks_emulator.Core.Runtime.Calls.{moved-IsValid, operate-RuntimeIsValid}
use cloud_tasks_emulator.Core.Runtime.Gated.{
  Gated-wait, Gated-run, Gated-set, Gated-admit, Gated-leave,
}

-- The semaphore that `fire` hands on is the current one.
fire-gate :
    (p : ℕ) (now : Time) (qs : QueueState) {l : Limiter} {g : ℕ}
    → (fire p now qs).1 ≡ proceeds l g
    → g ≡ qs.concurrency
unfolding fire fire_state
fire-gate p now qs h = ground arith

fired-RuntimeIsValid :
    (p : ℕ) (rt : Runtime) (us : QueueState) (f : Fired)
    → RuntimeIsValid (record rt { qs = us })
    → ((l : Limiter) (g : ℕ) → f ≡ proceeds l g → g < length us.semaphores)
    → RuntimeIsValid (fired p (us, f) rt)
unfolding fired
fired-RuntimeIsValid p rt us dropped v known = record {
  queue = v.queue;
  gated = v.gated;
  burst = v.burst;
}
fired-RuntimeIsValid p rt us held v known = record {
  queue = v.queue;
  gated = v.gated;
  burst = v.burst;
}
fired-RuntimeIsValid p rt us (proceeds l g) v known = record {
  queue = v.queue;
  gated = Gated-wait us.semaphores rt.waiting rt.inside v.gated p g l (known l g refl);
  burst = v.burst;
}

fires-RuntimeIsValid :
    (p : ℕ) (now : Time) (rt : Runtime)
    → RuntimeIsValid rt
    → RuntimeIsValid (fired p (fire p now rt.qs) rt)
fires-RuntimeIsValid p now rt v =
    let same = fire-gates_of p now rt.qs in
    let gate : (fire p now rt.qs).0.concurrency < length (fire p now rt.qs).0.semaphores =
      (fire-IsValid p now rt.qs v.queue).gate in
    let current : (fire p now rt.qs).0.concurrency ≡ rt.qs.concurrency =
      unfold gates_of in (ap (λ (x : List Semaphore × ℕ × Limiter). x.1) same) in
    fired-RuntimeIsValid p rt (fire p now rt.qs).0 (fire p now rt.qs).1
      (moved-IsValid rt (fire p now rt.qs).0 v (fire-IsValid p now rt.qs v.queue) same)
      (λ l g e. omega (arith, fire-gate p now rt.qs e))

go_off-RuntimeIsValid :
    (s : Settings) (t : Timer) (now : Time) (rt : Runtime)
    → RuntimeIsValid rt
    → RuntimeIsValid (go_off s t now rt)
unfolding go_off
go_off-RuntimeIsValid s t now rt v = acted t.action
  where
    disarmed : Runtime
    disarmed = record rt { qs = record (rt.qs) { timers = stop_timer (some t.id) rt.qs.timers } }

    w : RuntimeIsValid disarmed
    w = record {
      queue = record {
        links = v.queue.links;
        numbered = Below-stop_timer rt.qs.next_timer (some t.id) rt.qs.timers v.queue.numbered;
        gate = v.queue.gate;
      };
      gated = v.gated;
      burst = v.burst;
    }

    acted : (a : Action) → RuntimeIsValid (run_action s a now disarmed)
    acted (fires p) = unfold run_action in fires-RuntimeIsValid p now disarmed w
    acted (expires p) =
        unfold run_action in
        moved-IsValid disarmed (expire s p now disarmed.qs) w
          (expire-IsValid s p now disarmed.qs w.queue) (expire-gates_of s p now disarmed.qs)
    acted (clears name) =
        unfold run_action in
        moved-IsValid disarmed (clear_tombstone name now disarmed.qs) w
          (clear_tombstone-IsValid name now disarmed.qs w.queue)
          (clear_tombstone-gates_of name now disarmed.qs)

release-IsValid :
    (o : Option ℕ) (qs : QueueState)
    → IsValid qs
    → IsValid (release o qs) × ((release o qs).limiter ≡ qs.limiter)
unfolding release
release-IsValid none qs v = (v, refl)
release-IsValid (some g) qs v = (
  record {
    links = v.links;
    numbered = v.numbered;
    gate = rw (length-modify qs.semaphores g _) v.gate;
  },
  refl,
)

leave-RuntimeIsValid :
    (i : ℕ) (f : Flight) (rt : Runtime)
    → RuntimeIsValid rt
    → get_elem? rt.inside i ≡ some f
    → RuntimeIsValid (leave i f rt)
unfolding leave
leave-RuntimeIsValid i f rt v at =
    let (w, same) = release-IsValid f.gate rt.qs v.queue in
    record {
      queue = w;
      gated = Gated-leave rt.qs rt.waiting rt.inside i f v.gated at;
      burst = subst (λ (l : Limiter). ltb_ℤ (pos 0) l.burst ≡ true) (sym same) v.burst;
    }

admit-RuntimeIsValid :
    (i : ℕ) (w : Waiter) (x : Semaphore) (rt : Runtime)
    → RuntimeIsValid rt
    → get_elem? rt.waiting i ≡ some w
    → get_elem? rt.qs.semaphores w.gate ≡ some x
    → x.held < x.capacity
    → RuntimeIsValid (admit i w rt)
unfolding admit acquire
admit-RuntimeIsValid i w x rt v at found free = record {
  queue = record {
    links = v.queue.links;
    numbered = v.queue.numbered;
    gate =
        rw (length-modify rt.qs.semaphores w.gate (λ y. record y { held = y.held + 1 }))
          v.queue.gate;
  };
  gated = Gated-admit rt.qs.semaphores rt.waiting rt.inside v.gated i w x at found free;
  burst = v.burst;
}

begin-RuntimeIsValid :
    (i : ℕ) (f : Flight) (now : Time) (rt : Runtime)
    → RuntimeIsValid rt
    → get_elem? rt.inside i ≡ some f
    → RuntimeIsValid (begin i f now rt)
unfolding begin
begin-RuntimeIsValid i f now rt v at = elim (Option-cases (snapshot_attempt f.task rt.qs)) [
  | inl e ↦ rw (e, begin) (leave-RuntimeIsValid i f rt v at)
  | inr (snap, e) ↦
      rw (e, begin)
        (record {
          queue = v.queue;
          gated = Gated-set rt.qs.semaphores rt.waiting rt.inside v.gated i f _ at refl;
          burst = v.burst;
        })
]

deliver-RuntimeIsValid :
    (s : Settings) (mach : Machine) (i : ℕ) (f : Flight) (snap : AttemptSnapshot) (sent : Time)
    (o : Outcome) (received now : Time) (rt : Runtime)
    → RuntimeIsValid rt
    → get_elem? rt.inside i ≡ some f
    → RuntimeIsValid (deliver s mach i f snap sent o received now rt)
unfolding deliver
deliver-RuntimeIsValid s mach i f snap sent o received now rt v at =
    let att = attempt_of snap sent received o in
    let us = apply_attempt s mach f.task att sent o now rt.qs in
    leave-RuntimeIsValid i f (record rt { qs = us })
      (moved-IsValid rt us v (apply_attempt-IsValid s mach f.task att sent o now rt.qs v.queue)
        (apply_attempt-gates_of s mach f.task att sent o now rt.qs))
      at

begin_run-gates_of :
    (name : Bytes) (now : Time) (qs : QueueState)
    → Ensures (λ r. gates_of r.1 ≡ gates_of qs) (begin_run name now qs)
unfolding begin_run gates_of
begin_run-gates_of name now qs =
    Ensures-bind λ _ _. Ensures-bind λ _ _. Ensures-bind λ _ _. on_ok refl

run-RuntimeIsValid :
    (name : Bytes) (now : Time) (begun : ℕ × QueueState) (rt : Runtime)
    → RuntimeIsValid rt
    → begin_run name now rt.qs ≡ ok begun
    → RuntimeIsValid (start_run begun rt)
unfolding start_run
run-RuntimeIsValid name now (p, us) rt v h =
    let f =
      Ensures-elim
        (begin_run-Ensures name rt.qs.q.name now rt.qs (record { valid = v.queue; named = refl }))
        h in
    let m = moved-IsValid rt us v f.valid (Ensures-elim (begin_run-gates_of name now rt.qs) h) in
    record {
      queue = m.queue;
      gated = Gated-run us.semaphores rt.waiting rt.inside m.gated p;
      burst = m.burst;
    }

module _ {s : Settings} {mach : Machine} {passes : Passes} where
  pub Step-RuntimeIsValid :
      {rt us : Runtime} → Step s mach passes rt us → RuntimeIsValid rt → RuntimeIsValid us
  Step-RuntimeIsValid (goes_off rt i t now at due) v = go_off-RuntimeIsValid s t now rt v
  Step-RuntimeIsValid (admits rt i w x now at found free let_in) v =
      admit-RuntimeIsValid i w x rt v at found free
  Step-RuntimeIsValid (begins rt i f now at idle) v = begin-RuntimeIsValid i f now rt v at
  Step-RuntimeIsValid (delivers rt i f snap sent o received now at sending) v =
      deliver-RuntimeIsValid s mach i f snap sent o received now rt v at
  Step-RuntimeIsValid (runs_task rt name now begun h) v = run-RuntimeIsValid name now begun rt v h
  Step-RuntimeIsValid (calls rt c) v = operate-RuntimeIsValid s c rt v

  pub Reach-RuntimeIsValid :
      {rt us : Runtime} → Reach s mach passes rt us → RuntimeIsValid rt → RuntimeIsValid us
  Reach-RuntimeIsValid here v = v
  Reach-RuntimeIsValid (next r st) v = Step-RuntimeIsValid st (Reach-RuntimeIsValid r v)
