-- ===== src/Core/Runtime/Drain.antt =====
-- No goroutine of core/queue.go waits for another for ever.
use cloud_tasks_emulator.Base.{
  ℕ, ◌<◌, ◌≡◌, Bool, true, ◌&&◌, get_elem?, refl, ap, ◌∙◌, none, some, List, [], ◌∷◌, length, All,
  arith, inl, inr, Option-cases,
}
use cloud_tasks_emulator.Base.Int.{pos, ltb_ℤ}
use cloud_tasks_emulator.Core.Float.{finite, ltb_float}
use cloud_tasks_emulator.Core.Types.{Time, Queue}
use cloud_tasks_emulator.Core.Retry.{Machine}
use cloud_tasks_emulator.Core.Queue.{Settings, Limiter, Semaphore, new_queue_state, rebuild_limits}
use cloud_tasks_emulator.Core.Queue.Attempts.{AttemptSnapshot, Outcome, snapshot_attempt}
use cloud_tasks_emulator.Core.Queue.Valid.{new_queue_state-IsValid}
use cloud_tasks_emulator.Core.Runtime.{
  Passes, Waiter, Flight, Runtime, admit, leave, begin, deliver, remove_at, admits, begins,
  delivers, Reach, here, next,
}
use cloud_tasks_emulator.Core.Runtime.Valid.{
  Gated, RuntimeIsValid, holders, All-get_elem?, All-of_get_elem?,
}
use cloud_tasks_emulator.Core.Runtime.Gated.{get_elem?-lt, Gated-rebuild}
use cloud_tasks_emulator.Core.Runtime.Calls.{at_least_one_lem}
use cloud_tasks_emulator.Core.Runtime.Kept.{Reach-RuntimeIsValid}

abbrev some_outcome : Outcome
some_outcome = record { rpc_code = 0; http_code = 200; message = [] }

-- A limiter with a positive rate and a positive burst.
abbrev pub is_flowing : Limiter → Bool
is_flowing l = ltb_float (finite (pos 0)) l.limit && ltb_ℤ (pos 0) l.burst

module _ (s : Settings) (mach : Machine) (passes : Passes) where
  Reach-trans :
      {rt us vs : Runtime}
      → Reach s mach passes rt us
      → Reach s mach passes us vs
      → Reach s mach passes rt vs
  Reach-trans r here = r
  Reach-trans r (next q st) = next (Reach-trans r q) st

  -- A state with what is given inside and waiting can be reached.
  abbrev Leads : Runtime → List Flight → List Waiter → Type 0
  Leads rt fs ws = (us : Runtime) × Reach s mach passes rt us × (us.inside ≡ fs) × (us.waiting ≡ ws)

  send_head :
      (rt : Runtime) (f : Flight) (fs : List Flight) (snap : AttemptSnapshot) (sent : Time)
      → rt.inside ≡ f ∷ fs
      → f.sending ≡ some (snap, sent)
      → Leads rt fs rt.waiting
  unfolding deliver leave remove_at
  send_head rt f fs snap sent e sending = (
    deliver s mach 0 f snap sent some_outcome sent sent rt,
    next here (delivers rt 0 f snap sent some_outcome sent sent (rw e refl) sending),
    rw e refl,
    refl,
  )

  begin_head :
      (rt : Runtime) (f : Flight) (fs : List Flight)
      → rt.inside ≡ f ∷ fs
      → f.sending ≡ none
      → Leads rt fs rt.waiting
  unfolding begin leave remove_at
  begin_head rt f fs e idle = elim (Option-cases (snapshot_attempt f.task rt.qs)) [
    | inl gone ↦ (
      begin 0 f 0 rt,
      next here (begins rt 0 f 0 (rw e refl) idle),
      rw (gone, begin, e) refl,
      rw (gone, begin) refl,
    )
    | inr (snap, found) ↦
        let f' : Flight = record f { sending = some (snap, 0) } in
        let inside : (begin 0 f 0 rt).inside ≡ f' ∷ fs = rw (found, begin, e) refl in
        let waiting : (begin 0 f 0 rt).waiting ≡ rt.waiting = rw (found, begin) refl in
        let (us, r, left, kept) = send_head (begin 0 f 0 rt) f' fs snap 0 inside refl in
        (us, Reach-trans (next here (begins rt 0 f 0 (rw e refl) idle)) r, left, kept ∙ waiting)
  ]

  finish_head :
      (rt : Runtime) (f : Flight) (fs : List Flight) → rt.inside ≡ f ∷ fs → Leads rt fs rt.waiting
  finish_head rt f fs e = elim (Option-cases f.sending) [
    | inl idle ↦ begin_head rt f fs e idle
    | inr ((snap, sent), sending) ↦ send_head rt f fs snap sent e sending
  ]

  empty_inside : (fs : List Flight) (rt : Runtime) → rt.inside ≡ fs → Leads rt [] rt.waiting
  empty_inside [] rt e = (rt, here, e, refl)
  empty_inside (f ∷ fs) rt e =
      let (us, r, inside, waiting) = finish_head rt f fs e in
      let (vs, q, inside', waiting') = empty_inside fs us inside in
      (vs, Reach-trans r q, inside', waiting' ∙ waiting)

  -- Each goroutine that waits has a limiter that lets pass.
  abbrev Flowing : List Waiter → Type 0
  Flowing = All (λ w. is_flowing w.limiter ≡ true)

  module _
      (lets : (rt : Runtime) (i : ℕ) (w : Waiter)
        → get_elem? rt.waiting i ≡ some w
        → is_flowing w.limiter ≡ true
        → (now : Time) × (passes rt i now ≡ true)) where
    -- With nobody inside, the first that waits is admitted.
    admit_head :
        (rt : Runtime) (w : Waiter) (ws : List Waiter)
        → RuntimeIsValid rt
        → is_flowing w.limiter ≡ true
        → rt.inside ≡ []
        → rt.waiting ≡ w ∷ ws
        → (fs : List Flight) × Leads rt fs ws
    unfolding admit remove_at
    admit_head rt w ws v flows empty e =
        let known : w.gate < length rt.qs.semaphores =
          All-get_elem? (λ (x : Waiter). x.gate < length rt.qs.semaphores) rt.waiting 0 w
            v.gated.waiting_known (rw e refl) in
        let (x, found) = get_elem?-lt rt.qs.semaphores w.gate known in
        let free : x.held < x.capacity =
          omega (arith, v.gated.counted w.gate x found, ap (holders w.gate) empty) in
        let (now, let_in) = lets rt 0 w (rw e refl) flows in
        (
          (admit 0 w rt).inside,
          (
            admit 0 w rt,
            next here (admits rt 0 w x now (rw e refl) found free let_in),
            refl,
            rw e refl,
          ),
        )

    drain :
        (ws : List Waiter) (rt : Runtime)
        → RuntimeIsValid rt
        → Flowing ws
        → rt.waiting ≡ ws
        → Leads rt [] []
    drain [] rt v flows e =
        let (us, r, inside, waiting) = empty_inside rt.inside rt refl in
        (us, r, inside, waiting ∙ e)
    drain (w ∷ ws) rt v flows e =
        let (us, r, inside, waiting) = empty_inside rt.inside rt refl in
        let v1 = Reach-RuntimeIsValid r v in
        let (fs, (vs, q, entered, left)) = admit_head us w ws v1 flows.0 inside (waiting ∙ e) in
        let (zs, t, done, none_left) = drain ws vs (Reach-RuntimeIsValid q v1) flows.1 left in
        (zs, Reach-trans r (Reach-trans q t), done, none_left)

-- A queue that has just been made.
abbrev pub idle : Queue → Runtime
idle q = record { qs = new_queue_state q; waiting = []; inside = [] }

no_gates : Gated [] [] []
no_gates = record { counted = λ g x h. cc; inside_known = tt; waiting_known = tt }

idle-RuntimeIsValid : (q : Queue) → RuntimeIsValid (idle q)
unfolding new_queue_state rebuild_limits
idle-RuntimeIsValid q = record {
  queue = new_queue_state-IsValid q;
  gated =
      Gated-rebuild [] [] [] no_gates _
        (at_least_one_lem q.rate_limits.max_concurrent_dispatches).1;
  burst = (at_least_one_lem q.rate_limits.max_burst_size).0;
}

-- Whatever goroutines, timers and calls do to a new queue, in whatever order: each semaphore, also one
-- that an update has replaced, counts the goroutines that hold a place in it, they are at most its
-- capacity, which is at least 1; a goroutine waits for, and holds, a place in a semaphore that exists;
-- the limiter's burst is at least 1; and the tasks, the timers and the current semaphore are valid.
pub Reach-RuntimeIsValid-idle :
    (s : Settings) (mach : Machine) (passes : Passes) (q : Queue) (rt : Runtime)
    → Reach s mach passes (idle q) rt
    → RuntimeIsValid rt
Reach-RuntimeIsValid-idle s mach passes q rt r = Reach-RuntimeIsValid r (idle-RuntimeIsValid q)

-- From every state that a new queue can come to, in which no goroutine waits for a limiter that lets
-- nothing pass, the goroutines can all be admitted and come to their ends, with no further call and no
-- timer: in the state that is then reached nobody waits and nobody holds a place, so every semaphore is
-- empty. A limiter with a positive rate and burst lets each goroutine that waits for it pass at some time.
pub Reach-drains :
    (s : Settings) (mach : Machine) (passes : Passes) (q : Queue) (rt : Runtime)
    → ((us : Runtime) (i : ℕ) (w : Waiter)
        → get_elem? us.waiting i ≡ some w
        → is_flowing w.limiter ≡ true
        → (now : Time) × (passes us i now ≡ true))
    → Reach s mach passes (idle q) rt
    → All (λ w. is_flowing w.limiter ≡ true) rt.waiting
    → (us : Runtime) × Reach s mach passes rt us
      × (us.waiting ≡ [])
      × (us.inside ≡ [])
      × All (λ x. x.held ≡ 0) us.qs.semaphores
Reach-drains s mach passes q rt lets r flows =
    let v = Reach-RuntimeIsValid-idle s mach passes q rt r in
    let (us, t, inside, waiting) = drain s mach passes lets rt.waiting rt v flows refl in
    let w = Reach-RuntimeIsValid t v in
    (
      us,
      t,
      waiting,
      inside,
      All-of_get_elem? (λ (x : Semaphore). x.held ≡ 0) us.qs.semaphores
          (λ g x h. (w.gated.counted g x h).0 ∙ ap (holders g) inside),
    )
