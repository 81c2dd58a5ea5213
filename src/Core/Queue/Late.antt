-- ===== src/Core/Queue/Late.antt =====
-- What reaches a queue of core/queue.go after its tasks are gone: outcomes of attempts that were
-- under way, and timers that had gone off before they could be stopped.
use cloud_tasks_emulator.Base.{
  ℕ, ◌≡◌, refl, true, some, [], get_elem?, Bool-cases, Option-cases, inl, inr,
}
use cloud_tasks_emulator.Base.Dict.{lookup}
use cloud_tasks_emulator.Core.Types.{Time, Attempt}
use cloud_tasks_emulator.Core.Retry.{Machine}
use cloud_tasks_emulator.Core.Queue.{Settings, TaskState, QueueState}
use cloud_tasks_emulator.Core.Queue.Removal.{purge, stop, expire}
use cloud_tasks_emulator.Core.Queue.Attempts.{Outcome, dropped, fire, fire_state, apply_attempt}
use cloud_tasks_emulator.Core.Queue.Links.{live_name}
use cloud_tasks_emulator.Core.Queue.Valid.{IsValid}
use cloud_tasks_emulator.Core.Queue.Outcomes.{apply_attempt_absent, apply_attempt_removed}
use cloud_tasks_emulator.Core.Queue.Sweep.{purge-IsValid, stop-IsValid}

-- No task state is live where the map is empty.
none_live :
    (qs : QueueState)
    → IsValid qs
    → qs.tasks ≡ []
    → (p : ℕ) (ts : TaskState) → get_elem? qs.heap p ≡ some ts
    → ts.removed ≡ true
unfolding lookup
none_live qs v empty p ts at = elim (Bool-cases ts.removed) [
  | inl gone ↦ gone
  | inr live ↦
      let named : live_name qs.heap p ≡ some ts.t.name = rw (at, live_name) (simp live) in
      absurd (cc (rw empty at (v.links.pointed ts.t.name p named)))
]

-- On such a queue an outcome, a firing and an expiry change nothing.
unfoldable pub Deaf : QueueState → Type 0
Deaf qs =
    ((s : Settings) (mach : Machine) (p : ℕ) (att : Attempt) (sent : Time) (o : Outcome)
        (now : Time)
      → apply_attempt s mach p att sent o now qs ≡ qs)
    × ((p : ℕ) (now : Time) → fire p now qs ≡ (qs, dropped))
    × ((s : Settings) (p : ℕ) (now : Time) → expire s p now qs ≡ qs)

empty-Deaf : (qs : QueueState) → IsValid qs → qs.tasks ≡ [] → Deaf qs
unfolding fire fire_state expire Deaf
empty-Deaf qs v empty = (
  λ s mach p att sent o now. elim (Option-cases (get_elem? qs.heap p)) [
    | inl e ↦ apply_attempt_absent s mach p att sent o now qs e
    | inr (ts, e) ↦
        apply_attempt_removed s mach p att sent o now qs ts e (none_live qs v empty p ts e)
  ],
  λ p now. elim (Option-cases (get_elem? qs.heap p)) [
    | inl e ↦ rw (e, fire) refl
    | inr (ts, e) ↦ rw (e, fire) (simp (none_live qs v empty p ts e))
  ],
  λ s p now. elim (Option-cases (get_elem? qs.heap p)) [
    | inl e ↦ rw (e, expire) refl
    | inr (ts, e) ↦ rw (e, expire) (simp (none_live qs v empty p ts e))
  ],
)

-- After a purge, an outcome of an attempt that was under way, a firing and an expiry change nothing,
-- whatever task they are about.
pub purge-Deaf : (s : Settings) (now : Time) (qs : QueueState) → IsValid qs → Deaf (purge s now qs)
purge-Deaf s now qs v =
    empty-Deaf (purge s now qs) (purge-IsValid s now qs v) (unfold purge in refl)

-- After the deletion of a queue has stopped it, an outcome of an attempt that was under way, a
-- firing and an expiry change nothing, whatever task they are about.
pub stop-Deaf : (qs : QueueState) → IsValid qs → Deaf (stop qs)
stop-Deaf qs v = empty-Deaf (stop qs) (stop-IsValid qs v) (unfold stop in refl)
