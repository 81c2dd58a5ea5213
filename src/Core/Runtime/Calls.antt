-- ===== src/Core/Runtime/Calls.antt =====
-- The calls of the engine on a queue of core/queue.go at work keep what holds of it.
use cloud_tasks_emulator.Base.{
  ℕ, ◌<◌, ◌≡◌, refl, ap, sym, subst, true, List, if◌then◌else◌, arith, inl, inr,
}
use cloud_tasks_emulator.Base.Int.{ℤ, negsuc, ltb_ℤ, pos, pos_part}
use cloud_tasks_emulator.Base.Bytes.{Bytes}
use cloud_tasks_emulator.Core.Status.{
  Result, ok, err, Result-cases, Ensures, on_ok, Ensures-bind, Ensures-elim,
}
use cloud_tasks_emulator.Core.Types.{Time, Queue, Task}
use cloud_tasks_emulator.Core.Queue.{Settings, QueueState, Semaphore, Limiter, rebuild_limits}
use cloud_tasks_emulator.Core.Queue.Removal.{remove_locked, purge, stop}
use cloud_tasks_emulator.Core.Queue.Valid.{IsValid, remove_locked-IsValid}
use cloud_tasks_emulator.Core.Queue.Sweep.{purge-IsValid, stop-IsValid}
use cloud_tasks_emulator.Core.Queue.Gates.{
  gates_of, add_task-gates_of, remove_locked-gates_of, purge-gates_of, stop-gates_of,
}
use cloud_tasks_emulator.Core.Engine.{QueueField}
use cloud_tasks_emulator.Core.Engine.Queues.{update_state}
use cloud_tasks_emulator.Core.Engine.Tasks.{
  fresh_state, next_task_id, insert_task, or_keep, find_task,
}
use cloud_tasks_emulator.Core.Engine.Valid.{Fits, update_state-Fits}
use cloud_tasks_emulator.Core.Engine.Kept.{insert_task-Ensures, or_keep-Fits, find_task-Ensures}
use cloud_tasks_emulator.Core.Runtime.{
  Runtime, Call, inserts, takes_id, deletes, purges, stops, sets_state, updates, operate,
}
use cloud_tasks_emulator.Core.Runtime.Valid.{Gated, RuntimeIsValid}
use cloud_tasks_emulator.Core.Runtime.Gated.{Gated-rebuild}

-- Another queue state with the same semaphores and limiter.
pub moved-IsValid :
    (rt : Runtime) (us : QueueState)
    → RuntimeIsValid rt
    → IsValid us
    → gates_of us ≡ gates_of rt.qs
    → RuntimeIsValid (record rt { qs = us })
unfolding gates_of
moved-IsValid rt us v w same = record {
  queue = w;
  gated =
      subst (λ ss. Gated ss rt.waiting rt.inside)
        (ap (λ (x : List Semaphore × ℕ × Limiter). x.0) (sym same)) v.gated;
  burst =
      subst (λ (l : Limiter). ltb_ℤ (pos 0) l.burst ≡ true)
        (ap (λ (x : List Semaphore × ℕ × Limiter). x.2) (sym same)) v.burst;
}

own_name : (qs : QueueState) → IsValid qs → Fits qs.q.name qs
own_name qs v = record { valid = v; named = refl }

or_keep-gates_of :
    (r : Result QueueState) (qs : QueueState)
    → Ensures (λ us. gates_of us ≡ gates_of qs) r
    → gates_of (or_keep r qs) ≡ gates_of qs
or_keep-gates_of (ok us) qs (on_ok h) = h
or_keep-gates_of (err x) qs h = refl

insert_task-gates_of :
    (s : Settings) (now : Time) (t : Task) (qs : QueueState)
    → Ensures (λ us. gates_of us ≡ gates_of qs) (insert_task s now t qs)
unfolding insert_task
insert_task-gates_of s now t qs =
    Ensures-bind λ _ _. Ensures-bind λ _ _. on_ok (add_task-gates_of s now (fresh_state t) qs)

pub at_least_one_lem :
    (n : ℤ)
    → (ltb_ℤ (pos 0) (if ltb_ℤ n (pos 1) then pos 1 else n) ≡ true)
      × (0 < pos_part (if ltb_ℤ n (pos 1) then pos 1 else n))
at_least_one_lem (pos n) = ground arith
at_least_one_lem (negsuc n) = ground arith

update_state-RuntimeIsValid :
    (q : Queue) (fields : List QueueField) (rt : Runtime)
    → RuntimeIsValid rt
    → RuntimeIsValid (record rt { qs = update_state q fields rt.qs })
unfolding update_state rebuild_limits
update_state-RuntimeIsValid q fields rt v = record {
  queue = (update_state-Fits rt.qs.q.name q fields rt.qs (own_name rt.qs v.queue)).valid;
  gated =
      Gated-rebuild rt.qs.semaphores rt.waiting rt.inside v.gated _
        (at_least_one_lem (update_state q fields rt.qs).q.rate_limits.max_concurrent_dispatches).1;
  burst = (at_least_one_lem (update_state q fields rt.qs).q.rate_limits.max_burst_size).0;
}

delete-RuntimeIsValid :
    (s : Settings) (name : Bytes) (now : Time) (rt : Runtime)
    → RuntimeIsValid rt
    → RuntimeIsValid (record rt { qs = operate s (deletes name now) rt.qs })
unfolding operate
delete-RuntimeIsValid s name now rt v = elim (Result-cases (find_task name rt.qs)) [
  | inl (x, e) ↦ rw (e, operate) v
  | inr ((p, ts), e) ↦
      let (_, at, live, _) = Ensures-elim (find_task-Ensures name rt.qs v.queue) e in
      rw (e, operate)
        (moved-IsValid rt (remove_locked s p now rt.qs) v
          (remove_locked-IsValid s p now ts rt.qs at live v.queue)
          (remove_locked-gates_of s p now rt.qs))
]

-- A call of the engine.
pub operate-RuntimeIsValid :
    (s : Settings) (c : Call) (rt : Runtime)
    → RuntimeIsValid rt
    → RuntimeIsValid (record rt { qs = operate s c rt.qs })
unfolding operate
operate-RuntimeIsValid s (inserts t now) rt v =
    moved-IsValid rt (or_keep (insert_task s now t rt.qs) rt.qs) v
      (or_keep-Fits rt.qs.q.name (insert_task s now t rt.qs) rt.qs
        (insert_task-Ensures s now t rt.qs.q.name rt.qs (own_name rt.qs v.queue))
        (own_name rt.qs v.queue)).valid
      (or_keep-gates_of _ rt.qs (insert_task-gates_of s now t rt.qs))
operate-RuntimeIsValid s (takes_id now) rt v =
    moved-IsValid rt (next_task_id now rt.qs).0 v
      (unfold next_task_id in
        (record { links = v.queue.links; numbered = v.queue.numbered; gate = v.queue.gate }))
      (unfold next_task_id gates_of in refl)
operate-RuntimeIsValid s (deletes name now) rt v = delete-RuntimeIsValid s name now rt v
operate-RuntimeIsValid s (purges now) rt v =
    moved-IsValid rt (purge s now rt.qs) v (purge-IsValid s now rt.qs v.queue)
      (purge-gates_of s now rt.qs)
operate-RuntimeIsValid s stops rt v =
    moved-IsValid rt (stop rt.qs) v (stop-IsValid rt.qs v.queue) (stop-gates_of rt.qs)
operate-RuntimeIsValid s (sets_state st) rt v = record {
  queue = record { links = v.queue.links; numbered = v.queue.numbered; gate = v.queue.gate };
  gated = v.gated;
  burst = v.burst;
}
operate-RuntimeIsValid s (updates q fields) rt v = update_state-RuntimeIsValid q fields rt v
