-- ===== src/Core/Engine/Made.antt =====
-- What CreateQueue of core/engine.go stores, and what GetQueue then gives.
use cloud_tasks_emulator.Base.{◌≡◌, refl, sym, ap, ◌∙◌, some, arith}
use cloud_tasks_emulator.Base.Bytes.{Bytes}
use cloud_tasks_emulator.Core.Status.{
  ok, ◌>>=◌, >>=-eq-ok, Ensures, on_ok, Ensures-bind, Ensures-elim,
}
use cloud_tasks_emulator.Core.Types.{Queue}
use cloud_tasks_emulator.Core.Limits.{apply_queue_defaults}
use cloud_tasks_emulator.Core.Queue.{new_queue_state, rebuild_limits}
use cloud_tasks_emulator.Core.Engine.{Engine, snapshot}
use cloud_tasks_emulator.Core.Engine.Queues.{
  named, check_queue, store_new, try_create_queue, create_queue, get_queue,
}
use cloud_tasks_emulator.Core.Engine.Lifecycle.{reply-eq-ok, queue_locked-put_queue}

-- The checks give back the queue that they were given.
pub check_queue-eq-ok : (given : Queue) {q : Queue} → check_queue (some given) ≡ ok q → q ≡ given
unfolding check_queue
check_queue-eq-ok given h =
    let (x, at, h1) = >>=-eq-ok (named (some given)) _ h in
    let (_, _, h2) = >>=-eq-ok _ _ h1 in let (_, _, h3) = >>=-eq-ok _ _ h2 in ground (arith, at, h3)

module _ {P : Type 0} where
  get_queue-put_queue :
      (e : Engine P) (q : Queue) → get_queue (store_new e q).0 q.name ≡ ok (store_new e q).1
  unfolding get_queue ◌>>=◌
  get_queue-put_queue e q =
      rw (queue_locked-put_queue e q.name (new_queue_state (apply_queue_defaults q))) refl

  try_create_queue-store_new :
      (e : Engine P) (parent : Bytes) (given : Queue)
      → Ensures (λ r. r ≡ store_new e given) (try_create_queue e parent (some given))
  unfolding try_create_queue
  try_create_queue-store_new e parent given = Ensures-bind λ _ _. Ensures-bind λ g h.
      Ensures-bind λ _ _.
        Ensures-bind λ _ _. on_ok (ap (λ (x : Queue). store_new e x) (check_queue-eq-ok given h))

  -- After CreateQueue without an error, GetQueue of the name gives the queue that was returned: the given
  -- one with its defaults, and with no task.
  pub create_queue-get_queue :
      (e e' : Engine P) (parent : Bytes) (given q : Queue)
      → create_queue e parent (some given) ≡ (e', ok q)
      → (get_queue e' given.name ≡ ok q)
        × (q ≡ record (apply_queue_defaults given) { tasks_count = 0 })
  unfolding create_queue
  create_queue-get_queue e e' parent given q h =
      let made : (e', q) ≡ store_new e given =
        Ensures-elim (try_create_queue-store_new e parent given)
          (reply-eq-ok e (try_create_queue e parent (some given)) h) in
      let stored : q ≡ (store_new e given).1 = ap (λ (x : Engine P × Queue). x.1) made in
      (
        ap (λ (x : Engine P × Queue). get_queue x.0 given.name) made
            ∙ get_queue-put_queue e given
            ∙ ap ok (sym stored),
        stored ∙ (unfold snapshot new_queue_state rebuild_limits in refl),
      )
