-- ===== src/Core/Engine/Updated.antt =====
-- What UpdateQueue of core/engine.go makes of a queue that exists, when no fields are named.
use cloud_tasks_emulator.Base.{
  ◌≡◌, refl, ap, ◌∙◌, subst, sym, some, length, [], if◌then◌else◌, Option, Bool,
}
use cloud_tasks_emulator.Base.Bytes.{bytes_eq_refl}
use cloud_tasks_emulator.Base.Dict.{lookup, lookup-insert}
use cloud_tasks_emulator.Core.Status.{ok, Ensures, on_ok, Ensures-bind, Ensures-elim}
use cloud_tasks_emulator.Core.Types.{Queue}
use cloud_tasks_emulator.Core.Limits.{apply_queue_defaults}
use cloud_tasks_emulator.Core.Queue.{QueueState, rebuild_limits}
use cloud_tasks_emulator.Core.Engine.{Engine, snapshot}
use cloud_tasks_emulator.Core.Engine.Queues.{
  set_fields, update_state, update_found, try_update_queue, update_queue,
}
use cloud_tasks_emulator.Core.Engine.Lifecycle.{reply-eq-ok}
use cloud_tasks_emulator.Core.Engine.Made.{check_queue-eq-ok}

-- What an update does to a queue whose fields are all replaced.
abbrev pub Replaced : Queue → QueueState → Queue → QueueState → Type 0
Replaced given qs stored us =
    (us.q
      ≡ apply_queue_defaults (record qs.q {
        rate_limits = given.rate_limits;
        retry_config = given.retry_config;
        app_engine_routing_override = given.app_engine_routing_override;
        http_override = given.http_override;
      }))
    × (us.tasks ≡ qs.tasks)
    × (stored ≡ record us.q { tasks_count = length us.tasks })

update_state-Replaced :
    (given : Queue) (qs : QueueState)
    → Replaced given qs (snapshot (update_state given [] qs)) (update_state given [] qs)
unfolding update_state rebuild_limits set_fields snapshot
update_state-Replaced given qs = (refl, refl, refl)

module _ {P : Type 0} where
  abbrev Stands : Queue → QueueState → Engine P × Queue → Type 0
  Stands given qs r =
      (us : QueueState) × (lookup given.name r.0.queues ≡ some us) × Replaced given qs r.1 us

  update_found-Stands :
      (e : Engine P) (given : Queue) (qs : QueueState)
      → Stands given qs (update_found e given [] (some qs))
  update_found-Stands e given qs =
      let us = update_state given [] qs in
      (
        us,
        lookup-insert given.name given.name us e.queues
            ∙ ap (λ (b : Bool). if b then some us else lookup given.name e.queues)
                (bytes_eq_refl given.name),
        update_state-Replaced given qs,
      )

  try_update_queue-Stands :
      (e : Engine P) (given : Queue) (qs : QueueState)
      → lookup given.name e.queues ≡ some qs
      → Ensures (Stands given qs) (try_update_queue e (some given) [])
  unfolding try_update_queue
  try_update_queue-Stands e given qs at = Ensures-bind λ g h. on_ok (
      subst (λ (x : Queue). Stands given qs (update_found e x [] (lookup x.name e.queues)))
        (sym (check_queue-eq-ok given h))
        (subst (λ (o : Option QueueState). Stands given qs (update_found e given [] o)) (sym at)
          (update_found-Stands e given qs)))

  pub update_queue-Replaced :
      (e e' : Engine P) (given stored : Queue) (qs : QueueState)
      → lookup given.name e.queues ≡ some qs
      → update_queue e (some given) [] ≡ (e', ok stored)
      → (us : QueueState) × (lookup given.name e'.queues ≡ some us) × Replaced given qs stored us
  unfolding update_queue
  update_queue-Replaced e e' given stored qs at h =
      Ensures-elim (try_update_queue-Stands e given qs at) (reply-eq-ok e _ h)
