-- ===== src/Core/Engine/Valid.antt =====
-- The invariant of the engine of core/engine.go, over any sequence of its operations.
use cloud_tasks_emulator.Base.{
  ◌≡◌, refl, ap, ◌∙◌, subst, Option, none, some, List, ◌∷◌, [], arith, Bool-cases, inl, inr,
}
use cloud_tasks_emulator.Base.Bytes.{Bytes, bytes_eq, bytes_eq_iff}
use cloud_tasks_emulator.Base.Dict.{lookup, lookup-insert, lookup-delete}
use cloud_tasks_emulator.Core.Status.{
  Result, ok, err, or_fail, Ensures, on_ok, on_err, Ensures-bind, Ensures-elim, not_found,
  queue_not_found,
}
use cloud_tasks_emulator.Core.Limits.{apply_queue_defaults}
use cloud_tasks_emulator.Core.Types.{Time, State, Queue}
use cloud_tasks_emulator.Core.Queue.{QueueState, rebuild_limits, new_queue_state}
use cloud_tasks_emulator.Core.Queue.Removal.{purge}
use cloud_tasks_emulator.Core.Queue.Valid.{IsValid, rebuild_limits-IsValid, new_queue_state-IsValid}
use cloud_tasks_emulator.Core.Queue.Sweep.{purge-IsValid}
use cloud_tasks_emulator.Core.Queue.Frames.{purge-q}
use cloud_tasks_emulator.Core.Engine.{
  Engine, QueueField, field_rate_limits, field_retry_config, field_app_engine_routing_override,
  field_http_override, put_queue, reply, queue_locked,
}
use cloud_tasks_emulator.Core.Engine.Queues.{
  store_new, try_create_queue, try_update_queue, try_delete_queue, try_purge_queue,
  try_set_queue_state, set_field, set_fields, mask, update_state, update_found,
}

-- A queue state that belongs under a name.
pub record Fits (name : Bytes) (qs : QueueState) : Type 0 where
  pub valid : IsValid qs
  pub named : qs.q.name ≡ name

set_fields-name :
    (q : Queue) (fs : List QueueField) (old : Queue) → (set_fields q fs old).name ≡ old.name
unfolding set_fields
set_fields-name q [] old = refl
set_fields-name q (f ∷ fs) old = set_fields-name q fs (set_field q f old) ∙ one f
  where
    one : (f : QueueField) → (set_field q f old).name ≡ old.name
    one field_rate_limits = refl
    one field_retry_config = refl
    one field_app_engine_routing_override = refl
    one field_http_override = refl

pub update_state-Fits :
    (name : Bytes) (q : Queue) (fields : List QueueField) (qs : QueueState)
    → Fits name qs
    → Fits name (update_state q fields qs)
unfolding update_state rebuild_limits apply_queue_defaults
update_state-Fits name q fields qs f = record {
  valid =
      rebuild_limits-IsValid
        (record qs { q = apply_queue_defaults (set_fields q (mask fields) qs.q) }) f.valid.links
        f.valid.numbered;
  named = set_fields-name q (mask fields) qs.q ∙ f.named;
}

module _ {P : Type 0} where
  -- Every queue of the map is valid and carries the name that it is stored under.
  pub record EngineIsValid (e : Engine P) : Type 0 where
    pub queue : (name : Bytes) (qs : QueueState) → lookup name e.queues ≡ some qs → Fits name qs

  pub put_queue-IsValid :
      (name : Bytes) (qs : QueueState) (e : Engine P)
      → Fits name qs
      → EngineIsValid e
      → EngineIsValid (put_queue name qs e)
  put_queue-IsValid name qs e f v = record {
    queue = λ j us h. elim (Bool-cases (bytes_eq name j)) [
      | inl same ↦
          let at : some qs ≡ some us = rw (lookup-insert name j qs e.queues, same) at h in
          let eq : name ≡ j = (bytes_eq_iff name j).0 same in
          subst (λ k. Fits k us) eq (subst (Fits name) (some-inj at) f)
      | inr other ↦ v.queue j us (rw (lookup-insert name j qs e.queues, other) at h)
    ];
  }
    where
      some-inj : {a b : QueueState} → some a ≡ some b → a ≡ b
      some-inj h = cc

  abbrev pub Keeps : {A : Type 0} → Result (Engine P × A) → Type 0
  Keeps = Ensures (λ r. EngineIsValid r.0)

  pub reply-IsValid :
      {A : Type 0} (e : Engine P) (r : Result (Engine P × A))
      → EngineIsValid e
      → Keeps r
      → EngineIsValid (reply e r).0
  reply-IsValid e (ok (e', a)) v (on_ok h) = h
  reply-IsValid e (err x) v h = v

  pub store_new-IsValid :
      (e : Engine P) (q : Queue) → EngineIsValid e → EngineIsValid (store_new e q).0
  unfolding new_queue_state rebuild_limits apply_queue_defaults
  store_new-IsValid e q v =
      put_queue-IsValid q.name (new_queue_state (apply_queue_defaults q)) e
        (record { valid = new_queue_state-IsValid (apply_queue_defaults q); named = refl }) v

  pub try_create_queue-Keeps :
      (e : Engine P) (parent : Bytes) (given : Option Queue)
      → EngineIsValid e
      → Keeps (try_create_queue e parent given)
  unfolding try_create_queue
  try_create_queue-Keeps e parent given v = Ensures-bind λ _ _.
      Ensures-bind λ q _. Ensures-bind λ _ _. Ensures-bind λ _ _. on_ok (store_new-IsValid e q v)

  pub try_update_queue-Keeps :
      (e : Engine P) (given : Option Queue) (fields : List QueueField)
      → EngineIsValid e
      → Keeps (try_update_queue e given fields)
  unfolding try_update_queue
  try_update_queue-Keeps e given fields v =
      Ensures-bind λ q _. on_ok (found q (lookup q.name e.queues) refl)
    where
      found :
          (q : Queue) (o : Option QueueState)
          → lookup q.name e.queues ≡ o
          → EngineIsValid (update_found e q fields o).0
      found q none h = store_new-IsValid e q v
      found q (some qs) h =
          put_queue-IsValid q.name (update_state q fields qs) e
            (update_state-Fits q.name q fields qs (v.queue q.name qs h)) v

  pub queue_locked-Ensures :
      (e : Engine P) (name : Bytes) → EngineIsValid e → Ensures (Fits name) (queue_locked e name)
  unfolding queue_locked
  queue_locked-Ensures e name v = at (lookup name e.queues) refl
    where
      at :
          (o : Option QueueState)
          → lookup name e.queues ≡ o
          → Ensures (Fits name) (or_fail o not_found (queue_not_found name))
      at none h = on_err
      at (some qs) h = on_ok (v.queue name qs h)

  pub try_delete_queue-Keeps :
      (e : Engine P) (name : Bytes) → EngineIsValid e → Keeps (try_delete_queue e name)
  unfolding try_delete_queue
  try_delete_queue-Keeps e name v = Ensures-bind λ qs _.
      on_ok
        (record { queue = λ j us h. v.queue j us (ground (arith, lookup-delete name j e.queues)) })

  pub try_purge_queue-Keeps :
      (e : Engine P) (name : Bytes) (now : Time)
      → EngineIsValid e
      → Keeps (try_purge_queue e name now)
  unfolding try_purge_queue
  try_purge_queue-Keeps e name now v = Ensures-bind λ qs h.
      let f = Ensures-elim (queue_locked-Ensures e name v) h in
      on_ok (
        put_queue-IsValid name (purge e.settings now qs) e
          (record {
            valid = purge-IsValid e.settings now qs f.valid;
            named = ap (λ (q : Queue). q.name) (purge-q e.settings now qs) ∙ f.named;
          })
          v)

  pub try_set_queue_state-Keeps :
      (e : Engine P) (name : Bytes) (st : State)
      → EngineIsValid e
      → Keeps (try_set_queue_state e name st)
  unfolding try_set_queue_state
  try_set_queue_state-Keeps e name st v = Ensures-bind λ qs h.
      let f = Ensures-elim (queue_locked-Ensures e name v) h in
      on_ok (
        put_queue-IsValid name (record qs { q = record (qs.q) { state = st } }) e
          (record {
            valid = record {
              links = f.valid.links;
              numbered = f.valid.numbered;
              gate = f.valid.gate;
            };
            named = f.named;
          })
          v)
