-- ===== src/Core/Queue/Outcomes.antt =====
-- What fire and applyAttempt of core/queue.go do to a queue state.
use cloud_tasks_emulator.Base.{
  ℕ, ◌≡◌, refl, ◌∙◌, true, false, none, some, ◌==◌, get_elem?, arith, Bool-cases, Option-cases, inl,
  inr,
}
use cloud_tasks_emulator.Core.Types.{Time, Attempt}
use cloud_tasks_emulator.Core.Retry.{Machine, should_retry}
use cloud_tasks_emulator.Core.Queue.{Settings, TaskState, QueueState, modify, is_held}
use cloud_tasks_emulator.Core.Queue.Heap.{get_elem?-modify}
use cloud_tasks_emulator.Core.Queue.Attempts.{
  fire, fire_state, Outcome, Clock, AttemptSnapshot, snapshot_attempt, attempt_of, record_attempt,
  finish_attempt, apply_attempt, attempt,
}
use cloud_tasks_emulator.Core.Queue.Links.{name_of, Linked-modify}
use cloud_tasks_emulator.Core.Queue.Valid.{
  Below-suc, IsValid, schedule-IsValid, remove_locked-IsValid,
}

-- A write that keeps the name and the mark of a task state.
pub modify-IsValid :
    (qs : QueueState) (p : ℕ) (f : TaskState → TaskState) (ts : TaskState)
    → get_elem? qs.heap p ≡ some ts
    → name_of (f ts) ≡ name_of ts
    → IsValid qs
    → IsValid (record qs { heap = modify qs.heap p f })
modify-IsValid qs p f ts at same v = record {
  links = Linked-modify qs.tasks qs.heap p f ts at same v.links;
  numbered = v.numbered;
  gate = v.gate;
}

pub fire-IsValid : (p : ℕ) (now : Time) (qs : QueueState) → IsValid qs → IsValid (fire p now qs).0
unfolding fire fire_state
fire-IsValid p now qs v = elim (Option-cases (get_elem? qs.heap p)) [
  | inl e ↦ rw (e, fire) v
  | inr (ts, e) ↦ elim (Bool-cases ts.removed) [
    | inl gone ↦ rw (e, fire, gone) v
    | inr live ↦ elim (Bool-cases (is_held qs.q.state)) [
      | inl held ↦
          rw (e, fire, live, held)
            (record {
              links = Linked-modify qs.tasks qs.heap p _ ts e refl v.links;
              numbered = (omega arith, Below-suc qs.next_timer qs.timers v.numbered);
              gate = v.gate;
            })
      | inr running ↦ rw (e, fire, live, running) v
    ]
  ]
]

name-record_attempt :
    (ts : TaskState) (att : Attempt) (sent : Time) (o : Outcome)
    → ((record_attempt ts att sent o).t.name ≡ ts.t.name)
      × ((record_attempt ts att sent o).removed ≡ ts.removed)
unfolding record_attempt
name-record_attempt ts att sent o = (refl, refl)

-- The state at a pointer, written over by one with the same name that is not removed.
written-IsValid :
    (qs : QueueState) (p : ℕ) (ts us : TaskState)
    → get_elem? qs.heap p ≡ some ts
    → ts.removed ≡ false
    → us.removed ≡ false
    → us.t.name ≡ ts.t.name
    → IsValid qs
    → IsValid (record qs { heap = modify qs.heap p (λ _. us) })
      × (get_elem? (modify qs.heap p (λ _. us)) p ≡ some us)
written-IsValid qs p ts us at live alive name v = (
  modify-IsValid qs p (λ _. us) ts at (rw (live, alive, name) refl) v,
  ground (arith, get_elem?-modify qs.heap p p (λ _. us) ts at),
)

finish_attempt-IsValid :
    (s : Settings) (mach : Machine) (p : ℕ) (now : Time) (o : Outcome) (ts us : TaskState)
    (qs : QueueState)
    → get_elem? qs.heap p ≡ some ts
    → ts.removed ≡ false
    → us.removed ≡ false
    → us.t.name ≡ ts.t.name
    → IsValid qs
    → IsValid (finish_attempt s mach p now o us qs)
unfolding finish_attempt
finish_attempt-IsValid s mach p now o ts us qs at live alive name v =
    elim (Bool-cases (o.rpc_code == 0)) [
      | inl done ↦
          let (w, e) = written-IsValid qs p ts us at live alive name v in
          rw done (remove_locked-IsValid s p now us _ e alive w)
      | inr failed ↦
          elim (Bool-cases
            (should_retry qs.q.retry_config us.t.dispatch_count us.first_attempt_time now)) [
              | inl again ↦
                  rw (failed, again)
                    (schedule-IsValid p now _ (written-IsValid qs p ts _ at live alive name v).0)
              | inr over ↦
                  let (w, e) = written-IsValid qs p ts _ at live alive name v in
                  rw (failed, over) (remove_locked-IsValid s p now _ _ e alive w)
            ]
    ]

module _ (s : Settings) (mach : Machine) (p : ℕ) (att : Attempt) (sent : Time) (o : Outcome)
    (now : Time) (qs : QueueState) where
  pub apply_attempt_absent :
      get_elem? qs.heap p ≡ none → apply_attempt s mach p att sent o now qs ≡ qs
  unfolding apply_attempt
  apply_attempt_absent e = rw (e, apply_attempt) refl

  -- An outcome for a removed task changes nothing.
  pub apply_attempt_removed :
      (ts : TaskState)
      → get_elem? qs.heap p ≡ some ts
      → ts.removed ≡ true
      → apply_attempt s mach p att sent o now qs ≡ qs
  unfolding apply_attempt
  apply_attempt_removed ts e gone = rw (e, apply_attempt) (simp gone)

  pub apply_attempt_live :
      (ts : TaskState)
      → get_elem? qs.heap p ≡ some ts
      → ts.removed ≡ false
      → apply_attempt s mach p att sent o now qs
        ≡ finish_attempt s mach p now o (record_attempt ts att sent o) qs
  unfolding apply_attempt
  apply_attempt_live ts e live = rw (e, apply_attempt) (simp live)

  pub apply_attempt-IsValid : IsValid qs → IsValid (apply_attempt s mach p att sent o now qs)
  apply_attempt-IsValid v = elim (Option-cases (get_elem? qs.heap p)) [
    | inl e ↦ rw (apply_attempt_absent e) v
    | inr (ts, e) ↦
        let (name, mark) = name-record_attempt ts att sent o in
        elim (Bool-cases ts.removed) [
          | inl gone ↦ rw (apply_attempt_removed ts e gone) v
          | inr live ↦ rw (apply_attempt_live ts e live) (
              finish_attempt-IsValid s mach p now o ts (record_attempt ts att sent o) qs e live
                (mark ∙ live) name v)
        ]
  ]

pub attempt-IsValid :
    (s : Settings) (mach : Machine) (dispatch : AttemptSnapshot → Outcome) (p : ℕ) (clock : Clock)
    (qs : QueueState)
    → IsValid qs
    → IsValid (attempt s mach dispatch p clock qs)
unfolding attempt
attempt-IsValid s mach dispatch p clock qs v = elim (Option-cases (snapshot_attempt p qs)) [
  | inl e ↦ rw (e, attempt) v
  | inr (snap, e) ↦
      rw (e, attempt)
        (apply_attempt-IsValid s mach p (attempt_of snap clock.sent clock.received (dispatch snap))
          clock.sent (dispatch snap) clock.applied qs v)
]
