-- ===== src/Core/Naming/Names.antt =====
-- The names that core/naming.go parses and the parents that it derives.
use cloud_tasks_emulator.Base.{
  ℕ, ◌≡◌, ◌↔◌, refl, sym, ap, ◌∙◌, true, Option, none, some, List, [], ◌∷◌, ◌++◌, append-nil,
  append_assoc, is_some, arith,
}
use cloud_tasks_emulator.Base.Bytes.{Bytes, codes, bytes_eq_iff}
use cloud_tasks_emulator.Core.Status.{ok, ◌>>=◌}
use cloud_tasks_emulator.Core.Naming.{
  queue_name_re, task_name_re, two, three, four, parse_queue_name, parse_task_name, queue_name,
  task_name, task_queue_of, task_id, matches_id_re, resolve_task_name,
}
use cloud_tasks_emulator.Core.Naming.Matching.{
  IsSegment, Spells, find_submatch_sound, find_submatch_complete,
}

two-eq-some : (r : Option (List Bytes)) {p l : Bytes} → two r ≡ some (p, l) → r ≡ some (p ∷ l ∷ [])
two-eq-some none h = cc
two-eq-some (some []) h = cc
two-eq-some (some (a ∷ [])) h = cc
two-eq-some (some (a ∷ b ∷ [])) h = ground arith
two-eq-some (some (a ∷ b ∷ c ∷ ms)) h = cc

three-eq-some :
    (r : Option (List Bytes)) {p l q : Bytes} → three r ≡ some (p, l, q) → r ≡ some (p ∷ l ∷ q ∷ [])
three-eq-some none h = cc
three-eq-some (some []) h = cc
three-eq-some (some (a ∷ [])) h = cc
three-eq-some (some (a ∷ b ∷ [])) h = cc
three-eq-some (some (a ∷ b ∷ c ∷ [])) h = ground arith
three-eq-some (some (a ∷ b ∷ c ∷ d ∷ ms)) h = cc

four-eq-some :
    (r : Option (List Bytes)) {p l q t : Bytes}
    → four r ≡ some (p, l, q, t)
    → r ≡ some (p ∷ l ∷ q ∷ t ∷ [])
four-eq-some none h = cc
four-eq-some (some []) h = cc
four-eq-some (some (a ∷ [])) h = cc
four-eq-some (some (a ∷ b ∷ [])) h = cc
four-eq-some (some (a ∷ b ∷ c ∷ [])) h = cc
four-eq-some (some (a ∷ b ∷ c ∷ d ∷ [])) h = ground arith
four-eq-some (some (a ∷ b ∷ c ∷ d ∷ e ∷ ms)) h = cc

Spells-queue_name :
    (name p l q : Bytes)
    → Spells queue_name_re (p ∷ l ∷ q ∷ []) name
    → (name ≡ queue_name p l q) × IsSegment p × IsSegment l × IsSegment q
unfolding queue_name
Spells-queue_name name p l q (_, e, (_, f, sp, (_, g, (_, h, sl, (_, i, (_, j, sq, k)))))) =
    (cc (append-nil q), sp, sl, sq)

Spells-task_name :
    (name p l q t : Bytes)
    → Spells task_name_re (p ∷ l ∷ q ∷ t ∷ []) name
    → (name ≡ task_name p l q t) × IsSegment p × IsSegment l × IsSegment q × IsSegment t
unfolding task_name
Spells-task_name name p l q t
      (_, e, (_, f, sp, (_, g, (_, h, sl, (_, i, (_, j, sq, (_, k, (_, m, st, n)))))))) =
    (cc (append-nil t), sp, sl, sq, st)

pub parse_queue_name-queue_name :
    (p l q : Bytes)
    → IsSegment p
    → IsSegment l
    → IsSegment q
    → parse_queue_name (queue_name p l q) ≡ some (p, l, q)
unfolding parse_queue_name queue_name
parse_queue_name-queue_name p l q sp sl sq = ap three (
    find_submatch_complete queue_name_re _ (p ∷ l ∷ q ∷ []) (refl, (refl, tt))
      (
        _,
        refl,
        (_, refl, sp, (_, refl, (_, refl, sl, (_, refl, ([], sym (append-nil q), sq, refl))))),
      ))

pub parse_task_name-task_name :
    (p l q t : Bytes)
    → IsSegment p
    → IsSegment l
    → IsSegment q
    → IsSegment t
    → parse_task_name (task_name p l q t) ≡ some (p, l, q, t)
unfolding parse_task_name task_name
parse_task_name-task_name p l q t sp sl sq st = ap four (
    find_submatch_complete task_name_re _ (p ∷ l ∷ q ∷ t ∷ []) (refl, (refl, (refl, tt)))
      (
        _,
        refl,
        (
          _,
          refl,
          sp,
          (
            _,
            refl,
            (_, refl, sl, (_, refl, (_, refl, sq, (_, refl, ([], sym (append-nil t), st, refl))))),
          ),
        ),
      ))

-- A text parses as a queue name with components p, l and q exactly when these are segments and it
-- is "projects/p/locations/l/queues/q".
pub parse_queue_name_iff :
    (name p l q : Bytes)
    → (parse_queue_name name ≡ some (p, l, q))
      ↔ ((name ≡ queue_name p l q) × IsSegment p × IsSegment l × IsSegment q)
parse_queue_name_iff name p l q = (
  unfold parse_queue_name in
      (λ h.
        Spells-queue_name name p l q
          (find_submatch_sound queue_name_re name _ (three-eq-some _ h))),
  λ (e, sp, sl, sq). rw e (parse_queue_name-queue_name p l q sp sl sq),
)

-- A text parses as a task name with components p, l, q and t exactly when these are segments and
-- it is "projects/p/locations/l/queues/q/tasks/t".
pub parse_task_name_iff :
    (name p l q t : Bytes)
    → (parse_task_name name ≡ some (p, l, q, t))
      ↔ ((name ≡ task_name p l q t) × IsSegment p × IsSegment l × IsSegment q × IsSegment t)
parse_task_name_iff name p l q t = (
  unfold parse_task_name in
      (λ h.
        Spells-task_name name p l q t (find_submatch_sound task_name_re name _ (four-eq-some _ h))),
  λ (e, sp, sl, sq, st). rw e (parse_task_name-task_name p l q t sp sl sq st),
)

-- A generated name is a task of the queue that it was generated for.
pub task_queue_of_generated :
    (parent p l q id : Bytes)
    → parse_queue_name parent ≡ some (p, l, q)
    → IsSegment id
    → (parse_task_name (parent ++ (codes "/tasks/" ++ id)) ≡ some (p, l, q, id))
      × (task_queue_of (parent ++ (codes "/tasks/" ++ id)) ≡ parent)
unfolding task_queue_of task_name queue_name
task_queue_of_generated parent p l q id h si =
    let (e, sp, sl, sq) = (parse_queue_name_iff parent p l q).0 h in
    let parsed =
      (parse_task_name_iff (parent ++ (codes "/tasks/" ++ id)) p l q id).1
        (ap (λ n. n ++ (codes "/tasks/" ++ id)) e ∙ simp append_assoc, sp, sl, sq, si) in
    (parsed, rw (parsed, task_queue_of) (sym e))

-- An accepted name is a task of the parent queue, whether it was provided or generated from a
-- valid id: it parses, and its queue is the parent.
pub resolve_task_name-task_queue_of :
    (parent provided generated : Bytes) {name p l q : Bytes}
    → parse_queue_name parent ≡ some (p, l, q)
    → IsSegment generated
    → resolve_task_name parent provided generated ≡ ok name
    → (is_some (parse_task_name name) ≡ true) × (task_queue_of name ≡ parent)
unfolding resolve_task_name ◌>>=◌
resolve_task_name-task_queue_of parent [] generated {name} {p} {l} {q} hp sg h =
    let (parsed, queue) = task_queue_of_generated parent p l q generated hp sg in ground arith
resolve_task_name-task_queue_of parent (c ∷ s) generated hp sg h =
    ground (arith, bytes_eq_iff (task_queue_of (c ∷ s)) parent)

-- A provided name is accepted exactly when it parses as a task name, its id is a valid task id, and
-- its queue is the parent; it is then returned as it is.
pub resolve_task_name_iff :
    (parent generated name : Bytes) (c : ℕ) (s : Bytes)
    → (resolve_task_name parent (c ∷ s) generated ≡ ok name) ↔ (
        (name ≡ c ∷ s)
        × (is_some (parse_task_name (c ∷ s)) ≡ true)
        × (matches_id_re (task_id (c ∷ s)) ≡ true)
        × (task_queue_of (c ∷ s) ≡ parent))
unfolding resolve_task_name ◌>>=◌ task_id
resolve_task_name_iff parent generated name c s = (
  λ h. ground (arith, bytes_eq_iff (task_queue_of (c ∷ s)) parent),
  λ h. ground (arith, bytes_eq_iff (task_queue_of (c ∷ s)) parent),
)
