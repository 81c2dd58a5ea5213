-- ===== src/Tests/Names.antt =====
-- core/naming.go on the names of its tests.
use cloud_tasks_emulator.Base.{◌≡◌, refl, ◌++◌, [], none, some, ◌↔◌, arith, true, is_some}
use cloud_tasks_emulator.Base.Bytes.{Bytes, codes}
use cloud_tasks_emulator.Core.Status.{ok}
use cloud_tasks_emulator.Core.Naming.{
  find_submatch, parse_queue_name, parse_task_name, task_name, queue_parent, task_queue_of, task_id,
  matches_id_re, matches_queue_id_re, resolve_task_name,
}
use cloud_tasks_emulator.Core.Naming.Matching.{IsSegment}
use cloud_tasks_emulator.Core.Naming.Names.{
  parse_task_name_iff, resolve_task_name-task_queue_of, resolve_task_name_iff,
}

abbrev q1 : Bytes
q1 = codes "projects/p/locations/l/queues/q-1"

abbrev t1 : Bytes
t1 = codes "projects/p/locations/l/queues/q-1/tasks/t_1"

parse_q1 : parse_queue_name q1 ≡ some (codes "p", codes "l", codes "q-1")
unfolding parse_queue_name find_submatch
parse_q1 = refl

parse_slash : parse_queue_name (codes "projects/p/locations/l/queues/a/b") ≡ none
unfolding parse_queue_name find_submatch
parse_slash = refl

parent_q1 : queue_parent q1 ≡ codes "projects/p/locations/l"
unfolding queue_parent parse_queue_name find_submatch
parent_q1 = refl

underscore : matches_queue_id_re (codes "a_b") ≡ matches_id_re (codes "a b")
unfolding matches_queue_id_re matches_id_re
underscore = refl

parse_task_name_iff_example :
    (parse_task_name t1 ≡ some (codes "p", codes "l", codes "q-1", codes "t_1")) ↔ (
      (t1 ≡ task_name (codes "p") (codes "l") (codes "q-1") (codes "t_1"))
      × IsSegment (codes "p")
      × IsSegment (codes "l")
      × IsSegment (codes "q-1")
      × IsSegment (codes "t_1"))
parse_task_name_iff_example =
    parse_task_name_iff t1 (codes "p") (codes "l") (codes "q-1") (codes "t_1")

resolve_task_name-task_queue_of_example :
    (is_some (parse_task_name (q1 ++ (codes "/tasks/" ++ codes "7"))) ≡ true)
    × (task_queue_of (q1 ++ (codes "/tasks/" ++ codes "7")) ≡ q1)
unfolding resolve_task_name
resolve_task_name-task_queue_of_example =
    resolve_task_name-task_queue_of q1 [] (codes "7") parse_q1 ((λ e. cc), (omega arith, tt)) refl

resolve_task_name_iff_example : (resolve_task_name q1 t1 (codes "7") ≡ ok t1) ↔ (
    (t1 ≡ t1)
    × (is_some (parse_task_name t1) ≡ true)
    × (matches_id_re (task_id t1) ≡ true)
    × (task_queue_of t1 ≡ q1))
resolve_task_name_iff_example = resolve_task_name_iff q1 (codes "7") t1 _ _
