-- ===== src/Core/Validate.antt =====
-- validateCreateTask of core/engine.go and its helpers: the documented limits of a task.
use cloud_tasks_emulator.Base.{
  ℕ, ◌+◌, ◌-◌, ◌*◌, Bool, false, not, ◌&&◌, ◌||◌, List, [], ◌∷◌, map, ltb, leb, ◌==◌, if◌then◌else◌,
  length,
}
use cloud_tasks_emulator.Base.Int.{pos, ltb_ℤ, eq_ℤ}
use cloud_tasks_emulator.Base.Bytes.{Bytes, codes, bytes_eq, is_empty}
use cloud_tasks_emulator.Base.Dict.{Dict}
use cloud_tasks_emulator.Core.Status.{
  Result, ok, fail, ◌>>◌, reject_if, invalid_argument, schedule_too_far, deadline_range,
  http_body_limit, url_limit, header_limit, app_engine_body_limit, pull_body_limit, target_required,
  body_method,
}
use cloud_tasks_emulator.Core.Limits.{second, minute, hour}
use cloud_tasks_emulator.Core.Types.{
  Time, Duration, Target, Task, target_none, target_http, target_app_engine, target_pull,
  TargetType,
}

abbrev pub max_http_task_body_size : ℕ
max_http_task_body_size = 1024 * 1024

abbrev pub max_app_engine_task_body_size : ℕ
max_app_engine_task_body_size = 100 * 1024

abbrev pub max_http_header_size : ℕ
max_http_header_size = 80 * 1024

abbrev pub max_http_url_length : ℕ
max_http_url_length = 2083

abbrev pub max_schedule_ahead : ℕ
max_schedule_ahead = 30 * 24 * hour

abbrev pub min_dispatch_deadline : ℕ
min_dispatch_deadline = 15 * second

abbrev pub max_http_dispatch_deadline : ℕ
max_http_dispatch_deadline = 30 * minute

abbrev pub max_app_engine_deadline : ℕ
max_app_engine_deadline = 24 * hour + 15 * second

unfoldable pub header_size : Dict Bytes → ℕ
header_size [] = 0
header_size ((k, v) ∷ headers) = length k + length v + header_size headers

-- `strings.ToUpper` of an ASCII text.
unfoldable pub to_upper : Bytes → Bytes
to_upper = map (λ c. if leb b'a' c && leb c b'z' then c - 32 else c)

-- `slices.Contains`.
unfoldable pub contains : List Bytes → Bytes → Bool
contains [] s = false
contains (x ∷ xs) s = bytes_eq x s || contains xs s

unfoldable pub check_body_method : Target → List Bytes → Result (Unit {0})
unfolding to_upper contains
check_body_method tg allowed =
    let method = if is_empty tg.method then codes "POST" else tg.method in
    if is_empty tg.body
    then ok tt
    else reject_if (not (contains allowed (to_upper method))) invalid_argument (body_method allowed)

unfoldable pub check_deadline : Duration → ℕ → Result (Unit {0})
check_deadline d max =
    reject_if (not (eq_ℤ d (pos 0)) && (ltb_ℤ d (pos min_dispatch_deadline) || ltb_ℤ (pos max) d))
      invalid_argument deadline_range

validate_http : Task → Result (Unit {0})
unfolding header_size check_body_method check_deadline
validate_http t = do
  check_deadline t.dispatch_deadline max_http_dispatch_deadline
  reject_if (ltb max_http_task_body_size (length t.target.body)) invalid_argument http_body_limit
  reject_if (ltb max_http_url_length (length t.target.url)) invalid_argument url_limit
  reject_if (leb max_http_header_size (header_size t.target.headers)) invalid_argument header_limit
  check_body_method t.target (codes "POST" ∷ codes "PUT" ∷ codes "PATCH" ∷ [])

validate_app_engine : Task → Result (Unit {0})
unfolding check_body_method check_deadline
validate_app_engine t = do
  check_deadline t.dispatch_deadline max_app_engine_deadline
  reject_if (ltb max_app_engine_task_body_size (length t.target.body)) invalid_argument
      app_engine_body_limit
  check_body_method t.target (codes "POST" ∷ codes "PUT" ∷ [])

validate_pull : Task → Result (Unit {0})
validate_pull t =
    reject_if (ltb max_http_task_body_size (length t.target.body)) invalid_argument pull_body_limit

-- The `switch` on the type of the target.
unfoldable pub validate_target : TargetType → Task → Result (Unit {0})
unfolding validate_http validate_app_engine validate_pull
validate_target target_http t = validate_http t
validate_target target_app_engine t = validate_app_engine t
validate_target target_pull t = validate_pull t
validate_target target_none t = fail invalid_argument target_required

unfoldable pub validate_create_task : Time → Task → Result (Unit {0})
validate_create_task now t = do
  reject_if (not (t.schedule_time == 0) && ltb (now + max_schedule_ahead) t.schedule_time)
      invalid_argument schedule_too_far
  validate_target t.target.type t
