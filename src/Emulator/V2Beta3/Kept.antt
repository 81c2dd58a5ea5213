-- ===== src/Emulator/V2Beta3/Kept.antt =====
-- What a client of google.cloud.tasks.v2beta3 gets back of what it sent through emulator/v2beta3.go.
use mathlib.Core.List.{Permᴰ}
use cloud_tasks_emulator.Base.{
  ◌≡◌, ◌≢◌, ◌≤◌, refl, sym, ap, ◌∙◌, Bool, true, subst, List, Option, none, some, or_else, ◌==◌,
  if◌then◌else◌, arith,
}
use cloud_tasks_emulator.Base.Int.{pos}
use cloud_tasks_emulator.Base.Bytes.{Bytes}
use cloud_tasks_emulator.Base.Dict.{Dict, Unique}
use cloud_tasks_emulator.Core.Status.{ok}
use cloud_tasks_emulator.Core.Types.{Time, Task}
use cloud_tasks_emulator.Core.Limits.{apply_queue_defaults}
use cloud_tasks_emulator.Core.Engine.{Engine}
use cloud_tasks_emulator.Core.Engine.Queues.{create_queue}
use cloud_tasks_emulator.Core.Naming.{task_queue_of}
use cloud_tasks_emulator.Core.Engine.Tasks.{create_task, get_task}
use cloud_tasks_emulator.Core.Engine.Created.{create_task-get_task}
use cloud_tasks_emulator.Core.Engine.Made.{create_queue-get_queue}
use cloud_tasks_emulator.Emulator.Conv.{time_to_ts, ts_to_time}
use cloud_tasks_emulator.Emulator.V2.{
  AuthorizationHeader, no_token, oidc_token, oauth_token, HttpRequest,
}
use cloud_tasks_emulator.Emulator.V2.Kept.{
  is_known_method, known_method, duration_to_dur-dur_to_duration, reply_as-ok,
}
use cloud_tasks_emulator.Emulator.V2.Server.{result_as}
use cloud_tasks_emulator.Emulator.V2Beta3.{
  PayloadType, no_payload, http_payload, app_engine_payload, pull_payload, V2Beta3Task,
  v2beta3_task, v2beta3_task_to_core, v2beta3_task_from_core, v2beta3_apply_auth,
  v2beta3_auth_from_http, v2beta3_payload, v2beta3_target, v2beta3_view_or_basic,
  v2beta3_attempt_from_core,
}
use cloud_tasks_emulator.Emulator.V2Beta3.Targets.{Order, HttpTarget, header_list}
use cloud_tasks_emulator.Emulator.V2Beta3.Queues.{
  V2Beta3Queue, v2beta3_queue, v2beta3_queue_to_core, v2beta3_queue_from_core, override_of,
  target_of_override,
}
use cloud_tasks_emulator.Emulator.V2Beta3.Server.{
  v2beta3_create_queue, v2beta3_get_queue, v2beta3_create_task, v2beta3_get_task,
}
use cloud_tasks_emulator.Emulator.V2Beta3.Overrides.{
  Settled, Permᴰ-header_list, v2beta3_http_override_from_core-v2beta3_http_override_to_core,
}

-- A pull message has no method.
abbrev pub payload_has_known_method : PayloadType → Bool
payload_has_known_method no_payload = true
payload_has_known_method (http_payload r) = is_known_method r.http_method
payload_has_known_method (app_engine_payload r) = is_known_method r.http_method
payload_has_known_method (pull_payload payload tag) = true

v2beta3_apply_auth-v2beta3_auth_from_http :
    (r : HttpRequest) (a : AuthorizationHeader)
    → r.authorization_header ≡ a
    → v2beta3_apply_auth (v2beta3_auth_from_http r) ≡ a
v2beta3_apply_auth-v2beta3_auth_from_http r no_token e = rw e refl
v2beta3_apply_auth-v2beta3_auth_from_http r (oidc_token email audience) e = rw e refl
v2beta3_apply_auth-v2beta3_auth_from_http r (oauth_token email scope) e = rw e refl

v2beta3_payload-v2beta3_target :
    (p : PayloadType) → payload_has_known_method p ≡ true → v2beta3_payload (v2beta3_target p) 2 ≡ p
v2beta3_payload-v2beta3_target no_payload h = refl
v2beta3_payload-v2beta3_target (http_payload r) h =
    rw
      (
        known_method r.http_method h,
        v2beta3_apply_auth-v2beta3_auth_from_http r r.authorization_header refl,
      )
      refl
v2beta3_payload-v2beta3_target (app_engine_payload r) h = rw (known_method r.http_method h) refl
v2beta3_payload-v2beta3_target (pull_payload payload tag) h = refl

due_as_sent :
    (t : Option Time) (now : Time)
    → t ≢ some 0
    → now ≢ 0
    → time_to_ts (if ts_to_time t == 0 then now else ts_to_time t) ≡ some (or_else t now)
unfolding time_to_ts
due_as_sent none now h later = ground (arith, later)
due_as_sent (some s) now h later = ground (arith, h)

created_now : (now : Time) → now ≢ 0 → time_to_ts now ≡ some now
unfolding time_to_ts
created_now now later = ground (arith, later)

-- What the service shows of a task that it has stored, in the FULL view.
v2beta3_task_from_core-stored :
    (t : V2Beta3Task) (name : Bytes) (now : Time)
    → payload_has_known_method t.payload_type ≡ true
    → t.schedule_time ≢ some 0
    → t.dispatch_deadline ≢ some (pos 0)
    → now ≢ 0
    → v2beta3_task_from_core
        (record (v2beta3_task t) {
          name = name;
          create_time = now;
          schedule_time =
              if ts_to_time t.schedule_time == 0 then now else ts_to_time t.schedule_time;
        })
        2
      ≡ record t {
        name = name;
        create_time = some now;
        schedule_time = some (or_else t.schedule_time now);
        dispatch_count = pos 0;
        response_count = pos 0;
        first_attempt = none;
        last_attempt = none;
        view = 2;
      }
unfolding v2beta3_task_from_core v2beta3_view_or_basic v2beta3_attempt_from_core
v2beta3_task_from_core-stored t name now h s d later =
    rw
      (
        v2beta3_payload-v2beta3_target t.payload_type h,
        duration_to_dur-dur_to_duration t.dispatch_deadline d,
        due_as_sent t.schedule_time now s later,
        created_now now later,
      )
      refl

-- When CreateTask, in the FULL view, returns a task without an error, that task is the one that the client
-- sent, of any of the three kinds, but for its name, which belongs to the parent: it is created now, it is
-- due at the time that the client gave, or now where it gave none, and it has no attempts. GetTask of the
-- name then gives the same. The method that was sent is one that the service has a number for, the time
-- given is not Go's zero time and the deadline not zero, where they are there at all, and neither is now.
pub v2beta3_create_task-v2beta3_get_task :
    {P : Type 0} (e e' : Engine P) (parent : Bytes) (t out : V2Beta3Task) (now : Time)
    → payload_has_known_method t.payload_type ≡ true
    → t.schedule_time ≢ some 0
    → t.dispatch_deadline ≢ some (pos 0)
    → now ≢ 0
    → v2beta3_create_task e parent (some t) 2 now ≡ (e', ok out)
    → (out ≡ record t {
      name = out.name;
      create_time = some now;
      schedule_time = some (or_else t.schedule_time now);
      dispatch_count = pos 0;
      response_count = pos 0;
      first_attempt = none;
      last_attempt = none;
      view = 2;
    })
      × (task_queue_of out.name ≡ parent)
      × (v2beta3_get_task e' out.name 2 ≡ ok out)
unfolding v2beta3_create_task v2beta3_get_task v2beta3_task_to_core
v2beta3_create_task-v2beta3_get_task e e' parent t out now h s d later made =
    let shows = (λ (t' : Task). v2beta3_task_from_core t' 2) in
    let (stored, created, shown) =
      reply_as-ok shows (create_task e parent (some (v2beta3_task t)) now) e' out made in
    let (found, _, own, as_stored) =
      create_task-get_task e e' parent (v2beta3_task t) stored now created in
    let seen =
      sym shown
      ∙ ap shows as_stored
      ∙ v2beta3_task_from_core-stored t stored.name now h s d later in
    let named : out.name ≡ stored.name = ap (λ (o : V2Beta3Task). o.name) seen in
    (
      seen
          ∙ ap
              (λ (n : Bytes). record t {
                name = n;
                create_time = some now;
                schedule_time = some (or_else t.schedule_time now);
                dispatch_count = pos 0;
                response_count = pos 0;
                first_attempt = none;
                last_attempt = none;
                view = 2;
              })
              (sym named),
      ap task_queue_of named ∙ own,
      ap (λ (n : Bytes). result_as shows (get_task e' n)) named
          ∙ ap (result_as shows) found
          ∙ ap (λ (o : V2Beta3Task). ok o) shown,
    )

-- What is shown of a queue that was made of another.
defaulted : Order → V2Beta3Queue → V2Beta3Queue
defaulted order q =
    v2beta3_queue_from_core order
      (record (apply_queue_defaults (v2beta3_queue q)) { tasks_count = 0 })

-- The defaults leave the name and the target alone.
defaulted-http_target :
    (order : Order) (q : V2Beta3Queue)
    → ((defaulted order q).name ≡ q.name)
      × ((defaulted order q).http_target ≡ target_of_override order (override_of q.http_target))
unfolding defaulted v2beta3_queue_from_core apply_queue_defaults
defaulted-http_target order q = (refl, refl)

-- Another order shows in the headers of the target only.
defaulted_again :
    (first second : Order) (q : V2Beta3Queue)
    → defaulted second q ≡ record (defaulted first q) {
      http_target = target_of_override second (override_of q.http_target);
    }
unfolding defaulted v2beta3_queue_from_core apply_queue_defaults
defaulted_again first second q = refl

target_read :
    (order : Order) (t : Option HttpTarget) (h : HttpTarget) (m : Dict Bytes)
    → t ≡ some h
    → Settled h.uri_override
    → h.http_method ≤ 7
    → h.header_overrides ≡ header_list m
    → Unique m
    → target_of_override order (override_of t)
      ≡ some (record h { header_overrides = header_list (order m) })
target_read order t h m target settled known listed u =
    ap (λ (x : Option HttpTarget). target_of_override order (override_of x)) target
    ∙ ap (λ (x : HttpTarget). some x)
        (v2beta3_http_override_from_core-v2beta3_http_override_to_core order h m settled known
          listed u)

-- A queue that CreateQueue returned without an error is what GetQueue then gives under its name, and the
-- HTTP target that the client sent is in both as it was sent, but for the order of its headers: that is
-- the one in which Go goes over the map of headers, in each of the two calls, and each of the entries
-- comes up once. The method of the target is one that the service has a number for or none, its headers
-- have different keys, and a URI override, if there is one, says something and is spelled in the way that
-- the service writes.
pub v2beta3_create_queue-v2beta3_get_queue :
    {P : Type 0} (first second : Order) (e e' : Engine P) (parent : Bytes) (q out : V2Beta3Queue)
    (h : HttpTarget) (m : Dict Bytes)
    → Permᴰ (first m) m
    → Permᴰ (second m) m
    → q.http_target ≡ some h
    → Settled h.uri_override
    → h.http_method ≤ 7
    → h.header_overrides ≡ header_list m
    → Unique m
    → v2beta3_create_queue first e parent (some q) ≡ (e', ok out)
    → (a : List (Option (Bytes × Bytes))) × (b : List (Option (Bytes × Bytes))) × Permᴰ a
        h.header_overrides
      × Permᴰ b h.header_overrides
      × (out.name ≡ q.name)
      × (out.http_target ≡ some (record h { header_overrides = a }))
      × (v2beta3_get_queue second e' q.name
          ≡ ok (record out { http_target = some (record h { header_overrides = b }) }))
unfolding v2beta3_create_queue v2beta3_get_queue v2beta3_queue_to_core
v2beta3_create_queue-v2beta3_get_queue first second e e' parent q out h m once once_more target
      settled known listed u made =
    let (stored, created, shown) =
      reply_as-ok (v2beta3_queue_from_core first) (create_queue e parent (some (v2beta3_queue q)))
        e' out made in
    let (found, stored_as) = create_queue-get_queue e e' parent (v2beta3_queue q) stored created in
    let as_stored : out ≡ defaulted first q =
      sym shown ∙ ap (v2beta3_queue_from_core first) stored_as ∙ (unfold defaulted in refl) in
    let read_again : v2beta3_queue_from_core second stored ≡ defaulted second q =
      ap (v2beta3_queue_from_core second) stored_as ∙ (unfold defaulted in refl) in
    (
      header_list (first m),
      header_list (second m),
      subst (Permᴰ (header_list (first m))) (sym listed) (Permᴰ-header_list once),
      subst (Permᴰ (header_list (second m))) (sym listed) (Permᴰ-header_list once_more),
      ap (λ (o : V2Beta3Queue). o.name) as_stored ∙ (defaulted-http_target first q).0,
      ap (λ (o : V2Beta3Queue). o.http_target) as_stored
          ∙ (defaulted-http_target first q).1
          ∙ target_read first q.http_target h m target settled known listed u,
      ap (result_as (v2beta3_queue_from_core second)) found
          ∙ ap (λ (o : V2Beta3Queue). ok o)
              (read_again
                ∙ defaulted_again first second q
                ∙ ap
                    (λ (o : V2Beta3Queue). record o {
                      http_target = target_of_override second (override_of q.http_target);
                    })
                    (sym as_stored)
                ∙ ap (λ (t : Option HttpTarget). record out { http_target = t })
                    (target_read second q.http_target h m target settled known listed u)),
    )
