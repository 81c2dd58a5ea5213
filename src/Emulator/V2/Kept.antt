-- ===== src/Emulator/V2/Kept.antt =====
-- What a client of google.cloud.tasks.v2 gets back of what it sent through emulator/v2.go.
use cloud_tasks_emulator.Base.{
  ℕ, ◌≡◌, ◌≢◌, refl, sym, ap, ◌∙◌, Bool, true, not, ◌&&◌, Option, none, some, List, [], ◌∷◌, leb,
  length, arith,
}
use cloud_tasks_emulator.Base.Int.{pos}
use cloud_tasks_emulator.Base.Bytes.{Bytes, codes, bytes_eq}
use cloud_tasks_emulator.Core.Status.{Result, ok, err}
use cloud_tasks_emulator.Core.Types.{Time, Duration, Task}
use cloud_tasks_emulator.Core.Engine.{Engine}
use cloud_tasks_emulator.Core.Engine.Queues.{update_queue}
use cloud_tasks_emulator.Core.Engine.Updated.{update_queue-Replaced}
use cloud_tasks_emulator.Core.Limits.{apply_queue_defaults}
use cloud_tasks_emulator.Core.Queue.{QueueState}
use cloud_tasks_emulator.Base.Dict.{lookup}
use cloud_tasks_emulator.Core.Engine.Tasks.{create_task, get_task}
use cloud_tasks_emulator.Core.Engine.Created.{create_task-get_task}
use cloud_tasks_emulator.Emulator.Conv.{
  time_to_ts, duration_to_dur, ts_to_time, dur_to_duration, http_method_name, http_method_enum,
  http_method_enum-http_method_name,
}
use cloud_tasks_emulator.Emulator.V2.{
  AuthorizationHeader, no_token, oidc_token, oauth_token, MessageType, no_message, http_request,
  app_engine_http_request, V2Task, v2_task, v2_task_to_core, v2_task_from_core, v2_apply_auth,
  auth_of, message_of, target_of, full, view_or_basic, v2_attempt_from_core,
}
use cloud_tasks_emulator.Emulator.V2.Queues.{
  V2Queue, v2_queue, v2_queue_to_core, v2_queue_from_core, v2_queue_fields, rate_limits_of,
  retry_config_of,
}
use cloud_tasks_emulator.Emulator.V2.Server.{
  v2_create_task, v2_get_task, v2_update_queue, result_as, reply_as,
}

-- A method that the service knows by its own number.
abbrev pub is_known_method : ℕ → Bool
is_known_method m = leb 1 m && leb m 7

abbrev pub has_known_method : MessageType → Bool
has_known_method no_message = true
has_known_method (http_request r) = is_known_method r.http_method
has_known_method (app_engine_http_request r) = is_known_method r.http_method

pub known_method : (m : ℕ) → is_known_method m ≡ true → http_method_enum (http_method_name m) ≡ m
known_method m h = ground (arith, http_method_enum-http_method_name m)

v2_apply_auth-auth_of : (a : AuthorizationHeader) → v2_apply_auth (auth_of a) ≡ a
v2_apply_auth-auth_of no_token = refl
v2_apply_auth-auth_of (oidc_token email audience) = refl
v2_apply_auth-auth_of (oauth_token email scope) = refl

message_of-target_of :
    (m : MessageType) → has_known_method m ≡ true → message_of (target_of m) full ≡ m
message_of-target_of no_message h = refl
message_of-target_of (http_request r) h =
    rw (known_method r.http_method h, v2_apply_auth-auth_of r.authorization_header) refl
message_of-target_of (app_engine_http_request r) h = rw (known_method r.http_method h) refl

pub time_to_ts-ts_to_time : (t : Option Time) → t ≢ some 0 → time_to_ts (ts_to_time t) ≡ t
unfolding time_to_ts
time_to_ts-ts_to_time none h = refl
time_to_ts-ts_to_time (some t) h = ground (arith, h)

pub duration_to_dur-dur_to_duration :
    (d : Option Duration) → d ≢ some (pos 0) → duration_to_dur (dur_to_duration d) ≡ d
unfolding duration_to_dur
duration_to_dur-dur_to_duration none h = refl
duration_to_dur-dur_to_duration (some d) h = ground (arith, h)

-- A task that a client sends comes back in the FULL view as it was sent, but for the fields that only the
-- service sets: when its method is one that the service has a number for, its schedule time is not Go's
-- zero time and its deadline is not zero, where they are there at all.
v2_task_from_core-v2_task :
    (t : V2Task)
    → has_known_method t.message_type ≡ true
    → t.schedule_time ≢ some 0
    → t.dispatch_deadline ≢ some (pos 0)
    → v2_task_from_core (v2_task t) full ≡ record t {
      create_time = none;
      dispatch_count = pos 0;
      response_count = pos 0;
      first_attempt = none;
      last_attempt = none;
      view = full;
    }
unfolding v2_task_from_core time_to_ts view_or_basic v2_attempt_from_core
v2_task_from_core-v2_task t h s d =
    rw
      (message_of-target_of t.message_type h, duration_to_dur-dur_to_duration t.dispatch_deadline d)
      (ap
        (λ (ts : Option Time). record t {
          create_time = none;
          schedule_time = ts;
          dispatch_count = pos 0;
          response_count = pos 0;
          first_attempt = none;
          last_attempt = none;
          view = full;
        })
        (time_to_ts-ts_to_time t.schedule_time s))

-- What a converted result was before.
pub reply_as-ok :
    {S A B : Type 0} (f : A → B) (x : S × Result A) (s : S) (b : B)
    → reply_as f x ≡ (s, ok b)
    → (a : A) × (x ≡ (s, ok a)) × (f a ≡ b)
reply_as-ok f (s0, err bad) s b h = absurd (ground (arith, h))
reply_as-ok f (s0, ok a) s b h = (a, ground (arith, h), ground (arith, h))

-- A task that CreateTask returned without an error is what GetTask then gives under its name in the same
-- view.
pub v2_create_task-v2_get_task :
    {P : Type 0} (e e' : Engine P) (parent : Bytes) (t out : V2Task) (view : ℕ) (now : Time)
    → v2_create_task e parent (some t) view now ≡ (e', ok out)
    → v2_get_task e' out.name view ≡ ok out
unfolding v2_create_task v2_get_task v2_task_to_core
v2_create_task-v2_get_task e e' parent t out view now h =
    let (stored, created, shown) =
      reply_as-ok (λ (t' : Task). v2_task_from_core t' view)
        (create_task e parent (some (v2_task t)) now) e' out h in
    let found : get_task e' stored.name ≡ ok stored =
      (create_task-get_task e e' parent (v2_task t) stored now created).0 in
    let same_name : out.name ≡ stored.name =
      unfold v2_task_from_core in sym (ap (λ (o : V2Task). o.name) shown) in
    ap (λ (n : Bytes). result_as (λ (t' : Task). v2_task_from_core t' view) (get_task e' n))
      same_name
    ∙ ap (result_as (λ (t' : Task). v2_task_from_core t' view)) found
    ∙ ap (λ (o : V2Task). ok o) shown

-- No path is one that UpdateQueue knows.
unfoldable pub all_unknown : List Bytes → Bool
all_unknown [] = true
all_unknown (p ∷ paths) =
    not (bytes_eq p (codes "rate_limits"))
    && not (bytes_eq p (codes "retry_config"))
    && not (bytes_eq p (codes "app_engine_routing_override"))
    && all_unknown paths

v2_queue_fields_unknown :
    (paths : List Bytes) → all_unknown paths ≡ true → v2_queue_fields paths ≡ []
unfolding all_unknown v2_queue_fields
v2_queue_fields_unknown [] h = refl
v2_queue_fields_unknown (p ∷ paths) h = ground (arith, v2_queue_fields_unknown paths)

-- An UpdateQueue of an existing queue, without an error, whose mask names only fields that the service
-- does not know, replaces the rate limits, the retry policy, the App Engine override and, by none, the
-- HTTP override that were there, those of v2beta3 too, with the defaults filled in; nothing else of the
-- queue changes, and what is returned shows the new queue with the tasks that it has.
pub v2_update_queue_unknown :
    {P : Type 0} (e e' : Engine P) (q out : V2Queue) (paths : List Bytes) (qs : QueueState)
    → all_unknown paths ≡ true
    → lookup q.name e.queues ≡ some qs
    → v2_update_queue e (some q) paths ≡ (e', ok out)
    → (us : QueueState) × (lookup q.name e'.queues ≡ some us)
      × (us.q
          ≡ apply_queue_defaults (record qs.q {
            rate_limits = rate_limits_of q.rate_limits;
            retry_config = retry_config_of q.retry_config;
            app_engine_routing_override = q.app_engine_routing_override;
            http_override = none;
          }))
      × (us.tasks ≡ qs.tasks)
      × (out ≡ v2_queue_from_core (record us.q { tasks_count = length us.tasks }))
unfolding v2_update_queue v2_queue_to_core
v2_update_queue_unknown e e' q out paths qs h at made =
    let (stored, updated, shown) =
      reply_as-ok v2_queue_from_core
        (update_queue e (v2_queue_to_core (some q)) (v2_queue_fields paths)) e' out made in
    let (us, at', (config, tasks, seen)) =
      update_queue-Replaced e e' (v2_queue q) stored qs at (
        ap (update_queue e (some (v2_queue q))) (sym (v2_queue_fields_unknown paths h))
        ∙ updated) in
    (us, at', config, tasks, sym shown ∙ ap v2_queue_from_core seen)
