-- ===== src/Core/Dispatch/Request.antt =====
-- core/dispatch.go: the requests that buildRequest makes, and dispatch. Parameters stand for net/url,
-- for the check that http.NewRequest makes of a method and a URL, for the signer's tokens and for the
-- sending. A request is its method, its URL, its body and its header.
use cloud_tasks_emulator.Base.{
  ℕ, ◌-◌, ◌/◌, ◌%◌, Bool, true, false, not, ◌&&◌, Option, none, some, [], ◌∷◌, ◌++◌, ◌==◌,
  if◌then◌else◌, length, ◌⊎◌, inl, inr, zero, suc,
}
use cloud_tasks_emulator.Base.Int.{pos, ◌-ℤ◌, int32}
use cloud_tasks_emulator.Base.Bytes.{Bytes, codes, bytes_eq, is_empty}
use cloud_tasks_emulator.Base.Dict.{Dict, insert}
use cloud_tasks_emulator.Std.Decimal.{itoa, format_nat}
use cloud_tasks_emulator.Std.Http.{Header, header_set, header_get}
use cloud_tasks_emulator.Core.Limits.{second}
use cloud_tasks_emulator.Core.Naming.{queue_id, task_id}
use cloud_tasks_emulator.Core.Types.{
  Time, Duration, Auth, Queue, Task, auth_oidc, auth_oauth, target_http, target_app_engine,
}
use cloud_tasks_emulator.Core.Queue.Attempts.{AttemptInfo, AttemptSnapshot, Outcome}
use cloud_tasks_emulator.Core.Dispatch.{
  Response, app_engine_host, method_or_post, oauth_token, deadline_of, not_built, no_response,
  answered, outcome_of,
}
use cloud_tasks_emulator.Core.Dispatch.Override.{UrlLibrary, Effective, apply_http_override}

pub record Request : Type 0 where
  pub method : Bytes
  pub url : Bytes
  pub body : Bytes
  pub header : Header

pub data Built : Type 0 where
  refused : Bytes → Built
  built : Request → Built

-- `refuse` is the error of http.NewRequest, if it has one, and `token` the signer's Token.
pub record Network (Rest : Type 0) : Type 0 where
  pub order : Dict Bytes → Dict Bytes
  pub urls : UrlLibrary Rest
  pub refuse : Bytes → Bytes → Option Bytes
  pub token : Bytes → Bytes → Bytes

-- `req.Header.Set` for each header as it comes up.
unfoldable pub set_all : Dict Bytes → Header → Header
set_all [] h = h
set_all ((k, v) ∷ headers) h = set_all headers (header_set k v h)

unfoldable pub set_raw_header : Bytes → Bytes → Header → Header
set_raw_header k v h = insert k (v ∷ []) h

-- A number with zeros in front, up to a width.
unfoldable pub padded : ℕ → Bytes → Bytes
padded zero s = s
padded (suc n) s = b'0' ∷ padded n s

-- Seconds since the Unix epoch, and microseconds.
unfoldable pub eta_text : Time → Bytes
unfolding padded
eta_text t =
    let micro = format_nat (t % second / 1000) in
    itoa (pos (t / second) -ℤ pos 62135596800) ++ (b'.' ∷ padded (6 - length micro) micro)

-- A header for a value that may be missing.
unfoldable pub set_raw_if : Bool → Bytes → Bytes → Header → Header
unfolding set_raw_header
set_raw_if true k v h = set_raw_header k v h
set_raw_if false k v h = h

unfoldable pub set_system_headers : Bytes → Queue → Task → AttemptInfo → Header → Header
unfolding set_raw_header set_raw_if
set_system_headers prefix q t info h0 =
    let h1 = set_raw_header (prefix ++ codes "-QueueName") (queue_id q.name) h0 in
    let h2 = set_raw_header (prefix ++ codes "-TaskName") (task_id t.name) h1 in
    let h3 =
      set_raw_header (prefix ++ codes "-TaskRetryCount") (itoa (int32 (info.number -ℤ pos 1))) h2 in
    let h4 =
      set_raw_header (prefix ++ codes "-TaskExecutionCount") (itoa info.execution_count) h3 in
    let h5 = set_raw_header (prefix ++ codes "-TaskETA") (eta_text t.schedule_time) h4 in
    let h6 =
      set_raw_if (not (info.prev_http_code == 0)) (prefix ++ codes "-TaskPreviousResponse")
        (itoa (pos info.prev_http_code)) h5 in
    set_raw_if (not (is_empty info.prev_reason)) (prefix ++ codes "-TaskRetryReason")
      info.prev_reason h6

-- For OIDC the audience is the URL unless the task has one.
unfoldable pub bearer : (Bytes → Bytes → Bytes) → Auth → Bytes → Option Bytes
bearer token auth url = elim auth.kind [
  | auth_oidc ↦
      some
        (token auth.service_account_email (if is_empty auth.audience then url else auth.audience))
  | auth_oauth ↦ some (oauth_token auth.service_account_email auth.scope)
  | _ ↦ none
]

abbrev authorized : Option Bytes → Header → Header
authorized none h = h
authorized (some value) h = header_set (codes "Authorization") (codes "Bearer " ++ value) h

unfoldable pub set_auth_header : (Bytes → Bytes → Bytes) → Option Auth → Bytes → Header → Header
unfolding bearer
set_auth_header token none url h = h
set_auth_header token (some auth) url h = authorized (bearer token auth url) h

abbrev pub http_user_agent : Bytes
http_user_agent = codes "Google-Cloud-Tasks"

abbrev pub app_engine_user_agent : Bytes
app_engine_user_agent = codes "AppEngine-Google; (+http://code.google.com/appengine)"

-- What Cloud Tasks says of itself is put behind a user agent that the task sets.
unfoldable pub set_app_engine_user_agent : Header → Header
set_app_engine_user_agent h =
    let own = header_get (codes "User-Agent") h in
    header_set (codes "User-Agent")
      (if not (is_empty own) && not (bytes_eq own app_engine_user_agent)
        then own ++ (b' ' ∷ app_engine_user_agent)
        else app_engine_user_agent)
      h

unfoldable pub set_content_type : Bytes → Header → Header
set_content_type body h =
    if not (is_empty body) && is_empty (header_get (codes "Content-Type") h)
    then header_set (codes "Content-Type") (codes "application/octet-stream") h
    else h

module _ {Rest : Type 0} (net : Network Rest) where
  unfoldable pub new_request : Bytes → Bytes → Bytes → Dict Bytes → Built
  unfolding set_all
  new_request method url body headers = elim (net.refuse method url) [
    | some message ↦ refused message
    | none ↦ built (record {
      method = method;
      url = url;
      body = body;
      header = set_all (net.order headers) [];
    })
  ]

  -- The request of an HTTP target once what it is sent with is known.
  unfoldable pub build_effective : Queue → Task → AttemptInfo → Effective → Built
  unfolding new_request set_system_headers set_auth_header
  build_effective q t info e =
      elim (new_request (method_or_post e.method) e.url t.target.body e.headers) [
        | refused message ↦ refused message
        | built r ↦
            let named = header_set (codes "User-Agent") http_user_agent r.header in
            let system = set_system_headers (codes "X-CloudTasks") q t info named in
            built (record r { header = set_auth_header net.token e.auth e.url system })
      ]

  unfoldable pub effective : Queue → Task → Effective
  unfolding apply_http_override
  effective q t =
      apply_http_override net.urls
        (record {
          method = t.target.method;
          url = t.target.url;
          headers = t.target.headers;
          auth = t.target.auth;
        })
        q.http_override

  unfoldable pub build_http_request : Queue → Task → AttemptInfo → Built
  unfolding build_effective effective
  build_http_request q t info = build_effective q t info (effective q t)

  unfoldable pub build_app_engine_request : Bytes → Queue → Task → AttemptInfo → Built
  unfolding new_request set_app_engine_user_agent set_content_type set_system_headers set_raw_header
  build_app_engine_request default_host q t info =
      let host = app_engine_host default_host q t in
      if is_empty host
      then refused (codes "no App Engine target host configured; set the default App Engine host")
      else elim (new_request (method_or_post t.target.method) (host ++ t.target.relative_uri)
          t.target.body t.target.headers) [
            | refused message ↦ refused message
            | built r ↦
                let typed = set_content_type t.target.body (set_app_engine_user_agent r.header) in
                let system = set_system_headers (codes "X-AppEngine") q t info typed in
                built (record r {
                  header = set_raw_header (codes "X-AppEngine-FailFast") (codes "false") system;
                })
          ]

  unfoldable pub build_request : Bytes → Queue → Task → AttemptInfo → Built
  unfolding build_http_request build_app_engine_request
  build_request default_host q t info = elim t.target.type [
    | target_http ↦ build_http_request q t info
    | target_app_engine ↦ build_app_engine_request default_host q t info
    | _ ↦ refused (codes "task target cannot be dispatched over HTTP")
  ]

  -- The sending gives an error, or the status of the answer.
  abbrev response_of : Bytes ⊎ ℕ → Response
  response_of (inl message) = no_response message
  response_of (inr status) = answered status

  unfoldable pub dispatch : (Request → Duration → Bytes ⊎ ℕ) → Bytes → AttemptSnapshot → Outcome
  unfolding build_request outcome_of deadline_of
  dispatch send default_host snap =
      elim (build_request default_host snap.queue snap.task snap.info) [
        | refused message ↦ outcome_of (not_built message)
        | built r ↦ outcome_of (response_of (send r (deadline_of snap.task)))
      ]
