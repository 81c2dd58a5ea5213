-- ===== src/Core/Dispatch/AppEngine.antt =====
-- The requests of App Engine targets that core/dispatch.go makes: their system headers and the type of
-- their content.
use mathlib.Core.List.{Permᴰ}
use cloud_tasks_emulator.Base.{
  ◌≡◌, refl, sym, ap, ◌∙◌, Bool, true, false, not, ◌&&◌, Option, none, some, or_else, [], ◌∷◌, ◌++◌,
  if◌then◌else◌, arith, inl, inr, Option-cases, Bool-cases,
}
use cloud_tasks_emulator.Base.Bytes.{Bytes, codes, bytes_eq, bytes_eq_iff, is_empty}
use cloud_tasks_emulator.Base.Dict.{Dict, lookup, lookup-insert}
use cloud_tasks_emulator.Std.Http.{Header, header_set, header_get, first_value, canonical}
use cloud_tasks_emulator.Core.Types.{Queue, Task}
use cloud_tasks_emulator.Core.Queue.Attempts.{AttemptInfo}
use cloud_tasks_emulator.Core.Dispatch.{method_or_post, app_engine_host}
use cloud_tasks_emulator.Core.Dispatch.Request.{
  Request, built, Network, set_all, set_raw_header, set_system_headers, new_request,
  build_app_engine_request, set_app_engine_user_agent, set_content_type,
}
use cloud_tasks_emulator.Core.Dispatch.System.{
  SystemHeader, queue_name, task_name, retry_count, execution_count, eta, previous_response,
  retry_reason, suffix, told, single, over, Raw, app_engine-Raw, lookup-set_system_headers,
  lookup-header_set-Raw, lookup-set_all-Raw, lookup-set_system_headers_other,
}
use cloud_tasks_emulator.Core.Dispatch.Sent.{header_of, is_built, over-none}
use cloud_tasks_emulator.Core.Dispatch.Alike.{all_unlike, value_alike, lookup-set_all}

-- What a task of an App Engine target sets, with its user agent and content type settled.
abbrev settled : {Rest : Type 0} → Network Rest → Task → Header
settled net t =
    set_content_type t.target.body
      (set_app_engine_user_agent (set_all (net.order t.target.headers) []))

abbrev app_engine_header : {Rest : Type 0} → Network Rest → Queue → Task → AttemptInfo → Header
app_engine_header net q t info =
    set_raw_header (codes "X-AppEngine-FailFast") (codes "false")
      (set_system_headers (codes "X-AppEngine") q t info (settled net t))

module _ {Rest : Type 0} (net : Network Rest) (default_host : Bytes) (q : Queue) (t : Task)
    (info : AttemptInfo) where
  abbrev host : Bytes
  host = app_engine_host default_host q t

  app_engine_built :
      (r : Request)
      → build_app_engine_request net default_host q t info ≡ built r
      → r.header ≡ app_engine_header net q t info
  unfolding build_app_engine_request set_system_headers set_raw_header
  app_engine_built r h = elim (Bool-cases (is_empty host)) [
    | inl e ↦
        let none_made : is_built (build_app_engine_request net default_host q t info) ≡ false =
          rw (build_app_engine_request, e) refl in
        absurd (ground (arith, none_made, ap is_built h))
    | inr e ↦
        elim (Option-cases
          (net.refuse (method_or_post t.target.method) (host ++ t.target.relative_uri))) [
            | inl ok ↦
                let made : header_of (build_app_engine_request net default_host q t info)
                    ≡ app_engine_header net q t info =
                  rw (build_app_engine_request, e, new_request, ok) refl in
                sym (ap header_of h) ∙ made
            | inr (message, bad) ↦
                let none_made : is_built (build_app_engine_request net default_host q t info)
                    ≡ false =
                  rw (build_app_engine_request, e, new_request, bad) refl in
                absurd (ground (arith, none_made, ap is_built h))
          ]
  ]

fail_fast_differs :
    (x : SystemHeader)
    → bytes_eq (codes "X-AppEngine-FailFast") (codes "X-AppEngine" ++ suffix x) ≡ false
unfolding bytes_eq
fail_fast_differs queue_name = refl
fail_fast_differs task_name = refl
fail_fast_differs retry_count = refl
fail_fast_differs execution_count = refl
fail_fast_differs eta = refl
fail_fast_differs previous_response = refl
fail_fast_differs retry_reason = refl

lookup-set_content_type-Raw :
    (body n : Bytes) (h : Header) → Raw n → lookup n (set_content_type body h) ≡ lookup n h
unfolding set_content_type
lookup-set_content_type-Raw body n h raw =
    ground (
      arith,
      lookup-header_set-Raw n (codes "Content-Type") (codes "application/octet-stream") h raw,
    )

lookup-settled-Raw :
    {Rest : Type 0} (net : Network Rest) (t : Task) (n : Bytes)
    → Raw n
    → lookup n (settled net t) ≡ none
unfolding set_app_engine_user_agent lookup
lookup-settled-Raw net t n raw =
    let own = set_all (net.order t.target.headers) [] in
    lookup-set_content_type-Raw t.target.body n (set_app_engine_user_agent own) raw
    ∙ lookup-header_set-Raw n (codes "User-Agent") _ own raw
    ∙ lookup-set_all-Raw n (net.order t.target.headers) [] raw

abbrev content_type : Bytes
content_type = codes "Content-Type"

header_get-set_content_type :
    (body : Bytes) (h : Header)
    → header_get content_type (set_content_type body h) ≡ (
        if not (is_empty body) && is_empty (header_get content_type h)
        then codes "application/octet-stream"
        else header_get content_type h)
unfolding set_content_type header_set header_get
header_get-set_content_type body h = ground (
  arith,
  lookup-insert (canonical content_type) (canonical content_type)
      (codes "application/octet-stream" ∷ []) h,
  bytes_eq_iff (canonical content_type) (canonical content_type),
)

content_type-app_engine_header :
    {Rest : Type 0} (net : Network Rest) (q : Queue) (t : Task) (info : AttemptInfo)
    → lookup (canonical content_type) (app_engine_header net q t info)
      ≡ lookup (canonical content_type) (settled net t)
unfolding set_raw_header canonical bytes_eq
content_type-app_engine_header net q t info =
    lookup-insert (codes "X-AppEngine-FailFast") (canonical content_type) (codes "false" ∷ [])
      (set_system_headers (codes "X-AppEngine") q t info (settled net t))
    ∙ lookup-set_system_headers_other (codes "X-AppEngine") q t info (settled net t) content_type
        app_engine-Raw

content_type-user_agent :
    (h : Header) → header_get content_type (set_app_engine_user_agent h) ≡ header_get content_type h
unfolding set_app_engine_user_agent header_set header_get canonical bytes_eq
content_type-user_agent h =
    ap first_value (lookup-insert (codes "User-Agent") (codes "Content-Type") (_ ∷ []) h)

-- Whatever headers a task has: the request of an App Engine target has each system header once under its
-- documented spelling, with the value of this attempt; those about the previous attempt are missing
-- where there is nothing to tell.
pub build_app_engine_request-system :
    {Rest : Type 0} (net : Network Rest) (default_host : Bytes) (q : Queue) (t : Task)
    (info : AttemptInfo) (r : Request) (x : SystemHeader)
    → build_app_engine_request net default_host q t info ≡ built r
    → lookup (codes "X-AppEngine" ++ suffix x) r.header ≡ single (told q t info x)
unfolding set_raw_header
build_app_engine_request-system net default_host q t info r x h =
    let p = codes "X-AppEngine" in
    let system = set_system_headers p q t info (settled net t) in
    ap (lookup (p ++ suffix x)) (app_engine_built net default_host q t info r h)
    ∙ lookup-insert (codes "X-AppEngine-FailFast") (p ++ suffix x) (codes "false" ∷ []) system
    ∙ ap (λ (b : Bool). if b then some (codes "false" ∷ []) else lookup (p ++ suffix x) system)
        (fail_fast_differs x)
    ∙ lookup-set_system_headers p q t info (settled net t) x
    ∙ ap (over (told q t info x)) (lookup-settled-Raw net t (p ++ suffix x) (app_engine-Raw x))
    ∙ over-none (told q t info x)

first_value-single : (o : Option Bytes) → first_value (single o) ≡ or_else o []
first_value-single none = refl
first_value-single (some v) = refl

header_get-set_all :
    (headers ranged : Dict Bytes) (n : Bytes)
    → Permᴰ ranged headers
    → all_unlike headers ≡ true
    → header_get n (set_all ranged []) ≡ or_else (value_alike (canonical n) headers) []
unfolding header_get
header_get-set_all headers ranged n each u =
    ap first_value (lookup-set_all headers ranged (canonical n) each u)
    ∙ first_value-single (value_alike (canonical n) headers)

-- The content type of the request of an App Engine target is the value of the task's header that is
-- Content-Type for net/http, in whatever spelling; where there is none, or its value is empty, it is
-- application/octet-stream if there is a body and none if there is not. No two names of the task's
-- headers are the same for net/http, and they come up in any order, each once.
pub build_app_engine_request-content_type :
    {Rest : Type 0} (net : Network Rest) (default_host : Bytes) (q : Queue) (t : Task)
    (info : AttemptInfo) (r : Request)
    → Permᴰ (net.order t.target.headers) t.target.headers
    → build_app_engine_request net default_host q t info ≡ built r
    → all_unlike t.target.headers ≡ true
    → header_get content_type r.header ≡ (
        let own = or_else (value_alike (codes "Content-Type") t.target.headers) [] in
        if not (is_empty t.target.body) && is_empty own
        then codes "application/octet-stream"
        else own)
unfolding header_get canonical
build_app_engine_request-content_type net default_host q t info r each h unlike =
    let own = set_all (net.order t.target.headers) [] in
    let settled_type = (λ (v : Bytes).
      if not (is_empty t.target.body) && is_empty v then codes "application/octet-stream" else v) in
    ap (header_get content_type) (app_engine_built net default_host q t info r h)
    ∙ ap first_value (content_type-app_engine_header net q t info)
    ∙ header_get-set_content_type t.target.body (set_app_engine_user_agent own)
    ∙ ap settled_type (content_type-user_agent own)
    ∙ ap settled_type
        (header_get-set_all t.target.headers (net.order t.target.headers) content_type each unlike)
