-- ===== src/Core/Dispatch/Own.antt =====
-- The headers that a task sets itself, in the request that buildHTTPRequest in core/dispatch.go makes.
use mathlib.Core.List.{Permᴰ}
use cloud_tasks_emulator.Base.{
  ◌≡◌, ◌≢◌, refl, ap, ◌∙◌, true, Option, none, some, [], ◌∷◌, ◌++◌, inl, inr, Option-cases,
}
use cloud_tasks_emulator.Base.Bytes.{Bytes, codes, bytes_eq_ne}
use cloud_tasks_emulator.Base.Dict.{Dict, lookup, lookup-insert}
use cloud_tasks_emulator.Std.Http.{Header, header_set, canonical}
use cloud_tasks_emulator.Core.Types.{Queue, Task, Auth}
use cloud_tasks_emulator.Core.Queue.Attempts.{AttemptInfo}
use cloud_tasks_emulator.Core.Dispatch.Request.{
  Request, built, Network, set_all, set_system_headers, set_auth_header, bearer, build_http_request,
  effective, http_user_agent,
}
use cloud_tasks_emulator.Core.Dispatch.System.{
  single, cloud_tasks-Raw, lookup-set_system_headers_other,
}
use cloud_tasks_emulator.Core.Dispatch.Alike.{all_unlike, lookup-set_all, lookup-value_alike}
use cloud_tasks_emulator.Core.Dispatch.Sent.{build_effective-header}

lookup-header_set_other :
    (n v c : Bytes) (h : Header) → canonical n ≢ c → lookup c (header_set n v h) ≡ lookup c h
unfolding header_set
lookup-header_set_other n v c h ne =
    rw (lookup-insert (canonical n) c (v ∷ []) h, bytes_eq_ne (canonical n) c ne) refl

lookup-set_auth_header_other :
    (token : Bytes → Bytes → Bytes) (auth : Option Auth) (url : Bytes) (h : Header) (c : Bytes)
    → canonical (codes "Authorization") ≢ c
    → lookup c (set_auth_header token auth url h) ≡ lookup c h
unfolding set_auth_header
lookup-set_auth_header_other token none url h c ne = refl
lookup-set_auth_header_other token (some auth) url h c ne =
    elim (Option-cases (bearer token auth url)) [
      | inl e ↦ rw (set_auth_header, e) refl
      | inr (value, e) ↦
          rw (set_auth_header, e)
            (lookup-header_set_other (codes "Authorization") (codes "Bearer " ++ value) c h ne)
    ]

-- A header that a task or its queue's override sets, under a name that is neither User-Agent nor
-- Authorization for net/http, is in the request of an HTTP target with that value alone, under the name
-- that net/http makes of it, when no two of the names are the same for net/http, in whatever order the
-- headers come up, each once. So a system header that a task spells in another way than documented is
-- sent beside the system's.
pub build_http_request-own :
    {Rest : Type 0} (net : Network Rest) (q : Queue) (t : Task) (info : AttemptInfo) (r : Request)
    (k v : Bytes)
    → ((d : Dict Bytes) → Permᴰ (net.order d) d)
    → build_http_request net q t info ≡ built r
    → all_unlike (effective net q t).headers ≡ true
    → lookup k (effective net q t).headers ≡ some v
    → canonical (codes "User-Agent") ≢ canonical k
    → canonical (codes "Authorization") ≢ canonical k
    → lookup (canonical k) r.header ≡ some (v ∷ [])
unfolding build_http_request
build_http_request-own net q t info r k v each h unlike has_k not_agent not_auth =
    let e = effective net q t in
    let own = set_all (net.order e.headers) [] in
    let agent = header_set (codes "User-Agent") http_user_agent own in
    ap (lookup (canonical k)) (build_effective-header net q t info e r h)
    ∙ lookup-set_auth_header_other net.token e.auth e.url
        (set_system_headers (codes "X-CloudTasks") q t info agent) (canonical k) not_auth
    ∙ lookup-set_system_headers_other (codes "X-CloudTasks") q t info agent k cloud_tasks-Raw
    ∙ lookup-header_set_other (codes "User-Agent") http_user_agent (canonical k) own not_agent
    ∙ lookup-set_all e.headers (net.order e.headers) (canonical k) (each e.headers) unlike
    ∙ ap single (lookup-value_alike e.headers k v unlike has_k)
