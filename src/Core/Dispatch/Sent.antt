-- ===== src/Core/Dispatch/Sent.antt =====
-- The headers of the requests that core/dispatch.go makes, whatever headers a task has.
use cloud_tasks_emulator.Base.{
  ◌≡◌, refl, sym, ap, ◌∙◌, Bool, true, false, Option, none, some, [], ◌++◌, arith, inl, inr,
  Option-cases,
}
use cloud_tasks_emulator.Base.Bytes.{Bytes, codes}
use cloud_tasks_emulator.Base.Dict.{lookup}
use cloud_tasks_emulator.Std.Http.{Header, header_set}
use cloud_tasks_emulator.Core.Types.{Queue, Task}
use cloud_tasks_emulator.Core.Queue.Attempts.{AttemptInfo}
use cloud_tasks_emulator.Core.Dispatch.{method_or_post}
use cloud_tasks_emulator.Core.Dispatch.Override.{Effective}
use cloud_tasks_emulator.Core.Dispatch.Request.{
  Request, Built, built, refused, Network, set_all, set_system_headers, set_auth_header,
  new_request, build_effective, build_http_request, effective, http_user_agent,
}
use cloud_tasks_emulator.Core.Dispatch.System.{
  SystemHeader, suffix, told, single, over, cloud_tasks-Raw, lookup-set_system_headers,
  lookup-header_set-Raw, lookup-set_all-Raw, lookup-set_auth_header-Raw,
}

abbrev pub header_of : Built → Header
header_of (refused message) = []
header_of (built r) = r.header

abbrev pub is_built : Built → Bool
is_built (refused message) = false
is_built (built r) = true

pub over-none : (o : Option Bytes) → over o none ≡ single o
over-none none = refl
over-none (some v) = refl

module _ {Rest : Type 0} (net : Network Rest) where
  -- The header of an HTTP target's request.
  abbrev pub http_header : Queue → Task → AttemptInfo → Effective → Header
  http_header q t info e = set_auth_header net.token e.auth e.url (
      set_system_headers (codes "X-CloudTasks") q t info
        (header_set (codes "User-Agent") http_user_agent (set_all (net.order e.headers) [])))

  pub build_effective-header :
      (q : Queue) (t : Task) (info : AttemptInfo) (e : Effective) (r : Request)
      → build_effective net q t info e ≡ built r
      → r.header ≡ http_header q t info e
  unfolding build_effective set_auth_header
  build_effective-header q t info e r h =
      elim (Option-cases (net.refuse (method_or_post e.method) e.url)) [
        | inl ok ↦
            let made : header_of (build_effective net q t info e) ≡ http_header q t info e =
              rw (build_effective, new_request, ok) refl in
            sym (ap header_of h) ∙ made
        | inr (message, bad) ↦
            let none_made : is_built (build_effective net q t info e) ≡ false =
              rw (build_effective, new_request, bad) refl in
            absurd (ground (arith, none_made, ap is_built h))
      ]

  -- Whatever headers a task and its queue's override have: the request of an HTTP target has each system
  -- header once under its documented spelling, with the value of this attempt; those about the previous
  -- attempt are missing where there is nothing to tell.
  pub build_http_request-system :
      (q : Queue) (t : Task) (info : AttemptInfo) (r : Request) (x : SystemHeader)
      → build_http_request net q t info ≡ built r
      → lookup (codes "X-CloudTasks" ++ suffix x) r.header ≡ single (told q t info x)
  unfolding build_http_request lookup
  build_http_request-system q t info r x h =
      let e = effective net q t in
      let n = codes "X-CloudTasks" ++ suffix x in
      let raw = cloud_tasks-Raw x in
      let ua = header_set (codes "User-Agent") http_user_agent (set_all (net.order e.headers) []) in
      ap (lookup n) (build_effective-header q t info e r h)
      ∙ lookup-set_auth_header-Raw n net.token e.auth e.url
          (set_system_headers (codes "X-CloudTasks") q t info ua) raw
      ∙ lookup-set_system_headers (codes "X-CloudTasks") q t info ua x
      ∙ ap (over (told q t info x)) (
          lookup-header_set-Raw n (codes "User-Agent") http_user_agent
            (set_all (net.order e.headers) []) raw
          ∙ lookup-set_all-Raw n (net.order e.headers) [] raw)
      ∙ over-none (told q t info x)
