-- ===== src/Rest/Serve.antt =====
-- rest/rest.go: ServeHTTP and writeError. Decoding a request and calling the method are arguments.
use cloud_tasks_emulator.Base.{ℕ, Option, none, some, List, ◌∷◌, ◌++◌}
use cloud_tasks_emulator.Base.Bytes.{Bytes, codes}
use cloud_tasks_emulator.Base.Dict.{Dict}
use cloud_tasks_emulator.Rest.Status.{http_status}
use cloud_tasks_emulator.Rest.Route.{Route, split_request_path, first_match}

-- A gRPC status: the number of its code, and its message.
pub record Failure : Type 0 where
  pub code : ℕ
  pub message : Bytes

pub record ErrorBody : Type 0 where
  pub code : ℕ
  pub message : Bytes
  pub status : Bytes

pub data Reply (Resp : Type 0) : Type 0 where
  answer : Resp → Reply Resp
  failed : ℕ → ErrorBody → Reply Resp

pub data Try (A : Type 0) : Type 0 where
  done : A → Try A
  fails : Failure → Try A

unfoldable pub write_error : {Resp : Type 0} → Failure → Reply Resp
unfolding http_status
write_error e =
    let (http, name) = http_status e.code in
    failed http (record { code = http; message = e.message; status = name })

-- A method of the service: how its request is decoded, and what it does.
pub record Backend (Served Req Resp : Type 0) : Type 0 where
  pub decode : Served → Dict Bytes → Try Req
  pub invoke : Served → Req → Try Resp

module _ {Served Req Resp : Type 0} where
  unfoldable pub serve :
      Backend Served Req Resp
      → (Bytes → Option Bytes)
      → List (Route Served)
      → Bytes
      → Bytes
      → Bytes
      → Reply Resp
  unfolding split_request_path first_match write_error
  serve b unescape rts http_method escaped path =
      let (segs, verb) = split_request_path unescape escaped in
      elim (first_match rts http_method segs verb) [
        | none ↦ write_error (record {
          code = 5;
          message = codes "no REST binding for " ++ (http_method ++ (b' ' ∷ path));
        })
        | some (served, vars) ↦ elim (b.decode served vars) [
          | fails e ↦ write_error e
          | done req ↦ elim (b.invoke served req) [
            | fails e ↦ write_error e
            | done resp ↦ answer resp
          ]
        ]
      ]
