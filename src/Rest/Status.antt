-- ===== src/Rest/Status.antt =====
-- rest/rest.go: statusNames and httpStatus, what a gRPC code is over REST.
use cloud_tasks_emulator.Base.{ℕ, List, [], ◌∷◌, ◌++◌, get_elem?, or_else}
use cloud_tasks_emulator.Base.Bytes.{Bytes, codes}
use cloud_tasks_emulator.Std.Decimal.{format_nat}

-- By the number of the code, from 0.
abbrev pub status_names : List (ℕ × Bytes)
status_names =
    (200, codes "OK")
    ∷ (499, codes "CANCELLED")
    ∷ (500, codes "UNKNOWN")
    ∷ (400, codes "INVALID_ARGUMENT")
    ∷ (504, codes "DEADLINE_EXCEEDED")
    ∷ (404, codes "NOT_FOUND")
    ∷ (409, codes "ALREADY_EXISTS")
    ∷ (403, codes "PERMISSION_DENIED")
    ∷ (429, codes "RESOURCE_EXHAUSTED")
    ∷ (400, codes "FAILED_PRECONDITION")
    ∷ (409, codes "ABORTED")
    ∷ (400, codes "OUT_OF_RANGE")
    ∷ (501, codes "UNIMPLEMENTED")
    ∷ (500, codes "INTERNAL")
    ∷ (503, codes "UNAVAILABLE")
    ∷ (500, codes "DATA_LOSS")
    ∷ (401, codes "UNAUTHENTICATED")
    ∷ []

-- A code without a name is an internal error with the code's number.
unfoldable pub http_status : ℕ → ℕ × Bytes
http_status c = or_else (get_elem? status_names c) (500, codes "CODE_" ++ format_nat c)
