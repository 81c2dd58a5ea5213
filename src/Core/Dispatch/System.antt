-- ===== src/Core/Dispatch/System.antt =====
-- The headers that setSystemHeaders in core/dispatch.go puts into a request, spelled as documented, and
-- what stands beside them.
use cloud_tasks_emulator.Base.{
  ℕ, ◌≡◌, refl, Bool, true, false, ◌&&◌, Option, none, some, [], ◌∷◌, ◌++◌, ◌==◌, List,
  if◌then◌else◌, arith, inl, inr, Option-cases, ◌∙◌,
}
use cloud_tasks_emulator.Base.Int.{pos, ◌-ℤ◌, int32}
use cloud_tasks_emulator.Base.Bytes.{Bytes, codes, bytes_eq, bytes_eq_iff, is_empty}
use cloud_tasks_emulator.Base.Dict.{Dict, lookup, lookup-insert}
use cloud_tasks_emulator.Std.Decimal.{itoa}
use cloud_tasks_emulator.Std.Http.{Header, header_set, canonical, canonical_other}
use cloud_tasks_emulator.Core.Naming.{queue_id, task_id}
use cloud_tasks_emulator.Core.Types.{Queue, Task, Auth}
use cloud_tasks_emulator.Core.Queue.Attempts.{AttemptInfo}
use cloud_tasks_emulator.Core.Dispatch.Request.{
  set_all, set_raw_header, set_raw_if, set_system_headers, set_auth_header, bearer, eta_text,
}

pub data SystemHeader : Type 0 where
  queue_name task_name retry_count execution_count eta previous_response retry_reason : SystemHeader

abbrev pub suffix : SystemHeader → Bytes
suffix queue_name = codes "-QueueName"
suffix task_name = codes "-TaskName"
suffix retry_count = codes "-TaskRetryCount"
suffix execution_count = codes "-TaskExecutionCount"
suffix eta = codes "-TaskETA"
suffix previous_response = codes "-TaskPreviousResponse"
suffix retry_reason = codes "-TaskRetryReason"

-- What the target is to be told: of the previous attempt only if there was one that failed.
abbrev pub told : Queue → Task → AttemptInfo → SystemHeader → Option Bytes
told q t info queue_name = some (queue_id q.name)
told q t info task_name = some (task_id t.name)
told q t info retry_count = some (itoa (int32 (info.number -ℤ pos 1)))
told q t info execution_count = some (itoa info.execution_count)
told q t info eta = some (eta_text t.schedule_time)
told q t info previous_response =
    if info.prev_http_code == 0 then none else some (itoa (pos info.prev_http_code))
told q t info retry_reason = if is_empty info.prev_reason then none else some info.prev_reason

-- One value, or none.
abbrev pub single : Option Bytes → Option (List Bytes)
single none = none
single (some v) = some (v ∷ [])

same_byte : (c : ℕ) (b : Bool) → ((c == c) && b) ≡ b
same_byte c b = ground arith

bytes_eq-append : (p a b : Bytes) → bytes_eq (p ++ a) (p ++ b) ≡ bytes_eq a b
unfolding bytes_eq
bytes_eq-append [] a b = refl
bytes_eq-append (c ∷ p) a b = rw (bytes_eq-append p a b) (same_byte c (bytes_eq a b))

lookup-set_raw_if :
    (b : Bool) (k j v : Bytes) (h : Header)
    → lookup j (set_raw_if b k v h) ≡ (if bytes_eq k j && b then some (v ∷ []) else lookup j h)
unfolding set_raw_if
lookup-set_raw_if true k j v h = ground (arith, lookup-insert k j (v ∷ []) h)
lookup-set_raw_if false k j v h = ground arith

-- Where a system header has a value it is set, whatever was there; otherwise what was there stays.
abbrev pub over : Option Bytes → Option (List Bytes) → Option (List Bytes)
over none old = old
over (some v) old = some (v ∷ [])

pub lookup-set_system_headers :
    (p : Bytes) (q : Queue) (t : Task) (info : AttemptInfo) (h : Header) (x : SystemHeader)
    → lookup (p ++ suffix x) (set_system_headers p q t info h)
      ≡ over (told q t info x) (lookup (p ++ suffix x) h)
unfolding set_system_headers set_raw_header bytes_eq
lookup-set_system_headers p q t info h queue_name =
    simp (lookup-set_raw_if, lookup-insert, bytes_eq-append)
lookup-set_system_headers p q t info h task_name =
    simp (lookup-set_raw_if, lookup-insert, bytes_eq-append)
lookup-set_system_headers p q t info h retry_count =
    simp (lookup-set_raw_if, lookup-insert, bytes_eq-append)
lookup-set_system_headers p q t info h execution_count =
    simp (lookup-set_raw_if, lookup-insert, bytes_eq-append)
lookup-set_system_headers p q t info h eta =
    simp (lookup-set_raw_if, lookup-insert, bytes_eq-append)
lookup-set_system_headers p q t info h previous_response =
    simp (lookup-set_raw_if, lookup-insert, bytes_eq-append) (ground arith)
lookup-set_system_headers p q t info h retry_reason =
    simp (lookup-set_raw_if, lookup-insert, bytes_eq-append) (ground arith)

-- A name that Get and Set would spell in another way.
abbrev pub Raw : Bytes → Type 0
Raw n = bytes_eq (canonical n) n ≡ false

pub cloud_tasks-Raw : (x : SystemHeader) → Raw (codes "X-CloudTasks" ++ suffix x)
unfolding canonical bytes_eq
cloud_tasks-Raw queue_name = refl
cloud_tasks-Raw task_name = refl
cloud_tasks-Raw retry_count = refl
cloud_tasks-Raw execution_count = refl
cloud_tasks-Raw eta = refl
cloud_tasks-Raw previous_response = refl
cloud_tasks-Raw retry_reason = refl

pub app_engine-Raw : (x : SystemHeader) → Raw (codes "X-AppEngine" ++ suffix x)
unfolding canonical bytes_eq
app_engine-Raw queue_name = refl
app_engine-Raw task_name = refl
app_engine-Raw retry_count = refl
app_engine-Raw execution_count = refl
app_engine-Raw eta = refl
app_engine-Raw previous_response = refl
app_engine-Raw retry_reason = refl

-- Header.Set does not touch such a name.
pub lookup-header_set-Raw :
    (n k v : Bytes) (h : Header) → Raw n → lookup n (header_set k v h) ≡ lookup n h
unfolding header_set
lookup-header_set-Raw n k v h r =
    rw (lookup-insert (canonical k) n (v ∷ []) h, canonical_other k n r) refl

pub lookup-set_all-Raw :
    (n : Bytes) (headers : Dict Bytes) (h : Header)
    → Raw n
    → lookup n (set_all headers h) ≡ lookup n h
unfolding set_all
lookup-set_all-Raw n [] h r = refl
lookup-set_all-Raw n ((k, v) ∷ headers) h r =
    lookup-set_all-Raw n headers (header_set k v h) r ∙ lookup-header_set-Raw n k v h r

pub lookup-set_auth_header-Raw :
    (n : Bytes) (token : Bytes → Bytes → Bytes) (auth : Option Auth) (url : Bytes) (h : Header)
    → Raw n
    → lookup n (set_auth_header token auth url h) ≡ lookup n h
unfolding set_auth_header
lookup-set_auth_header-Raw n token none url h r = refl
lookup-set_auth_header-Raw n token (some auth) url h r =
    elim (Option-cases (bearer token auth url)) [
      | inl e ↦ rw (set_auth_header, e) refl
      | inr (value, e) ↦
          rw (set_auth_header, e)
            (lookup-header_set-Raw n (codes "Authorization") (codes "Bearer " ++ value) h r)
    ]

untouched :
    (p : Bytes) (q : Queue) (t : Task) (info : AttemptInfo) (h : Header) (j : Bytes)
    → ((x : SystemHeader) → bytes_eq (p ++ suffix x) j ≡ false)
    → lookup j (set_system_headers p q t info h) ≡ lookup j h
unfolding set_system_headers set_raw_header
untouched p q t info h j differs = simp (
  lookup-set_raw_if,
  lookup-insert,
  differs queue_name,
  differs task_name,
  differs retry_count,
  differs execution_count,
  differs eta,
  differs previous_response,
  differs retry_reason,
)

-- A name in the form that Set gives is none of the system's.
pub lookup-set_system_headers_other :
    (p : Bytes) (q : Queue) (t : Task) (info : AttemptInfo) (h : Header) (k : Bytes)
    → ((x : SystemHeader) → Raw (p ++ suffix x))
    → lookup (canonical k) (set_system_headers p q t info h) ≡ lookup (canonical k) h
lookup-set_system_headers_other p q t info h k raw = untouched p q t info h (canonical k) (λ x.
    ground (
      arith,
      canonical_other k (p ++ suffix x) (raw x),
      bytes_eq_iff (canonical k) (p ++ suffix x),
      bytes_eq_iff (p ++ suffix x) (canonical k),
    ))
