-- ===== src/Core/Dispatch/Merged.antt =====
-- The headers that applyHTTPOverride in core/dispatch.go makes of a task's and its queue's.
use cloud_tasks_emulator.Base.{
  ◌≡◌, refl, Bool, true, not, ◌&&◌, ◌||◌, Option, none, some, [], ◌∷◌, if◌then◌else◌, or_else,
  arith,
}
use cloud_tasks_emulator.Base.Bytes.{Bytes, bytes_eq_iff, is_empty}
use cloud_tasks_emulator.Base.Dict.{Dict, lookup, insert, has, lookup-insert}
use cloud_tasks_emulator.Core.Types.{HttpOverride}
use cloud_tasks_emulator.Core.Dispatch.Override.{
  UrlLibrary, Effective, merge_headers, apply_http_override,
}

-- No key stands in two entries, as in a Go map.
unfoldable pub distinct {ℓ} : {V : Type ℓ} → Dict V → Bool
unfolding has
distinct [] = true
distinct ((k, v) ∷ m) = not (has k m) && distinct m

-- What a header is to be: the override's value if it has one and either it is enforced or the task
-- has none, or an empty one, and the task's own otherwise.
abbrev pub merged : Bool → Option Bytes → Option Bytes → Option Bytes
merged enforce none own = own
merged enforce (some v) own = if enforce || is_empty (or_else own []) then some v else own

lookup-merge_headers :
    (enforce : Bool) (ovs own : Dict Bytes) (k : Bytes)
    → distinct ovs ≡ true
    → lookup k (merge_headers enforce ovs own) ≡ merged enforce (lookup k ovs) (lookup k own)
unfolding merge_headers distinct has lookup
lookup-merge_headers enforce [] own k d = refl
lookup-merge_headers enforce ((j, v) ∷ ovs) own k d = ground (
  arith,
  d,
  bytes_eq_iff j k,
  lookup-insert j k v own,
  lookup-merge_headers enforce ovs own k,
  lookup-merge_headers enforce ovs (insert j v own) k,
)

-- Each header of the effective request, for headers of an override with no key twice: the override's
-- value if it has one and either it is enforced or the task's is missing or empty, else the task's.
-- So the order in which the override's headers are gone through does not matter.
pub apply_http_override-lookup :
    {Rest : Type 0} (lib : UrlLibrary Rest) (own : Effective) (ov : HttpOverride) (k : Bytes)
    → distinct ov.headers ≡ true
    → lookup k (apply_http_override lib own (some ov)).headers
      ≡ merged ov.always_enforce (lookup k ov.headers) (lookup k own.headers)
unfolding apply_http_override
apply_http_override-lookup lib own ov k d =
    lookup-merge_headers ov.always_enforce ov.headers own.headers k d
