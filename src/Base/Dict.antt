-- ===== src/Base/Dict.antt =====
-- Go maps keyed by strings, as association lists: what `m[k]`, `m[k] = v` and `delete(m, k)` do.
use mathlib.Core.Path.{◌≡◌, refl}
use mathlib.Core.Logic.{inl, inr}
use mathlib.Core.Bool.{Bool, false}
use mathlib.Core.List.{List, [], ◌∷◌}
use mathlib.Core.Option.{Option, none, some}
use native.Mathlib.Omega.{arith}
use cloud_tasks_emulator.Base.Tests.{if◌then◌else◌, is_some, Bool-cases}
use cloud_tasks_emulator.Base.Bytes.{Bytes, bytes_eq, bytes_eq_iff}

abbrev pub Dict {ℓ} : Type ℓ → Type ℓ
Dict V = List (Bytes × V)

module _ {ℓ} {V : Type ℓ} where
  unfoldable pub lookup : Bytes → Dict V → Option V
  lookup k [] = none
  lookup k ((j, v) ∷ m) = if bytes_eq j k then some v else lookup k m

  -- An entry with the key is replaced in its place.
  unfoldable pub insert : Bytes → V → Dict V → Dict V
  insert key new [] = (key, new) ∷ []
  insert key new ((j, old) ∷ rest) =
      if bytes_eq j key then (key, new) ∷ rest else (j, old) ∷ insert key new rest

  unfoldable pub delete : Bytes → Dict V → Dict V
  delete k [] = []
  delete k ((j, w) ∷ m) = let rest = delete k m in if bytes_eq j k then rest else (j, w) ∷ rest

  unfoldable pub has : Bytes → Dict V → Bool
  has k m = is_some (lookup k m)

  unfoldable pub keys : Dict V → List Bytes
  keys [] = []
  keys ((j, v) ∷ m) = j ∷ keys m

  pub lookup-insert :
      (key other : Bytes) (new : V) (m : Dict V)
      → lookup other (insert key new m) ≡ (if bytes_eq key other then some new else lookup other m)
  unfolding lookup insert
  lookup-insert key other new [] = refl
  lookup-insert key other new ((j, old) ∷ rest) = ground (
    arith,
    bytes_eq_iff key other,
    bytes_eq_iff j key,
    bytes_eq_iff j other,
    lookup-insert key other new rest,
  )

  pub lookup-delete :
      (k j : Bytes) (m : Dict V)
      → lookup j (delete k m) ≡ (if bytes_eq k j then none else lookup j m)
  unfolding lookup delete
  lookup-delete k j [] = ground arith
  lookup-delete k j ((i, w) ∷ m) =
      ground (arith, bytes_eq_iff k j, bytes_eq_iff i k, bytes_eq_iff i j, lookup-delete k j m)

  -- No key stands twice, so that every entry is the one that its key leads to.
  unfoldable pub Unique : Dict V → Type 0
  Unique [] = Unit
  Unique ((j, v) ∷ m) = (has j m ≡ false) × Unique m

  pub insert-Unique : (key : Bytes) (new : V) (m : Dict V) → Unique m → Unique (insert key new m)
  unfolding Unique insert has lookup
  insert-Unique key new [] u = (refl, tt)
  insert-Unique key new ((j, old) ∷ rest) u = elim (Bool-cases (bytes_eq j key)) [
    | inl e ↦ rw e (ground (arith, bytes_eq_iff j key), u.1)
    | inr e ↦ rw e (
      ground (arith, lookup-insert key j new rest, bytes_eq_iff key j, bytes_eq_iff j key),
      insert-Unique key new rest u.1,
    )
  ]

  pub delete-Unique : (k : Bytes) (m : Dict V) → Unique m → Unique (delete k m)
  unfolding Unique delete has lookup
  delete-Unique k [] u = tt
  delete-Unique k ((j, w) ∷ m) u = elim (Bool-cases (bytes_eq j k)) [
    | inl e ↦ rw e (delete-Unique k m u.1)
    | inr e ↦ rw e (ground (arith, lookup-delete k j m), delete-Unique k m u.1)
  ]
