-- ===== src/Rest/Fields/Stored.antt =====
-- What stands in the fields of a message of rest/decode.go after one of them was set.
use cloud_tasks_emulator.Base.{
  ◌≡◌, refl, sym, ap, ◌∙◌, Bool, true, false, Option, none, some, List, [], ◌∷◌, All, arith,
  Bool-cases, inl, inr,
}
use cloud_tasks_emulator.Base.Bytes.{Bytes, bytes_eq, bytes_eq_iff, bytes_eq_refl}
use cloud_tasks_emulator.Rest.Fields.{
  FieldDescriptor, Schema, by_name, same_oneof, siblings, Message, blank, with_value, with_message,
  Content, unset, value, nested, content, clear, clear_each, put, store,
}
use cloud_tasks_emulator.Rest.Fields.Lookups.{WellNamed}

abbrev oneof_of : Option Bytes → Option FieldDescriptor → Bool
oneof_of o none = false
oneof_of o (some g) = same_oneof o g.oneof

siblings_off :
    (o : Option Bytes) (fds : List FieldDescriptor) (other : FieldDescriptor)
    (all : List FieldDescriptor)
    → same_oneof o other.oneof ≡ false
    → by_name other.name all ≡ some other
    → All (λ g. by_name g.name all ≡ some g) fds
    → All (λ n. bytes_eq n other.name ≡ false) (siblings o fds)
siblings_off o [] other all off at w = tt
siblings_off o (g ∷ fds) other all off at w = elim (Bool-cases (same_oneof o g.oneof)) [
  | inr apart ↦ rw apart (siblings_off o fds other all off at w.1)
  | inl shared ↦ rw shared (
    elim (Bool-cases (bytes_eq g.name other.name)) [
      | inr differ ↦ differ
      | inl same ↦
          let one : some g ≡ some other =
            sym w.0
            ∙ ap (λ (x : Bytes). by_name x all) (ground (arith, bytes_eq_iff g.name other.name))
            ∙ at in
          let clash : true ≡ false = sym shared ∙ ap (oneof_of o) one ∙ off in absurd (cc clash)
    ],
    siblings_off o fds other all off at w.1,
  )
]

module _ {V : Type 0} where
  content_cleared : (name : Bytes) (m : Message V) → content name (clear name m) ≡ unset
  unfolding content clear
  content_cleared name blank = refl
  content_cleared name (with_value n v m) = ground (arith, content_cleared name m)
  content_cleared name (with_message n sub m) = ground (arith, content_cleared name m)

  content-clear :
      (name other : Bytes) (m : Message V)
      → bytes_eq name other ≡ false
      → content other (clear name m) ≡ content other m
  unfolding content clear
  content-clear name other blank off = refl
  content-clear name other (with_value n v m) off = elim (Bool-cases (bytes_eq n name)) [
    | inl e ↦ rw e (
        ground (
          arith,
          off,
          content-clear name other m off,
          bytes_eq_iff n name,
          bytes_eq_iff n other,
          bytes_eq_iff name other,
        ))
    | inr e ↦ rw e (ground (arith, content-clear name other m off))
  ]
  content-clear name other (with_message n sub m) off = elim (Bool-cases (bytes_eq n name)) [
    | inl e ↦ rw e (
        ground (
          arith,
          off,
          content-clear name other m off,
          bytes_eq_iff n name,
          bytes_eq_iff n other,
          bytes_eq_iff name other,
        ))
    | inr e ↦ rw e (ground (arith, content-clear name other m off))
  ]

  content-clear_each :
      (names : List Bytes) (other : Bytes) (m : Message V)
      → All (λ n. bytes_eq n other ≡ false) names
      → content other (clear_each names m) ≡ content other m
  unfolding clear_each
  content-clear_each [] other m off = refl
  content-clear_each (n ∷ names) other m off =
      content-clear_each names other (clear n m) off.1 ∙ content-clear n other m off.0

  -- A field that was stored has what was stored.
  pub content-store :
      (schema : Schema) (md : Bytes) (fd : FieldDescriptor) (c : Content V) (m : Message V)
      → content fd.name (store schema md fd c m) ≡ c
  unfolding store content
  content-store schema md fd unset m = content_cleared fd.name _
  content-store schema md fd (value v) m = rw (bytes_eq_refl fd.name) refl
  content-store schema md fd (nested sub) m = rw (bytes_eq_refl fd.name) refl

  content-put :
      (name other : Bytes) (c : Content V) (m : Message V)
      → bytes_eq name other ≡ false
      → content other (put name c m) ≡ content other m
  unfolding content
  content-put name other unset m off = refl
  content-put name other (value v) m off = rw off refl
  content-put name other (nested sub) m off = rw off refl

  -- A field with another name that does not share a oneof has what it had.
  pub content-store_other :
      (schema : Schema) (md : Bytes) (fd other : FieldDescriptor) (c : Content V) (m : Message V)
      → WellNamed schema
      → by_name other.name (schema md) ≡ some other
      → bytes_eq fd.name other.name ≡ false
      → same_oneof fd.oneof other.oneof ≡ false
      → content other.name (store schema md fd c m) ≡ content other.name m
  unfolding store
  content-store_other schema md fd other c m w at off apart =
      let cleared = clear_each (siblings fd.oneof (schema md)) m in
      content-put fd.name other.name c (clear fd.name cleared) off
      ∙ content-clear fd.name other.name cleared off
      ∙ content-clear_each (siblings fd.oneof (schema md)) other.name m
          (siblings_off fd.oneof (schema md) other (schema md) apart at (w md))
