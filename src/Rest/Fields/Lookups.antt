-- ===== src/Rest/Fields/Lookups.antt =====
-- Fields that rest/decode.go looks up are found under their own names.
use cloud_tasks_emulator.Base.{
  ◌≡◌, subst, some, List, [], ◌∷◌, All, arith, Bool-cases, Option-cases, inl, inr,
}
use cloud_tasks_emulator.Base.Bytes.{Bytes, bytes_eq}
use cloud_tasks_emulator.Rest.Fields.{
  FieldDescriptor, Schema, by_name, by_json_name, lookup_field, sub_message, entered,
}

-- Each field of a type is found under its own name.
abbrev pub WellNamed : Schema → Type 0
WellNamed schema = (md : Bytes) → All (λ fd. by_name fd.name (schema md) ≡ some fd) (schema md)

All-by_json_name :
    (P : FieldDescriptor → Type 0) (name : Bytes) (fds : List FieldDescriptor)
    {fd : FieldDescriptor}
    → All P fds
    → by_json_name name fds ≡ some fd
    → P fd
All-by_json_name P name [] h e = cc
All-by_json_name P name (g ∷ fds) {fd} h e = elim (Bool-cases (bytes_eq g.json_name name)) [
  | inl same ↦ subst P (ground (arith, e)) h.0
  | inr other ↦ All-by_json_name P name fds h.1 (ground (arith, e))
]

All-by_name :
    (P : FieldDescriptor → Type 0) (name : Bytes) (fds : List FieldDescriptor)
    {fd : FieldDescriptor}
    → All P fds
    → by_name name fds ≡ some fd
    → P fd
All-by_name P name [] h e = cc
All-by_name P name (g ∷ fds) {fd} h e = elim (Bool-cases (bytes_eq g.name name)) [
  | inl same ↦ subst P (ground (arith, e)) h.0
  | inr other ↦ All-by_name P name fds h.1 (ground (arith, e))
]

-- A field that is looked up, by whichever name, is found under its own.
pub lookup_field-by_name :
    (schema : Schema) (md name : Bytes) {fd : FieldDescriptor}
    → WellNamed schema
    → lookup_field schema md name ≡ some fd
    → by_name fd.name (schema md) ≡ some fd
unfolding lookup_field
lookup_field-by_name schema md name {fd} w e = elim (Option-cases (by_json_name name (schema md))) [
  | inl none_there ↦
      All-by_name (λ g. by_name g.name (schema md) ≡ some g) name (schema md) (w md)
        (ground (arith, e))
  | inr (g, there) ↦
      All-by_json_name (λ g. by_name g.name (schema md) ≡ some g) name (schema md) (w md)
        (ground (arith, e))
]

pub entered_lem :
    (schema : Schema) (md name : Bytes) {fd : FieldDescriptor} {inner : Bytes}
    → entered schema md name ≡ some (fd, inner)
    → (lookup_field schema md name ≡ some fd) × (sub_message fd ≡ some inner)
entered_lem schema md name {fd} {inner} e = elim (Option-cases (lookup_field schema md name)) [
  | inl absent ↦ absurd (ground (arith, e))
  | inr (g, there) ↦ ground (arith, e)
]
