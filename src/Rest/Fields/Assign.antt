-- ===== src/Rest/Fields/Assign.antt =====
-- rest/decode.go: jsonLiteral, assign and setField, which write a field from the texts that a URL has for
-- it. `protojson.Unmarshal` is an argument, which makes a message of a type from a JSON document.
use cloud_tasks_emulator.Base.{
  ℕ, Bool, Option, none, some, List, [], ◌∷◌, ◌++◌, if◌then◌else◌, is_some, map,
}
use cloud_tasks_emulator.Base.Bytes.{Bytes}
use cloud_tasks_emulator.Std.Decimal.{atoi}
use cloud_tasks_emulator.Std.Strings.{split, join}
use cloud_tasks_emulator.Std.Quote.{quote}
use cloud_tasks_emulator.Rest.Fields.{
  Kind, enum_kind, string_kind, bytes_kind, message_kind, group_kind, FieldDescriptor, Schema,
  lookup_field, entered, FieldError, not_message, unknown, is_a_map, bad_value, Tried, failed, got,
  after, found_field, Message, nested, content, store, mutable,
}

-- Which runes are printable, and what protojson makes of a document for a type.
pub record Protojson (V : Type 0) : Type 0 where
  pub printable : ℕ → Bool
  pub unmarshal : Bytes → Bytes → Option (Message V)

-- Numbers and truth values stand as they are, an enum may be a number, and anything else is quoted.
unfoldable pub json_literal : (ℕ → Bool) → Kind → Bytes → Bytes
unfolding quote
json_literal printable enum_kind s = if is_some (atoi s) then s else quote printable s
json_literal printable string_kind s = quote printable s
json_literal printable bytes_kind s = quote printable s
json_literal printable message_kind s = quote printable s
json_literal printable group_kind s = quote printable s
json_literal printable k s = s

-- The texts of a parameter, of which there is one at least.
abbrev pub Values : Type 0
Values = Bytes × List Bytes

abbrev pub last_of : Bytes → List Bytes → Bytes
last_of x [] = x
last_of x (y ∷ ys) = last_of y ys

-- The last text counts, but for a list, which takes them all.
unfoldable pub literal_of : (ℕ → Bool) → FieldDescriptor → Values → Bytes
unfolding json_literal
literal_of printable fd (first, more) =
    if fd.is_list
    then b'[' ∷ (join b',' (map (json_literal printable fd.kind) (first ∷ more)) ++ b']' ∷ [])
    else json_literal printable fd.kind (last_of first more)

-- The document of one field.
unfoldable pub document : (ℕ → Bool) → FieldDescriptor → Values → Bytes
unfolding literal_of
document printable fd values =
    b'{' ∷ (quote printable fd.json_name ++ b':' ∷ (literal_of printable fd values ++ b'}' ∷ []))

module _ {V : Type 0} (pj : Protojson V) (schema : Schema) where
  unfoldable pub assign :
      Bytes → FieldDescriptor → Values → Message V → Tried FieldError (Message V)
  unfolding document store content
  assign md fd values m = elim (pj.unmarshal md (document pj.printable fd values)) [
    | none ↦ failed bad_value
    | some tmp ↦ got (store schema md fd (content fd.name tmp) m)
  ]

  abbrev pub assign_last :
      Bytes → Bytes → Values → Message V → FieldDescriptor → Tried FieldError (Message V)
  assign_last md name values m fd =
      if fd.is_map then failed (is_a_map name) else assign md fd values m

  unfoldable pub set_parts : Bytes → List Bytes → Values → Message V → Tried FieldError (Message V)
  unfolding assign mutable store lookup_field
  set_parts md [] values m = failed (unknown [] md)
  set_parts md (name ∷ []) values m =
      after (found_field md name (lookup_field schema md name)) (assign_last md name values m)
  set_parts md (name ∷ next ∷ parts) values m = elim (entered schema md name) [
    | none ↦ failed (not_message name md)
    | some (fd, inner) ↦
        after (set_parts inner (next ∷ parts) values (mutable fd.name m))
          (λ sub. got (store schema md fd (nested sub) m))
  ]

  unfoldable pub set_field : Bytes → Bytes → Values → Message V → Tried FieldError (Message V)
  unfolding set_parts
  set_field md path values m = set_parts md (split b'.' path) values m
