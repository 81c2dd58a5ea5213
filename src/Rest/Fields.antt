-- ===== src/Rest/Fields.antt =====
-- rest/decode.go: request messages and their fields. The descriptors are those of the generated code: a
-- schema gives the fields of a message type by its full name. A message is the fields that are set in it;
-- what stands in a field that is no single message is of a type `V` of protojson's values.
pub mod Assign
pub mod Decode
pub mod Lookups
pub mod Typed
pub mod Sound
pub mod Stored
pub mod Reads
pub mod Bound
pub mod Authority
use cloud_tasks_emulator.Base.{
  Bool, true, false, not, ◌&&◌, ◌||◌, Option, none, some, List, [], ◌∷◌, if◌then◌else◌, is_some,
}
use cloud_tasks_emulator.Base.Bytes.{Bytes, bytes_eq}
use cloud_tasks_emulator.Std.Strings.{split}

pub data Kind : Type 0 where
  bool_kind int32_kind sint32_kind sfixed32_kind int64_kind sint64_kind sfixed64_kind : Kind
  uint32_kind fixed32_kind uint64_kind fixed64_kind float_kind double_kind : Kind
  enum_kind string_kind bytes_kind message_kind group_kind : Kind

-- `message` is the type of a message field, also of a list of messages and of a map. Of the fields of a
-- `oneof` one is set at most.
pub record FieldDescriptor : Type 0 where
  pub name : Bytes
  pub json_name : Bytes
  pub kind : Kind
  pub message : Option Bytes
  pub is_list : Bool
  pub is_map : Bool
  pub oneof : Option Bytes

abbrev pub Schema : Type 0
Schema = Bytes → List FieldDescriptor

abbrev pub by_json_name : Bytes → List FieldDescriptor → Option FieldDescriptor
by_json_name name [] = none
by_json_name name (fd ∷ fds) = if bytes_eq fd.json_name name then some fd else by_json_name name fds

abbrev pub by_name : Bytes → List FieldDescriptor → Option FieldDescriptor
by_name name [] = none
by_name name (fd ∷ fds) = if bytes_eq fd.name name then some fd else by_name name fds

-- The JSON name goes before the name in the proto.
unfoldable pub lookup_field : Schema → Bytes → Bytes → Option FieldDescriptor
lookup_field schema md name = elim (by_json_name name (schema md)) [
  | some fd ↦ some fd
  | none ↦ by_name name (schema md)
]

abbrev pub same_oneof : Option Bytes → Option Bytes → Bool
same_oneof (some a) (some b) = bytes_eq a b
same_oneof (some a) none = false
same_oneof none b = false

-- The names of the fields of a oneof.
abbrev pub siblings : Option Bytes → List FieldDescriptor → List Bytes
siblings o [] = []
siblings o (fd ∷ fds) =
    let rest = siblings o fds in if same_oneof o fd.oneof then fd.name ∷ rest else rest

-- `fd.Message() == nil || fd.IsList() || fd.IsMap()` is the opposite.
abbrev pub sub_message : FieldDescriptor → Option Bytes
sub_message fd = if fd.is_list || fd.is_map then none else fd.message

pub data FieldError : Type 0 where
  not_message unknown : Bytes → Bytes → FieldError
  is_a_map : Bytes → FieldError
  bad_value : FieldError

pub data Tried (E A : Type 0) : Type 0 where
  failed : E → Tried E A
  got : A → Tried E A

abbrev pub after : {E A B : Type 0} → Tried E A → (A → Tried E B) → Tried E B
after (failed e) next = failed e
after (got a) next = next a

abbrev pub found_field : Bytes → Bytes → Option FieldDescriptor → Tried FieldError FieldDescriptor
found_field md name none = failed (unknown name md)
found_field md name (some fd) = got fd

-- The type of the message that a part of a path leads into.
abbrev pub entered : Schema → Bytes → Bytes → Option (FieldDescriptor × Bytes)
entered schema md name = elim (lookup_field schema md name) [
  | none ↦ none
  | some fd ↦ elim (sub_message fd) [ none ↦ none | some inner ↦ some (fd, inner) ]
]

unfoldable pub resolve_parts : Schema → Bytes → List Bytes → Tried FieldError FieldDescriptor
unfolding lookup_field
resolve_parts schema md [] = failed (unknown [] md)
resolve_parts schema md (name ∷ []) = found_field md name (lookup_field schema md name)
resolve_parts schema md (name ∷ next ∷ parts) = elim (entered schema md name) [
  | none ↦ failed (not_message name md)
  | some (fd, inner) ↦ resolve_parts schema inner (next ∷ parts)
]

unfoldable pub resolve_field : Schema → Bytes → Bytes → Tried FieldError FieldDescriptor
unfolding resolve_parts
resolve_field schema md path = resolve_parts schema md (split b'.' path)

pub data Message (V : Type 0) : Type 0 where
  blank : Message V
  with_value : Bytes → V → Message V → Message V
  with_message : Bytes → Message V → Message V → Message V

pub data Content (V : Type 0) : Type 0 where
  unset : Content V
  value : V → Content V
  nested : Message V → Content V

module _ {V : Type 0} where
  -- What stands in a field.
  unfoldable pub content : Bytes → Message V → Content V
  content name blank = unset
  content name (with_value n v m) = if bytes_eq n name then value v else content name m
  content name (with_message n sub m) = if bytes_eq n name then nested sub else content name m

  unfoldable pub clear : Bytes → Message V → Message V
  clear name blank = blank
  clear name (with_value n v m) =
      let rest = clear name m in if bytes_eq n name then rest else with_value n v rest
  clear name (with_message n sub m) =
      let rest = clear name m in if bytes_eq n name then rest else with_message n sub rest

  abbrev pub put : Bytes → Content V → Message V → Message V
  put name unset m = m
  put name (value v) m = with_value name v m
  put name (nested sub) m = with_message name sub m

  unfoldable pub clear_each : List Bytes → Message V → Message V
  clear_each [] m = m
  clear_each (name ∷ names) m = clear_each names (clear name m)

  -- `msg.Set(fd, v)`, which clears the other fields of the oneof; a field that is set to its default is one
  -- that is not set.
  unfoldable pub store : Schema → Bytes → FieldDescriptor → Content V → Message V → Message V
  unfolding clear clear_each
  store schema md fd c m =
      put fd.name c (clear fd.name (clear_each (siblings fd.oneof (schema md)) m))

  abbrev pub message_in : Content V → Message V
  message_in unset = blank
  message_in (value v) = blank
  message_in (nested sub) = sub

  -- `msg.Mutable(fd).Message()`.
  unfoldable pub mutable : Bytes → Message V → Message V
  unfolding content
  mutable name m = message_in (content name m)
