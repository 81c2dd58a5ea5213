-- ===== src/Rest/Fields/Decode.antt =====
-- rest/decode.go: decode, which makes the request message of a route from the body, the query and the
-- path. Reading the body may fail, as it does behind the limit on its size.
use cloud_tasks_emulator.Base.{Bool, false, ◌||◌, Option, none, some, List, [], ◌∷◌, if◌then◌else◌}
use cloud_tasks_emulator.Base.Bytes.{Bytes, codes, bytes_eq, is_empty}
use cloud_tasks_emulator.Base.Dict.{Dict}
use cloud_tasks_emulator.Std.Strings.{has_prefix}
use cloud_tasks_emulator.Std.Quote.{is_blank}
use cloud_tasks_emulator.Rest.Fields.{
  FieldDescriptor, Schema, FieldError, Tried, failed, got, after, Message, blank, nested, store,
}
use cloud_tasks_emulator.Rest.Fields.Assign.{Protojson, Values, set_field}

-- The part of a route that says how its requests are decoded. A body that names a field comes with the
-- field and the type of its message.
pub record Shape : Type 0 where
  pub body : Bytes
  pub body_field : Option (FieldDescriptor × Bytes)
  pub input : Bytes

-- The query's parameters in the order in which the map is gone through.
pub record Sent : Type 0 where
  pub raw : Option Bytes
  pub query : List (Bytes × Values)

pub data DecodeError : Type 0 where
  no_type : Bytes → DecodeError
  unread_body bad_body : DecodeError
  in_query in_path : Bytes → FieldError → DecodeError

abbrev one_of : Bytes → List Bytes → Bool
one_of s [] = false
one_of s (x ∷ xs) = bytes_eq x s || one_of s xs

abbrev pub system_params : List Bytes
system_params =
    codes "alt"
    ∷ codes "access_token"
    ∷ codes "bearer_token"
    ∷ codes "callback"
    ∷ codes "fields"
    ∷ codes "key"
    ∷ codes "oauth_token"
    ∷ codes "pp"
    ∷ codes "prettyPrint"
    ∷ codes "quotaUser"
    ∷ codes "upload_protocol"
    ∷ codes "uploadType"
    ∷ codes "userIp"
    ∷ []

unfoldable pub is_system_param : Bytes → Bool
unfolding has_prefix
is_system_param key = has_prefix (b'$' ∷ []) key || one_of key system_params

abbrev pub wrapped : {E F A : Type 0} → (E → F) → Tried E A → Tried F A
wrapped f (failed e) = failed (f e)
wrapped f (got a) = got a

module _ {V : Type 0} (pj : Protojson V) (schema : Schema) where
  -- The document goes into the body's field, or is the whole message.
  abbrev pub placed :
      Shape → Message V → Option (FieldDescriptor × Bytes) → Bytes → Tried DecodeError (Message V)
  placed sh m none raw = elim (pj.unmarshal sh.input raw) [
    | none ↦ failed bad_body
    | some t ↦ got t
  ]
  placed sh m (some (fd, inner)) raw = elim (pj.unmarshal inner raw) [
    | none ↦ failed bad_body
    | some t ↦ got (store schema sh.input fd (nested t) m)
  ]

  unfoldable pub decode_body : Shape → Option Bytes → Message V → Tried DecodeError (Message V)
  unfolding store is_blank
  decode_body sh raw m = if is_empty sh.body then got m else elim raw [
    | none ↦ failed unread_body
    | some doc ↦ if is_blank doc then got m else placed sh m sh.body_field doc
  ]

  unfoldable pub decode_query :
      Bytes → List (Bytes × Values) → Message V → Tried DecodeError (Message V)
  unfolding set_field is_system_param
  decode_query md [] m = got m
  decode_query md ((key, values) ∷ query) m =
      if is_system_param key
      then decode_query md query m
      else after (wrapped (in_query key) (set_field pj schema md key values m))
          (decode_query md query)

  unfoldable pub decode_path : Bytes → Dict Bytes → Message V → Tried DecodeError (Message V)
  unfolding set_field
  decode_path md [] m = got m
  decode_path md ((field, text) ∷ vars) m =
      after (wrapped (in_path field) (set_field pj schema md field (text, []) m))
        (decode_path md vars)

  -- `newMessage`: the type of the request may not be linked in.
  abbrev pub new_message : (Bytes → Bool) → Bytes → Tried DecodeError (Message V)
  new_message registered md = if registered md then got blank else failed (no_type md)

  unfoldable pub decode : (Bytes → Bool) → Shape → Sent → Dict Bytes → Tried DecodeError (Message V)
  unfolding decode_body decode_query decode_path
  decode registered sh sent vars = after (new_message registered sh.input) (λ m.
      after (decode_body sh sent.raw m) (λ with_body.
        after (decode_query sh.input sent.query with_body) (decode_path sh.input vars)))
