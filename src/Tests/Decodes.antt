-- ===== src/Tests/Decodes.antt =====
-- A request that updates a queue: the queue is in the body, its name in the path, a note in the query.
use cloud_tasks_emulator.Base.{
  ◌≡◌, refl, sym, subst, true, false, Option, none, some, [], ◌∷◌, if◌then◌else◌, All, Bool-cases,
  inl, inr, arith,
}
use cloud_tasks_emulator.Base.Bytes.{Bytes, codes, bytes_eq, bytes_eq_iff}
use cloud_tasks_emulator.Base.Dict.{Dict}
use cloud_tasks_emulator.Std.Strings.{split, has_prefix}
use cloud_tasks_emulator.Std.Quote.{is_blank, runes, quote}
use cloud_tasks_emulator.Rest.Fields.{
  FieldDescriptor, Schema, string_kind, message_kind, lookup_field, Tried, failed, got, Message,
  blank, with_value, content, clear, clear_each, store, mutable,
}
use cloud_tasks_emulator.Rest.Fields.Assign.{
  Protojson, assign, set_parts, set_field, document, literal_of, json_literal,
}
use cloud_tasks_emulator.Rest.Fields.Decode.{
  Shape, Sent, DecodeError, decode, decode_body, decode_query, decode_path, is_system_param,
}
use cloud_tasks_emulator.Rest.Fields.Lookups.{WellNamed}
use cloud_tasks_emulator.Rest.Fields.Typed.{Typed}
use cloud_tasks_emulator.Rest.Fields.Sound.{BodyFits, decode-Typed}
use cloud_tasks_emulator.Rest.Fields.Reads.{read_parts, meant}
use cloud_tasks_emulator.Rest.Fields.Authority.{decode-meant}

abbrev text_field : Bytes → FieldDescriptor
text_field name = record {
  name = name;
  json_name = name;
  kind = string_kind;
  message = none;
  is_list = false;
  is_map = false;
  oneof = none;
}

abbrev queue_field : FieldDescriptor
queue_field = record (text_field (codes "queue")) {
  kind = message_kind;
  message = some (codes "Queue");
}

abbrev two_types : Schema
two_types md =
    if bytes_eq md (codes "Update")
    then queue_field ∷ text_field (codes "note") ∷ []
    else if bytes_eq md (codes "Queue")
    then text_field (codes "name") ∷ text_field (codes "state") ∷ []
    else []

-- A value is the document that it was read from.
abbrev read_document : Bytes → Bytes → Option (Message Bytes)
read_document md doc =
    if bytes_eq md (codes "Update")
    then some (with_value (codes "note") doc blank)
    else if bytes_eq md (codes "Queue")
    then some (with_value (codes "name") doc (with_value (codes "state") doc blank))
    else none

abbrev reader : Protojson Bytes
reader = record { printable = λ r. false; unmarshal = read_document }

abbrev update : Shape
update = record {
  body = codes "queue";
  body_field = some (queue_field, codes "Queue");
  input = codes "Update";
}

abbrev request : Sent
request = record {
  raw = some (codes "{}");
  query =
      (codes "$alt", (codes "json", [])) ∷ (codes "note", (codes "hello", codes "there" ∷ [])) ∷ [];
}

abbrev bound : Dict Bytes
bound = (codes "queue.name", codes "q") ∷ []

abbrev decoded : Tried DecodeError (Message Bytes)
decoded = decode reader two_types (λ md. true) update request bound

abbrev message_of : Tried DecodeError (Message Bytes) → Message Bytes
message_of (failed e) = blank
message_of (got m) = m

decoded_lem : decoded ≡ got (message_of decoded)
unfolding decode decode_body decode_query decode_path set_field set_parts assign store clear
    clear_each content mutable lookup_field document literal_of json_literal quote runes is_blank
    is_system_param has_prefix split bytes_eq
decoded_lem = refl

two_types-WellNamed : WellNamed two_types
unfolding bytes_eq
two_types-WellNamed md = elim (Bool-cases (bytes_eq md (codes "Update"))) [
  | inl e ↦ rw e (refl, (refl, tt))
  | inr e ↦ elim (Bool-cases (bytes_eq md (codes "Queue"))) [
    | inl f ↦ rw (e, f) (refl, (refl, tt))
    | inr f ↦ rw (e, f) tt
  ]
]

-- A value stands in no message field.
abbrev NoMessage : FieldDescriptor → Bytes → Type 0
NoMessage fd v = fd.message ≡ none

reader_lem :
    (md doc : Bytes) (m : Message Bytes)
    → read_document md doc ≡ some m
    → Typed two_types NoMessage md m
unfolding Typed bytes_eq
reader_lem md doc m h = elim (Bool-cases (bytes_eq md (codes "Update"))) [
  | inl e ↦
      let one : md ≡ codes "Update" = ground (arith, bytes_eq_iff md (codes "Update")) in
      let read : with_value (codes "note") doc blank ≡ m = ground (arith, h, e) in
      subst (λ (x : Message Bytes). Typed two_types NoMessage md x) read
        (subst (λ (t : Bytes). Typed two_types NoMessage t (with_value (codes "note") doc blank))
          (sym one) (refl, tt))
  | inr e ↦ elim (Bool-cases (bytes_eq md (codes "Queue"))) [
    | inl f ↦
        let queue : Message Bytes =
          with_value (codes "name") doc (with_value (codes "state") doc blank) in
        let one : md ≡ codes "Queue" = ground (arith, bytes_eq_iff md (codes "Queue")) in
        let read : queue ≡ m = ground (arith, h, e, f) in
        subst (λ (x : Message Bytes). Typed two_types NoMessage md x) read
          (subst (λ (t : Bytes). Typed two_types NoMessage t queue) (sym one) (refl, (refl, tt)))
    | inr f ↦ absurd (ground (arith, h, e, f))
  ]
]

update-BodyFits : BodyFits two_types (codes "Update") update.body_field
unfolding bytes_eq
update-BodyFits = (refl, refl)

decode-Typed_example : Typed two_types NoMessage (codes "Update") (message_of decoded)
decode-Typed_example =
    decode-Typed reader two_types NoMessage (λ md. true) update request bound (message_of decoded)
      two_types-WellNamed reader_lem update-BodyFits decoded_lem

decode-meant_example :
    All
      (λ e.
        read_parts two_types (codes "Update") (split b'.' e.0) (message_of decoded)
        ≡ meant reader two_types (codes "Update") (split b'.' e.0) (e.1, []))
      bound
decode-meant_example =
    decode-meant reader two_types (λ md. true) update request bound (message_of decoded)
      two_types-WellNamed (tt, tt) decoded_lem
