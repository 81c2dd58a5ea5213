-- ===== src/Rest/Fields/Sound.antt =====
-- What setField and decode of rest/decode.go do keeps a message to the type that its descriptor gives.
use cloud_tasks_emulator.Base.{
  ◌≡◌, sym, subst, Bool, Option, none, some, List, [], ◌∷◌, Bool-cases, Option-cases, inl, inr,
}
use cloud_tasks_emulator.Base.Bytes.{Bytes, is_empty}
use cloud_tasks_emulator.Base.Dict.{Dict}
use cloud_tasks_emulator.Std.Strings.{split}
use cloud_tasks_emulator.Std.Quote.{is_blank}
use cloud_tasks_emulator.Rest.Fields.{
  FieldDescriptor, Schema, by_name, lookup_field, sub_message, entered, Tried, failed, got, after,
  Message, blank, nested, content, mutable,
}
use cloud_tasks_emulator.Rest.Fields.Assign.{
  Protojson, Values, document, assign, set_parts, set_field,
}
use cloud_tasks_emulator.Rest.Fields.Decode.{
  Shape, Sent, wrapped, is_system_param, in_query, in_path, placed, decode_body, decode_query,
  decode_path, decode,
}
use cloud_tasks_emulator.Rest.Fields.Lookups.{WellNamed, lookup_field-by_name, entered_lem}
use cloud_tasks_emulator.Rest.Fields.Typed.{Typed, content-Suits, store-Typed, mutable-Typed}

-- A result, if there is one, has the property.
abbrev Got : {E A : Type 0} → (A → Type 0) → Tried E A → Type 0
Got P (failed e) = Unit
Got P (got a) = P a

after-Got :
    {E A B : Type 0} (P : A → Type 0) (Q : B → Type 0) (t : Tried E A) (next : A → Tried E B)
    → Got P t
    → ((a : A) → P a → Got Q (next a))
    → Got Q (after t next)
after-Got P Q (failed e) next h k = tt
after-Got P Q (got a) next h k = k a h

wrapped-Got :
    {E F A : Type 0} (P : A → Type 0) (f : E → F) (t : Tried E A) → Got P t → Got P (wrapped f t)
wrapped-Got P f (failed e) h = tt
wrapped-Got P f (got a) h = h

-- The body's field, where there is one, is a message field of the request's type.
abbrev pub BodyFits : Schema → Bytes → Option (FieldDescriptor × Bytes) → Type 0
BodyFits schema md none = Unit
BodyFits schema md (some (fd, inner)) =
    (by_name fd.name (schema md) ≡ some fd) × (sub_message fd ≡ some inner)

module _ {V : Type 0} (pj : Protojson V) (schema : Schema) (Accepts : FieldDescriptor → V → Type 0)
    (w : WellNamed schema)
    (reads : (md doc : Bytes) (m : Message V)
      → pj.unmarshal md doc ≡ some m
      → Typed schema Accepts md m) where
  assign-Typed :
      (md : Bytes) (fd : FieldDescriptor) (values : Values) (m : Message V)
      → by_name fd.name (schema md) ≡ some fd
      → Typed schema Accepts md m
      → Got (Typed schema Accepts md) (assign pj schema md fd values m)
  unfolding assign
  assign-Typed md fd values m at h =
      elim (Option-cases (pj.unmarshal md (document pj.printable fd values))) [
        | inl e ↦ rw (e, assign) tt
        | inr (tmp, e) ↦
            let suits = content-Suits schema Accepts md fd tmp at (reads md _ tmp e) in
            rw (e, assign) (store-Typed schema Accepts md fd (content fd.name tmp) m at suits h)
      ]

  set_parts-Typed :
      (md : Bytes) (parts : List Bytes) (values : Values) (m : Message V)
      → Typed schema Accepts md m
      → Got (Typed schema Accepts md) (set_parts pj schema md parts values m)
  unfolding set_parts
  set_parts-Typed md [] values m h = tt
  set_parts-Typed md (name ∷ []) values m h = elim (Option-cases (lookup_field schema md name)) [
    | inl e ↦ rw (e, set_parts) tt
    | inr (fd, e) ↦ elim (Bool-cases fd.is_map) [
      | inl is_map ↦ rw (e, set_parts, is_map) tt
      | inr no_map ↦
          rw (e, set_parts, no_map)
            (assign-Typed md fd values m (lookup_field-by_name schema md name w e) h)
    ]
  ]
  set_parts-Typed md (name ∷ next ∷ parts) values m h =
      elim (Option-cases (entered schema md name)) [
        | inl e ↦ rw (e, set_parts) tt
        | inr ((fd, inner), e) ↦
            let (there, typed) = entered_lem schema md name e in
            let at = lookup_field-by_name schema md name w there in
            rw (e, set_parts)
              (after-Got (Typed schema Accepts inner) (Typed schema Accepts md)
                (set_parts pj schema inner (next ∷ parts) values (mutable fd.name m)) _
                (set_parts-Typed inner (next ∷ parts) values (mutable fd.name m)
                  (mutable-Typed schema Accepts md inner fd m at typed h))
                (λ sub sub_typed.
                  store-Typed schema Accepts md fd (nested sub) m at
                    (subst
                      (λ (o : Option Bytes). elim o [
                        | none ↦ ⊥
                        | some t ↦ Typed schema Accepts t sub
                      ])
                      (sym typed) sub_typed)
                    h))
      ]

  placed-Typed :
      (sh : Shape) (m : Message V) (field : Option (FieldDescriptor × Bytes)) (doc : Bytes)
      → BodyFits schema sh.input field
      → Typed schema Accepts sh.input m
      → Got (Typed schema Accepts sh.input) (placed pj schema sh m field doc)
  placed-Typed sh m none doc fits h = elim (Option-cases (pj.unmarshal sh.input doc)) [
    | inl e ↦ rw (e, placed) tt
    | inr (t, e) ↦ rw (e, placed) (reads sh.input doc t e)
  ]
  placed-Typed sh m (some (fd, inner)) doc (at, typed) h =
      elim (Option-cases (pj.unmarshal inner doc)) [
        | inl e ↦ rw (e, placed) tt
        | inr (t, e) ↦
            rw (e, placed)
              (store-Typed schema Accepts sh.input fd (nested t) m at
                (subst
                  (λ (o : Option Bytes). elim o [ none ↦ ⊥ | some u ↦ Typed schema Accepts u t ])
                  (sym typed) (reads inner doc t e))
                h)
      ]

  decode_body-Typed :
      (sh : Shape) (raw : Option Bytes) (m : Message V)
      → BodyFits schema sh.input sh.body_field
      → Typed schema Accepts sh.input m
      → Got (Typed schema Accepts sh.input) (decode_body pj schema sh raw m)
  unfolding decode_body
  decode_body-Typed sh none m fits h = elim (Bool-cases (is_empty sh.body)) [
    | inl no_body ↦ rw no_body h
    | inr body ↦ rw body tt
  ]
  decode_body-Typed sh (some doc) m fits h = elim (Bool-cases (is_empty sh.body)) [
    | inl no_body ↦ rw no_body h
    | inr body ↦ elim (Bool-cases (is_blank doc)) [
      | inl nothing ↦ rw (body, nothing) h
      | inr something ↦ rw (body, something) (placed-Typed sh m sh.body_field doc fits h)
    ]
  ]

  decode_query-Typed :
      (md : Bytes) (query : List (Bytes × Values)) (m : Message V)
      → Typed schema Accepts md m
      → Got (Typed schema Accepts md) (decode_query pj schema md query m)
  unfolding decode_query set_field
  decode_query-Typed md [] m h = h
  decode_query-Typed md ((key, values) ∷ query) m h = elim (Bool-cases (is_system_param key)) [
    | inl system ↦ rw system (decode_query-Typed md query m h)
    | inr own ↦ rw own (
        after-Got (Typed schema Accepts md) (Typed schema Accepts md) _ _
          (wrapped-Got (Typed schema Accepts md) (in_query key) _
            (set_parts-Typed md (split b'.' key) values m h))
          (decode_query-Typed md query))
  ]

  decode_path-Typed :
      (md : Bytes) (vars : Dict Bytes) (m : Message V)
      → Typed schema Accepts md m
      → Got (Typed schema Accepts md) (decode_path pj schema md vars m)
  unfolding decode_path set_field
  decode_path-Typed md [] m h = h
  decode_path-Typed md ((field, text) ∷ vars) m h =
      after-Got (Typed schema Accepts md) (Typed schema Accepts md) _ _
        (wrapped-Got (Typed schema Accepts md) (in_path field) _
          (set_parts-Typed md (split b'.' field) (text, []) m h))
        (decode_path-Typed md vars)

  decode-Got :
      (registered : Bytes → Bool) (sh : Shape) (sent : Sent) (vars : Dict Bytes)
      → BodyFits schema sh.input sh.body_field
      → Got (Typed schema Accepts sh.input) (decode pj schema registered sh sent vars)
  unfolding decode
  decode-Got registered sh sent vars fits = elim (Bool-cases (registered sh.input)) [
    | inr unknown_type ↦ rw unknown_type tt
    | inl known ↦ rw known (
        after-Got (Typed schema Accepts sh.input) (Typed schema Accepts sh.input) _ _
          (decode_body-Typed sh sent.raw blank fits (unfold Typed in tt))
          (λ with_body b.
            after-Got (Typed schema Accepts sh.input) (Typed schema Accepts sh.input) _ _
              (decode_query-Typed sh.input sent.query with_body b)
              (decode_path-Typed sh.input vars)))
  ]

-- A request message that decode makes has the type of the route's requests: each field that is set in it,
-- at any depth, is one of its message's type, with a value that the field accepts or a message of the
-- field's type. What protojson reads for a type has that type, each field of a type is found under its own
-- name, and a body's field is a message field of the request's type.
pub decode-Typed :
    {V : Type 0} (pj : Protojson V) (schema : Schema) (Accepts : FieldDescriptor → V → Type 0)
    (registered : Bytes → Bool) (sh : Shape) (sent : Sent) (vars : Dict Bytes) (m : Message V)
    → WellNamed schema
    → ((md doc : Bytes) (read : Message V)
        → pj.unmarshal md doc ≡ some read
        → Typed schema Accepts md read)
    → BodyFits schema sh.input sh.body_field
    → decode pj schema registered sh sent vars ≡ got m
    → Typed schema Accepts sh.input m
decode-Typed pj schema Accepts registered sh sent vars m w reads fits e =
    subst (Got (Typed schema Accepts sh.input)) e
      (decode-Got pj schema Accepts w reads registered sh sent vars fits)
