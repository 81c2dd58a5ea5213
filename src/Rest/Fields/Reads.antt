-- ===== src/Rest/Fields/Reads.antt =====
-- What setField of rest/decode.go leaves to be read at a path, at its own and at another.
use cloud_tasks_emulator.Base.{
  ◌≡◌, refl, sym, ap, ◌∙◌, Bool, false, not, none, some, List, [], ◌∷◌, if◌then◌else◌, arith,
  Option-cases, inl, inr,
}
use cloud_tasks_emulator.Base.Bytes.{Bytes, bytes_eq}
use cloud_tasks_emulator.Rest.Fields.{
  FieldDescriptor, Schema, lookup_field, sub_message, entered, same_oneof, Tried, failed, got,
  after, found_field, Message, Content, unset, nested, content, store, mutable, message_in,
}
use cloud_tasks_emulator.Rest.Fields.Assign.{
  Protojson, Values, document, assign, assign_last, set_parts,
}
use cloud_tasks_emulator.Rest.Fields.Lookups.{entered_lem}
use cloud_tasks_emulator.Rest.Fields.Stored.{content-store}

pub after-eq-got :
    {E A B : Type 0} (t : Tried E A) (next : A → Tried E B) {b : B}
    → after t next ≡ got b
    → (a : A) × (t ≡ got a) × (next a ≡ got b)
after-eq-got (failed e) next h = cc
after-eq-got (got a) next h = (a, refl, h)

-- Two paths lead to different fields, of which none is inside the other and which share no oneof.
unfoldable pub apart : Schema → Bytes → List Bytes → List Bytes → Bool
apart schema md [] bs = false
apart schema md (a ∷ xs) [] = false
apart schema md (a ∷ xs) (b ∷ bs) = elim (lookup_field schema md a) [
  | none ↦ false
  | some fa ↦ elim (lookup_field schema md b) [
    | none ↦ false
    | some fb ↦
        if bytes_eq fa.name fb.name
        then elim (sub_message fa) [ none ↦ false | some inner ↦ apart schema inner xs bs ]
        else not (same_oneof fa.oneof fb.oneof)
  ]
]

module _ {V : Type 0} where
  -- What stands at a path.
  unfoldable pub read_parts : Schema → Bytes → List Bytes → Message V → Content V
  read_parts schema md [] m = unset
  read_parts schema md (b ∷ []) m = elim (lookup_field schema md b) [
    | none ↦ unset
    | some fb ↦ content fb.name m
  ]
  read_parts schema md (b ∷ next ∷ bs) m = elim (entered schema md b) [
    | none ↦ unset
    | some (fb, inner) ↦ read_parts schema inner (next ∷ bs) (mutable fb.name m)
  ]

  -- Only the field that the first part names is read.
  pub read_parts_lem :
      (schema : Schema) (md b : Bytes) (bs : List Bytes) (m m' : Message V)
      → ((fb : FieldDescriptor)
          → lookup_field schema md b ≡ some fb
          → content fb.name m' ≡ content fb.name m)
      → read_parts schema md (b ∷ bs) m' ≡ read_parts schema md (b ∷ bs) m
  unfolding read_parts mutable
  read_parts_lem schema md b [] m m' same = elim (Option-cases (lookup_field schema md b)) [
    | inl e ↦ rw (e, read_parts) refl
    | inr (fb, e) ↦ rw (e, read_parts) (same fb e)
  ]
  read_parts_lem schema md b (next ∷ bs) m m' same = elim (Option-cases (entered schema md b)) [
    | inl e ↦ rw (e, read_parts) refl
    | inr ((fb, inner), e) ↦
        rw (e, read_parts)
          (ap (λ (c : Content V). read_parts schema inner (next ∷ bs) (message_in c))
            (same fb (entered_lem schema md b e).0))
  ]

  -- Reading at a field that was stored.
  pub read_parts-store :
      (schema : Schema) (md b next : Bytes) (bs : List Bytes) (fb : FieldDescriptor) (inner : Bytes)
      (sub m : Message V)
      → entered schema md b ≡ some (fb, inner)
      → read_parts schema md (b ∷ next ∷ bs) (store schema md fb (nested sub) m)
        ≡ read_parts schema inner (next ∷ bs) sub
  unfolding read_parts mutable
  read_parts-store schema md b next bs fb inner sub m e =
      rw (e, read_parts)
        (ap (λ (c : Content V). read_parts schema inner (next ∷ bs) (message_in c))
          (content-store schema md fb (nested sub) m))

module _ {V : Type 0} (pj : Protojson V) (schema : Schema) where
  -- What protojson reads of a text for the field at a path.
  unfoldable pub meant : Bytes → List Bytes → Values → Content V
  meant md [] values = unset
  meant md (name ∷ []) values = elim (lookup_field schema md name) [
    | none ↦ unset
    | some fd ↦ elim (pj.unmarshal md (document pj.printable fd values)) [
      | none ↦ unset
      | some tmp ↦ content fd.name tmp
    ]
  ]
  meant md (name ∷ next ∷ parts) values = elim (entered schema md name) [
    | none ↦ unset
    | some (fd, inner) ↦ meant inner (next ∷ parts) values
  ]

  assigned :
      (md name : Bytes) (values : Values) (m : Message V) (fd : FieldDescriptor) {m' : Message V}
      → lookup_field schema md name ≡ some fd
      → assign_last pj schema md name values m fd ≡ got m'
      → m' ≡ store schema md fd (meant md (name ∷ []) values) m
  unfolding assign meant
  assigned md name values m fd e h =
      elim (Option-cases (pj.unmarshal md (document pj.printable fd values))) [
        | inl bad ↦ absurd (ground (arith, h, bad))
        | inr (tmp, read) ↦ rw (e, meant, read) (ground (arith, h, read))
      ]

  -- What a single part sets.
  pub set_one :
      (md name : Bytes) (values : Values) (m : Message V) {m' : Message V}
      → set_parts pj schema md (name ∷ []) values m ≡ got m'
      → (fd : FieldDescriptor) × (lookup_field schema md name ≡ some fd)
        × (m' ≡ store schema md fd (meant md (name ∷ []) values) m)
  unfolding set_parts
  set_one md name values m h =
      let (fd, found, h1) =
        after-eq-got (found_field md name (lookup_field schema md name))
          (assign_last pj schema md name values m) h in
      let e : lookup_field schema md name ≡ some fd = ground (arith, found) in
      (fd, e, assigned md name values m fd e h1)

  -- What a path of several parts sets.
  pub set_inside :
      (md name next : Bytes) (parts : List Bytes) (values : Values) (m : Message V) {m' : Message V}
      → set_parts pj schema md (name ∷ next ∷ parts) values m ≡ got m'
      → (fd : FieldDescriptor) × (inner : Bytes) × (sub : Message V) × (entered schema md name
          ≡ some (fd, inner))
        × (set_parts pj schema inner (next ∷ parts) values (mutable fd.name m) ≡ got sub)
        × (m' ≡ store schema md fd (nested sub) m)
  unfolding set_parts
  set_inside md name next parts values m {m'} h = elim (Option-cases (entered schema md name)) [
    | inl e ↦ absurd (ground (arith, h, e))
    | inr ((fd, inner), e) ↦
        let opened : after (set_parts pj schema inner (next ∷ parts) values (mutable fd.name m))
              (λ sub. got (store schema md fd (nested sub) m))
            ≡ got m' =
          sym (rw (e, set_parts) refl) ∙ h in
        let (sub, there, h1) =
          after-eq-got (set_parts pj schema inner (next ∷ parts) values (mutable fd.name m))
            (λ sub. got (store schema md fd (nested sub) m)) opened in
        (fd, inner, sub, e, there, ground (arith, h1))
  ]

  read_one :
      (md name : Bytes) (fd : FieldDescriptor) (m : Message V)
      → lookup_field schema md name ≡ some fd
      → read_parts schema md (name ∷ []) m ≡ content fd.name m
  unfolding read_parts
  read_one md name fd m e = rw (e, read_parts) refl

  -- After a field was set, what the texts mean is read there.
  pub set_parts-meant :
      (md : Bytes) (parts : List Bytes) (values : Values) (m : Message V) {m' : Message V}
      → set_parts pj schema md parts values m ≡ got m'
      → read_parts schema md parts m' ≡ meant md parts values
  unfolding read_parts meant
  set_parts-meant md [] values m h = refl
  set_parts-meant md (name ∷ []) values m h =
      let (fd, e, stored) = set_one md name values m h in
      ap (λ (x : Message V). read_parts schema md (name ∷ []) x) stored
      ∙ read_one md name fd _ e
      ∙ content-store schema md fd (meant md (name ∷ []) values) m
  set_parts-meant md (name ∷ next ∷ parts) values m h =
      let (fd, inner, sub, e, there, stored) = set_inside md name next parts values m h in
      ap (λ (x : Message V). read_parts schema md (name ∷ next ∷ parts) x) stored
      ∙ read_parts-store schema md name next parts fd inner sub m e
      ∙ set_parts-meant inner (next ∷ parts) values (mutable fd.name m) there
      ∙ (rw (e, meant) refl)
