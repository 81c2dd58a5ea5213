-- ===== src/Rest/Fields/Bound.antt =====
-- In rest/decode.go a value that is written into the path is the authoritative one: nothing that is set
-- for another field changes what is read at its own.
use cloud_tasks_emulator.Base.{
  ◌≡◌, refl, sym, ap, ◌∙◌, subst, true, false, not, ◌⊎◌, none, some, List, [], ◌∷◌, if◌then◌else◌,
  arith, Bool-cases, Option-cases, inl, inr,
}
use cloud_tasks_emulator.Base.Bytes.{Bytes, bytes_eq, bytes_eq_iff}
use cloud_tasks_emulator.Rest.Fields.{
  FieldDescriptor, Schema, by_name, lookup_field, sub_message, entered, same_oneof, got, Message,
  Content, content, store, mutable,
}
use cloud_tasks_emulator.Rest.Fields.Assign.{Protojson, Values, set_parts}
use cloud_tasks_emulator.Rest.Fields.Lookups.{WellNamed, lookup_field-by_name, entered_lem}
use cloud_tasks_emulator.Rest.Fields.Stored.{content-store_other}
use cloud_tasks_emulator.Rest.Fields.Reads.{
  apart, read_parts, read_parts_lem, read_parts-store, set_one, set_inside,
}

-- The fields at the heads of two paths that are apart differ, or the paths go apart inside.
apart-heads :
    (schema : Schema) (md a b : Bytes) (xs bs : List Bytes) (fa fb : FieldDescriptor)
    → lookup_field schema md a ≡ some fa
    → lookup_field schema md b ≡ some fb
    → apart schema md (a ∷ xs) (b ∷ bs) ≡ true
    → ((bytes_eq fa.name fb.name ≡ false) × (same_oneof fa.oneof fb.oneof ≡ false))
      ⊎ ((bytes_eq fa.name fb.name ≡ true)
          × ((inner : Bytes) × (sub_message fa ≡ some inner) × (apart schema inner xs bs ≡ true)))
unfolding apart
apart-heads schema md a b xs bs fa fb ea eb h =
    let opened : (if bytes_eq fa.name fb.name
          then elim (sub_message fa) [ none ↦ false | some inner ↦ apart schema inner xs bs ]
          else not (same_oneof fa.oneof fb.oneof))
        ≡ true =
      sym (rw (ea, eb, apart) refl) ∙ h in
    elim (Bool-cases (bytes_eq fa.name fb.name)) [
      | inr off ↦ inl (off, ground (arith, opened, off))
      | inl same ↦ elim (Option-cases (sub_message fa)) [
        | inl e ↦ absurd (ground (arith, opened, same, e))
        | inr (inner, e) ↦ inr (same, (inner, e, ground (arith, opened, same, e)))
      ]
    ]

-- The second path of two that are apart names a field.
apart-second :
    (schema : Schema) (md a b : Bytes) (xs bs : List Bytes)
    → apart schema md (a ∷ xs) (b ∷ bs) ≡ true
    → (fb : FieldDescriptor) × (lookup_field schema md b ≡ some fb)
unfolding apart
apart-second schema md a b xs bs h = elim (Option-cases (lookup_field schema md b)) [
  | inr found ↦ found
  | inl e ↦ elim (Option-cases (lookup_field schema md a)) [
    | inl ea ↦
        let closed : apart schema md (a ∷ xs) (b ∷ bs) ≡ false = rw (ea, apart) refl in
        absurd (ground (arith, closed, h))
    | inr (fa, ea) ↦
        let closed : apart schema md (a ∷ xs) (b ∷ bs) ≡ false = rw (ea, e, apart) refl in
        absurd (ground (arith, closed, h))
  ]
]

-- The same field under two spellings.
entered_same :
    (schema : Schema) (w : WellNamed schema) (md a b : Bytes) (fa fb : FieldDescriptor)
    (inner : Bytes)
    → entered schema md a ≡ some (fa, inner)
    → lookup_field schema md b ≡ some fb
    → bytes_eq fa.name fb.name ≡ true
    → entered schema md b ≡ some (fa, inner)
entered_same schema w md a b fa fb inner ea eb same =
    let (there, typed) = entered_lem schema md a ea in
    let at : some fa ≡ some fb =
      sym (lookup_field-by_name schema md a w there)
      ∙ ap (λ (n : Bytes). by_name n (schema md)) (ground (arith, bytes_eq_iff fa.name fb.name))
      ∙ lookup_field-by_name schema md b w eb in
    let found : lookup_field schema md b ≡ some fa = eb ∙ sym at in rw (entered, found, typed) refl

module _ {V : Type 0} (schema : Schema) (w : WellNamed schema) where
  -- A field that was stored is not read at a path that starts with another.
  read_parts-other :
      (md b : Bytes) (bs : List Bytes) (fa fb : FieldDescriptor) (c : Content V) (m m' : Message V)
      → m' ≡ store schema md fa c m
      → lookup_field schema md b ≡ some fb
      → bytes_eq fa.name fb.name ≡ false
      → same_oneof fa.oneof fb.oneof ≡ false
      → read_parts schema md (b ∷ bs) m' ≡ read_parts schema md (b ∷ bs) m
  read_parts-other md b bs fa fb c m m' stored eb off free =
      ap (λ (x : Message V). read_parts schema md (b ∷ bs) x) stored
      ∙ read_parts_lem schema md b bs m (store schema md fa c m) (λ g eg.
        let one : fb ≡ g = ground (arith, eb, eg) in
        subst (λ (x : FieldDescriptor). content x.name (store schema md fa c m) ≡ content x.name m)
          one
          (content-store_other schema md fa fb c m w (lookup_field-by_name schema md b w eb) off
            free))

read_inside :
    {V : Type 0} (schema : Schema) (md b next : Bytes) (bs : List Bytes) (fb : FieldDescriptor)
    (inner : Bytes) (m : Message V)
    → entered schema md b ≡ some (fb, inner)
    → read_parts schema md (b ∷ next ∷ bs) m
      ≡ read_parts schema inner (next ∷ bs) (mutable fb.name m)
unfolding read_parts
read_inside schema md b next bs fb inner m e = rw (e, read_parts) refl

module _ {V : Type 0} (pj : Protojson V) (schema : Schema) (w : WellNamed schema) where
  -- Setting a field leaves what is read at a path apart from it.
  pub set_parts-apart :
      (md : Bytes) (parts others : List Bytes) (values : Values) (m : Message V) {m' : Message V}
      → set_parts pj schema md parts values m ≡ got m'
      → apart schema md parts others ≡ true
      → read_parts schema md others m' ≡ read_parts schema md others m
  unfolding apart
  set_parts-apart md [] others values m h free = absurd (cc free)
  set_parts-apart md (a ∷ []) [] values m h free = absurd (cc free)
  set_parts-apart md (a ∷ []) (b ∷ bs) values m {m'} h free =
      let (fa, ea, stored) = set_one pj schema md a values m h in
      let (fb, eb) = apart-second schema md a b [] bs free in
      elim (apart-heads schema md a b [] bs fa fb ea eb free) [
        | inl (off, unshared) ↦
            read_parts-other schema w md b bs fa fb _ m m' stored eb off unshared
        | inr (same, (inner, typed, closed)) ↦ absurd (cc closed)
      ]
  set_parts-apart md (a ∷ next ∷ xs) [] values m h free = absurd (cc free)
  set_parts-apart md (a ∷ next ∷ xs) (b ∷ []) values m {m'} h free =
      let (fa, inner, sub, ea, there, stored) = set_inside pj schema md a next xs values m h in
      let (fb, eb) = apart-second schema md a b (next ∷ xs) [] free in
      elim (apart-heads schema md a b (next ∷ xs) [] fa fb (entered_lem schema md a ea).0 eb free) [
        | inl (off, unshared) ↦
            read_parts-other schema w md b [] fa fb _ m m' stored eb off unshared
        | inr (same, (inner', typed, closed)) ↦ absurd (cc closed)
      ]
  set_parts-apart md (a ∷ next ∷ xs) (b ∷ b' ∷ bs) values m {m'} h free =
      let (fa, inner, sub, ea, there, stored) = set_inside pj schema md a next xs values m h in
      let (fb, eb) = apart-second schema md a b (next ∷ xs) (b' ∷ bs) free in
      let found = entered_lem schema md a ea in
      elim (apart-heads schema md a b (next ∷ xs) (b' ∷ bs) fa fb found.0 eb free) [
        | inl (off, unshared) ↦
            read_parts-other schema w md b (b' ∷ bs) fa fb _ m m' stored eb off unshared
        | inr (same, (inner', typed, deeper)) ↦
            let e = entered_same schema w md a b fa fb inner ea eb same in
            let here : inner' ≡ inner = ground (arith, typed, found.1) in
            ap (λ (x : Message V). read_parts schema md (b ∷ b' ∷ bs) x) stored
            ∙ read_parts-store schema md b b' bs fa inner sub m e
            ∙ set_parts-apart inner (next ∷ xs) (b' ∷ bs) values (mutable fa.name m) there
                (subst (λ (t : Bytes). apart schema t (next ∷ xs) (b' ∷ bs) ≡ true) here deeper)
            ∙ sym (read_inside schema md b b' bs fa inner m e)
      ]
