-- ===== src/Rest/Fields/Typed.antt =====
-- The request messages that rest/decode.go makes have the types that their descriptors give.
use cloud_tasks_emulator.Base.{
  ◌≡◌, sym, ap, ◌∙◌, subst, Option, none, some, List, [], ◌∷◌, arith, Bool-cases, inl, inr,
}
use cloud_tasks_emulator.Base.Bytes.{Bytes, bytes_eq, bytes_eq_iff}
use cloud_tasks_emulator.Rest.Fields.{
  FieldDescriptor, Schema, by_name, sub_message, siblings, Message, blank, with_value, with_message,
  Content, unset, value, nested, content, clear, clear_each, put, store, mutable, message_in,
}

module _ {V : Type 0} (schema : Schema) (Accepts : FieldDescriptor → V → Type 0) where
  -- Each field that is set is one of the type: a value is one that the field accepts, and a message has
  -- the type that the field has.
  unfoldable pub Typed : Bytes → Message V → Type 0
  Typed md blank = Unit
  Typed md (with_value n v m) =
      (elim (by_name n (schema md)) [ none ↦ ⊥ | some fd ↦ Accepts fd v ]) × Typed md m
  Typed md (with_message n sub m) =
      (elim (by_name n (schema md)) [
        | none ↦ ⊥
        | some fd ↦ elim (sub_message fd) [ none ↦ ⊥ | some inner ↦ Typed inner sub ]
      ])
      × Typed md m

  abbrev pub Suits : FieldDescriptor → Content V → Type 0
  Suits fd unset = Unit
  Suits fd (value v) = Accepts fd v
  Suits fd (nested sub) = elim (sub_message fd) [ none ↦ ⊥ | some inner ↦ Typed inner sub ]

  pub content-Suits :
      (md : Bytes) (fd : FieldDescriptor) (m : Message V)
      → by_name fd.name (schema md) ≡ some fd
      → Typed md m
      → Suits fd (content fd.name m)
  unfolding content Typed
  content-Suits md fd blank at h = tt
  content-Suits md fd (with_value n v m) at h = elim (Bool-cases (bytes_eq n fd.name)) [
    | inl e ↦
        let same : n ≡ fd.name = ground (arith, bytes_eq_iff n fd.name) in
        let found : by_name n (schema md) ≡ some fd =
          ap (λ (x : Bytes). by_name x (schema md)) same ∙ at in
        rw e (
          subst (λ (o : Option FieldDescriptor). elim o [ none ↦ ⊥ | some g ↦ Accepts g v ]) found
            h.0)
    | inr e ↦ rw e (content-Suits md fd m at h.1)
  ]
  content-Suits md fd (with_message n sub m) at h = elim (Bool-cases (bytes_eq n fd.name)) [
    | inl e ↦
        let same : n ≡ fd.name = ground (arith, bytes_eq_iff n fd.name) in
        let found : by_name n (schema md) ≡ some fd =
          ap (λ (x : Bytes). by_name x (schema md)) same ∙ at in
        rw e (
          subst
            (λ (o : Option FieldDescriptor). elim o [
              | none ↦ ⊥
              | some g ↦ elim (sub_message g) [ none ↦ ⊥ | some inner ↦ Typed inner sub ]
            ])
            found h.0)
    | inr e ↦ rw e (content-Suits md fd m at h.1)
  ]

  clear-Typed : (md name : Bytes) (m : Message V) → Typed md m → Typed md (clear name m)
  unfolding clear Typed
  clear-Typed md name blank h = tt
  clear-Typed md name (with_value n v m) h = elim (Bool-cases (bytes_eq n name)) [
    | inl e ↦ rw e (clear-Typed md name m h.1)
    | inr e ↦ rw e (h.0, clear-Typed md name m h.1)
  ]
  clear-Typed md name (with_message n sub m) h = elim (Bool-cases (bytes_eq n name)) [
    | inl e ↦ rw e (clear-Typed md name m h.1)
    | inr e ↦ rw e (h.0, clear-Typed md name m h.1)
  ]

  clear_each-Typed :
      (md : Bytes) (names : List Bytes) (m : Message V) → Typed md m → Typed md (clear_each names m)
  unfolding clear_each
  clear_each-Typed md [] m h = h
  clear_each-Typed md (name ∷ names) m h =
      clear_each-Typed md names (clear name m) (clear-Typed md name m h)

  pub put-Typed :
      (md : Bytes) (fd : FieldDescriptor) (c : Content V) (m : Message V)
      → by_name fd.name (schema md) ≡ some fd
      → Suits fd c
      → Typed md m
      → Typed md (put fd.name c m)
  unfolding Typed
  put-Typed md fd unset m at suits h = h
  put-Typed md fd (value v) m at suits h = (
    subst (λ (o : Option FieldDescriptor). elim o [ none ↦ ⊥ | some g ↦ Accepts g v ]) (sym at)
        suits,
    h,
  )
  put-Typed md fd (nested sub) m at suits h = (
    subst
        (λ (o : Option FieldDescriptor). elim o [
          | none ↦ ⊥
          | some g ↦ elim (sub_message g) [ none ↦ ⊥ | some inner ↦ Typed inner sub ]
        ])
        (sym at) suits,
    h,
  )

  pub store-Typed :
      (md : Bytes) (fd : FieldDescriptor) (c : Content V) (m : Message V)
      → by_name fd.name (schema md) ≡ some fd
      → Suits fd c
      → Typed md m
      → Typed md (store schema md fd c m)
  unfolding store
  store-Typed md fd c m at suits h =
      put-Typed md fd c _ at suits
        (clear-Typed md fd.name _ (clear_each-Typed md (siblings fd.oneof (schema md)) m h))

  message_in-Typed :
      (inner : Bytes) (fd : FieldDescriptor) (c : Content V)
      → sub_message fd ≡ some inner
      → Suits fd c
      → Typed inner (message_in c)
  unfolding Typed
  message_in-Typed inner fd unset typed suits = tt
  message_in-Typed inner fd (value v) typed suits = tt
  message_in-Typed inner fd (nested sub) typed suits =
      subst (λ (o : Option Bytes). elim o [ none ↦ ⊥ | some t ↦ Typed t sub ]) typed suits

  pub mutable-Typed :
      (md inner : Bytes) (fd : FieldDescriptor) (m : Message V)
      → by_name fd.name (schema md) ≡ some fd
      → sub_message fd ≡ some inner
      → Typed md m
      → Typed inner (mutable fd.name m)
  unfolding mutable
  mutable-Typed md inner fd m at typed h =
      message_in-Typed inner fd (content fd.name m) typed (content-Suits md fd m at h)
