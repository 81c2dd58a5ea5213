-- ===== src/Core/Status.antt =====
-- The gRPC status errors of package core: a code, and the message with its arguments.
use cloud_tasks_emulator.Base.{
  Bool, true, false, List, Option, none, some, ◌≡◌, refl, ◌⊎◌, inl, inr, subst,
}
use cloud_tasks_emulator.Base.Bytes.{Bytes}

pub data Code : Type 0 where
  canceled unknown invalid_argument deadline_exceeded not_found already_exists : Code
  permission_denied resource_exhausted failed_precondition aborted out_of_range : Code
  unimplemented internal unavailable data_loss unauthenticated : Code

-- One constructor for each format string, over the values that it prints.
pub data Message : Type 0 where
  invalid_queue_name invalid_parent invalid_queue_id queue_exists queue_not_found : Bytes → Message
  queue_name_required name_not_parent task_required : Message
  task_exists task_reserved task_not_found invalid_task_name invalid_task_id : Bytes → Message
  task_not_parent run_pull_queue run_pull_task : Message
  invalid_resource invalid_page_token : Bytes → Message
  schedule_too_far deadline_range http_body_limit url_limit header_limit : Message
  app_engine_body_limit pull_body_limit target_required : Message
  body_method : List Bytes → Message

pub record Status : Type 0 where
  pub code : Code
  pub message : Message

pub data Result {ℓ} (A : Type ℓ) : Type ℓ where
  ok : A → Result A
  err : Status → Result A

-- `status.Errorf(code, ...)`.
abbrev pub fail {ℓ} : {A : Type ℓ} → Code → Message → Result A
fail c m = err (record { code = c; message = m })

infixl 5 ◌>>=◌ ◌>>◌
-- `if err != nil { return nil, err }` between two steps. A chain stays a chain until a proof unfolds
-- it.
unfoldable pub ◌>>=◌ {ℓ μ} : {A : Type ℓ} {C : Type μ} (r : Result A) → (A → Result C) → Result C
err x >>= next = err x
ok a >>= next = next a

-- `if b { return nil, err }`.
abbrev pub reject_if : Bool → Code → Message → Result (Unit {0})
reject_if b c m = elim b [ true ↦ fail c m | false ↦ ok tt ]

-- The value of a comma-ok lookup, or the error.
abbrev pub or_fail {ℓ} : {A : Type ℓ} → Option A → Code → Message → Result A
or_fail none c m = fail c m
or_fail (some a) c m = ok a

-- A step whose only result is that there was no error.
abbrev pub ◌>>◌ {μ} : {C : Type μ} → Result (Unit {0}) → Result C → Result C
r >> next = r >>= λ done. next

pub Result-cases {ℓ} :
    {A : Type ℓ} (r : Result A) → ((e : Status) × (r ≡ err e)) ⊎ ((a : A) × (r ≡ ok a))
Result-cases (ok a) = inr (a, refl)
Result-cases (err e) = inl (e, refl)

-- A chain with a result passed its first step.
pub >>=-eq-ok {ℓ μ} :
    {A : Type ℓ} {C : Type μ} (r : Result A) (next : A → Result C) {c : C}
    → (r >>= next) ≡ ok c
    → (x : A) × (r ≡ ok x) × (next x ≡ ok c)
unfolding ◌>>=◌
>>=-eq-ok (err x) next passed = cc
>>=-eq-ok (ok x) next passed = (x, refl, passed)

pub or_fail-eq-ok {ℓ} :
    {A : Type ℓ} (o : Option A) (c : Code) (m : Message) {a : A} → or_fail o c m ≡ ok a → o ≡ some a
or_fail-eq-ok none c m h = cc
or_fail-eq-ok (some a) c m h = cc

pub reject_if-eq-ok :
    (b : Bool) (c : Code) (m : Message) {u : Unit {0}} → reject_if b c m ≡ ok u → b ≡ false
reject_if-eq-ok true c m h = cc
reject_if-eq-ok false c m h = refl

-- What holds of a result if it is one.
pub data Ensures {ℓ κ} {A : Type ℓ} (Q : A → Type κ) : Result A → Type (ℓ ⊔ κ) where
  on_ok : {a : A} → Q a → Ensures Q (ok a)
  on_err : {x : Status} → Ensures Q (err x)

-- The rule for a step of a chain; what stands behind it may use the step's equation.
pub Ensures-bind {ℓ κ μ} :
    {A : Type ℓ} {B : Type κ} {Q : B → Type μ} {m : Result A} {f : A → Result B}
    → ((a : A) → m ≡ ok a → Ensures Q (f a))
    → Ensures Q (m >>= f)
unfolding ◌>>=◌
Ensures-bind {m = ok a} h = h a refl
Ensures-bind {m = err x} h = on_err

pub Ensures-elim {ℓ κ} :
    {A : Type ℓ} {Q : A → Type κ} {r : Result A} {a : A} → Ensures Q r → r ≡ ok a → Q a
Ensures-elim {Q = Q} (on_ok q) e = subst Q (cc) q
Ensures-elim on_err e = cc
