-- ===== src/Std/Http.antt =====
-- net/http: the header of a request, a map from names to lists of values, and the form that Get and
-- Set give to a name before they use it.
use cloud_tasks_emulator.Base.{
  ℕ, ◌+◌, ◌-◌, ◌≡◌, refl, Bool, true, false, ◌&&◌, ◌||◌, Option, none, some, List, [], ◌∷◌, leb,
  ◌==◌, if◌then◌else◌, arith, Bool-cases, inl, inr, ◌⊎◌,
}
use cloud_tasks_emulator.Base.Bytes.{Bytes, codes, bytes_eq, bytes_eq_iff}
use cloud_tasks_emulator.Base.Dict.{Dict, lookup, insert}

abbrev pub Header : Type 0
Header = Dict (List Bytes)

is_lower : ℕ → Bool
is_lower c = leb b'a' c && leb c b'z'

is_upper : ℕ → Bool
is_upper c = leb b'A' c && leb c b'Z'

is_letter : ℕ → Bool
unfolding is_lower is_upper
is_letter c = is_lower c || is_upper c

is_one_of : Bytes → ℕ → Bool
is_one_of [] c = false
is_one_of (m ∷ ms) c = m == c || is_one_of ms c

-- A byte that may stand in the name of a header.
is_token : ℕ → Bool
unfolding is_letter is_one_of
is_token c = is_letter c || leb b'0' c && leb c b'9' || is_one_of (codes "!#$%&'*+-.^_`|~") c

all_token : Bytes → Bool
all_token [] = true
all_token (c ∷ s) = is_token c && all_token s

to_upper : ℕ → ℕ
unfolding is_lower
to_upper c = if is_lower c then c - 32 else c

to_lower : ℕ → ℕ
unfolding is_upper
to_lower c = if is_upper c then c + 32 else c

case_of : Bool → ℕ → ℕ
unfolding to_upper to_lower
case_of upper c = if upper then to_upper c else to_lower c

-- The first letter and the one behind a hyphen are made capital, the others small.
capitals : Bool → Bytes → Bytes
unfolding case_of
capitals upper [] = []
capitals upper (c ∷ s) = case_of upper c ∷ capitals (c == b'-') s

-- CanonicalHeaderKey; a name with a byte that may not stand in one is left as it is.
unfoldable pub canonical : Bytes → Bytes
unfolding all_token is_token is_letter is_lower is_upper is_one_of capitals case_of to_upper
    to_lower
canonical s = if all_token s then capitals true s else s

unfoldable pub header_set : Bytes → Bytes → Header → Header
unfolding canonical
header_set k v h = insert (canonical k) (v ∷ []) h

-- The first value, or the empty string.
abbrev pub first_value : Option (List Bytes) → Bytes
first_value none = []
first_value (some []) = []
first_value (some (v ∷ vs)) = v

unfoldable pub header_get : Bytes → Header → Bytes
header_get k h = first_value (lookup (canonical k) h)

case_of-case_of : (u : Bool) (c : ℕ) → case_of u (case_of u c) ≡ case_of u c
unfolding case_of to_upper to_lower is_lower is_upper
case_of-case_of true c = ground arith
case_of-case_of false c = ground arith

case_of_hyphen : (u : Bool) (c : ℕ) → (case_of u c == b'-') ≡ (c == b'-')
unfolding case_of to_upper to_lower is_lower is_upper
case_of_hyphen true c = ground arith
case_of_hyphen false c = ground arith

-- A letter stays a letter, and anything else stays as it is.
case_of_letter : (u : Bool) (c : ℕ) → (is_letter (case_of u c) ≡ true) ⊎ (case_of u c ≡ c)
unfolding case_of to_upper to_lower is_letter is_lower is_upper
case_of_letter true c = elim (Bool-cases (is_lower c)) [
  | inl h ↦ inl (ground arith)
  | inr h ↦ inr (rw h refl)
]
case_of_letter false c = elim (Bool-cases (is_upper c)) [
  | inl h ↦ inl (ground arith)
  | inr h ↦ inr (rw h refl)
]

is_token-case_of : (u : Bool) (c : ℕ) → is_token c ≡ true → is_token (case_of u c) ≡ true
unfolding is_token
is_token-case_of u c t = elim (case_of_letter u c) [ inl h ↦ rw h refl | inr h ↦ rw h t ]

capitals-capitals : (u : Bool) (s : Bytes) → capitals u (capitals u s) ≡ capitals u s
unfolding capitals
capitals-capitals u [] = refl
capitals-capitals u (c ∷ s) =
    rw (case_of-case_of u c, case_of_hyphen u c, capitals-capitals (c == b'-') s) refl

all_token-capitals : (u : Bool) (s : Bytes) → all_token s ≡ true → all_token (capitals u s) ≡ true
unfolding all_token capitals
all_token-capitals u [] h = refl
all_token-capitals u (c ∷ s) h =
    ground (arith, is_token-case_of u c, all_token-capitals (c == b'-') s)

pub canonical-canonical : (s : Bytes) → canonical (canonical s) ≡ canonical s
unfolding canonical
canonical-canonical s = elim (Bool-cases (all_token s)) [
  | inl h ↦ rw (h, all_token-capitals true s h) (capitals-capitals true s)
  | inr h ↦ rw (h, h) refl
]

-- A name that is not in the form is not the form of any.
pub canonical_other :
    (k s : Bytes) → bytes_eq (canonical s) s ≡ false → bytes_eq (canonical k) s ≡ false
canonical_other k s h =
    ground
      (arith, bytes_eq_iff (canonical k) s, bytes_eq_iff (canonical s) s, canonical-canonical k)
