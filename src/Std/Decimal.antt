-- ===== src/Std/Decimal.antt =====
-- strconv.Itoa and strconv.Atoi on a 64-bit int.
use cloud_tasks_emulator.Base.{
  ℕ, zero, suc, ◌+◌, ◌-◌, ◌*◌, ◌/◌, ◌%◌, ◌≤◌, ◌<◌, ◌≡◌, ◌≢◌, ◌||◌, Option, none, some, [], ◌∷◌,
  ◌++◌, ltb, leb, ◌==◌, if◌then◌else◌, All, Bool-cases, inl, inr, arith,
}
use cloud_tasks_emulator.Base.Int.{ℤ, pos, negsuc, max_int64}
use cloud_tasks_emulator.Base.Bytes.{Bytes, is_empty}

-- The digits of a number, by division; the fuel is above the number.
digits : ℕ → ℕ → Bytes
digits zero n = []
digits (suc f) n =
    let rest = digits f (n / 10) in
    if ltb n 10 then (b'0' + n) ∷ [] else rest ++ (b'0' + n % 10) ∷ []

unfoldable pub format_nat : ℕ → Bytes
unfolding digits
format_nat n = digits (suc n) n

unfoldable pub itoa : ℤ → Bytes
unfolding format_nat
itoa (pos n) = format_nat n
itoa (negsuc n) = b'-' ∷ format_nat (suc n)

-- The number that digits behind an accumulator stand for.
scan : Bytes → ℕ → Option ℕ
scan [] acc = some acc
scan (c ∷ s) acc = if ltb c b'0' || ltb b'9' c then none else scan s (acc * 10 + (c - b'0'))

unsigned : Bytes → Option ℕ
unfolding scan
unsigned s = if is_empty s then none else scan s 0

-- In range of an int64.
abbrev pub in_range : ℤ → Option ℤ
in_range (pos n) = if leb n max_int64 then some (pos n) else none
in_range (negsuc n) = if leb n max_int64 then some (negsuc n) else none

abbrev positive : Option ℕ → Option ℤ
positive none = none
positive (some n) = in_range (pos n)

abbrev negative : Option ℕ → Option ℤ
negative none = none
negative (some zero) = some (pos 0)
negative (some (suc n)) = in_range (negsuc n)

-- One sign may stand in front. Anything but digits behind it, or a value that an int64 does not
-- hold, is an error.
unfoldable pub atoi : Bytes → Option ℤ
unfolding unsigned
atoi [] = none
atoi (c ∷ s) =
    if c == b'-'
    then negative (unsigned s)
    else if c == b'+'
    then positive (unsigned s)
    else positive (unsigned (c ∷ s))

scan-append : (xs ys : Bytes) (acc n : ℕ) → scan xs acc ≡ some n → scan (xs ++ ys) acc ≡ scan ys n
unfolding scan
scan-append [] ys acc n h = ground arith
scan-append (c ∷ xs) ys acc n h = ground (arith, scan-append xs ys (acc * 10 + (c - b'0')) n)

scan-digits_lem : (f n : ℕ) → n < f → scan (digits f n) 0 ≡ some n
unfolding digits scan
scan-digits_lem zero n h = elim h [ ]
scan-digits_lem (suc f) n h = ground (
  arith,
  scan-digits_lem f (n / 10),
  scan-append (digits f (n / 10)) ((b'0' + n % 10) ∷ []) 0 (n / 10),
)

-- The first byte of a number is a digit.
abbrev LeadsDigit : Bytes → Type 0
LeadsDigit [] = ⊥
LeadsDigit (c ∷ s) = (b'0' ≤ c) × (c ≤ b'9')

LeadsDigit-append : (xs ys : Bytes) → LeadsDigit xs → LeadsDigit (xs ++ ys)
LeadsDigit-append [] ys h = absurd h
LeadsDigit-append (c ∷ xs) ys h = h

digits-LeadsDigit : (f n : ℕ) → n < f → LeadsDigit (digits f n)
unfolding digits
digits-LeadsDigit zero n h = elim h [ ]
digits-LeadsDigit (suc f) n h = ground (
  arith,
  digits-LeadsDigit f (n / 10),
  LeadsDigit-append (digits f (n / 10)) ((b'0' + n % 10) ∷ []),
)

atoi_digits :
    (s : Bytes) (n : ℕ) → LeadsDigit s → scan s 0 ≡ some n → n ≤ max_int64 → atoi s ≡ some (pos n)
unfolding atoi scan
atoi_digits [] n d h b = absurd d
atoi_digits (c ∷ s) n d h b = ground arith

-- Reading back a printed number that an int64 holds gives the number.
pub atoi-format_nat : (n : ℕ) → n ≤ max_int64 → atoi (format_nat n) ≡ some (pos n)
unfolding format_nat
atoi-format_nat n b =
    atoi_digits (digits (suc n) n) n (digits-LeadsDigit (suc n) n (omega arith))
      (scan-digits_lem (suc n) n (omega arith)) b

abbrev pub IsDigit : ℕ → Type 0
IsDigit c = (b'0' ≤ c) × (c ≤ b'9')

-- One more digit behind digits.
digits-append_one : (s : Bytes) (c : ℕ) → All IsDigit s → IsDigit c → All IsDigit (s ++ c ∷ [])
digits-append_one [] c old new = (new, tt)
digits-append_one (b ∷ s) c old new = (old.0, digits-append_one s c old.1 new)

digits-IsDigit : (f n : ℕ) → All IsDigit (digits f n)
unfolding digits
digits-IsDigit zero n = tt
digits-IsDigit (suc f) n = elim (Bool-cases (ltb n 10)) [
  | inl e ↦ rw e (ground arith, tt)
  | inr e ↦
      rw e (digits-append_one (digits f (n / 10)) _ (digits-IsDigit f (n / 10)) (ground arith))
]

-- A printed number is a list of digits.
pub format_nat-IsDigit : (n : ℕ) → All IsDigit (format_nat n)
unfolding format_nat
format_nat-IsDigit n = digits-IsDigit (suc n) n

bytes_of_digits : (s : Bytes) → All IsDigit s → All (λ c. c < 256) s
bytes_of_digits [] h = tt
bytes_of_digits (c ∷ s) h = (omega (arith, h.0), bytes_of_digits s h.1)

-- A printed number is a list of bytes.
pub format_nat-bytes : (n : ℕ) → All (λ c. c < 256) (format_nat n)
format_nat-bytes n = bytes_of_digits (format_nat n) (format_nat-IsDigit n)

LeadsDigit-ne_nil : (s : Bytes) → LeadsDigit s → s ≢ []
LeadsDigit-ne_nil [] h = absurd h
LeadsDigit-ne_nil (c ∷ s) h = λ e. cc

pub format_nat-ne_nil : (n : ℕ) → format_nat n ≢ []
unfolding format_nat
format_nat-ne_nil n = LeadsDigit-ne_nil _ (digits-LeadsDigit (suc n) n (omega arith))

unsigned-format_nat : (n : ℕ) → unsigned (format_nat n) ≡ some n
unfolding unsigned format_nat
unsigned-format_nat n = ground (
  arith,
  scan-digits_lem (suc n) n (omega arith),
  LeadsDigit-ne_nil (digits (suc n) n) (digits-LeadsDigit (suc n) n (omega arith)),
)

-- Reading back a printed integer that an int64 holds gives the integer.
pub atoi-itoa : (i : ℤ) → in_range i ≡ some i → atoi (itoa i) ≡ some i
unfolding itoa atoi
atoi-itoa (pos n) h = ground (arith, atoi-format_nat n, h)
atoi-itoa (negsuc n) h = ground (arith, unsigned-format_nat (suc n), h)

pub itoa-ne_nil : (i : ℤ) → itoa i ≢ []
unfolding itoa
itoa-ne_nil (pos n) = format_nat-ne_nil n
itoa-ne_nil (negsuc n) = λ e. cc
