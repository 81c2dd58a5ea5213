-- ===== src/Std/Quote.antt =====
-- unicode/utf8 and strconv.Quote: the runes of a text, and the text as a Go string literal. Which runes
-- from U+0080 on are printable is Unicode's tables, and is an argument.
use cloud_tasks_emulator.Base.{
  ℕ, zero, suc, ◌+◌, ◌-◌, ◌*◌, ◌/◌, ◌%◌, Bool, true, false, ◌&&◌, ◌||◌, Option, none, some, List,
  [], ◌∷◌, ◌++◌, leb, ltb, ◌==◌, if◌then◌else◌, length,
}
use cloud_tasks_emulator.Base.Bytes.{Bytes}

infixl 5 ◌>>=◌
-- The next step where there was one.
abbrev ◌>>=◌ : {A B : Type 0} → Option A → (A → Option B) → Option B
none >>= next = none
some a >>= next = next a

-- A byte in the range, with what stands behind it.
abbrev within : ℕ → ℕ → Bytes → Option (ℕ × Bytes)
within low high [] = none
within low high (c ∷ s) = if leb low c && leb c high then some (c, s) else none

abbrev two_bytes : ℕ → Bytes → Option (ℕ × Bytes)
two_bytes b0 s = do (b1, s1) ← within 128 191 s; some ((b0 - 192) * 64 + (b1 - 128), s1)

-- The second byte's range rules out long forms and surrogates.
abbrev three_bytes : ℕ → Bytes → Option (ℕ × Bytes)
three_bytes b0 s = do
  (b1, s1) ← within (if b0 == 224 then 160 else 128) (if b0 == 237 then 159 else 191) s
  (b2, s2) ← within 128 191 s1
  some ((b0 - 224) * 4096 + (b1 - 128) * 64 + (b2 - 128), s2)

abbrev four_bytes : ℕ → Bytes → Option (ℕ × Bytes)
four_bytes b0 s = do
  (b1, s1) ← within (if b0 == 240 then 144 else 128) (if b0 == 244 then 143 else 191) s
  (b2, s2) ← within 128 191 s1
  (b3, s3) ← within 128 191 s2
  some ((b0 - 240) * 262144 + (b1 - 128) * 4096 + (b2 - 128) * 64 + (b3 - 128), s3)

-- The rune that starts with a byte from 128 on, if one does.
abbrev pub many_bytes : ℕ → Bytes → Option (ℕ × Bytes)
many_bytes b0 s =
    if leb 194 b0 && leb b0 223
    then two_bytes b0 s
    else if leb 224 b0 && leb b0 239
    then three_bytes b0 s
    else if leb 240 b0 && leb b0 244
    then four_bytes b0 s
    else none

-- A rune, or a byte that starts none.
pub data Rune : Type 0 where
  rune stray : ℕ → Rune

abbrev pub decode_rune : ℕ → Bytes → Rune × Bytes
decode_rune b0 s =
    if ltb b0 128
    then (rune b0, s)
    else elim (many_bytes b0 s) [ none ↦ (stray b0, s) | some (r, s') ↦ (rune r, s') ]

-- Each rune takes a byte at least, so that as much fuel as there are bytes is enough.
unfoldable pub runes_from : ℕ → Bytes → List Rune
runes_from zero s = []
runes_from (suc f) [] = []
runes_from (suc f) (b0 ∷ s) = let (r, s') = decode_rune b0 s in r ∷ runes_from f s'

unfoldable pub runes : Bytes → List Rune
unfolding runes_from
runes s = runes_from (length s) s

abbrev white : Rune → Bool
white (stray b) = false
white (rune r) =
    (leb 9 r && leb r 13)
    || r == 32
    || r == 133
    || r == 160
    || r == 5760
    || (leb 8192 r && leb r 8202)
    || r == 8232
    || r == 8233
    || r == 8239
    || r == 8287
    || r == 12288

abbrev all_white : List Rune → Bool
all_white [] = true
all_white (r ∷ rs) = white r && all_white rs

-- TrimSpace leaves nothing.
unfoldable pub is_blank : Bytes → Bool
unfolding runes
is_blank s = all_white (runes s)

-- A rune as it is written in UTF-8.
abbrev pub encode_rune : ℕ → Bytes
encode_rune r =
    if ltb r 128
    then r ∷ []
    else if ltb r 2048
    then (192 + r / 64) ∷ (128 + r % 64) ∷ []
    else if ltb r 65536
    then (224 + r / 4096) ∷ (128 + r / 64 % 64) ∷ (128 + r % 64) ∷ []
    else (240 + r / 262144) ∷ (128 + r / 4096 % 64) ∷ (128 + r / 64 % 64) ∷ (128 + r % 64) ∷ []

abbrev pub hex_digit : ℕ → ℕ
hex_digit n = if ltb n 10 then b'0' + n else b'a' + (n - 10)

-- As many hexadecimal digits as are asked for.
hex : ℕ → ℕ → Bytes
hex zero n = []
hex (suc k) n = let rest = hex k (n / 16) in rest ++ hex_digit (n % 16) ∷ []

-- The control characters that have a letter of their own.
abbrev letter_of : ℕ → Option ℕ
letter_of r =
    if r == 7
    then some b'a'
    else if r == 8
    then some b'b'
    else if r == 12
    then some b'f'
    else if r == 10
    then some b'n'
    else if r == 13
    then some b'r'
    else if r == 9
    then some b't'
    else if r == 11
    then some b'v'
    else none

-- A rune that is not printable and has no letter.
abbrev numbered : ℕ → Bytes
unfolding hex
numbered r =
    if ltb r 32 || r == 127
    then b'\\' ∷ b'x' ∷ hex 2 r
    else if ltb r 65536
    then b'\\' ∷ b'u' ∷ hex 4 r
    else b'\\' ∷ b'U' ∷ hex 8 r

abbrev is_print : (ℕ → Bool) → ℕ → Bool
is_print printable r = if ltb r 128 then leb 32 r && leb r 126 else printable r

abbrev escaped : (ℕ → Bool) → Rune → Bytes
unfolding hex
escaped printable (stray b) = b'\\' ∷ b'x' ∷ hex 2 b
escaped printable (rune r) =
    if r == b'"' || r == b'\\'
    then b'\\' ∷ r ∷ []
    else if is_print printable r
    then encode_rune r
    else elim (letter_of r) [ some c ↦ b'\\' ∷ c ∷ [] | none ↦ numbered r ]

escape_all : (ℕ → Bool) → List Rune → Bytes
unfolding hex
escape_all printable [] = []
escape_all printable (r ∷ rs) = escaped printable r ++ escape_all printable rs

unfoldable pub quote : (ℕ → Bool) → Bytes → Bytes
unfolding runes escape_all
quote printable s = b'"' ∷ (escape_all printable (runes s) ++ b'"' ∷ [])
