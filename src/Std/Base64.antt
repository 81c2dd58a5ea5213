-- ===== src/Std/Base64.antt =====
-- encoding/base64's RawURLEncoding: six bits to a character, no padding.
use cloud_tasks_emulator.Base.{
  ℕ, ◌+◌, ◌-◌, ◌*◌, ◌/◌, ◌%◌, ◌<◌, ◌≡◌, refl, ◌&&◌, ◌||◌, Option, none, some, List, [], ◌∷◌, ltb,
  leb, ◌==◌, if◌then◌else◌, All, arith, false,
}
use cloud_tasks_emulator.Base.Bytes.{Bytes}
use cloud_tasks_emulator.Std.Strings.{contains_byte}

-- The character of six bits.
encode_char : ℕ → ℕ
encode_char v =
    if ltb v 26
    then b'A' + v
    else if ltb v 52
    then b'a' + (v - 26)
    else if ltb v 62
    then b'0' + (v - 52)
    else if v == 62
    then b'-'
    else b'_'

decode_char : ℕ → Option ℕ
decode_char c =
    if leb b'A' c && leb c b'Z'
    then some (c - b'A')
    else if leb b'a' c && leb c b'z'
    then some (c - b'a' + 26)
    else if leb b'0' c && leb c b'9'
    then some (c - b'0' + 52)
    else if c == b'-'
    then some 62
    else if c == b'_'
    then some 63
    else none

-- Three bytes as four characters; one or two at the end as two or three.
unfoldable pub encode : Bytes → Bytes
unfolding encode_char
encode [] = []
encode (a ∷ []) = encode_char (a / 4) ∷ encode_char (a % 4 * 16) ∷ []
encode (a ∷ b ∷ []) =
    encode_char (a / 4) ∷ encode_char (a % 4 * 16 + b / 16) ∷ encode_char (b % 16 * 4) ∷ []
encode (a ∷ b ∷ c ∷ s) =
    encode_char (a / 4)
    ∷ encode_char (a % 4 * 16 + b / 16)
    ∷ encode_char (b % 16 * 4 + c / 64)
    ∷ encode_char (c % 64)
    ∷ encode s

-- The six-bit values of a text. Line breaks are passed over wherever they stand.
sextets : Bytes → Option (List ℕ)
unfolding decode_char
sextets [] = some []
sextets (c ∷ s) =
    let rest = sextets s in
    if c == 10 || c == 13 then rest else elim (decode_char c) [
      | none ↦ none
      | some v ↦ elim rest [ none ↦ none | some vs ↦ some (v ∷ vs) ]
    ]

-- A single character at the end is an error; the unused bits of a short end are not looked at.
groups : List ℕ → Option Bytes
groups [] = some []
groups (x ∷ []) = none
groups (x ∷ y ∷ []) = some ((x * 4 + y / 16) ∷ [])
groups (x ∷ y ∷ z ∷ []) = some ((x * 4 + y / 16) ∷ (y % 16 * 16 + z / 4) ∷ [])
groups (x ∷ y ∷ z ∷ w ∷ vs) = elim (groups vs) [
  | none ↦ none
  | some s ↦ some ((x * 4 + y / 16) ∷ (y % 16 * 16 + z / 4) ∷ (z % 4 * 64 + w) ∷ s)
]

unfoldable pub decode : Bytes → Option Bytes
unfolding sextets groups
decode s = elim (sextets s) [ none ↦ none | some vs ↦ groups vs ]

decode_char-encode_char : (v : ℕ) → v < 64 → decode_char (encode_char v) ≡ some v
unfolding decode_char encode_char
decode_char-encode_char v h = ground arith

encode_char_printable : (v : ℕ) → 13 < encode_char v
unfolding encode_char
encode_char_printable v = ground arith

-- The six-bit values that a text is encoded as.
values : Bytes → List ℕ
values [] = []
values (a ∷ []) = (a / 4) ∷ (a % 4 * 16) ∷ []
values (a ∷ b ∷ []) = (a / 4) ∷ (a % 4 * 16 + b / 16) ∷ (b % 16 * 4) ∷ []
values (a ∷ b ∷ c ∷ s) =
    (a / 4) ∷ (a % 4 * 16 + b / 16) ∷ (b % 16 * 4 + c / 64) ∷ (c % 64) ∷ values s

sextets-encode_char :
    (v : ℕ) (s : Bytes) (vs : List ℕ)
    → v < 64
    → sextets s ≡ some vs
    → sextets (encode_char v ∷ s) ≡ some (v ∷ vs)
unfolding sextets
sextets-encode_char v s vs h e =
    ground (arith, decode_char-encode_char v h, encode_char_printable v)

sextets-encode : (s : Bytes) → All (λ c. c < 256) s → sextets (encode s) ≡ some (values s)
unfolding encode values
sextets-encode [] h = unfold sextets in refl
sextets-encode (a ∷ []) h =
    sextets-encode_char _ _ _ (omega arith)
      (sextets-encode_char _ _ _ (omega arith) (unfold sextets in refl))
sextets-encode (a ∷ b ∷ []) h = sextets-encode_char _ _ _ (omega arith) (
    sextets-encode_char _ _ _ (omega arith)
      (sextets-encode_char _ _ _ (omega arith) (unfold sextets in refl)))
sextets-encode (a ∷ b ∷ c ∷ s) h = sextets-encode_char _ _ _ (omega arith) (
    sextets-encode_char _ _ _ (omega arith) (
      sextets-encode_char _ _ _ (omega arith)
        (sextets-encode_char _ _ _ (omega arith) (sextets-encode s h.1.1.1))))

groups-values : (s : Bytes) → All (λ c. c < 256) s → groups (values s) ≡ some s
unfolding groups values
groups-values [] h = refl
groups-values (a ∷ []) h = ground arith
groups-values (a ∷ b ∷ []) h = ground arith
groups-values (a ∷ b ∷ c ∷ s) h = ground (arith, groups-values s)

-- Decoding gives back the bytes that were encoded.
pub decode-encode : (s : Bytes) → All (λ c. c < 256) s → decode (encode s) ≡ some s
unfolding decode
decode-encode s h = rw (sextets-encode s h, decode) (groups-values s h)

-- Nothing but the empty text is encoded as the empty text.
pub encode-empty : (s : Bytes) → encode s ≡ [] → s ≡ []
unfolding encode
encode-empty [] e = refl
encode-empty (a ∷ []) e = cc
encode-empty (a ∷ b ∷ []) e = cc
encode-empty (a ∷ b ∷ c ∷ s) e = cc

encode_char_dot : (v : ℕ) → (encode_char v == b'.') ≡ false
unfolding encode_char
encode_char_dot v = ground arith

-- No dot stands in an encoded text.
pub encode_dot : (s : Bytes) → contains_byte b'.' (encode s) ≡ false
unfolding encode contains_byte
encode_dot [] = refl
encode_dot (a ∷ []) = rw (encode_char_dot (a / 4), encode_char_dot (a % 4 * 16)) refl
encode_dot (a ∷ b ∷ []) =
    rw
      (encode_char_dot (a / 4), encode_char_dot (a % 4 * 16 + b / 16), encode_char_dot (b % 16 * 4))
      refl
encode_dot (a ∷ b ∷ c ∷ s) =
    rw
      (
        encode_char_dot (a / 4),
        encode_char_dot (a % 4 * 16 + b / 16),
        encode_char_dot (b % 16 * 4 + c / 64),
        encode_char_dot (c % 64),
      )
      (encode_dot s)
