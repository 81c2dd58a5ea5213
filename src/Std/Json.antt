-- ===== src/Std/Json.antt =====
-- encoding/json: what Marshal writes for texts, and for arrays and objects of written values. Marshal
-- writes the keys of a map in order, which is the order in which an object's entries are given here.
use cloud_tasks_emulator.Base.{
  ℕ, zero, suc, ◌/◌, ◌%◌, ◌<◌, ◌≡◌, refl, Bool, true, ◌&&◌, ◌||◌, Option, none, some, List, [], ◌∷◌,
  ◌++◌, ltb, ◌==◌, if◌then◌else◌, length, map, All, arith, Bool-cases, Option-cases, inl, inr,
}
use cloud_tasks_emulator.Base.Bytes.{Bytes, codes}
use cloud_tasks_emulator.Std.Strings.{join}
use cloud_tasks_emulator.Std.Quote.{
  Rune, rune, stray, runes, encode_rune, hex_digit, decode_rune, runes_from, many_bytes,
}

-- The control characters that have a letter of their own.
abbrev json_letter : ℕ → Option ℕ
json_letter r =
    if r == 8
    then some b'b'
    else if r == 12
    then some b'f'
    else if r == 10
    then some b'n'
    else if r == 13
    then some b'r'
    else if r == 9
    then some b't'
    else none

-- The characters of HTML are escaped as the other control characters are.
abbrev json_rune : Rune → Bytes
json_rune (stray b) = codes "\\ufffd"
json_rune (rune r) =
    if r == b'"' || r == b'\\'
    then b'\\' ∷ r ∷ []
    else if ltb r 32 || r == b'<' || r == b'>' || r == b'&'
    then elim (json_letter r) [
      | some c ↦ b'\\' ∷ c ∷ []
      | none ↦ codes "\\u00" ++ (hex_digit (r / 16) ∷ hex_digit (r % 16) ∷ [])
    ]
    else if r == 8232
    then codes "\\u2028"
    else if r == 8233
    then codes "\\u2029"
    else encode_rune r

json_runes : List Rune → Bytes
json_runes [] = []
json_runes (r ∷ rs) = json_rune r ++ json_runes rs

unfoldable pub json_text : Bytes → Bytes
unfolding runes json_runes
json_text s = b'"' ∷ (json_runes (runes s) ++ b'"' ∷ [])

abbrev entry : Bytes × Bytes → Bytes
entry (key, written) = json_text key ++ b':' ∷ written

-- An object of written values.
unfoldable pub json_object : List (Bytes × Bytes) → Bytes
unfolding json_text
json_object entries = b'{' ∷ (join b',' (map entry entries) ++ b'}' ∷ [])

-- An array of written values.
unfoldable pub json_array : List Bytes → Bytes
json_array items = b'[' ∷ (join b',' items ++ b']' ∷ [])

abbrev pub AreBytes : Bytes → Type 0
AreBytes = All (λ c. c < 256)

pub AreBytes-append : (x y : Bytes) → AreBytes x → AreBytes y → AreBytes (x ++ y)
AreBytes-append [] y hx hy = hy
AreBytes-append (c ∷ x) y hx hy = (hx.0, AreBytes-append x y hx.1 hy)

many_bytes-lt : (b0 r : ℕ) (s s' : Bytes) → many_bytes b0 s ≡ some (r, s') → r < 4194304
many_bytes-lt b0 r s s' h = ground (arith, h)

abbrev Small : Rune → Type 0
Small (stray b) = Unit
Small (rune r) = r < 4194304

decode_rune-Small : (b0 : ℕ) (s : Bytes) → Small (decode_rune b0 s).0
decode_rune-Small b0 s = elim (Bool-cases (ltb b0 128)) [
  | inl e ↦ rw (e, decode_rune) (ground (arith, e))
  | inr e ↦ elim (Option-cases (many_bytes b0 s)) [
    | inl f ↦ rw (e, decode_rune, f) tt
    | inr ((r, s'), f) ↦ rw (e, decode_rune, f) (many_bytes-lt b0 r s s' f)
  ]
]

runes_from-Small : (f : ℕ) (s : Bytes) → All Small (runes_from f s)
unfolding runes_from
runes_from-Small zero s = tt
runes_from-Small (suc f) [] = tt
runes_from-Small (suc f) (b0 ∷ s) = (decode_rune-Small b0 s, runes_from-Small f _)

abbrev pub all_bytes : Bytes → Bool
all_bytes [] = true
all_bytes (c ∷ s) = ltb c 256 && all_bytes s

pub all_bytes-AreBytes : (s : Bytes) → all_bytes s ≡ true → AreBytes s
all_bytes-AreBytes [] h = tt
all_bytes-AreBytes (c ∷ s) h = (ground (arith, h), all_bytes-AreBytes s (ground (arith, h)))

json_rune-AreBytes : (r : Rune) → Small r → AreBytes (json_rune r)
json_rune-AreBytes (stray b) h = all_bytes-AreBytes (codes "\\ufffd") refl
json_rune-AreBytes (rune r) h = all_bytes-AreBytes (json_rune (rune r)) (ground (arith, h))

json_runes-AreBytes : (rs : List Rune) → All Small rs → AreBytes (json_runes rs)
unfolding json_runes
json_runes-AreBytes [] h = tt
json_runes-AreBytes (r ∷ rs) h =
    AreBytes-append (json_rune r) (json_runes rs) (json_rune-AreBytes r h.0)
      (json_runes-AreBytes rs h.1)

-- A written text is bytes, whatever was written.
pub json_text-AreBytes : (s : Bytes) → AreBytes (json_text s)
unfolding json_text runes
json_text-AreBytes s = (
  omega arith,
  AreBytes-append (json_runes (runes_from (length s) s)) (b'"' ∷ [])
      (json_runes-AreBytes _ (runes_from-Small (length s) s)) (omega arith, tt),
)

join-AreBytes : (c : ℕ) (xs : List Bytes) → c < 256 → All AreBytes xs → AreBytes (join c xs)
unfolding join
join-AreBytes c [] lt h = tt
join-AreBytes c (x ∷ []) lt h = h.0
join-AreBytes c (x ∷ y ∷ xs) lt h =
    AreBytes-append x (c ∷ join c (y ∷ xs)) h.0 (lt, join-AreBytes c (y ∷ xs) lt h.1)

entries-AreBytes :
    (es : List (Bytes × Bytes)) → All (λ e. AreBytes e.1) es → All AreBytes (map entry es)
entries-AreBytes [] h = tt
entries-AreBytes ((key, written) ∷ es) h = (
  AreBytes-append (json_text key) (b':' ∷ written) (json_text-AreBytes key) (omega arith, h.0),
  entries-AreBytes es h.1,
)

pub json_object-AreBytes :
    (es : List (Bytes × Bytes)) → All (λ e. AreBytes e.1) es → AreBytes (json_object es)
unfolding json_object
json_object-AreBytes es h = (
  omega arith,
  AreBytes-append (join b',' (map entry es)) (b'}' ∷ [])
      (join-AreBytes b',' (map entry es) (omega arith) (entries-AreBytes es h)) (omega arith, tt),
)
