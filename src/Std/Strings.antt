-- ===== src/Std/Strings.antt =====
-- strings: splitting at a byte, joining, and cutting off ends.
use cloud_tasks_emulator.Base.{
  ℕ, ◌≡◌, refl, ap, ◌∙◌, Bool, true, false, not, ◌&&◌, ◌||◌, Option, none, some, List, [], ◌∷◌,
  ◌++◌, ◌==◌, if◌then◌else◌, arith, inl, inr, Option-cases, Bool-cases,
}
use cloud_tasks_emulator.Base.Bytes.{Bytes}

-- What LastIndexByte finds: the last such byte with what stands before and behind it.
unfoldable pub split_last : ℕ → Bytes → Option (Bytes × Bytes)
split_last d [] = none
split_last d (c ∷ s) = elim (split_last d s) [
  | some (before, behind) ↦ some (c ∷ before, behind)
  | none ↦ if c == d then some ([], s) else none
]

-- CutSuffix, for a suffix of one byte.
unfoldable pub cut_suffix : ℕ → Bytes → Option Bytes
cut_suffix d [] = none
cut_suffix d (c ∷ []) = if c == d then some [] else none
cut_suffix d (b ∷ c ∷ s) = elim (cut_suffix d (c ∷ s)) [ none ↦ none | some rest ↦ some (b ∷ rest) ]

-- Cut: what stands before and behind the first such byte.
unfoldable pub cut : ℕ → Bytes → Option (Bytes × Bytes)
cut d [] = none
cut d (c ∷ s) =
    let rest = cut d s in
    if c == d
    then some ([], s)
    else elim rest [ none ↦ none | some (before, behind) ↦ some (c ∷ before, behind) ]

-- A byte at the head of the first text.
abbrev pub onto_first : ℕ → List Bytes → List Bytes
onto_first c [] = (c ∷ []) ∷ []
onto_first c (x ∷ xs) = (c ∷ x) ∷ xs

unfoldable pub split : ℕ → Bytes → List Bytes
split d [] = [] ∷ []
split d (c ∷ s) = let rest = split d s in if c == d then [] ∷ rest else onto_first c rest

unfoldable pub join : ℕ → List Bytes → Bytes
join d [] = []
join d (x ∷ []) = x
join d (x ∷ y ∷ xs) = x ++ (d ∷ join d (y ∷ xs))

unfoldable pub contains_byte : ℕ → Bytes → Bool
contains_byte d [] = false
contains_byte d (c ∷ s) = c == d || contains_byte d s

-- HasPrefix and Contains.
unfoldable pub has_prefix : Bytes → Bytes → Bool
has_prefix [] s = true
has_prefix (c ∷ x) [] = false
has_prefix (c ∷ x) (d ∷ s) = c == d && has_prefix x s

unfoldable pub contains_text : Bytes → Bytes → Bool
unfolding has_prefix
contains_text x [] = has_prefix x []
contains_text x (c ∷ s) = has_prefix x (c ∷ s) || contains_text x s

pub split_last-join :
    (d : ℕ) (s before behind : Bytes)
    → split_last d s ≡ some (before, behind)
    → before ++ (d ∷ behind) ≡ s
unfolding split_last
split_last-join d [] before behind e = cc
split_last-join d (c ∷ s) before behind e = elim (Option-cases (split_last d s)) [
  | inl h ↦ ground (arith, h)
  | inr ((b, a), h) ↦ ground (arith, h, split_last-join d s b a h)
]

pub split_last-append :
    (d : ℕ) (before behind : Bytes)
    → split_last d behind ≡ none
    → split_last d (before ++ (d ∷ behind)) ≡ some (before, behind)
unfolding split_last
split_last-append d [] behind h = rw h (ground arith)
split_last-append d (c ∷ s) behind h = rw (split_last-append d s behind h) refl

pub split_last-none : (d : ℕ) (s : Bytes) → contains_byte d s ≡ false → split_last d s ≡ none
unfolding split_last contains_byte
split_last-none d [] h = refl
split_last-none d (c ∷ s) h = ground (arith, split_last-none d s)

pub cut_suffix-append : (d : ℕ) (s : Bytes) → cut_suffix d (s ++ (d ∷ [])) ≡ some s
unfolding cut_suffix
cut_suffix-append d [] = ground arith
cut_suffix-append d (c ∷ []) = ground arith
cut_suffix-append d (b ∷ c ∷ s) = rw (cut_suffix-append d (c ∷ s)) refl

pub cut-append :
    (d : ℕ) (before behind : Bytes)
    → contains_byte d before ≡ false
    → cut d (before ++ (d ∷ behind)) ≡ some (before, behind)
unfolding cut contains_byte
cut-append d [] behind h = ground arith
cut-append d (c ∷ s) behind h = ground (arith, cut-append d s behind)

-- Splitting gives at least one text, and joining puts it together again.
join-onto_first : (d c : ℕ) (xs : List Bytes) → join d (onto_first c xs) ≡ c ∷ join d xs
unfolding join
join-onto_first d c [] = refl
join-onto_first d c (x ∷ []) = refl
join-onto_first d c (x ∷ y ∷ xs) = refl

pub split_cons : (d : ℕ) (s : Bytes) → (x : Bytes) × (xs : List Bytes) × (split d s ≡ x ∷ xs)
unfolding split
split_cons d [] = ([], [], refl)
split_cons d (c ∷ s) =
    let (x, xs, e) = split_cons d s in
    elim (Bool-cases (c == d)) [
      | inl h ↦ ([], split d s, rw h refl)
      | inr h ↦ (c ∷ x, xs, rw (h, e) refl)
    ]

pub join-split : (d : ℕ) (s : Bytes) → join d (split d s) ≡ s
unfolding split join
join-split d [] = refl
join-split d (c ∷ s) =
    let (x, xs, e) = split_cons d s in
    elim (Bool-cases (c == d)) [
      | inl h ↦ ground (arith, h, e, ap (join d) e, join-split d s)
      | inr h ↦ rw h (join-onto_first d c (split d s) ∙ ap (◌∷◌ c) (join-split d s))
    ]

pub split-join_text :
    (d : ℕ) (x s : Bytes) → contains_byte d x ≡ false → split d (x ++ (d ∷ s)) ≡ x ∷ split d s
unfolding split contains_byte
split-join_text d [] s h = ground arith
split-join_text d (c ∷ x) s h = ground (arith, split-join_text d x s)

pub split_text : (d : ℕ) (x : Bytes) → contains_byte d x ≡ false → split d x ≡ x ∷ []
unfolding split contains_byte
split_text d [] h = refl
split_text d (c ∷ x) h = ground (arith, split_text d x)

pub contains_byte-append :
    (d : ℕ) (x y : Bytes)
    → contains_byte d x ≡ false
    → contains_byte d y ≡ false
    → contains_byte d (x ++ y) ≡ false
unfolding contains_byte
contains_byte-append d [] y hx hy = hy
contains_byte-append d (c ∷ x) y hx hy = ground (arith, contains_byte-append d x y)

-- No text has the byte.
abbrev pub none_contains : ℕ → List Bytes → Bool
none_contains d [] = true
none_contains d (x ∷ xs) = not (contains_byte d x) && none_contains d xs

pub contains_byte-join :
    (d e : ℕ) (xs : List Bytes)
    → none_contains d xs ≡ true
    → (d == e) ≡ false
    → contains_byte d (join e xs) ≡ false
unfolding contains_byte join
contains_byte-join d e [] h ne = refl
contains_byte-join d e (x ∷ []) h ne = ground arith
contains_byte-join d e (x ∷ y ∷ xs) h ne =
    contains_byte-append d x (e ∷ join e (y ∷ xs)) (ground arith)
      (ground (arith, contains_byte-join d e (y ∷ xs)))

-- Texts without the byte are what their joined text is split into.
pub split-join :
    (d : ℕ) (x : Bytes) (xs : List Bytes)
    → none_contains d (x ∷ xs) ≡ true
    → split d (join d (x ∷ xs)) ≡ x ∷ xs
unfolding join
split-join d x [] h = split_text d x (ground arith)
split-join d x (y ∷ xs) h =
    split-join_text d x (join d (y ∷ xs)) (ground arith)
    ∙ ap (◌∷◌ x) (split-join d y xs (ground arith))
