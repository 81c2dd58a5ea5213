-- ===== src/Rest/Names.antt =====
-- The names that httpStatus in rest/rest.go gives to the gRPC codes, from which the client libraries
-- make the codes again.
use cloud_tasks_emulator.Base.{
  ℕ, zero, suc, ◌≤◌, ◌≡◌, refl, sym, ap, ◌∙◌, Bool, true, false, not, ◌&&◌, ◌||◌, Option, none,
  some, List, [], ◌∷◌, ◌++◌, if◌then◌else◌, get_elem?, or_else, arith, inl, inr, Option-cases,
}
use cloud_tasks_emulator.Base.Int.{ℤ, pos_part, max_int64}
use cloud_tasks_emulator.Base.Bytes.{Bytes, codes, bytes_eq, bytes_eq_iff}
use cloud_tasks_emulator.Std.Decimal.{format_nat, atoi, atoi-format_nat}
use cloud_tasks_emulator.Rest.Status.{status_names, http_status}

abbrev one_more : Option ℕ → Option ℕ
one_more none = none
one_more (some i) = some (suc i)

-- Where a name stands first.
index_of : Bytes → List (ℕ × Bytes) → Option ℕ
index_of name [] = none
index_of name ((h, n) ∷ rest) =
    let i = index_of name rest in if bytes_eq n name then some 0 else one_more i

abbrev named : Bytes → List (ℕ × Bytes) → Bool
named name [] = false
named name ((h, n) ∷ rest) = bytes_eq n name || named name rest

abbrev all_differ : List (ℕ × Bytes) → Bool
all_differ [] = true
all_differ ((h, n) ∷ rest) = not (named n rest) && all_differ rest

named-get_elem? :
    (table : List (ℕ × Bytes)) (i h : ℕ) (n : Bytes)
    → get_elem? table i ≡ some (h, n)
    → named n table ≡ true
named-get_elem? [] i h n e = cc
named-get_elem? ((g, m) ∷ rest) zero h n e = ground (arith, e, bytes_eq_iff m n)
named-get_elem? ((g, m) ∷ rest) (suc i) h n e = ground (arith, named-get_elem? rest i h n e)

index_of-get_elem? :
    (table : List (ℕ × Bytes)) (i h : ℕ) (n : Bytes)
    → all_differ table ≡ true
    → get_elem? table i ≡ some (h, n)
    → index_of n table ≡ some i
unfolding index_of
index_of-get_elem? [] i h n d e = cc
index_of-get_elem? ((g, m) ∷ rest) zero h n d e = ground (arith, e, bytes_eq_iff m n)
index_of-get_elem? ((g, m) ∷ rest) (suc i) h n d e =
    ground (arith, d, bytes_eq_iff m n, named-get_elem? rest i h n e, index_of-get_elem? rest i h n)

-- The digits behind CODE_.
abbrev behind_code : Bytes → Bytes
behind_code (a ∷ b ∷ c ∷ d ∷ e ∷ digits) = digits
behind_code s = []

abbrev number_of : Bytes → Option ℤ → ℕ
number_of name none = 0
number_of name (some i) = pos_part i

-- The code that a client reads from a name.
read_code : Bytes → ℕ
unfolding index_of
read_code name = or_else (index_of name status_names) (number_of name (atoi (behind_code name)))

index_of-unnamed : (digits : Bytes) → index_of (codes "CODE_" ++ digits) status_names ≡ none
unfolding index_of bytes_eq
index_of-unnamed digits = refl

names_differ : all_differ status_names ≡ true
unfolding bytes_eq
names_differ = refl

http_status_known :
    (c h : ℕ) (n : Bytes) → get_elem? status_names c ≡ some (h, n) → (http_status c).1 ≡ n
unfolding http_status
http_status_known c h n e = rw (http_status, e) refl

http_status_unknown :
    (c : ℕ) → get_elem? status_names c ≡ none → (http_status c).1 ≡ codes "CODE_" ++ format_nat c
unfolding http_status
http_status_unknown c e = rw (http_status, e) refl

read_code-known : (name : Bytes) (i : ℕ) → index_of name status_names ≡ some i → read_code name ≡ i
unfolding read_code
read_code-known name i e = rw (read_code, e) refl

read_code-unknown : (c : ℕ) → c ≤ max_int64 → read_code (codes "CODE_" ++ format_nat c) ≡ c
unfolding read_code
read_code-unknown c small =
    ap
      (λ (o : Option ℕ).
        or_else o (number_of (codes "CODE_" ++ format_nat c) (atoi (format_nat c))))
      (index_of-unnamed (format_nat c))
    ∙ ap (number_of (codes "CODE_" ++ format_nat c)) (atoi-format_nat c small)

read_code-http_status : (c : ℕ) → c ≤ max_int64 → read_code (http_status c).1 ≡ c
read_code-http_status c small = elim (Option-cases (get_elem? status_names c)) [
  | inl e ↦ ap read_code (http_status_unknown c e) ∙ read_code-unknown c small
  | inr ((h, n), e) ↦
      ap read_code (http_status_known c h n e)
      ∙ read_code-known n c (index_of-get_elem? status_names c h n names_differ e)
]

-- Two gRPC codes with the same name over REST are the same code, so that a client can make the status
-- again; a code is a number that an int64 holds.
http_status_injective :
    (a b : ℕ) → a ≤ max_int64 → b ≤ max_int64 → (http_status a).1 ≡ (http_status b).1 → a ≡ b
http_status_injective a b ha hb e =
    sym (read_code-http_status a ha) ∙ ap read_code e ∙ read_code-http_status b hb
