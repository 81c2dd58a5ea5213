-- ===== src/Core/Naming.antt =====
-- core/naming.go: resource names. A regular expression of the source is the list of its pieces
-- between `^` and `$`; the groups `([^/]+)` are the captures.
pub mod Matching
pub mod Names
use cloud_tasks_emulator.Base.{
  ℕ, suc, zero, ◌+◌, ◌≡◌, Bool, true, false, not, ◌&&◌, ◌||◌, Option, none, some, List, [], ◌∷◌,
  ◌++◌, leb, ltb, ◌==◌, if◌then◌else◌, length, is_some,
}
use cloud_tasks_emulator.Base.Bytes.{Bytes, codes, bytes_eq, is_empty}
use cloud_tasks_emulator.Core.Status.{
  Result, ok, err, fail, ◌>>=◌, ◌>>◌, reject_if, or_fail, invalid_argument, invalid_task_name,
  invalid_task_id, task_not_parent,
}

pub data Piece : Type 0 where
  literal : Bytes → Piece
  segment : Piece  -- ([^/]+)

abbrev pub Pattern : Type 0
Pattern = List Piece

-- The text behind a literal.
unfoldable pub strip_prefix : Bytes → Bytes → Option Bytes
strip_prefix [] s = some s
strip_prefix (c ∷ p) [] = none
strip_prefix (c ∷ p) (d ∷ s) = let rest = strip_prefix p s in if c == d then rest else none

-- The longest run with no slash, and the text behind it.
unfoldable pub span_segment : Bytes → Bytes × Bytes
span_segment [] = ([], [])
span_segment (c ∷ s) =
    let (run, rest) = span_segment s in if c == b'/' then ([], c ∷ s) else (c ∷ run, rest)

-- A group's text in front of the captures behind it; the group needs one byte at least.
abbrev pub capture : Bytes → Option (List Bytes) → Option (List Bytes)
capture [] ms = none
capture (c ∷ run) none = none
capture (c ∷ run) (some ms) = some ((c ∷ run) ∷ ms)

-- `FindStringSubmatch` without the whole match. Behind each group stands a slash or the end of
-- the text, so a group that matches at all captures the longest run.
unfoldable pub find_submatch : Pattern → Bytes → Option (List Bytes)
unfolding strip_prefix span_segment
find_submatch [] [] = some []
find_submatch [] (c ∷ s) = none
find_submatch (literal l ∷ ps) s = elim (strip_prefix l s) [
  | none ↦ none
  | some rest ↦ find_submatch ps rest
]
find_submatch (segment ∷ ps) s =
    let (run, rest) = span_segment s in capture run (find_submatch ps rest)

abbrev pub location_name_re : Pattern
location_name_re =
    literal (codes "projects/") ∷ segment ∷ literal (codes "/locations/") ∷ segment ∷ []

abbrev pub queue_name_re : Pattern
queue_name_re =
    literal (codes "projects/")
    ∷ segment
    ∷ literal (codes "/locations/")
    ∷ segment
    ∷ literal (codes "/queues/")
    ∷ segment
    ∷ []

abbrev pub task_name_re : Pattern
task_name_re =
    literal (codes "projects/")
    ∷ segment
    ∷ literal (codes "/locations/")
    ∷ segment
    ∷ literal (codes "/queues/")
    ∷ segment
    ∷ literal (codes "/tasks/")
    ∷ segment
    ∷ []

-- [A-Za-z0-9-]
unfoldable pub is_queue_id_char : ℕ → Bool
is_queue_id_char c =
    leb b'A' c && leb c b'Z' || leb b'a' c && leb c b'z' || leb b'0' c && leb c b'9' || c == b'-'

-- [A-Za-z0-9_-]
unfoldable pub is_id_char : ℕ → Bool
unfolding is_queue_id_char
is_id_char c = is_queue_id_char c || c == b'_'

unfoldable pub all_chars : (ℕ → Bool) → Bytes → Bool
all_chars p [] = true
all_chars p (c ∷ s) = p c && all_chars p s

-- ^[A-Za-z0-9_-]{1,500}$
unfoldable pub matches_id_re : Bytes → Bool
unfolding all_chars is_id_char
matches_id_re s = leb 1 (length s) && leb (length s) 500 && all_chars is_id_char s

-- ^[A-Za-z0-9-]{1,100}$
unfoldable pub matches_queue_id_re : Bytes → Bool
unfolding all_chars is_queue_id_char
matches_queue_id_re s = leb 1 (length s) && leb (length s) 100 && all_chars is_queue_id_char s

-- The captures of a match by position; the regular expressions fix their number.
abbrev two : Option (List Bytes) → Option (Bytes × Bytes)
two (some (a ∷ b ∷ [])) = some (a, b)
two _ = none

abbrev three : Option (List Bytes) → Option (Bytes × Bytes × Bytes)
three (some (a ∷ b ∷ c ∷ [])) = some (a, b, c)
three _ = none

abbrev four : Option (List Bytes) → Option (Bytes × Bytes × Bytes × Bytes)
four (some (a ∷ b ∷ c ∷ d ∷ [])) = some (a, b, c, d)
four _ = none

unfoldable pub parse_location_name : Bytes → Option (Bytes × Bytes)
parse_location_name name = two (find_submatch location_name_re name)

unfoldable pub parse_queue_name : Bytes → Option (Bytes × Bytes × Bytes)
parse_queue_name name = three (find_submatch queue_name_re name)

unfoldable pub parse_task_name : Bytes → Option (Bytes × Bytes × Bytes × Bytes)
parse_task_name name = four (find_submatch task_name_re name)

-- `fmt.Sprintf("projects/%s/locations/%s", p, l)`.
unfoldable pub location_name : Bytes → Bytes → Bytes
location_name p l = codes "projects/" ++ (p ++ (codes "/locations/" ++ l))

unfoldable pub queue_name : Bytes → Bytes → Bytes → Bytes
queue_name p l q =
    codes "projects/" ++ (p ++ (codes "/locations/" ++ (l ++ (codes "/queues/" ++ q))))

unfoldable pub task_name : Bytes → Bytes → Bytes → Bytes → Bytes
task_name p l q t =
    codes "projects/"
    ++ (p ++ (codes "/locations/" ++ (l ++ (codes "/queues/" ++ (q ++ (codes "/tasks/" ++ t))))))

-- A name that does not parse gives empty components.
unfoldable pub queue_parent : Bytes → Bytes
unfolding location_name
queue_parent name = elim (parse_queue_name name) [
  | none ↦ location_name [] []
  | some (p, l, q) ↦ location_name p l
]

unfoldable pub task_queue_of : Bytes → Bytes
unfolding queue_name
task_queue_of name = elim (parse_task_name name) [
  | none ↦ queue_name [] [] []
  | some (p, l, q, t) ↦ queue_name p l q
]

unfoldable pub queue_id : Bytes → Bytes
queue_id name = elim (parse_queue_name name) [ none ↦ [] | some (p, l, q) ↦ q ]

unfoldable pub task_id : Bytes → Bytes
task_id name = elim (parse_task_name name) [ none ↦ [] | some (p, l, q, t) ↦ t ]

-- `generated` is what `generateID()` returns; it is read only where no name is provided.
unfoldable pub resolve_task_name : Bytes → Bytes → Bytes → Result Bytes
resolve_task_name parent provided generated =
    if is_empty provided then ok (parent ++ (codes "/tasks/" ++ generated)) else (do
      (p, l, q, id) ←
          or_fail (parse_task_name provided) invalid_argument (invalid_task_name provided)
      reject_if (not (matches_id_re id)) invalid_argument (invalid_task_id id)
      reject_if (not (bytes_eq (task_queue_of provided) parent)) invalid_argument task_not_parent
      ok provided)
