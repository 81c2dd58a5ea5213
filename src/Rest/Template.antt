-- ===== src/Rest/Template.antt =====
-- rest/route.go: parseTemplate and splitTemplate, the path templates of a service's HTTP bindings.
use cloud_tasks_emulator.Base.{
  ℕ, ◌+◌, Bool, false, not, ◌&&◌, ◌||◌, none, some, List, [], ◌∷◌, ◌++◌, ◌==◌, if◌then◌else◌,
  length, or_else, map,
}
use cloud_tasks_emulator.Base.Int.{ℤ, pos, negsuc, ◌+ℤ◌, eq_ℤ}
use cloud_tasks_emulator.Base.Bytes.{Bytes, bytes_eq}
use cloud_tasks_emulator.Std.Strings.{split_last, cut_suffix, cut, split, onto_first, contains_byte}

pub record Segment : Type 0 where
  pub literal : Bytes
  pub wildcard : Bool

-- A field and the segments that it captures, from `start` up to `end`.
pub record Variable : Type 0 where
  pub field : Bytes
  pub start : ℕ
  pub end : ℕ

pub record Template : Type 0 where
  pub segments : List Segment
  pub vars : List Variable
  pub verb : Bytes

pub data Parsed : Type 0 where
  no_slash unterminated multi_segment : Parsed
  parsed : Template → Parsed

abbrev depth_after : ℕ → ℤ → ℤ
depth_after c depth =
    if c == b'{' then depth +ℤ pos 1 else if c == b'}' then depth +ℤ negsuc 0 else depth

unfoldable pub split_from : ℤ → Bytes → List Bytes
split_from depth [] = [] ∷ []
split_from depth (c ∷ s) =
    let rest = split_from (depth_after c depth) s in
    if c == b'/' && eq_ℤ depth (pos 0) then [] ∷ rest else onto_first c rest

-- At the slashes that stand outside braces.
unfoldable pub split_template : Bytes → List Bytes
unfolding split_from
split_template s = split_from (pos 0) s

unfoldable pub has_brace_or_slash : Bytes → Bool
unfolding contains_byte
has_brace_or_slash s = contains_byte b'/' s || contains_byte b'{' s || contains_byte b'}' s

-- What stands before the last colon and behind it, unless that has a slash or a brace.
unfoldable pub split_verb : Bytes → Bytes × Bytes
unfolding has_brace_or_slash
split_verb s = elim (split_last b':' s) [
  | none ↦ (s, [])
  | some (before, behind) ↦ if has_brace_or_slash behind then (s, []) else (before, behind)
]

abbrev star : Bytes
star = b'*' ∷ []

abbrev pub segment_of : Bytes → Segment
segment_of sub = record { literal = sub; wildcard = bytes_eq sub star }

unfoldable pub is_multi : Bytes → Bool
is_multi sub = bytes_eq sub (b'*' ∷ b'*' ∷ [])

unfoldable pub any_multi : List Bytes → Bool
unfolding is_multi
any_multi [] = false
any_multi (sub ∷ subs) = is_multi sub || any_multi subs

-- The part between the braces: the field and, behind an equals sign, its pattern.
abbrev field_and_pattern : Bytes → Bytes × Bytes
field_and_pattern inner = or_else (cut b'=' inner) (inner, star)

abbrev pub literal_of : Bytes → Segment
literal_of raw = record { literal = raw; wildcard = false }

-- A part of the template and the segments so far.
unfoldable pub parse_part : Bytes → Template → Parsed
unfolding any_multi
parse_part [] t = parsed (record t { segments = t.segments ++ literal_of [] ∷ [] })
parse_part (c ∷ inside) t =
    if not (c == b'{')
    then parsed (record t { segments = t.segments ++ literal_of (c ∷ inside) ∷ [] })
    else elim (cut_suffix b'}' inside) [
      | none ↦ unterminated
      | some inner ↦
          let (field, pattern) = field_and_pattern inner in
          let subs = split b'/' pattern in
          if any_multi subs
          then multi_segment
          else parsed (record t {
            segments = t.segments ++ map segment_of subs;
            vars =
                t.vars
                ++ record {
                  field = field;
                  start = length t.segments;
                  end = length t.segments + length subs;
                }
                  ∷ [];
          })
    ]

unfoldable pub parse_parts : List Bytes → Template → Parsed
unfolding parse_part
parse_parts [] t = parsed t
parse_parts (raw ∷ raws) t = elim (parse_part raw t) [
  | parsed t' ↦ parse_parts raws t'
  | failure ↦ failure
]

abbrev tail : Bytes → Bytes
tail [] = []
tail (c ∷ s) = s

unfoldable pub parse_template : Bytes → Parsed
unfolding split_verb parse_parts split_template
parse_template [] = no_slash
parse_template (c ∷ s) =
    if not (c == b'/')
    then no_slash
    else let (path, verb) = split_verb (c ∷ s) in
      parse_parts (split_template (tail path)) (record { segments = []; vars = []; verb = verb })
