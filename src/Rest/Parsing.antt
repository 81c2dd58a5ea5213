-- ===== src/Rest/Parsing.antt =====
-- What parseTemplate in rest/route.go makes of a template, for templates written out part by part.
use cloud_tasks_emulator.Base.{
  ℕ, ◌+◌, ◌≡◌, refl, Bool, true, false, not, ◌&&◌, List, [], ◌∷◌, ◌++◌, ◌==◌, length, map, arith,
}
use cloud_tasks_emulator.Base.Bytes.{Bytes}
use cloud_tasks_emulator.Std.Strings.{
  join, contains_byte, none_contains, cut_suffix-append, cut-append, split-join,
}
use cloud_tasks_emulator.Rest.Template.{
  Template, parsed, segment_of, literal_of, any_multi, parse_part, parse_parts,
}

-- A part of a template: a literal, or a field with the pattern that it is bound to.
pub data Part : Type 0 where
  fixed : Bytes → Part
  bound : Bytes → Bytes → List Bytes → Part

unfoldable pub print_part : Part → Bytes
unfolding join
print_part (fixed s) = s
print_part (bound field sub subs) =
    (b'{' ∷ (field ++ (b'=' ∷ join b'/' (sub ∷ subs)))) ++ (b'}' ∷ [])

abbrev pub print_verb : Bytes → Bytes
print_verb [] = []
print_verb (c ∷ verb) = b':' ∷ c ∷ verb

unfoldable pub print_template : List Part → Bytes → Bytes
unfolding print_part join
print_template parts verb = (b'/' ∷ join b'/' (map print_part parts)) ++ print_verb verb

-- The segments and variables that a part adds.
unfoldable pub compile_part : Part → Template → Template
compile_part (fixed s) t = record t { segments = t.segments ++ literal_of s ∷ [] }
compile_part (bound field sub subs) t = record t {
  segments = t.segments ++ map segment_of (sub ∷ subs);
  vars =
      t.vars
      ++ record {
        field = field;
        start = length t.segments;
        end = length t.segments + length (sub ∷ subs);
      }
        ∷ [];
}

unfoldable pub compile : List Part → Template → Template
unfolding compile_part
compile [] t = t
compile (p ∷ ps) t = compile ps (compile_part p t)

-- A text without a slash, a brace or a colon.
unfoldable pub is_plain : Bytes → Bool
is_plain s =
    not (contains_byte b'/' s)
    && not (contains_byte b'{' s)
    && not (contains_byte b'}' s)
    && not (contains_byte b':' s)

unfoldable pub all_plain : List Bytes → Bool
unfolding is_plain
all_plain [] = true
all_plain (s ∷ ss) = is_plain s && all_plain ss

unfoldable pub well_formed : Part → Bool
unfolding is_plain all_plain
well_formed (fixed s) = is_plain s
well_formed (bound field sub subs) =
    is_plain field
    && not (contains_byte b'=' field)
    && all_plain (sub ∷ subs)
    && not (any_multi (sub ∷ subs))

unfoldable pub all_well_formed : List Part → Bool
unfolding well_formed
all_well_formed [] = true
all_well_formed (p ∷ ps) = well_formed p && all_well_formed ps

pub all_plain_lem :
    (ss : List Bytes)
    → all_plain ss ≡ true
    → (none_contains b'/' ss ≡ true)
      × (none_contains b'{' ss ≡ true)
      × (none_contains b'}' ss ≡ true)
      × (none_contains b':' ss ≡ true)
unfolding all_plain is_plain
all_plain_lem [] h = (refl, refl, refl, refl)
all_plain_lem (s ∷ ss) h =
    let (a, b, c, d) = all_plain_lem ss (ground (arith, h)) in
    (ground (arith, h, a), ground (arith, h, b), ground (arith, h, c), ground (arith, h, d))

parse_part_fixed :
    (c : ℕ) (s : Bytes) (t : Template)
    → contains_byte b'{' (c ∷ s) ≡ false
    → parse_part (c ∷ s) t ≡ parsed (compile_part (fixed (c ∷ s)) t)
unfolding parse_part compile_part contains_byte
parse_part_fixed c s t h =
    let other : (c == b'{') ≡ false = ground arith in rw (parse_part, other) refl

parse_part_lem :
    (p : Part) (t : Template)
    → well_formed p ≡ true
    → parse_part (print_part p) t ≡ parsed (compile_part p t)
unfolding parse_part print_part compile_part well_formed is_plain
parse_part_lem (fixed []) t h = refl
parse_part_lem (fixed (c ∷ s)) t h = parse_part_fixed c s t (ground (arith, h))
parse_part_lem (bound field sub subs) t h =
    let (slashes, opens, closes, colons) = all_plain_lem (sub ∷ subs) (ground (arith, h)) in
    let one_star : any_multi (sub ∷ subs) ≡ false = ground (arith, h) in
    rw
      (
        cut_suffix-append b'}' (field ++ (b'=' ∷ join b'/' (sub ∷ subs))),
        cut-append b'=' field (join b'/' (sub ∷ subs)) (ground (arith, h)),
        split-join b'/' sub subs slashes,
        one_star,
      )
      refl

pub parse_parts_lem :
    (ps : List Part) (t : Template)
    → all_well_formed ps ≡ true
    → parse_parts (map print_part ps) t ≡ parsed (compile ps t)
unfolding parse_parts compile all_well_formed
parse_parts_lem [] t h = refl
parse_parts_lem (p ∷ ps) t h =
    rw (parse_parts, parse_part_lem p t (ground (arith, h)))
      (parse_parts_lem ps (compile_part p t) (ground (arith, h)))
