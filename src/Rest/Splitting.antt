-- ===== src/Rest/Splitting.antt =====
-- How parseTemplate in rest/route.go takes a template apart: at the slashes outside the braces, and at
-- the colon of its verb.
use cloud_tasks_emulator.Base.{
  ℕ, ◌≡◌, refl, sym, ap, ◌∙◌, true, false, ◌&&◌, List, [], ◌∷◌, ◌++◌, ◌==◌, map, arith,
  append_assoc, append-nil,
}
use cloud_tasks_emulator.Base.Int.{pos, ◌+ℤ◌, eq_ℤ}
use cloud_tasks_emulator.Base.Bytes.{Bytes}
use cloud_tasks_emulator.Std.Strings.{
  join, onto_first, contains_byte, none_contains, split_last-append, split_last-none,
  contains_byte-append, contains_byte-join,
}
use cloud_tasks_emulator.Rest.Template.{
  parsed, split_from, split_template, has_brace_or_slash, split_verb, parse_template,
}
use cloud_tasks_emulator.Rest.Parsing.{
  Part, fixed, bound, print_part, print_verb, print_template, compile, is_plain, well_formed,
  all_well_formed, all_plain_lem, parse_parts_lem,
}

-- A text in front of the first of the texts that follow.
onto_all : Bytes → List Bytes → List Bytes
onto_all [] xs = xs
onto_all (c ∷ s) xs = onto_first c (onto_all s xs)

onto_all_nil : (s : Bytes) (xs : List Bytes) → onto_all s ([] ∷ xs) ≡ s ∷ xs
unfolding onto_all
onto_all_nil [] xs = refl
onto_all_nil (c ∷ s) xs = rw (onto_all_nil s xs) refl

onto_all-append :
    (a b : Bytes) (xs : List Bytes) → onto_all (a ++ b) xs ≡ onto_all a (onto_all b xs)
unfolding onto_all
onto_all-append [] b xs = refl
onto_all-append (c ∷ a) b xs = ap (onto_first c) (onto_all-append a b xs)

-- Between braces nothing splits.
split_from_inside :
    (x s : Bytes)
    → contains_byte b'{' x ≡ false
    → contains_byte b'}' x ≡ false
    → split_from (pos 1) (x ++ s) ≡ onto_all x (split_from (pos 1) s)
unfolding split_from onto_all contains_byte
split_from_inside [] s h k = refl
split_from_inside (c ∷ x) s h k =
    let opening : (c == b'{') ≡ false = ground arith in
    let closing : (c == b'}') ≡ false = ground arith in
    let slash : (c == b'/' && eq_ℤ (pos 1) (pos 0)) ≡ false = ground arith in
    rw (opening, closing, slash)
      (ap (onto_first c) (split_from_inside x s (ground arith) (ground arith)))

split_from_outside :
    (x s : Bytes)
    → is_plain x ≡ true
    → split_from (pos 0) (x ++ s) ≡ onto_all x (split_from (pos 0) s)
unfolding split_from onto_all contains_byte is_plain
split_from_outside [] s h = refl
split_from_outside (c ∷ x) s h =
    let opening : (c == b'{') ≡ false = ground (arith, h) in
    let closing : (c == b'}') ≡ false = ground (arith, h) in
    let slash : (c == b'/' && eq_ℤ (pos 0) (pos 0)) ≡ false = ground (arith, h) in
    rw (opening, closing, slash) (ap (onto_first c) (split_from_outside x s (ground (arith, h))))

-- No field and no pattern has a brace.
inside-no_brace :
    (d : ℕ) (field : Bytes) (subs : List Bytes)
    → contains_byte d field ≡ false
    → none_contains d subs ≡ true
    → (d == b'/') ≡ false
    → (b'=' == d) ≡ false
    → contains_byte d (field ++ (b'=' ∷ join b'/' subs)) ≡ false
unfolding contains_byte
inside-no_brace d field subs f s slash equals =
    contains_byte-append d field (b'=' ∷ join b'/' subs) f
      (ground (arith, contains_byte-join d b'/' subs s slash))

split_from_braces :
    (x s : Bytes)
    → contains_byte b'{' x ≡ false
    → contains_byte b'}' x ≡ false
    → split_from (pos 0) (((b'{' ∷ x) ++ (b'}' ∷ [])) ++ s)
      ≡ onto_all ((b'{' ∷ x) ++ (b'}' ∷ [])) (split_from (pos 0) s)
unfolding split_from onto_all ◌+ℤ◌
split_from_braces x s h k = ap (onto_first b'{') (
    ap (split_from (pos 1)) (append_assoc x (b'}' ∷ []) s)
    ∙ split_from_inside x (b'}' ∷ s) h k
    ∙ sym (onto_all-append x (b'}' ∷ []) (split_from (pos 0) s)))

split_from-print_part :
    (p : Part) (s : Bytes)
    → well_formed p ≡ true
    → split_from (pos 0) (print_part p ++ s) ≡ onto_all (print_part p) (split_from (pos 0) s)
unfolding print_part well_formed is_plain
split_from-print_part (fixed x) s h = split_from_outside x s h
split_from-print_part (bound field sub subs) s h =
    let (slashes, opens, closes, colons) = all_plain_lem (sub ∷ subs) (ground (arith, h)) in
    split_from_braces (field ++ (b'=' ∷ join b'/' (sub ∷ subs))) s
      (inside-no_brace b'{' field (sub ∷ subs) (ground (arith, h)) opens refl refl)
      (inside-no_brace b'}' field (sub ∷ subs) (ground (arith, h)) closes refl refl)

split_from-join :
    (p : Part) (ps : List Part)
    → all_well_formed (p ∷ ps) ≡ true
    → split_from (pos 0) (join b'/' (map print_part (p ∷ ps))) ≡ map print_part (p ∷ ps)
unfolding join all_well_formed split_from
split_from-join p [] h =
    ap (split_from (pos 0)) (sym (append-nil (print_part p)))
    ∙ split_from-print_part p [] (ground (arith, h))
    ∙ onto_all_nil (print_part p) []
split_from-join p (q ∷ ps) h =
    split_from-print_part p (b'/' ∷ join b'/' (map print_part (q ∷ ps))) (ground (arith, h))
    ∙ onto_all_nil (print_part p) (split_from (pos 0) (join b'/' (map print_part (q ∷ ps))))
    ∙ ap (◌∷◌ (print_part p)) (split_from-join q ps (ground (arith, h)))

print_part-no_colon : (p : Part) → well_formed p ≡ true → contains_byte b':' (print_part p) ≡ false
unfolding print_part well_formed is_plain contains_byte
print_part-no_colon (fixed x) h = ground (arith, h)
print_part-no_colon (bound field sub subs) h =
    let (slashes, opens, closes, colons) = all_plain_lem (sub ∷ subs) (ground (arith, h)) in
    contains_byte-append b':' (field ++ (b'=' ∷ join b'/' (sub ∷ subs))) (b'}' ∷ [])
      (inside-no_brace b':' field (sub ∷ subs) (ground (arith, h)) colons refl refl) refl

parts-no_colon :
    (ps : List Part) → all_well_formed ps ≡ true → none_contains b':' (map print_part ps) ≡ true
unfolding all_well_formed
parts-no_colon [] h = refl
parts-no_colon (p ∷ ps) h = ground (arith, h, print_part-no_colon p, parts-no_colon ps)

split_verb-print_verb :
    (path verb : Bytes)
    → contains_byte b':' path ≡ false
    → is_plain verb ≡ true
    → split_verb (path ++ print_verb verb) ≡ (path, verb)
unfolding split_verb is_plain has_brace_or_slash contains_byte
split_verb-print_verb path [] h v =
    let plain : split_verb path ≡ (path, []) = rw (split_verb, split_last-none b':' path h) refl in
    ap split_verb (append-nil path) ∙ plain
split_verb-print_verb path (c ∷ verb) h v =
    let colon : contains_byte b':' (c ∷ verb) ≡ false = ground (arith, v) in
    let others : has_brace_or_slash (c ∷ verb) ≡ false = ground (arith, v) in
    rw
      (
        split_verb,
        split_last-append b':' path (c ∷ verb) (split_last-none b':' (c ∷ verb) colon),
        others,
      )
      refl

-- A template written out from literals, fields bound to patterns, and a verb is parsed into the segments,
-- the variables with the segments that each captures, and the verb, when no text has a slash, a brace or
-- a colon, no field an equals sign, and no pattern has the wildcard for several segments.
pub parse_template-print_template :
    (p : Part) (ps : List Part) (verb : Bytes)
    → all_well_formed (p ∷ ps) ≡ true
    → is_plain verb ≡ true
    → parse_template (print_template (p ∷ ps) verb)
      ≡ parsed (compile (p ∷ ps) (record { segments = []; vars = []; verb = verb }))
unfolding parse_template print_template split_template contains_byte
parse_template-print_template p ps verb h v =
    let path = join b'/' (map print_part (p ∷ ps)) in
    let no_colon : contains_byte b':' (b'/' ∷ path) ≡ false =
      contains_byte-join b':' b'/' (map print_part (p ∷ ps)) (parts-no_colon (p ∷ ps) h) refl in
    rw (split_verb-print_verb (b'/' ∷ path) verb no_colon v, split_from-join p ps h)
      (parse_parts_lem (p ∷ ps) (record { segments = []; vars = []; verb = verb }) h)
