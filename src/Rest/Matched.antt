-- ===== src/Rest/Matched.antt =====
-- The templates that parseTemplate in rest/route.go makes, as match uses them.
use cloud_tasks_emulator.Base.{
  ℕ, suc, ◌+◌, ◌≡◌, refl, sym, ap, ◌∙◌, true, ◌&&◌, none, List, [], ◌∷◌, ◌++◌, if◌then◌else◌,
  length, map, arith, append_assoc, append-nil, length-append,
}
use cloud_tasks_emulator.Base.Bytes.{Bytes, bytes_eq}
use cloud_tasks_emulator.Rest.Template.{
  Segment, Variable, Template, Parsed, parsed, segment_of, literal_of, parse_template,
}
use cloud_tasks_emulator.Rest.Route.{Route, match_route}
use cloud_tasks_emulator.Rest.Parsing.{
  Part, fixed, bound, print_template, compile_part, compile, all_well_formed, is_plain,
}
use cloud_tasks_emulator.Rest.Splitting.{parse_template-print_template}
use cloud_tasks_emulator.Rest.Matching.{
  match_parts, segments_of, vars_of, fit_whole_lem, match_parts_lem,
}

length-map : (xs : List Bytes) → length (map segment_of xs) ≡ length xs
length-map [] = refl
length-map (x ∷ xs) = ap suc (length-map xs)

-- A template with parts added.
abbrev extended : List Part → ℕ → Template → Template
extended ps k t = record t {
  segments = t.segments ++ segments_of ps;
  vars = t.vars ++ vars_of k ps;
}

compile_lem :
    (ps : List Part) (k : ℕ) (t : Template) → length t.segments ≡ k → compile ps t ≡ extended ps k t
unfolding compile compile_part segments_of vars_of
compile_lem [] k t size =
    ap (λ (ss : List Segment). record t { segments = ss }) (sym (append-nil t.segments))
    ∙ ap (λ (vs : List Variable). record t { segments = t.segments ++ []; vars = vs })
        (sym (append-nil t.vars))
compile_lem (fixed s ∷ ps) k t size =
    compile_lem ps (suc k) (compile_part (fixed s) t)
      (omega (arith, length-append t.segments (literal_of s ∷ []), size))
    ∙ ap (λ (ss : List Segment). record t { segments = ss; vars = t.vars ++ vars_of (suc k) ps })
        (append_assoc t.segments (literal_of s ∷ []) (segments_of ps))
compile_lem (bound field sub subs ∷ ps) k t size =
    let added = map segment_of (sub ∷ subs) in
    let n = k + length (sub ∷ subs) in
    compile_lem ps n (compile_part (bound field sub subs) t)
      (omega (arith, length-append t.segments added, length-map (sub ∷ subs), size))
    ∙ ap
        (λ (ss : List Segment). record t {
          segments = ss;
          vars = (t.vars ++ variable (length t.segments) ∷ []) ++ vars_of n ps;
        })
        (append_assoc t.segments added (segments_of ps))
    ∙ ap
        (λ (vs : List Variable). record t {
          segments = t.segments ++ (added ++ segments_of ps);
          vars = vs;
        })
        (append_assoc t.vars (variable (length t.segments) ∷ []) (vars_of n ps))
    ∙ ap
        (λ (j : ℕ). record t {
          segments = t.segments ++ (added ++ segments_of ps);
          vars = t.vars ++ (variable j ∷ vars_of n ps);
        })
        size
  where
    variable : ℕ → Variable
    variable j = record { field = field; start = j; end = j + length (sub ∷ subs) }

match_compiled :
    {Served : Type 0} (rt : Route Served) (ps : List Part) (verb http_method : Bytes)
    (segs : List Bytes) (asked : Bytes)
    → rt.template ≡ extended ps 0 (record { segments = []; vars = []; verb = verb })
    → match_route rt http_method segs asked ≡ (
        if bytes_eq http_method rt.http_method && bytes_eq asked verb
        then match_parts ps segs []
        else none)
unfolding match_route
match_compiled rt ps verb http_method segs asked e =
    rw (match_route, e)
      (ground (
        arith,
        fit_whole_lem (segments_of ps) segs,
        match_parts_lem ps 0 [] segs segs [] refl refl,
      ))

abbrev template_of : Template → Parsed → Template
template_of t (parsed u) = u
template_of t failure = t

-- A route whose template was parsed from its written form matches a request exactly when the method and
-- the verb are the route's and the path's segments are those of the parts, in order: a literal the same
-- text, a pattern its literals and for each wildcard a segment that is not empty. It binds each field to
-- the segments of its pattern, joined by slashes. The texts of the template are as parseTemplate can
-- read them.
pub match_route-match_parts :
    {Served : Type 0} (rt : Route Served) (p : Part) (ps : List Part) (verb http_method : Bytes)
    (segs : List Bytes) (asked : Bytes)
    → all_well_formed (p ∷ ps) ≡ true
    → is_plain verb ≡ true
    → parse_template (print_template (p ∷ ps) verb) ≡ parsed rt.template
    → match_route rt http_method segs asked ≡ (
        if bytes_eq http_method rt.http_method && bytes_eq asked verb
        then match_parts (p ∷ ps) segs []
        else none)
match_route-match_parts rt p ps verb http_method segs asked h v e =
    match_compiled rt (p ∷ ps) verb http_method segs asked (
      ap (template_of rt.template) (sym e ∙ parse_template-print_template p ps verb h v)
      ∙ compile_lem (p ∷ ps) 0 (record { segments = []; vars = []; verb = verb }) refl)
