-- ===== src/Rest/Matching.antt =====
-- What match in rest/route.go accepts and binds, against a matcher that walks over a template's parts
-- and a path's segments side by side, with no positions.
use cloud_tasks_emulator.Base.{
  ℕ, suc, ◌+◌, ◌-◌, ◌≡◌, refl, sym, ap, ◌∙◌, Bool, true, false, not, ◌&&◌, Option, none, some, List,
  [], ◌∷◌, ◌++◌, ◌==◌, if◌then◌else◌, length, map, take, drop, arith, inl, inr, Option-cases,
  append_assoc, length-append, drop-append, take-append,
}
use cloud_tasks_emulator.Base.Bytes.{Bytes, bytes_eq, is_empty}
use cloud_tasks_emulator.Base.Dict.{Dict, insert}
use cloud_tasks_emulator.Std.Strings.{join}
use cloud_tasks_emulator.Rest.Template.{Segment, Variable, segment_of, literal_of}
use cloud_tasks_emulator.Rest.Route.{fits, fit_all, captured, bind_vars}
use cloud_tasks_emulator.Rest.Parsing.{Part, fixed, bound}

-- A wildcard takes any segment but an empty one, a literal its own text.
abbrev pub takes : Bytes → Bytes → Bool
takes sub seg = if bytes_eq sub (b'*' ∷ []) then not (is_empty seg) else bytes_eq seg sub

-- The segments that a pattern takes from the front, and the rest.
pub take_fitting : List Bytes → List Bytes → Option (List Bytes × List Bytes)
take_fitting [] segs = some ([], segs)
take_fitting (sub ∷ subs) [] = none
take_fitting (sub ∷ subs) (seg ∷ segs) = elim (take_fitting subs segs) [
  | none ↦ none
  | some (got, rest) ↦ if takes sub seg then some (seg ∷ got, rest) else none
]

unfoldable pub match_parts : List Part → List Bytes → Dict Bytes → Option (Dict Bytes)
unfolding take_fitting
match_parts [] [] vars = some vars
match_parts [] (seg ∷ segs) vars = none
match_parts (fixed s ∷ ps) [] vars = none
match_parts (fixed s ∷ ps) (seg ∷ segs) vars =
    let rest = match_parts ps segs vars in if bytes_eq seg s then rest else none
match_parts (bound field sub subs ∷ ps) segs vars = elim (take_fitting (sub ∷ subs) segs) [
  | none ↦ none
  | some (got, rest) ↦ match_parts ps rest (insert field (join b'/' got) vars)
]

unfoldable pub segments_of : List Part → List Segment
segments_of [] = []
segments_of (fixed s ∷ ps) = literal_of s ∷ segments_of ps
segments_of (bound field sub subs ∷ ps) = map segment_of (sub ∷ subs) ++ segments_of ps

unfoldable pub vars_of : ℕ → List Part → List Variable
vars_of k [] = []
vars_of k (fixed s ∷ ps) = vars_of (suc k) ps
vars_of k (bound field sub subs ∷ ps) =
    record { field = field; start = k; end = k + length (sub ∷ subs) }
    ∷ vars_of (k + length (sub ∷ subs)) ps

-- As many segments as positions, each fitting.
pub fit_whole : List Segment → List Bytes → Bool
fit_whole [] [] = true
fit_whole [] (seg ∷ segs) = false
fit_whole (s ∷ ss) [] = false
fit_whole (s ∷ ss) (seg ∷ segs) = fits s seg && fit_whole ss segs

pub fit_whole_lem :
    (ss : List Segment) (segs : List Bytes)
    → fit_whole ss segs ≡ (length segs == length ss && fit_all ss segs)
unfolding fit_whole fit_all
fit_whole_lem [] [] = refl
fit_whole_lem [] (seg ∷ segs) = ground arith
fit_whole_lem (s ∷ ss) [] = ground arith
fit_whole_lem (s ∷ ss) (seg ∷ segs) = ground (arith, fit_whole_lem ss segs)

take_fitting_lem :
    (subs segs : List Bytes) (ss : List Segment) (got : List Bytes) (rest : List Bytes)
    → take_fitting subs segs ≡ some (got, rest)
    → (segs ≡ got ++ rest)
      × (length got ≡ length subs)
      × (fit_whole (map segment_of subs ++ ss) segs ≡ fit_whole ss rest)
unfolding take_fitting fit_whole fits
take_fitting_lem [] segs ss got rest e = (ground (arith, e), ground (arith, e), ground (arith, e))
take_fitting_lem (sub ∷ subs) [] ss got rest e = cc
take_fitting_lem (sub ∷ subs) (seg ∷ segs) ss got rest e =
    elim (Option-cases (take_fitting subs segs)) [
      | inl h ↦ absurd (ground (arith, h, e))
      | inr ((g, r), h) ↦
          let (whole, size, fit) = take_fitting_lem subs segs ss g r h in
          (ground (arith, h, e, whole), ground (arith, h, e, size), ground (arith, h, e, fit))
    ]

take_fitting-none :
    (subs segs : List Bytes) (ss : List Segment)
    → take_fitting subs segs ≡ none
    → fit_whole (map segment_of subs ++ ss) segs ≡ false
unfolding take_fitting fit_whole fits
take_fitting-none [] segs ss e = cc
take_fitting-none (sub ∷ subs) [] ss e = refl
take_fitting-none (sub ∷ subs) (seg ∷ segs) ss e = elim (Option-cases (take_fitting subs segs)) [
  | inl h ↦ ground (arith, take_fitting-none subs segs ss h)
  | inr ((g, r), h) ↦ ground (arith, h, e)
]

captured_lem :
    (pre got rest all : List Bytes) (v : Variable)
    → length pre ≡ v.start
    → v.end ≡ v.start + length got
    → pre ++ (got ++ rest) ≡ all
    → captured v all ≡ join b'/' got
captured_lem pre got rest all v start end whole =
    let size : length got ≡ v.end - v.start = omega (arith, end) in
    ap (λ (xs : List Bytes). join b'/' (take (v.end - v.start) (drop v.start xs))) (sym whole)
    ∙ ap (λ (xs : List Bytes). join b'/' (take (v.end - v.start) xs))
        (drop-append pre (got ++ rest) v.start start)
    ∙ ap (join b'/') (take-append got rest (v.end - v.start) size)

pub match_parts_lem :
    (ps : List Part) (k : ℕ) (pre all segs : List Bytes) (vars : Dict Bytes)
    → length pre ≡ k
    → pre ++ segs ≡ all
    → match_parts ps segs vars
      ≡ (if fit_whole (segments_of ps) segs then some (bind_vars (vars_of k ps) all vars) else none)
unfolding match_parts fit_whole segments_of vars_of bind_vars fits
match_parts_lem [] k pre all [] vars size whole = refl
match_parts_lem [] k pre all (seg ∷ segs) vars size whole = refl
match_parts_lem (fixed s ∷ ps) k pre all [] vars size whole = refl
match_parts_lem (fixed s ∷ ps) k pre all (seg ∷ segs) vars size whole = ground (
  arith,
  match_parts_lem ps (suc k) (pre ++ seg ∷ []) all segs vars
      (omega (arith, length-append pre (seg ∷ []), size))
      (append_assoc pre (seg ∷ []) segs ∙ whole),
)
match_parts_lem (bound field sub subs ∷ ps) k pre all segs vars size whole =
    elim (Option-cases (take_fitting (sub ∷ subs) segs)) [
      | inl h ↦
          let made : match_parts (bound field sub subs ∷ ps) segs vars ≡ none =
            rw (match_parts, h) refl in
          made ∙ ap bound_if (sym (take_fitting-none (sub ∷ subs) segs (segments_of ps) h))
      | inr ((got, rest), h) ↦
          let (parts, count, fit) =
            take_fitting_lem (sub ∷ subs) segs (segments_of ps) got rest h in
          let v : Variable = record { field = field; start = k; end = k + length (sub ∷ subs) } in
          let split : pre ++ (got ++ rest) ≡ all = ap (◌++◌ pre) (sym parts) ∙ whole in
          let taken = captured_lem pre got rest all v size (ap (◌+◌ k) (sym count)) split in
          let later =
            match_parts_lem ps (k + length (sub ∷ subs)) (pre ++ got) all rest
              (insert field (join b'/' got) vars)
              (omega (arith, length-append pre got, size, count))
              (append_assoc pre got rest ∙ split) in
          let made : match_parts (bound field sub subs ∷ ps) segs vars
              ≡ match_parts ps rest (insert field (join b'/' got) vars) =
            rw (match_parts, h) refl in
          made
          ∙ later
          ∙ ap (λ (b : Bool). if b then some (after (join b'/' got)) else none) (sym fit)
          ∙ ap (λ (text : Bytes). bound_if_text text) (sym taken)
    ]
  where
    n : ℕ
    n = k + length (sub ∷ subs)

    after : Bytes → Dict Bytes
    after text = unfold bind_vars vars_of in bind_vars (vars_of n ps) all (insert field text vars)

    v0 : Variable
    v0 = record { field = field; start = k; end = n }

    bound_if : Bool → Option (Dict Bytes)
    bound_if b = if b then some (after (captured v0 all)) else none

    bound_if_text : Bytes → Option (Dict Bytes)
    bound_if_text text =
        unfold fit_whole segments_of in
        if fit_whole (segments_of (bound field sub subs ∷ ps)) segs then some (after text) else none
