-- ===== src/Core/Naming/Matching.antt =====
-- The matcher of core/naming.go's regular expressions against what such an expression means.
use cloud_tasks_emulator.Base.{
  ◌≡◌, ◌≢◌, refl, inl, inr, Option, none, some, List, [], ◌∷◌, ◌++◌, ◌==◌, All, Bool-cases,
  Option-cases, arith,
}
use cloud_tasks_emulator.Base.Bytes.{Bytes}
use cloud_tasks_emulator.Core.Naming.{
  Piece, literal, segment, Pattern, strip_prefix, span_segment, capture, find_submatch,
}

abbrev pub NoSlash : Bytes → Type 0
NoSlash = All (λ c. c ≢ b'/')

-- A text that `([^/]+)` matches.
abbrev pub IsSegment : Bytes → Type 0
IsSegment m = (m ≢ []) × NoSlash m

-- The text is spelled by the pattern with these captures.
abbrev pub Spells : Pattern → List Bytes → Bytes → Type 0
Spells [] [] s = s ≡ []
Spells [] (m ∷ ms) s = ⊥
Spells (literal l ∷ ps) ms s = (rest : Bytes) × (s ≡ l ++ rest) × Spells ps ms rest
Spells (segment ∷ ps) [] s = ⊥
Spells (segment ∷ ps) (m ∷ ms) s =
    (rest : Bytes) × (s ≡ m ++ rest) × IsSegment m × Spells ps ms rest

-- Each group is followed by a literal that begins with a slash, or by nothing.
abbrev pub IsDelimited : Pattern → Type 0
IsDelimited [] = Unit
IsDelimited (literal l ∷ ps) = IsDelimited ps
IsDelimited (segment ∷ []) = Unit
IsDelimited (segment ∷ literal [] ∷ ps) = ⊥
IsDelimited (segment ∷ literal (c ∷ l) ∷ ps) = (c ≡ b'/') × IsDelimited ps
IsDelimited (segment ∷ segment ∷ ps) = ⊥

pub strip_prefix-append : (l s : Bytes) → strip_prefix l (l ++ s) ≡ some s
unfolding strip_prefix
strip_prefix-append [] s = refl
strip_prefix-append (c ∷ l) s = ground (arith, strip_prefix-append l s)

pub strip_prefix_sound : (l s : Bytes) {r : Bytes} → strip_prefix l s ≡ some r → s ≡ l ++ r
unfolding strip_prefix
strip_prefix_sound [] s h = ground arith
strip_prefix_sound (c ∷ l) [] h = cc
strip_prefix_sound (c ∷ l) (d ∷ s) {r} h = ground (arith, strip_prefix_sound l s {r = r})

pub span_segment_append : (s : Bytes) → s ≡ (span_segment s).0 ++ (span_segment s).1
unfolding span_segment
span_segment_append [] = refl
span_segment_append (c ∷ s) = ground (arith, span_segment_append s)

pub span_segment-NoSlash : (s : Bytes) → NoSlash (span_segment s).0
unfolding span_segment
span_segment-NoSlash [] = tt
span_segment-NoSlash (c ∷ s) = elim (Bool-cases (c == b'/')) [
  | inl e ↦ rw e tt
  | inr e ↦ rw e (ground arith, span_segment-NoSlash s)
]

-- What stands behind a group's text: nothing, or a slash.
abbrev pub Stops : Bytes → Type 0
Stops [] = Unit
Stops (c ∷ s) = c ≡ b'/'

pub span_segment-Stops :
    (m rest : Bytes) → NoSlash m → Stops rest → span_segment (m ++ rest) ≡ (m, rest)
unfolding span_segment
span_segment-Stops [] [] n h = refl
span_segment-Stops [] (c ∷ rest) n h = ground arith
span_segment-Stops (c ∷ m) rest n h = ground (arith, span_segment-Stops m rest n.1)

capture-eq-some :
    (run : Bytes) (r : Option (List Bytes)) {ms : List Bytes}
    → capture run r ≡ some ms
    → (rs : List Bytes) × (r ≡ some rs) × (run ≢ []) × (ms ≡ run ∷ rs)
capture-eq-some [] r h = cc
capture-eq-some (c ∷ run) none h = cc
capture-eq-some (c ∷ run) (some rs) h = (rs, refl, (λ e. cc), ground arith)

-- What the matcher returns spells the text.
pub find_submatch_sound :
    (ps : Pattern) (s : Bytes) (ms : List Bytes) → find_submatch ps s ≡ some ms → Spells ps ms s
unfolding find_submatch
find_submatch_sound [] [] [] h = refl
find_submatch_sound [] [] (m ∷ ms) h = cc
find_submatch_sound [] (c ∷ s) ms h = cc
find_submatch_sound (literal l ∷ ps) s ms h = elim (Option-cases (strip_prefix l s)) [
  | inl e ↦ cc
  | inr (rest, e) ↦
      (rest, strip_prefix_sound l s e, find_submatch_sound ps rest ms (rw (e, find_submatch) at h))
]
find_submatch_sound (segment ∷ ps) s ms h =
    let (rs, found, full, shape) = capture-eq-some (span_segment s).0 _ h in
    let spelled = find_submatch_sound ps (span_segment s).1 rs found in
    rw shape ((span_segment s).1, span_segment_append s, (full, span_segment-NoSlash s), spelled)

-- Behind a group the text stops the group.
Spells-Stops :
    (ps : Pattern) (ms : List Bytes) (rest : Bytes)
    → IsDelimited (segment ∷ ps)
    → Spells ps ms rest
    → Stops rest
Spells-Stops [] [] rest d h = rw h tt
Spells-Stops [] (m ∷ ms) rest d h = absurd h
Spells-Stops (literal [] ∷ ps) ms rest d h = absurd d
Spells-Stops (literal (c ∷ l) ∷ ps) ms rest d h = rw h.1 d.0
Spells-Stops (segment ∷ ps) ms rest d h = absurd d

IsDelimited-tail : (p : Piece) (ps : Pattern) → IsDelimited (p ∷ ps) → IsDelimited ps
IsDelimited-tail (literal l) ps d = d
IsDelimited-tail segment [] d = tt
IsDelimited-tail segment (literal [] ∷ ps) d = absurd d
IsDelimited-tail segment (literal (c ∷ l) ∷ ps) d = d.1
IsDelimited-tail segment (segment ∷ ps) d = absurd d

capture_full : (m : Bytes) (ms : List Bytes) → m ≢ [] → capture m (some ms) ≡ some (m ∷ ms)
capture_full [] ms h = absurd (h refl)
capture_full (c ∷ m) ms h = refl

-- The matcher finds the captures of every text that the pattern spells.
pub find_submatch_complete :
    (ps : Pattern) (s : Bytes) (ms : List Bytes)
    → IsDelimited ps
    → Spells ps ms s
    → find_submatch ps s ≡ some ms
unfolding find_submatch
find_submatch_complete [] s [] d h = rw h refl
find_submatch_complete [] s (m ∷ ms) d h = absurd h
find_submatch_complete (literal l ∷ ps) s ms d (rest, e, h) =
    rw (e, strip_prefix-append l rest, find_submatch) (find_submatch_complete ps rest ms d h)
find_submatch_complete (segment ∷ ps) s [] d h = absurd h
find_submatch_complete (segment ∷ ps) s (m ∷ ms) d (rest, e, seg, h) =
    let stop = Spells-Stops ps ms rest d h in
    rw
      (
        e,
        span_segment-Stops m rest seg.1 stop,
        find_submatch_complete ps rest ms (IsDelimited-tail segment ps d) h,
      )
      (capture_full m ms seg.0)
