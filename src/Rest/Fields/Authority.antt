-- ===== src/Rest/Fields/Authority.antt =====
-- The variables of the path in decode of rest/decode.go, which are bound last.
use cloud_tasks_emulator.Base.{◌≡◌, ◌∙◌, true, Bool, List, [], ◌∷◌, All, arith}
use cloud_tasks_emulator.Base.Bytes.{Bytes}
use cloud_tasks_emulator.Base.Dict.{Dict}
use cloud_tasks_emulator.Std.Strings.{split}
use cloud_tasks_emulator.Rest.Fields.{Schema, Tried, failed, got, Message}
use cloud_tasks_emulator.Rest.Fields.Assign.{Protojson, set_field}
use cloud_tasks_emulator.Rest.Fields.Decode.{
  Shape, Sent, in_path, wrapped, new_message, decode_body, decode_query, decode_path, decode,
}
use cloud_tasks_emulator.Rest.Fields.Lookups.{WellNamed}
use cloud_tasks_emulator.Rest.Fields.Reads.{after-eq-got, apart, read_parts, meant, set_parts-meant}
use cloud_tasks_emulator.Rest.Fields.Bound.{set_parts-apart}

-- The variables lead to different fields.
abbrev pub AllApart : Schema → Bytes → Dict Bytes → Type 0
AllApart schema md [] = Unit
AllApart schema md ((field, text) ∷ vars) =
    All (λ e. apart schema md (split b'.' e.0) (split b'.' field) ≡ true) vars
    × AllApart schema md vars

wrapped-eq-got :
    {E F A : Type 0} (f : E → F) (t : Tried E A) {a : A} → wrapped f t ≡ got a → t ≡ got a
wrapped-eq-got f (failed e) h = cc
wrapped-eq-got f (got a) h = ground (arith, h)

module _ {V : Type 0} (pj : Protojson V) (schema : Schema) (w : WellNamed schema) where
  -- The first variable is set, and then the others are.
  first_var :
      (md field text : Bytes) (vars : Dict Bytes) (m : Message V) {m' : Message V}
      → decode_path pj schema md ((field, text) ∷ vars) m ≡ got m'
      → (us : Message V) × (set_field pj schema md field (text, []) m ≡ got us)
        × (decode_path pj schema md vars us ≡ got m')
  unfolding decode_path
  first_var md field text vars m h =
      let (us, here, later) =
        after-eq-got (wrapped (in_path field) (set_field pj schema md field (text, []) m))
          (decode_path pj schema md vars) h in
      (us, wrapped-eq-got (in_path field) _ here, later)

  decode_path-apart :
      (md : Bytes) (other : List Bytes) (vars : Dict Bytes) (m : Message V) {m' : Message V}
      → decode_path pj schema md vars m ≡ got m'
      → All (λ e. apart schema md (split b'.' e.0) other ≡ true) vars
      → read_parts schema md other m' ≡ read_parts schema md other m
  unfolding decode_path set_field
  decode_path-apart md other [] m h free = ground (arith, h)
  decode_path-apart md other ((field, text) ∷ vars) m h free =
      let (us, here, later) = first_var md field text vars m h in
      decode_path-apart md other vars us later free.1
      ∙ set_parts-apart pj schema w md (split b'.' field) other (text, []) m here free.0

  decode_path-meant :
      (md : Bytes) (vars : Dict Bytes) (m : Message V) {m' : Message V}
      → decode_path pj schema md vars m ≡ got m'
      → AllApart schema md vars
      → All
          (λ e.
            read_parts schema md (split b'.' e.0) m'
            ≡ meant pj schema md (split b'.' e.0) (e.1, []))
          vars
  unfolding set_field
  decode_path-meant md [] m h free = tt
  decode_path-meant md ((field, text) ∷ vars) m h free =
      let (us, here, later) = first_var md field text vars m h in
      (
        decode_path-apart md (split b'.' field) vars us later free.0
            ∙ set_parts-meant pj schema md (split b'.' field) (text, []) m here,
        decode_path-meant md vars us later free.1,
      )

-- Whatever the body and the query say, in a request message that decode makes each variable of the path
-- is read at its field as what protojson makes of its text, when the variables lead to different fields,
-- of which none is inside another and no two share a oneof, and each field of a type is found under its
-- own name.
pub decode-meant :
    {V : Type 0} (pj : Protojson V) (schema : Schema) (registered : Bytes → Bool) (sh : Shape)
    (sent : Sent) (vars : Dict Bytes) (m : Message V)
    → WellNamed schema
    → AllApart schema sh.input vars
    → decode pj schema registered sh sent vars ≡ got m
    → All
        (λ e.
          read_parts schema sh.input (split b'.' e.0) m
          ≡ meant pj schema sh.input (split b'.' e.0) (e.1, []))
        vars
unfolding decode
decode-meant pj schema registered sh sent vars m w free h =
    let (new, _, h1) = after-eq-got (new_message pj schema registered sh.input) _ h in
    let (body, _, h2) = after-eq-got (decode_body pj schema sh sent.raw new) _ h1 in
    let (queried, _, h3) = after-eq-got (decode_query pj schema sh.input sent.query body) _ h2 in
    decode_path-meant pj schema w sh.input vars queried h3 free
