-- ===== src/Tests/Routes.antt =====
-- The route of PurgeQueue, and what is registered of a small service.
use mathlib.Core.List.{Memᴰ}
use cloud_tasks_emulator.Base.{
  ℕ, ◌≡◌, refl, true, ◌&&◌, Option, none, some, List, [], ◌∷◌, if◌then◌else◌,
}
use cloud_tasks_emulator.Base.Bytes.{Bytes, codes, bytes_eq}
use cloud_tasks_emulator.Std.Strings.{contains_byte, split_last}
use cloud_tasks_emulator.Rest.Template.{Template, parsed, parse_template, any_multi}
use cloud_tasks_emulator.Rest.Route.{Route, match_route}
use cloud_tasks_emulator.Rest.Parsing.{
  Part, fixed, bound, print_template, compile, all_well_formed, well_formed, is_plain, all_plain,
}
use cloud_tasks_emulator.Rest.Splitting.{parse_template-print_template}
use cloud_tasks_emulator.Rest.Matching.{match_parts}
use cloud_tasks_emulator.Rest.Matched.{match_route-match_parts}
use cloud_tasks_emulator.Rest.Registry.{
  is_message, Method, Routes, get, unsupported, handler, routes_for, collect, routes_of_rules,
  new_route, bindings,
}
use cloud_tasks_emulator.Rest.Registered.{Listed, handler_lem}

-- /v2/{name=projects/*/queues/*}:purge
abbrev version : Part
version = fixed (codes "v2")

abbrev name_part : Part
name_part = bound (codes "name") (codes "projects") (codes "*" ∷ codes "queues" ∷ codes "*" ∷ [])

abbrev purge_verb : Bytes
purge_verb = codes "purge"

abbrev purge_template : Template
purge_template =
    compile (version ∷ name_part ∷ []) (record { segments = []; vars = []; verb = purge_verb })

parts-well_formed : all_well_formed (version ∷ name_part ∷ []) ≡ true
unfolding all_well_formed well_formed is_plain all_plain any_multi contains_byte bytes_eq
parts-well_formed = refl

verb_plain : is_plain purge_verb ≡ true
unfolding is_plain contains_byte
verb_plain = refl

parse_template-print_template_example :
    parse_template (print_template (version ∷ name_part ∷ []) purge_verb) ≡ parsed purge_template
parse_template-print_template_example =
    parse_template-print_template version (name_part ∷ []) purge_verb parts-well_formed verb_plain

purge_parsed :
    parse_template (print_template (version ∷ name_part ∷ []) purge_verb) ≡ parsed purge_template
purge_parsed =
    parse_template-print_template version (name_part ∷ []) purge_verb parts-well_formed verb_plain

abbrev purge_route : Route ℕ
purge_route = record { http_method = codes "POST"; template = purge_template; served = 7 }

abbrev purge_path : List Bytes
purge_path = codes "v2" ∷ codes "projects" ∷ codes "p" ∷ codes "queues" ∷ codes "q" ∷ []

match_route-match_parts_example : match_route purge_route (codes "POST") purge_path purge_verb ≡ (
    if bytes_eq (codes "POST") (codes "POST") && bytes_eq purge_verb purge_verb
    then match_parts (version ∷ name_part ∷ []) purge_path []
    else none)
match_route-match_parts_example =
    match_route-match_parts purge_route version (name_part ∷ []) purge_verb (codes "POST")
      purge_path purge_verb parts-well_formed verb_plain purge_parsed

-- One binding that is served and one that cannot be.
abbrev small_method : Method ℕ
small_method = record {
  rule = some (
    record { pattern = get (codes "/v2/queues"); body = [] },
    record { pattern = unsupported; body = [] } ∷ [],
  );
  handler = some 1;
  resolve = λ field. some is_message;
}

abbrev small_service : List (Method ℕ)
small_service = small_method ∷ []

abbrev or_no_routes : Option (Routes ℕ) → Routes ℕ
or_no_routes none = record { routes = []; skips = [] }
or_no_routes (some rs) = rs

abbrev registered : Routes ℕ
registered = or_no_routes (handler (small_service ∷ []))

registered_lem : handler (small_service ∷ []) ≡ some registered
unfolding handler routes_for collect routes_of_rules bindings new_route parse_template split_last
registered_lem = refl

handler_lem_example :
    Listed
      (new_route small_method.resolve (record { pattern = unsupported; body = [] }) 1)
      registered
handler_lem_example =
    handler_lem (small_service ∷ []) small_service small_method 1
      (record { pattern = get (codes "/v2/queues"); body = [] })
      (record { pattern = unsupported; body = [] })
      (record { pattern = unsupported; body = [] } ∷ []) registered registered_lem (Memᴰ.head refl)
      (Memᴰ.head refl) refl refl (Memᴰ.tail (Memᴰ.head refl))
