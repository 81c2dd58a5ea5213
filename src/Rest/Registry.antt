-- ===== src/Rest/Registry.antt =====
-- rest/route.go: routesFor, newRoute and patternOf, the routes that a service's HTTP bindings declare;
-- and Handler of rest/rest.go, which puts the services' routes together. A service's methods with their
-- bindings and handlers, and the lookup of a field on a request message, are the protocol buffers' and
-- the generated code's, and are arguments.
use cloud_tasks_emulator.Base.{
  Bool, true, false, ◌||◌, Option, none, some, List, [], ◌∷◌, ◌++◌, if◌then◌else◌,
}
use cloud_tasks_emulator.Base.Bytes.{Bytes, codes, bytes_eq, is_empty}
use cloud_tasks_emulator.Std.Strings.{contains_byte}
use cloud_tasks_emulator.Rest.Template.{Variable, Parsed, parsed, parse_template}
use cloud_tasks_emulator.Rest.Route.{Route}

pub data Pattern : Type 0 where
  get post put patch remove : Bytes → Pattern
  unsupported : Pattern

pub record Rule : Type 0 where
  pub pattern : Pattern
  pub body : Bytes

-- What is known of a field: whether it is a message, and is neither a list nor a map.
pub data Field : Type 0 where
  is_message is_other : Field

-- The errors of newRoute.
pub data Refusal : Type 0 where
  unsupported_pattern bad_template unknown_field nested_body body_not_message : Refusal

unfoldable pub pattern_of : Pattern → Option (Bytes × Bytes)
pattern_of (get s) = some (codes "GET", s)
pattern_of (post s) = some (codes "POST", s)
pattern_of (put s) = some (codes "PUT", s)
pattern_of (patch s) = some (codes "PATCH", s)
pattern_of (remove s) = some (codes "DELETE", s)
pattern_of unsupported = none

unfoldable pub all_resolve : (Bytes → Option Field) → List Variable → Bool
all_resolve resolve [] = true
all_resolve resolve (v ∷ vs) = elim (resolve v.field) [
  | none ↦ false
  | some f ↦ all_resolve resolve vs
]

-- A body that names a field is a message at the top level.
unfoldable pub check_body : (Bytes → Option Field) → Bytes → Option Refusal
check_body resolve body =
    if is_empty body || bytes_eq body (b'*' ∷ [])
    then none
    else if contains_byte b'.' body
    then some nested_body
    else elim (resolve body) [
      | none ↦ some unknown_field
      | some is_other ↦ some body_not_message
      | some is_message ↦ none
    ]

pub data Made (Served : Type 0) : Type 0 where
  made : Route Served → Made Served
  skipped : Refusal → Made Served

module _ {Served : Type 0} where
  abbrev with_template : (Bytes → Option Field) → Bytes → Bytes → Served → Parsed → Made Served
  with_template resolve http_method body served (parsed t) =
      if all_resolve resolve t.vars
      then elim (check_body resolve body) [
        | none ↦ made (record { http_method = http_method; template = t; served = served })
        | some refusal ↦ skipped refusal
      ]
      else skipped unknown_field
  with_template resolve http_method body served failure = skipped bad_template

  unfoldable pub new_route : (Bytes → Option Field) → Rule → Served → Made Served
  unfolding pattern_of all_resolve check_body parse_template
  new_route resolve rule served = elim (pattern_of rule.pattern) [
    | none ↦ skipped unsupported_pattern
    | some (http_method, tmpl) ↦
        with_template resolve http_method rule.body served (parse_template tmpl)
  ]

-- A method of a service: its binding with the additional ones, its handler, and its request's fields.
pub record Method (Served : Type 0) : Type 0 where
  pub rule : Option (Rule × List Rule)
  pub handler : Option Served
  pub resolve : Bytes → Option Field

pub record Routes (Served : Type 0) : Type 0 where
  pub routes : List (Route Served)
  pub skips : List Refusal

module _ {Served : Type 0} where
  abbrev pub add : Made Served → Routes Served → Routes Served
  add (made rt) rs = record rs { routes = rt ∷ rs.routes }
  add (skipped refusal) rs = record rs { skips = refusal ∷ rs.skips }

  unfoldable pub routes_of_rules :
      (Bytes → Option Field) → Served → List Rule → Routes Served → Routes Served
  unfolding new_route
  routes_of_rules resolve served [] later = later
  routes_of_rules resolve served (rule ∷ rules) later =
      add (new_route resolve rule served) (routes_of_rules resolve served rules later)

  -- The bindings of a method that is served; one with no binding or no handler has none.
  unfoldable pub bindings : Method Served → Option (Served × List Rule)
  bindings m = elim m.rule [
    | none ↦ none
    | some (rule, more) ↦ elim m.handler [ none ↦ none | some served ↦ some (served, rule ∷ more) ]
  ]

  unfoldable pub collect : List (Method Served) → Routes Served
  unfolding routes_of_rules bindings
  collect [] = record { routes = []; skips = [] }
  collect (m ∷ ms) =
      let later = collect ms in
      elim (bindings m) [
        | none ↦ later
        | some (served, rules) ↦ routes_of_rules m.resolve served rules later
      ]

  -- A service with no route at all is an error.
  unfoldable pub routes_for : List (Method Served) → Option (Routes Served)
  unfolding collect
  routes_for ms = let rs = collect ms in if is_empty rs.routes then none else some rs

  -- The services' routes, one behind the other.
  unfoldable pub handler : List (List (Method Served)) → Option (Routes Served)
  unfolding routes_for
  handler [] = some (record { routes = []; skips = [] })
  handler (s ∷ ss) =
      let rest = handler ss in
      elim (routes_for s) [
        | none ↦ none
        | some rs ↦ elim rest [
          | none ↦ none
          | some more ↦
              some (record { routes = rs.routes ++ more.routes; skips = rs.skips ++ more.skips })
        ]
      ]
