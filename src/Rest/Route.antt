-- ===== src/Rest/Route.antt =====
-- rest/route.go and rest/rest.go: splitRequestPath, match and the choice of a route. url.PathUnescape
-- is a parameter.
use cloud_tasks_emulator.Base.{
  ◌-◌, Bool, true, false, not, ◌&&◌, ◌||◌, Option, none, some, List, [], ◌∷◌, ◌==◌, if◌then◌else◌,
  length, or_else, map, take, drop,
}
use cloud_tasks_emulator.Base.Bytes.{Bytes, bytes_eq, is_empty}
use cloud_tasks_emulator.Base.Dict.{Dict, insert}
use cloud_tasks_emulator.Std.Strings.{split_last, split, join, contains_byte}
use cloud_tasks_emulator.Rest.Template.{Segment, Variable, Template}

-- A route: the method of HTTP, the template, and what is served there.
pub record Route (Served : Type 0) : Type 0 where
  pub http_method : Bytes
  pub template : Template
  pub served : Served

unfoldable pub trim_slash : Bytes → Bytes
trim_slash [] = []
trim_slash (c ∷ s) = if c == b'/' then s else c ∷ s

-- The last colon of the last segment starts the verb.
unfoldable pub request_verb : Bytes → Bytes × Bytes
request_verb s = elim (split_last b':' s) [
  | none ↦ (s, [])
  | some (before, behind) ↦ if contains_byte b'/' behind then (s, []) else (before, behind)
]

-- A segment that cannot be unescaped stays as it is.
unfoldable pub split_request_path : (Bytes → Option Bytes) → Bytes → List Bytes × Bytes
unfolding request_verb trim_slash
split_request_path unescape s =
    let (path, verb) = request_verb (trim_slash s) in
    (map (λ seg. or_else (unescape seg) seg) (split b'/' path), verb)

unfoldable pub fits : Segment → Bytes → Bool
fits s seg = if s.wildcard then not (is_empty seg) else bytes_eq seg s.literal

unfoldable pub fit_all : List Segment → List Bytes → Bool
unfolding fits
fit_all [] segs = true
fit_all (s ∷ ss) [] = false
fit_all (s ∷ ss) (seg ∷ segs) = fits s seg && fit_all ss segs

abbrev pub captured : Variable → List Bytes → Bytes
captured v segs = join b'/' (take (v.end - v.start) (drop v.start segs))

unfoldable pub bind_vars : List Variable → List Bytes → Dict Bytes → Dict Bytes
bind_vars [] segs vars = vars
bind_vars (v ∷ vs) segs vars = bind_vars vs segs (insert v.field (captured v segs) vars)

module _ {Served : Type 0} where
  unfoldable pub match_route : Route Served → Bytes → List Bytes → Bytes → Option (Dict Bytes)
  unfolding fit_all bind_vars
  match_route rt http_method segs verb =
      if not (bytes_eq http_method rt.http_method)
        || not (bytes_eq verb rt.template.verb)
        || not (length segs == length rt.template.segments)
      then none
      else if not (fit_all rt.template.segments segs)
      then none
      else some (bind_vars rt.template.vars segs [])

  -- The first route that matches, with its variables.
  unfoldable pub first_match :
      List (Route Served) → Bytes → List Bytes → Bytes → Option (Served × Dict Bytes)
  unfolding match_route
  first_match [] http_method segs verb = none
  first_match (rt ∷ rts) http_method segs verb = elim (match_route rt http_method segs verb) [
    | some vars ↦ some (rt.served, vars)
    | none ↦ first_match rts http_method segs verb
  ]
