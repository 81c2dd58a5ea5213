-- ===== src/Rest/Registered.antt =====
-- No binding of a service gets lost in routesFor of rest/route.go and Handler of rest/rest.go.
use mathlib.Core.List.{Memᴰ}
use mathlib.Core.List.Memᴰ
use cloud_tasks_emulator.Base.{
  ◌≡◌, refl, sym, subst, Option, some, List, [], ◌∷◌, ◌++◌, inl, inr, Option-cases, arith,
}
use cloud_tasks_emulator.Base.Bytes.{Bytes}
use cloud_tasks_emulator.Rest.Registry.{
  Rule, Field, Made, made, skipped, Method, Routes, new_route, routes_of_rules, bindings, collect,
  add, routes_for, handler,
}

module _ {Served : Type 0} where
  -- What a binding has become is among the routes, or among what is reported as skipped.
  abbrev pub Listed : Made Served → Routes Served → Type 0
  Listed (made rt) rs = Memᴰ rt rs.routes
  Listed (skipped refusal) rs = Memᴰ refusal rs.skips

  Listed-add : (m : Made Served) (rs : Routes Served) → Listed m (add m rs)
  Listed-add (made rt) rs = Memᴰ.head refl
  Listed-add (skipped refusal) rs = Memᴰ.head refl

  Listed-add_more : (m n : Made Served) (rs : Routes Served) → Listed m rs → Listed m (add n rs)
  Listed-add_more (made rt) (made ru) rs h = Memᴰ.tail h
  Listed-add_more (made rt) (skipped x) rs h = h
  Listed-add_more (skipped x) (made ru) rs h = h
  Listed-add_more (skipped x) (skipped y) rs h = Memᴰ.tail h

  abbrev joined : Routes Served → Routes Served → Routes Served
  joined rs more = record { routes = rs.routes ++ more.routes; skips = rs.skips ++ more.skips }

  Listed-joined_left :
      (m : Made Served) (rs more : Routes Served) → Listed m rs → Listed m (joined rs more)
  Listed-joined_left (made rt) rs more h = Memᴰ.append_left more.routes h
  Listed-joined_left (skipped x) rs more h = Memᴰ.append_left more.skips h

  Listed-joined_right :
      (m : Made Served) (rs more : Routes Served) → Listed m more → Listed m (joined rs more)
  Listed-joined_right (made rt) rs more h = Memᴰ.append_right rs.routes h
  Listed-joined_right (skipped x) rs more h = Memᴰ.append_right rs.skips h

  module _ (resolve : Bytes → Option Field) (served : Served) where
    Listed-routes_of_rules :
        (rule : Rule) (rules : List Rule) (later : Routes Served)
        → Memᴰ rule rules
        → Listed (new_route resolve rule served) (routes_of_rules resolve served rules later)
    unfolding routes_of_rules
    Listed-routes_of_rules rule [] later h = elim h [ ]
    Listed-routes_of_rules rule (x ∷ rules) later (Memᴰ.head e) =
        subst
          (λ (r : Rule).
            Listed (new_route resolve r served)
              (add (new_route resolve x served) (routes_of_rules resolve served rules later)))
          (sym e)
          (Listed-add (new_route resolve x served) (routes_of_rules resolve served rules later))
    Listed-routes_of_rules rule (x ∷ rules) later (Memᴰ.tail h) =
        Listed-add_more (new_route resolve rule served) (new_route resolve x served)
          (routes_of_rules resolve served rules later) (Listed-routes_of_rules rule rules later h)

    Listed-routes_of_rules_later :
        (m : Made Served) (rules : List Rule) (later : Routes Served)
        → Listed m later
        → Listed m (routes_of_rules resolve served rules later)
    unfolding routes_of_rules
    Listed-routes_of_rules_later m [] later h = h
    Listed-routes_of_rules_later m (x ∷ rules) later h =
        Listed-add_more m (new_route resolve x served) (routes_of_rules resolve served rules later)
          (Listed-routes_of_rules_later m rules later h)

  -- Routes that are collected later stay.
  Listed-collect_later :
      (x : Made Served) (m : Method Served) (ms : List (Method Served))
      → Listed x (collect ms)
      → Listed x (collect (m ∷ ms))
  unfolding collect
  Listed-collect_later x m ms h = elim (Option-cases (bindings m)) [
    | inl e ↦ rw (collect, e) h
    | inr ((served, rules), e) ↦
        rw (collect, e) (Listed-routes_of_rules_later m.resolve served x rules (collect ms) h)
  ]

  module _ (m : Method Served) (served : Served) (main rule : Rule) (more : List Rule)
      (handled : m.handler ≡ some served) (declared : m.rule ≡ some (main, more))
      (one : Memᴰ rule (main ∷ more)) where
    Listed-collect_head :
        (ms : List (Method Served)) → Listed (new_route m.resolve rule served) (collect (m ∷ ms))
    unfolding collect
    Listed-collect_head ms =
        let bound : bindings m ≡ some (served, main ∷ more) =
          rw (bindings, declared, handled) refl in
        rw (collect, bound)
          (Listed-routes_of_rules m.resolve served rule (main ∷ more) (collect ms) one)

    Listed-collect :
        (ms : List (Method Served))
        → Memᴰ m ms
        → Listed (new_route m.resolve rule served) (collect ms)
    Listed-collect [] h = elim h [ ]
    Listed-collect (n ∷ ms) (Memᴰ.head e) =
        subst (λ (x : Method Served). Listed (new_route m.resolve rule served) (collect (x ∷ ms))) e
          (Listed-collect_head ms)
    Listed-collect (n ∷ ms) (Memᴰ.tail h) =
        Listed-collect_later (new_route m.resolve rule served) n ms (Listed-collect ms h)

    Listed-routes_for :
        (ms : List (Method Served)) (rs : Routes Served)
        → routes_for ms ≡ some rs
        → Memᴰ m ms
        → Listed (new_route m.resolve rule served) rs
    unfolding routes_for
    Listed-routes_for ms rs e h =
        let same : collect ms ≡ rs = ground (arith, e) in
        subst (Listed (new_route m.resolve rule served)) same (Listed-collect ms h)

    Listed-handler :
        (ss : List (List (Method Served))) (s : List (Method Served)) (rs : Routes Served)
        → handler ss ≡ some rs
        → Memᴰ s ss
        → Memᴰ m s
        → Listed (new_route m.resolve rule served) rs
    unfolding handler
    Listed-handler [] s rs e at h = elim at [ ]
    Listed-handler (x ∷ ss) s rs e at h = elim (Option-cases (routes_for x)) [
      | inl k ↦ absurd (ground (arith, k, e))
      | inr (own, k) ↦ elim (Option-cases (handler ss)) [
        | inl l ↦ absurd (ground (arith, k, l, e))
        | inr (others, l) ↦
            let same : joined own others ≡ rs = ground (arith, k, l, e) in
            subst (Listed (new_route m.resolve rule served)) same (elim at [
              | Memᴰ.head i ↦
                  Listed-joined_left (new_route m.resolve rule served) own others
                    (Listed-routes_for x own k (subst (Memᴰ m) i h))
              | Memᴰ.tail later ↦
                  Listed-joined_right (new_route m.resolve rule served) own others
                    (Listed-handler ss s others l later h)
            ])
      ]
    ]

-- When the handler of some services can be made, each binding, additional ones too, of a method of one of
-- them that is served is a route, or the reason why it is none is among those that are reported.
pub handler_lem :
    {Served : Type 0} (ss : List (List (Method Served))) (s : List (Method Served))
    (m : Method Served) (served : Served) (main rule : Rule) (more : List Rule) (rs : Routes Served)
    → handler ss ≡ some rs
    → Memᴰ s ss
    → Memᴰ m s
    → m.handler ≡ some served
    → m.rule ≡ some (main, more)
    → Memᴰ rule (main ∷ more)
    → Listed (new_route m.resolve rule served) rs
handler_lem ss s m served main rule more rs e at h handled declared one =
    Listed-handler m served main rule more handled declared one ss s rs e at h
