-- ===== src/Core/Dispatch/Alike.antt =====
-- Headers of which no two have the same name for net/http, in whatever order core/dispatch.go goes over
-- them.
use mathlib.Core.List.{Permᴰ}
use mathlib.Core.List.Permᴰ
use cloud_tasks_emulator.Base.{
  ◌≡◌, refl, sym, ap, ◌∙◌, Bool, true, false, not, ◌&&◌, ◌||◌, Option, none, some, [], ◌∷◌,
  if◌then◌else◌, arith, subst, Option-cases, inl, inr,
}
use cloud_tasks_emulator.Base.Bytes.{Bytes, bytes_eq, bytes_eq_iff}
use cloud_tasks_emulator.Base.Dict.{Dict, lookup, insert, lookup-insert}
use cloud_tasks_emulator.Std.Http.{Header, header_set, canonical}
use cloud_tasks_emulator.Core.Dispatch.Request.{set_all}
use cloud_tasks_emulator.Core.Dispatch.System.{single}

-- A header has the same name as `c` for net/http.
unfoldable pub named_alike : Bytes → Dict Bytes → Bool
named_alike c [] = false
named_alike c ((k, v) ∷ headers) = bytes_eq (canonical k) c || named_alike c headers

-- No two names are the same for net/http.
unfoldable pub all_unlike : Dict Bytes → Bool
unfolding named_alike
all_unlike [] = true
all_unlike ((k, v) ∷ headers) = not (named_alike (canonical k) headers) && all_unlike headers

lookup-set_all_other :
    (headers : Dict Bytes) (h : Header) (c : Bytes)
    → named_alike c headers ≡ false
    → lookup c (set_all headers h) ≡ lookup c h
unfolding set_all named_alike header_set
lookup-set_all_other [] h c u = refl
lookup-set_all_other ((k, v) ∷ headers) h c u = ground (
  arith,
  lookup-insert (canonical k) c (v ∷ []) h,
  lookup-set_all_other headers (insert (canonical k) (v ∷ []) h) c,
)

-- The value of the header that has the name for net/http, if there is one.
unfoldable pub value_alike : Bytes → Dict Bytes → Option Bytes
value_alike c [] = none
value_alike c ((k, v) ∷ headers) =
    let rest = value_alike c headers in if bytes_eq (canonical k) c then some v else rest

pub value_alike-none :
    (headers : Dict Bytes) (c : Bytes)
    → value_alike c headers ≡ none
    → named_alike c headers ≡ false
unfolding value_alike named_alike
value_alike-none [] c e = refl
value_alike-none ((k, v) ∷ headers) c e = ground (arith, value_alike-none headers c)

pub value_alike-some :
    (headers : Dict Bytes) (h : Header) (c v : Bytes)
    → all_unlike headers ≡ true
    → value_alike c headers ≡ some v
    → lookup c (set_all headers h) ≡ some (v ∷ [])
unfolding value_alike set_all all_unlike header_set
value_alike-some [] h c v u e = cc
value_alike-some ((k, w) ∷ headers) h c v u e = ground (
  arith,
  bytes_eq_iff (canonical k) c,
  lookup-insert (canonical k) c (w ∷ []) h,
  lookup-set_all_other headers (insert (canonical k) (w ∷ []) h) c,
  value_alike-some headers (insert (canonical k) (w ∷ []) h) c v,
)

lookup-named_alike :
    (headers : Dict Bytes) (k v : Bytes)
    → lookup k headers ≡ some v
    → named_alike (canonical k) headers ≡ true
unfolding lookup named_alike
lookup-named_alike [] k v e = cc
lookup-named_alike ((j, w) ∷ headers) k v e = ground (
  arith,
  bytes_eq_iff j k,
  bytes_eq_iff (canonical j) (canonical k),
  ap canonical,
  lookup-named_alike headers k v,
)

pub lookup-value_alike :
    (headers : Dict Bytes) (k v : Bytes)
    → all_unlike headers ≡ true
    → lookup k headers ≡ some v
    → value_alike (canonical k) headers ≡ some v
unfolding lookup all_unlike value_alike
lookup-value_alike [] k v u e = cc
lookup-value_alike ((j, w) ∷ headers) k v u e = ground (
  arith,
  bytes_eq_iff j k,
  bytes_eq_iff (canonical j) (canonical k),
  ap canonical,
  lookup-named_alike headers k v,
  lookup-value_alike headers k v,
)

named_alike_order : {a b : Dict Bytes} (c : Bytes) → Permᴰ a b → named_alike c a ≡ named_alike c b
unfolding named_alike
named_alike_order c Permᴰ.nil = refl
named_alike_order c (Permᴰ.cons e d) =
    ground (arith, ap (λ (x : Bytes × Bytes). bytes_eq (canonical x.0) c) e, named_alike_order c d)
named_alike_order c (Permᴰ.swap e f) = ground (
  arith,
  ap (λ (x : Bytes × Bytes). bytes_eq (canonical x.0) c) e,
  ap (λ (x : Bytes × Bytes). bytes_eq (canonical x.0) c) f,
)
named_alike_order c (Permᴰ.trans d f) = named_alike_order c d ∙ named_alike_order c f

swap_unlike :
    (x y : Bytes × Bytes) (l : Dict Bytes)
    → all_unlike (x ∷ y ∷ l) ≡ true
    → all_unlike (y ∷ x ∷ l) ≡ true
unfolding all_unlike named_alike
swap_unlike x y l u = ground (
  arith,
  u,
  bytes_eq_iff (canonical x.0) (canonical y.0),
  bytes_eq_iff (canonical y.0) (canonical x.0),
)

all_unlike_order : {a b : Dict Bytes} → Permᴰ a b → all_unlike a ≡ true → all_unlike b ≡ true
unfolding all_unlike
all_unlike_order Permᴰ.nil u = refl
all_unlike_order (Permᴰ.cons {a = x} {b = y} {l₁ = l} e d) u = ground (
  arith,
  u,
  ap (λ (z : Bytes × Bytes). named_alike (canonical z.0) l) e,
  named_alike_order (canonical y.0) d,
  all_unlike_order d,
)
all_unlike_order (Permᴰ.swap {a = x} {b = y} {b' = x'} {l = l} e f) u =
    subst (λ (z : Bytes × Bytes). all_unlike (z ∷ x' ∷ l) ≡ true) f
      (subst (λ (z : Bytes × Bytes). all_unlike (y ∷ z ∷ l) ≡ true) e (swap_unlike x y l u))
all_unlike_order (Permᴰ.trans d f) u = all_unlike_order f (all_unlike_order d u)

swap_value :
    (x y : Bytes × Bytes) (l : Dict Bytes) (c : Bytes)
    → all_unlike (x ∷ y ∷ l) ≡ true
    → value_alike c (x ∷ y ∷ l) ≡ value_alike c (y ∷ x ∷ l)
unfolding all_unlike named_alike value_alike
swap_value x y l c u = ground (
  arith,
  u,
  bytes_eq_iff (canonical x.0) c,
  bytes_eq_iff (canonical y.0) c,
  bytes_eq_iff (canonical y.0) (canonical x.0),
)

value_alike_order :
    {a b : Dict Bytes} (c : Bytes)
    → Permᴰ a b
    → all_unlike a ≡ true
    → value_alike c a ≡ value_alike c b
unfolding value_alike
value_alike_order c Permᴰ.nil u = refl
value_alike_order c (Permᴰ.cons {a = x} {b = y} {l₂ = l} e d) u =
    ap (λ (o : Option Bytes). if bytes_eq (canonical x.0) c then some x.1 else o)
      (value_alike_order c d (unfold all_unlike in ground (arith, u)))
    ∙ ap (λ (z : Bytes × Bytes). value_alike c (z ∷ l)) e
value_alike_order c (Permᴰ.swap {a = x} {b = y} {b' = x'} {l = l} e f) u =
    swap_value x y l c u
    ∙ ap (λ (z : Bytes × Bytes). value_alike c (y ∷ z ∷ l)) e
    ∙ ap (λ (z : Bytes × Bytes). value_alike c (z ∷ x' ∷ l)) f
value_alike_order c (Permᴰ.trans d f) u =
    value_alike_order c d u ∙ value_alike_order c f (all_unlike_order d u)

-- Headers of which no two have the same name are set to the same, in whatever order.
pub lookup-set_all :
    (headers ranged : Dict Bytes) (c : Bytes)
    → Permᴰ ranged headers
    → all_unlike headers ≡ true
    → lookup c (set_all ranged []) ≡ single (value_alike c headers)
unfolding lookup
lookup-set_all headers ranged c each u =
    let d = Permᴰ.symm each in
    let same = value_alike_order c d u in
    elim (Option-cases (value_alike c ranged)) [
      | inl e ↦
          lookup-set_all_other ranged [] c (value_alike-none ranged c e)
          ∙ ap single (sym (same ∙ e))
      | inr (v, e) ↦
          value_alike-some ranged [] c v (all_unlike_order d u) e ∙ ap single (sym (same ∙ e))
    ]
