-- ===== src/Core/Queue/Heap.antt =====
-- Reads of the heaps of core/queue.go's model behind its writes.
use cloud_tasks_emulator.Base.{
  ℕ, zero, suc, ◌≤◌, ◌≡◌, refl, none, some, List, [], ◌∷◌, ◌++◌, ◌==◌, if◌then◌else◌, length,
  length-set, get_elem?, set, Option-cases, inl, inr, arith,
}
use cloud_tasks_emulator.Core.Queue.{modify}

module _ {ℓ} {A : Type ℓ} where
  get_elem?-set :
      (xs : List A) (p q : ℕ) (x y : A)
      → get_elem? xs p ≡ some x
      → get_elem? (set xs p y) q ≡ (if p == q then some y else get_elem? xs q)
  get_elem?-set [] p q x y h = cc
  get_elem?-set (z ∷ xs) zero zero x y h = refl
  get_elem?-set (z ∷ xs) zero (suc q) x y h = ground arith
  get_elem?-set (z ∷ xs) (suc p) zero x y h = ground arith
  get_elem?-set (z ∷ xs) (suc p) (suc q) x y h = ground (arith, get_elem?-set xs p q x y h)

  -- A write at a pointer changes what stands there and nothing else.
  pub get_elem?-modify :
      (xs : List A) (p q : ℕ) (f : A → A) (x : A)
      → get_elem? xs p ≡ some x
      → get_elem? (modify xs p f) q ≡ (if p == q then some (f x) else get_elem? xs q)
  unfolding modify
  get_elem?-modify xs p q f x h = rw (h, modify) (get_elem?-set xs p q x (f x) h)

  pub length-modify : (xs : List A) (p : ℕ) (f : A → A) → length (modify xs p f) ≡ length xs
  unfolding modify
  length-modify xs p f = elim (Option-cases (get_elem? xs p)) [
    | inl e ↦ rw (e, modify) refl
    | inr (x, e) ↦ rw (e, modify) (length-set xs p (f x))
  ]

  -- A new cell stands behind the old ones.
  pub get_elem?-append_one :
      (xs : List A) (y : A) (q : ℕ)
      → get_elem? (xs ++ y ∷ []) q ≡ (if length xs == q then some y else get_elem? xs q)
  get_elem?-append_one [] y zero = refl
  get_elem?-append_one [] y (suc q) = ground arith
  get_elem?-append_one (x ∷ xs) y zero = ground arith
  get_elem?-append_one (x ∷ xs) y (suc q) = ground (arith, get_elem?-append_one xs y q)

  pub get_elem?-ge : (xs : List A) (p : ℕ) → length xs ≤ p → get_elem? xs p ≡ none
  get_elem?-ge [] p h = refl
  get_elem?-ge (y ∷ xs) zero h = absurd (omega arith)
  get_elem?-ge (y ∷ xs) (suc p) h = get_elem?-ge xs p (omega arith)
