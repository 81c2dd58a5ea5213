-- ===== src/Core/Runtime/Valid.antt =====
-- What holds of a queue of core/queue.go at work between any two steps.
use cloud_tasks_emulator.Base.{
  ℕ, zero, suc, ◌+◌, ◌≤◌, ◌<◌, ◌≡◌, refl, Bool, true, false, Option, none, some, List, [], ◌∷◌,
  ◌++◌, get_elem?, set, length, All, ◌==◌, if◌then◌else◌, arith, subst,
}
use cloud_tasks_emulator.Base.Int.{ltb_ℤ, pos}
use cloud_tasks_emulator.Core.Queue.{Semaphore}
use cloud_tasks_emulator.Core.Queue.Valid.{IsValid}
use cloud_tasks_emulator.Core.Runtime.{Waiter, Flight, Runtime, remove_at}

abbrev pub at_gate : ℕ → Option ℕ → Bool
at_gate g none = false
at_gate g (some h) = h == g

-- The goroutines that hold a place in a semaphore.
abbrev pub holders : ℕ → List Flight → ℕ
holders g [] = 0
holders g (f ∷ fs) = (if at_gate g f.gate then 1 else 0) + holders g fs

abbrev pub Within : ℕ → Option ℕ → Type 0
Within n none = Unit
Within n (some g) = g < n

-- A semaphore counts the goroutines that hold a place in it, they are at most its capacity, and that
-- is not 0; whatever waits for a place or holds one does so in a semaphore that exists.
pub record Gated (ss : List Semaphore) (waiting : List Waiter) (inside : List Flight) : Type 0 where
  pub counted :
      (g : ℕ) (x : Semaphore)
      → get_elem? ss g ≡ some x
      → (x.held ≡ holders g inside) × (x.held ≤ x.capacity) × (0 < x.capacity)
  pub inside_known : All (λ f. Within (length ss) f.gate) inside
  pub waiting_known : All (λ w. w.gate < length ss) waiting

-- With a burst of at least 1 the limiter never refuses a wait for one event.
pub record RuntimeIsValid (rt : Runtime) : Type 0 where
  pub queue : IsValid rt.qs
  pub gated : Gated rt.qs.semaphores rt.waiting rt.inside
  pub burst : ltb_ℤ (pos 0) rt.qs.limiter.burst ≡ true

pub holders-append_one :
    (g : ℕ) (fs : List Flight) (f : Flight)
    → holders g (fs ++ f ∷ []) ≡ (if at_gate g f.gate then 1 else 0) + holders g fs
holders-append_one g [] f = refl
holders-append_one g (x ∷ fs) f = omega (arith, holders-append_one g fs f)

pub holders-remove_at :
    (g : ℕ) (fs : List Flight) (i : ℕ) (f : Flight)
    → get_elem? fs i ≡ some f
    → (if at_gate g f.gate then 1 else 0) + holders g (remove_at fs i) ≡ holders g fs
unfolding remove_at
holders-remove_at g [] i f h = cc
holders-remove_at g (x ∷ fs) zero f h = ground arith
holders-remove_at g (x ∷ fs) (suc i) f h = omega (arith, holders-remove_at g fs i f h)

pub holders-set :
    (g : ℕ) (fs : List Flight) (i : ℕ) (f f' : Flight)
    → get_elem? fs i ≡ some f
    → f'.gate ≡ f.gate
    → holders g (set fs i f') ≡ holders g fs
holders-set g [] i f f' h same = cc
holders-set g (x ∷ fs) zero f f' h same = ground arith
holders-set g (x ∷ fs) (suc i) f f' h same = omega (arith, holders-set g fs i f f' h same)

module _ {ℓ κ} {A : Type ℓ} (P : A → Type κ) where
  pub All-append_one : (xs : List A) (x : A) → All P xs → P x → All P (xs ++ x ∷ [])
  All-append_one [] x old new = (new, tt)
  All-append_one (y ∷ xs) x old new = (old.0, All-append_one xs x old.1 new)

  pub All-remove_at : (xs : List A) (i : ℕ) → All P xs → All P (remove_at xs i)
  unfolding remove_at
  All-remove_at [] i h = tt
  All-remove_at (x ∷ xs) zero h = h.1
  All-remove_at (x ∷ xs) (suc i) h = (h.0, All-remove_at xs i h.1)

  pub All-set : (xs : List A) (i : ℕ) (x : A) → All P xs → P x → All P (set xs i x)
  All-set [] i x old new = tt
  All-set (y ∷ xs) zero x old new = (new, old.1)
  All-set (y ∷ xs) (suc i) x old new = (old.0, All-set xs i x old.1 new)

  pub All-get_elem? : (xs : List A) (i : ℕ) (x : A) → All P xs → get_elem? xs i ≡ some x → P x
  All-get_elem? [] i x h at = cc
  All-get_elem? (y ∷ xs) zero x h at = subst P (cc) h.0
  All-get_elem? (y ∷ xs) (suc i) x h at = All-get_elem? xs i x h.1 at

  pub All-weaken {μ} : (Q : A → Type μ) (xs : List A) → ((x : A) → P x → Q x) → All P xs → All Q xs
  All-weaken Q [] h old = tt
  All-weaken Q (x ∷ xs) h old = (h x old.0, All-weaken Q xs h old.1)

  pub All-of_get_elem? :
      (xs : List A) → ((i : ℕ) (x : A) → get_elem? xs i ≡ some x → P x) → All P xs
  All-of_get_elem? [] h = tt
  All-of_get_elem? (x ∷ xs) h = (h 0 x refl, All-of_get_elem? xs (λ i. h (suc i)))
