-- ===== src/Core/Runtime/Gated.antt =====
-- The places of core/queue.go's semaphores through the steps of the goroutines.
use cloud_tasks_emulator.Base.{
  ℕ, zero, suc, ◌+◌, ◌-◌, ◌≤◌, ◌<◌, ◌≡◌, refl, subst, sym, false, Option, none, some, List, [], ◌∷◌,
  ◌++◌, get_elem?, set, length, length-append, All, arith, inl, inr, Option-cases,
}
use cloud_tasks_emulator.Core.Queue.{Limiter, Semaphore, QueueState, modify}
use cloud_tasks_emulator.Core.Queue.Heap.{get_elem?-modify, length-modify, get_elem?-append_one}
use cloud_tasks_emulator.Core.Runtime.{Waiter, Flight, remove_at, release}
use cloud_tasks_emulator.Core.Runtime.Valid.{
  at_gate, holders, Within, Gated, holders-append_one, holders-remove_at, holders-set,
  All-append_one, All-remove_at, All-set, All-get_elem?, All-weaken,
}

Within-weaken : (m n : ℕ) (o : Option ℕ) → m ≤ n → Within m o → Within n o
Within-weaken m n none le h = tt
Within-weaken m n (some g) le h = omega arith

module _ (ss : List Semaphore) (waiting : List Waiter) (inside : List Flight)
    (v : Gated ss waiting inside) where
  pub Gated-wait :
      (p g : ℕ) (l : Limiter)
      → g < length ss
      → Gated ss (waiting ++ record { task = p; gate = g; limiter = l } ∷ []) inside
  Gated-wait p g l known = record {
    counted = v.counted;
    inside_known = v.inside_known;
    waiting_known = All-append_one (λ w. w.gate < length ss) waiting _ v.waiting_known known;
  }

  pub Gated-run :
      (p : ℕ) → Gated ss waiting (inside ++ record { task = p; gate = none; sending = none } ∷ [])
  Gated-run p = record {
    counted = λ g x at. ground (
      arith,
      v.counted g x at,
      holders-append_one g inside (record { task = p; gate = none; sending = none }),
    );
    inside_known = All-append_one (λ f. Within (length ss) f.gate) inside _ v.inside_known tt;
    waiting_known = v.waiting_known;
  }

  pub Gated-set :
      (i : ℕ) (f f' : Flight)
      → get_elem? inside i ≡ some f
      → f'.gate ≡ f.gate
      → Gated ss waiting (set inside i f')
  Gated-set i f f' at same = record {
    counted = λ g x found. ground (arith, v.counted g x found, holders-set g inside i f f' at same);
    inside_known =
        All-set (λ f. Within (length ss) f.gate) inside i f' v.inside_known
          (subst (Within (length ss)) (sym same)
            (All-get_elem? (λ f. Within (length ss) f.gate) inside i f v.inside_known at));
    waiting_known = v.waiting_known;
  }

  pub Gated-admit :
      (i : ℕ) (w : Waiter) (x : Semaphore)
      → get_elem? waiting i ≡ some w
      → get_elem? ss w.gate ≡ some x
      → x.held < x.capacity
      → Gated
          (modify ss w.gate (λ y. record y { held = y.held + 1 }))
          (remove_at waiting i)
          (inside ++ record { task = w.task; gate = some w.gate; sending = none } ∷ [])
  Gated-admit i w x at found free =
      let up = λ (y : Semaphore). record y { held = y.held + 1 } in
      let f : Flight = record { task = w.task; gate = some w.gate; sending = none } in
      let more : length ss ≤ length (modify ss w.gate up) =
        omega (arith, length-modify ss w.gate up) in
      record {
        counted = λ g y h. ground (
          arith,
          get_elem?-modify ss w.gate g up x found,
          v.counted g y,
          v.counted w.gate x found,
          holders-append_one g inside f,
        );
        inside_known =
            All-append_one (λ f. Within (length (modify ss w.gate up)) f.gate) inside f
              (All-weaken (λ f. Within (length ss) f.gate) _ inside
                (λ f. Within-weaken _ _ f.gate more) v.inside_known)
              (omega (
                arith,
                more,
                All-get_elem? (λ w. w.gate < length ss) waiting i w v.waiting_known at,
              ));
        waiting_known =
            All-weaken (λ w. w.gate < length ss) _ (remove_at waiting i)
              (λ w h. omega (arith, more))
              (All-remove_at (λ w. w.gate < length ss) waiting i v.waiting_known);
      }

  Gated-dropped :
      (i : ℕ) (f : Flight)
      → get_elem? inside i ≡ some f
      → f.gate ≡ none
      → Gated ss waiting (remove_at inside i)
  Gated-dropped i f at free = record {
    counted = λ g x found. ground (arith, v.counted g x found, holders-remove_at g inside i f at);
    inside_known = All-remove_at (λ f. Within (length ss) f.gate) inside i v.inside_known;
    waiting_known = v.waiting_known;
  }

  Gated-released :
      (i g : ℕ) (f : Flight) (x : Semaphore)
      → get_elem? inside i ≡ some f
      → f.gate ≡ some g
      → get_elem? ss g ≡ some x
      → Gated (modify ss g (λ y. record y { held = y.held - 1 })) waiting (remove_at inside i)
  Gated-released i g f x at gate found =
      let down = λ (y : Semaphore). record y { held = y.held - 1 } in
      let same : length ss ≤ length (modify ss g down) = omega (arith, length-modify ss g down) in
      record {
        counted = λ h y there. ground (
          arith,
          get_elem?-modify ss g h down x found,
          v.counted h y,
          v.counted g x found,
          holders-remove_at h inside i f at,
        );
        inside_known =
            All-weaken (λ f. Within (length ss) f.gate) _ (remove_at inside i)
              (λ f. Within-weaken _ _ f.gate same)
              (All-remove_at (λ f. Within (length ss) f.gate) inside i v.inside_known);
        waiting_known =
            All-weaken (λ w. w.gate < length ss) _ waiting (λ w h. omega (arith, same))
              v.waiting_known;
      }

  pub Gated-rebuild :
      (n : ℕ) → 0 < n → Gated (ss ++ record { capacity = n; held = 0 } ∷ []) waiting inside
  Gated-rebuild n positive =
      let new : Semaphore = record { capacity = n; held = 0 } in
      let more : length ss ≤ length (ss ++ new ∷ []) = omega (arith, length-append {0} ss) in
      record {
        counted = λ g y h. ground (
          arith,
          get_elem?-append_one ss new g,
          v.counted g y,
          unheld (length ss) inside v.inside_known,
        );
        inside_known =
            All-weaken (λ f. Within (length ss) f.gate) _ inside
              (λ f. Within-weaken _ _ f.gate more) v.inside_known;
        waiting_known =
            All-weaken (λ w. w.gate < length ss) _ waiting (λ w h. omega (arith, more))
              v.waiting_known;
      }
    where
      none_held : (n : ℕ) (o : Option ℕ) → Within n o → at_gate n o ≡ false
      none_held n none h = refl
      none_held n (some g) h = ground arith

      unheld : (n : ℕ) (fs : List Flight) → All (λ f. Within n f.gate) fs → holders n fs ≡ 0
      unheld n [] h = refl
      unheld n (f ∷ fs) h = ground (arith, none_held n f.gate h.0, unheld n fs h.1)

pub get_elem?-lt {ℓ} :
    {A : Type ℓ} (xs : List A) (i : ℕ) → i < length xs → (x : A) × (get_elem? xs i ≡ some x)
get_elem?-lt [] i h = absurd (omega arith)
get_elem?-lt (x ∷ xs) zero h = (x, refl)
get_elem?-lt (x ∷ xs) (suc i) h = get_elem?-lt xs i (omega arith)

-- The place is given back.
pub Gated-leave :
    (qs : QueueState) (waiting : List Waiter) (inside : List Flight) (i : ℕ) (f : Flight)
    → Gated qs.semaphores waiting inside
    → get_elem? inside i ≡ some f
    → Gated (release f.gate qs).semaphores waiting (remove_at inside i)
unfolding release
Gated-leave qs waiting inside i f v at = elim (Option-cases f.gate) [
  | inl free ↦ rw (free, release) (Gated-dropped qs.semaphores waiting inside v i f at free)
  | inr (g, gate) ↦
      let known : g < length qs.semaphores =
        subst (Within (length qs.semaphores)) gate (
          All-get_elem? (λ f. Within (length qs.semaphores) f.gate) inside i f v.inside_known at) in
      let (x, found) = get_elem?-lt qs.semaphores g known in
      rw (gate, release) (Gated-released qs.semaphores waiting inside v i g f x at gate found)
]
