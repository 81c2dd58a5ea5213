-- ===== src/Core/Retry/Delays.antt =====
-- The delays that backoff of core/queue.go gives, against the documented sequence: doubled a number
-- of times, then growing by a constant, and never above the maximum.
use cloud_tasks_emulator.Base.{
  ℕ, zero, suc, ◌+◌, ◌-◌, ◌*◌, ◌^◌, ◌≤◌, ◌<◌, ◌≡◌, refl, ap, ◌∙◌, true, false, ltb, leb, ◌==◌,
  if◌then◌else◌, min, arith, Bool-cases, inl, inr,
}
use cloud_tasks_emulator.Base.Int.{
  ℤ, pos, negsuc, ◌-ℤ◌, ltb_ℤ, int32, max_int64, int64_of_nat, +ℤ_pos, *ℤ_pos,
}
use cloud_tasks_emulator.Core.Types.{RetryConfig}
use cloud_tasks_emulator.Core.Retry.{Machine, float_of_nat, scaled_nat, scaled, backoff}

-- The last two steps of `backoff`.
abbrev kept_below : ℤ → ℤ → ℤ
kept_below max grown =
    let capped = if ltb_ℤ max grown then max else grown in
    if ltb_ℤ capped (pos 0) then max else capped

kept_below_lem : (max : ℕ) (grown : ℤ) → (d : ℕ) × (kept_below (pos max) grown ≡ pos d) × (d ≤ max)
kept_below_lem max (pos n) = (min n max, ground arith, omega arith)
kept_below_lem max (negsuc n) = (max, ground arith, omega arith)

-- Under a maximum that is not negative, whatever the other settings, the retry number and the
-- machine, the delay is not negative and not above the maximum.
pub backoff-bounds :
    (mach : Machine) (rc : RetryConfig) (retries : ℤ) (max : ℕ)
    → rc.max_backoff ≡ pos max
    → (d : ℕ) × (backoff mach rc retries ≡ pos d) × (d ≤ max)
unfolding backoff
backoff-bounds mach rc retries max h = rw h (kept_below_lem max _)

-- The documented delay before retry k + 1, without the maximum: the least delay doubled at each of
-- the first `doublings` retries, and from then on more by the last doubled delay each time.
unfoldable pub delay : ℕ → ℕ → ℕ → ℕ
delay least doublings zero = least
delay least doublings (suc k) =
    let d = delay least doublings k in if ltb k doublings then 2 * d else d + least * 2 ^ doublings

pow_suc : (k : ℕ) → 2 ^ suc k ≡ 2 * 2 ^ k
pow_suc k = omega arith

delay-doubling : (least doublings k : ℕ) → k ≤ doublings → delay least doublings k ≡ least * 2 ^ k
unfolding delay
delay-doubling least doublings zero h = omega arith
delay-doubling least doublings (suc k) h =
    let early : ltb k doublings ≡ true = ground arith in
    rw (early, delay-doubling least doublings k (omega arith)) (rw (pow_suc k) (grind arith))

delay-linear :
    (least doublings j k : ℕ)
    → k ≡ doublings + j
    → delay least doublings k ≡ least * 2 ^ doublings + j * (least * 2 ^ doublings)
unfolding delay
delay-linear least doublings zero k h =
    ap (delay least doublings) h
    ∙ delay-doubling least doublings (doublings + 0) (omega arith)
    ∙ rw (ap (λ n. 2 ^ n) (h' doublings)) (omega arith)
  where
    h' : (n : ℕ) → n + 0 ≡ n
    h' n = omega arith
delay-linear least doublings (suc j) zero h = absurd (omega arith)
delay-linear least doublings (suc j) (suc k) h =
    let late : ltb k doublings ≡ false = ground arith in
    rw (late, delay-linear least doublings j k (omega arith)) (grind arith)

below : (a b : ℕ) → a ≤ b → leb a b ≡ true
below a b h = ground arith

pub float_of_nat-small : (n : ℕ) → n ≤ 2 ^ 53 → float_of_nat n ≡ n
unfolding float_of_nat
float_of_nat-small n h = rw (below n (2 ^ 53) h) refl

scaled-small :
    (mach : Machine) (n k : ℕ)
    → 0 < n
    → n ≤ 2 ^ 53
    → k < 64
    → n * 2 ^ k ≤ max_int64
    → scaled mach (pos n) (pos k) ≡ pos (n * 2 ^ k)
unfolding scaled scaled_nat
scaled-small mach n k positive small short fits =
    let some_delay : (n == 0) ≡ false = ground arith in
    let no_overflow : leb 64 k ≡ false = ground arith in
    rw (float_of_nat-small n small, some_delay, no_overflow, below (n * 2 ^ k) max_int64 fits) refl

kept_below_pos : (max d : ℕ) → kept_below (pos max) (pos d) ≡ pos (min d max)
kept_below_pos max d = ground arith

pub int32_sub : (a b : ℕ) → b ≤ a → a < 2147483648 → int32 (pos a -ℤ pos b) ≡ pos (a - b)
unfolding int32 ◌-ℤ◌
int32_sub a b le fits = ground arith

pub steps_lem : (k : ℕ) → suc k < 2147483648 → int32 (pos (suc k) -ℤ pos 1) ≡ pos k
steps_lem k fits = int32_sub (suc k) 1 (omega arith) fits ∙ ap pos (omega arith)

-- With a least delay from 1 to 2^53 nanoseconds, fewer than 64 doublings, and a delay before retry
-- k + 1 that an int64 holds, the code's delay is the documented one, cut at the maximum.
pub backoff-delay :
    (mach : Machine) (rc : RetryConfig) (least max doublings k : ℕ)
    → rc.min_backoff ≡ pos least
    → rc.max_backoff ≡ pos max
    → rc.max_doublings ≡ pos doublings
    → 0 < least
    → least ≤ 2 ^ 53
    → doublings < 64
    → suc k < 2147483648
    → delay least doublings k ≤ max_int64
    → backoff mach rc (pos (suc k)) ≡ pos (min (delay least doublings k) max)
unfolding backoff
backoff-delay mach rc least max doublings k hl hm hd positive small short fits bound =
    elim (Bool-cases (ltb_ℤ (pos doublings) (pos k))) [
      | inl beyond ↦
          let unit = least * 2 ^ doublings in
          let exact = delay-linear least doublings (k - doublings) k (ground arith) in
          let last = scaled-small mach least doublings positive small short (ground arith) in
          rw
            (
              hl,
              hm,
              hd,
              steps_lem k fits,
              beyond,
              last,
              int32_sub k doublings (ground arith) (omega arith),
              *ℤ_pos (k - doublings) unit,
              int64_of_nat ((k - doublings) * unit) (omega arith),
              +ℤ_pos unit ((k - doublings) * unit),
              int64_of_nat (unit + (k - doublings) * unit) (omega arith),
              exact,
            )
            (kept_below_pos max (unit + (k - doublings) * unit))
      | inr within ↦
          let exact = delay-doubling least doublings k (ground arith) in
          rw
            (
              hl,
              hm,
              hd,
              steps_lem k fits,
              within,
              scaled-small mach least k positive small (ground arith) (omega (arith, exact, bound)),
              exact,
            )
            (kept_below_pos max (least * 2 ^ k))
    ]
