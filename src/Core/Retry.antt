-- ===== src/Core/Retry.antt =====
-- The retry policy of core/queue.go: shouldRetry and backoff, with the int32, int64 and float64
-- arithmetic that the code uses.
pub mod Delays
pub mod Overflow
pub mod Policy
use cloud_tasks_emulator.Base.{
  ℕ, zero, suc, ◌+◌, ◌-◌, ◌*◌, ◌/◌, ◌%◌, ◌^◌, Bool, true, not, ◌&&◌, ◌||◌, leb, ltb, ◌==◌,
  if◌then◌else◌, min,
}
use cloud_tasks_emulator.Base.Int.{
  ℤ, pos, negsuc, ◌+ℤ◌, ◌-ℤ◌, ◌*ℤ◌, ltb_ℤ, eq_ℤ, int32, int64, max_int64,
}
use cloud_tasks_emulator.Core.Types.{Time, Duration, RetryConfig}

-- What the machine's conversion of a float64 to an int64 gives where Go leaves the result to the
-- implementation: for a value above the int64s, and for one that is not a number.
pub record Machine : Type 0 where
  pub too_large : ℤ
  pub not_a_number : ℤ

-- `a.Sub(b)`, which stops at the ends of int64.
unfoldable pub time_sub : Time → Time → Duration
time_sub a b = if leb b a then pos (min (a - b) max_int64) else negsuc (min (b - a - 1) max_int64)

-- n / 2^k rounded to the nearest integer, ties to the even one, times 2^k.
round_at : ℕ → ℕ → ℕ
round_at n k =
    let q = n / 2 ^ k in
    let r = n % 2 ^ k in
    if ltb (2 ^ k) (r + r) || (r + r == 2 ^ k && q % 2 == 1) then (q + 1) * 2 ^ k else q * 2 ^ k

-- The nearest float64 of the absolute value of an int64: 53 bits are kept.
round_from : ℕ → ℕ → ℕ → ℕ
unfolding round_at
round_from zero n k = round_at n k
round_from (suc f) n k =
    let wider = round_from f n (k + 1) in if ltb n (2 ^ (53 + k)) then round_at n k else wider

unfoldable pub float_of_nat : ℕ → ℕ
unfolding round_from
float_of_nat n = if leb n (2 ^ 53) then n else round_from 11 n 0

-- `time.Duration(float64(n) * math.Pow(2, k))` of a magnitude n, which is a product by a power of
-- two and so exact, then cut towards zero. From 2^64 on any positive value is above the int64s, and
-- from 2^1024 on `math.Pow` is infinite, and 0 times that is not a number.
unfoldable pub scaled_nat : Machine → ℕ → ℤ → ℤ
scaled_nat mach n (pos k) =
    let m = float_of_nat n in
    if m == 0
    then (if ltb k 1024 then pos 0 else mach.not_a_number)
    else if leb 64 k
    then mach.too_large
    else if leb (m * 2 ^ k) max_int64
    then pos (m * 2 ^ k)
    else mach.too_large
scaled_nat mach n (negsuc k) = pos (if leb 64 k then 0 else float_of_nat n / 2 ^ (k + 1))

-- Below the int64s every conversion gives the least of them.
abbrev negated : Machine → ℕ → ℤ → ℤ
negated mach n (pos k) =
    let m = float_of_nat n in
    if leb 64 k then negsuc max_int64 else pos 0 -ℤ pos (min (m * 2 ^ k) (max_int64 + 1))
negated mach n (negsuc k) = pos 0 -ℤ pos (if leb 64 k then 0 else float_of_nat n / 2 ^ (k + 1))

unfoldable pub scaled : Machine → Duration → ℤ → Duration
unfolding scaled_nat
scaled mach (pos n) k = scaled_nat mach n k
scaled mach (negsuc n) k = negated mach (suc n) k

unfoldable pub backoff : Machine → RetryConfig → ℤ → Duration
backoff mach rc retries =
    let steps = int32 (retries -ℤ pos 1) in
    let beyond = ltb_ℤ rc.max_doublings steps in
    let doublings = if beyond then rc.max_doublings else steps in
    let d = scaled mach rc.min_backoff doublings in
    let extra =
      int64 (int32 (steps -ℤ rc.max_doublings) *ℤ scaled mach rc.min_backoff rc.max_doublings) in
    let grown = if beyond then int64 (d +ℤ extra) else d in
    let capped = if ltb_ℤ rc.max_backoff grown then rc.max_backoff else grown in
    if ltb_ℤ capped (pos 0) then rc.max_backoff else capped

-- Both limits have to be reached before the retries end; an unlimited one never ends them.
unfoldable pub should_retry : RetryConfig → ℤ → Time → Time → Bool
should_retry rc dispatch_count first_attempt_time now =
    let attempts_limited = not (eq_ℤ rc.max_attempts (negsuc 0)) in
    let duration_limited = ltb_ℤ (pos 0) rc.max_retry_duration in
    if not attempts_limited && not duration_limited
    then true
    else if attempts_limited && ltb_ℤ dispatch_count rc.max_attempts
    then true
    else duration_limited && ltb_ℤ (time_sub now first_attempt_time) rc.max_retry_duration
