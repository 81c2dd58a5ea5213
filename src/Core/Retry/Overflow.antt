-- ===== src/Core/Retry/Overflow.antt =====
-- What backoff of core/queue.go gives when the last doubled delay is above the int64s, on a machine
-- whose conversion then gives the least int64, as amd64 does.
use cloud_tasks_emulator.Base.{
  ℕ, suc, ◌-◌, ◌*◌, ◌%◌, ◌^◌, ◌≤◌, ◌<◌, ◌≡◌, refl, true, false, leb, ◌==◌, if◌then◌else◌, arith,
}
use cloud_tasks_emulator.Base.Int.{pos, negsuc, ◌+ℤ◌, ◌*ℤ◌, ltb_ℤ, int64, max_int64}
use cloud_tasks_emulator.Core.Types.{RetryConfig}
use cloud_tasks_emulator.Core.Retry.{Machine, scaled_nat, scaled, backoff}
use cloud_tasks_emulator.Core.Retry.Delays.{float_of_nat-small, steps_lem, int32_sub}

scaled-large :
    (mach : Machine) (n k : ℕ)
    → n ≤ 2 ^ 53
    → k < 64
    → max_int64 < n * 2 ^ k
    → scaled mach (pos n) (pos k) ≡ mach.too_large
unfolding scaled scaled_nat
scaled-large mach n k small short large =
    let some_delay : (n == 0) ≡ false = ground arith in
    let no_overflow : leb 64 k ≡ false = ground arith in
    let above : leb (n * 2 ^ k) max_int64 ≡ false = ground arith in
    rw (float_of_nat-small n small, some_delay, no_overflow, above) refl

-- An odd multiple of -2^63 wraps around to -2^63, and an even one to 0.
extra_lem :
    (j : ℕ) → int64 (pos j *ℤ negsuc max_int64) ≡ (if j % 2 == 0 then pos 0 else negsuc max_int64)
unfolding int64 ◌*ℤ◌
extra_lem j = ground arith

-- The least int64 and what is added to it: twice it is 0, and alone it is negative.
grown_lem :
    (j : ℕ)
    → int64 (negsuc max_int64 +ℤ (if j % 2 == 0 then pos 0 else negsuc max_int64))
      ≡ (if j % 2 == 0 then negsuc max_int64 else pos 0)
unfolding int64 ◌+ℤ◌
grown_lem j = ground arith

cut_lem :
    (max j : ℕ)
    → (let grown = if j % 2 == 0 then negsuc max_int64 else pos 0 in
        let capped = if ltb_ℤ (pos max) grown then pos max else grown in
        if ltb_ℤ capped (pos 0) then pos max else capped)
      ≡ (if j % 2 == 0 then pos max else pos 0)
cut_lem max j = ground arith

-- When the doubled delays reach 2^63 nanoseconds, on a machine that converts what is above the
-- int64s to the least of them, the delay of a retry beyond the doublings is 0 at every second one:
-- the two overflows cancel. At the others it is the maximum.
pub backoff-overflow :
    (mach : Machine) (rc : RetryConfig) (least max doublings k : ℕ)
    → mach.too_large ≡ negsuc max_int64
    → rc.min_backoff ≡ pos least
    → rc.max_backoff ≡ pos max
    → rc.max_doublings ≡ pos doublings
    → least ≤ 2 ^ 53
    → doublings < 64
    → max_int64 < least * 2 ^ doublings
    → doublings < k
    → suc k < 2147483648
    → backoff mach rc (pos (suc k)) ≡ (if (k - doublings) % 2 == 0 then pos max else pos 0)
unfolding backoff
backoff-overflow mach rc least max doublings k ht hl hm hd small short large later fits =
    let beyond : ltb_ℤ (pos doublings) (pos k) ≡ true = ground arith in
    rw
      (
        hl,
        hm,
        hd,
        steps_lem k fits,
        beyond,
        scaled-large mach least doublings small short large,
        ht,
        int32_sub k doublings (omega arith) (omega arith),
        extra_lem (k - doublings),
        grown_lem (k - doublings),
      )
      (cut_lem max (k - doublings))
