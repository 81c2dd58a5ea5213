-- ===== src/Core/Float.antt =====
-- What the code uses of float64: a finite float is an integer multiple of 2^-1074, which is the
-- spacing of the smallest ones, so the order of floats is that of these integers.
use cloud_tasks_emulator.Base.{ℕ, ◌*◌, ◌^◌, Bool, true, false, ◌||◌}
use cloud_tasks_emulator.Base.Int.{ℤ, pos, ltb_ℤ, eq_ℤ}

-- `finite z` is z / 2^1074.
pub data Float64 : Type 0 where
  nan pos_inf neg_inf : Float64
  finite : ℤ → Float64

abbrev pub scale : ℕ
scale = 2 ^ 1074

-- The float that an integer constant below 2^53 denotes.
unfoldable pub of_ℕ : ℕ → Float64
of_ℕ n = finite (pos (n * scale))

-- `x < y`, which is false when either side is not a number.
unfoldable pub ltb_float : Float64 → Float64 → Bool
ltb_float (finite a) (finite b) = ltb_ℤ a b
ltb_float (finite a) pos_inf = true
ltb_float neg_inf (finite b) = true
ltb_float neg_inf pos_inf = true
ltb_float _ _ = false

unfoldable pub eq_float : Float64 → Float64 → Bool
eq_float (finite a) (finite b) = eq_ℤ a b
eq_float pos_inf pos_inf = true
eq_float neg_inf neg_inf = true
eq_float _ _ = false

-- `x >= y`.
unfoldable pub geb_float : Float64 → Float64 → Bool
unfolding ltb_float eq_float
geb_float x y = ltb_float y x || eq_float x y
