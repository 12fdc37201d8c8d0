-- ===== src/Base/Int64.antt =====
-- Go's `int`, `int64` and `time.Duration`: 64-bit two's complement. Sums and products wrap around;
-- the difference of two instants (`Time.Sub`) saturates.
use Prim.Native.Nat.{ℕ, ◌+◌, ◌-◌, ◌%◌, ◌^◌, ◌≤◌, ◌<◌}
use mathlib.Core.Bool.{false}
use mathlib.Core.Path.{◌≡◌}
use native.Mathlib.Omega.{arith}
use yaadegar.Base.Text.{ltb, if◌then◌else◌}
use yaadegar.Base.Int.{ℤ, pos, negsuc, ◌+ℤ◌, ◌-ℤ◌, ◌*ℤ◌, ◌≤ℤ◌, ◌<ℤ◌, ltb_ℤ, +ℤ_parts}

abbrev pub min_int64 : ℤ
min_int64 = negsuc (2 ^ 63 - 1)

abbrev pub max_int64 : ℤ
max_int64 = pos (2 ^ 63 - 1)

-- The integers that fit.
abbrev pub IsInt64 : ℤ → Type 0
IsInt64 z = (min_int64 ≤ℤ z) × (z ≤ℤ max_int64)

-- The bit pattern of an integer, and the integer that a bit pattern stands for.
abbrev pub pattern64 : ℤ → ℕ
pattern64 (pos n) = n % 2 ^ 64
pattern64 (negsuc n) = 2 ^ 64 - 1 - n % 2 ^ 64

abbrev pub signed64 : ℕ → ℤ
signed64 m = if ltb m (2 ^ 63) then pos m else negsuc (2 ^ 64 - 1 - m)

unfoldable pub wrap64 : ℤ → ℤ
wrap64 z = signed64 (pattern64 z)

unfoldable pub add64 : ℤ → ℤ → ℤ
add64 a b = wrap64 (a +ℤ b)

unfoldable pub mul64 : ℤ → ℤ → ℤ
mul64 a b = wrap64 (a *ℤ b)

-- `t.Sub(u)` on instants.
unfoldable pub sub_time : ℤ → ℤ → ℤ
sub_time t u =
    let d = t -ℤ u in
    if ltb_ℤ max_int64 d then max_int64 else if ltb_ℤ d min_int64 then min_int64 else d

-- Arithmetic that stays in range is exact.
pub wrap64_exact : (z : ℤ) → IsInt64 z → wrap64 z ≡ z
unfolding wrap64
wrap64_exact (pos n) h = ground arith
wrap64_exact (negsuc n) h = ground arith

pub wrap64-IsInt64 : (z : ℤ) → IsInt64 (wrap64 z)
unfolding wrap64
wrap64-IsInt64 (pos n) = ground arith
wrap64-IsInt64 (negsuc n) = ground arith

pub add64_exact : (a b : ℤ) → IsInt64 (a +ℤ b) → add64 a b ≡ a +ℤ b
unfolding add64
add64_exact a b h = wrap64_exact (a +ℤ b) h

pub mul64_exact : (a b : ℤ) → IsInt64 (a *ℤ b) → mul64 a b ≡ a *ℤ b
unfolding mul64
mul64_exact a b h = wrap64_exact (a *ℤ b) h

-- Saturation does not change a comparison with a duration above the least one.
pub sub_time-lt :
    (t u d : ℤ) → min_int64 <ℤ d → d ≤ℤ max_int64 → ltb_ℤ (sub_time t u) d ≡ ltb_ℤ (t -ℤ u) d
unfolding sub_time
sub_time-lt t u d lo hi = ground arith

-- A sum that fits is compared as it is.
pub add64-le : (t q w : ℤ) → IsInt64 (t +ℤ q) → ltb_ℤ w (add64 t q) ≡ false → t +ℤ q ≤ℤ w
add64-le t q w fits h = let e = add64_exact t q fits in let h' = rw e at h in ground (arith, h')

-- A sum of two int64 that passes the greatest one wraps around to a negative number.
add64-negative :
    (a b : ℕ)
    → a < 2 ^ 63
    → b < 2 ^ 63
    → 2 ^ 63 ≤ a + b
    → add64 (pos a) (pos b) ≡ negsuc (2 ^ 64 - 1 - (a + b))
unfolding add64 wrap64 ◌+ℤ◌
add64-negative a b ha hb h = ground arith

-- So it is not above any number that is not negative.
pub add64_overflow :
    (t q w : ℤ)
    → pos 0 ≤ℤ t
    → t ≤ℤ max_int64
    → pos 0 ≤ℤ q
    → q ≤ℤ max_int64
    → max_int64 <ℤ t +ℤ q
    → pos 0 ≤ℤ w
    → ltb_ℤ w (add64 t q) ≡ false
add64_overflow (negsuc a) q w t0 t1 q0 q1 over w0 = absurd (omega arith)
add64_overflow (pos a) (negsuc b) w t0 t1 q0 q1 over w0 = absurd (omega arith)
add64_overflow (pos a) (pos b) w t0 t1 q0 q1 over w0 =
    rw (add64-negative a b (omega arith) (omega arith) (omega (arith, +ℤ_parts))) (ground arith)
