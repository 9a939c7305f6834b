-- ===== src/Base/Words.antt =====
-- Machine integers as native numbers: a `uint32_t` is a number below `2 ^ 32`, and its arithmetic
-- wraps; an `int32_t` result that is only tested for -1 is an `Option`.
use Prim.Native.Nat.{ℕ, ◌+◌, ◌-◌, ◌*◌, ◌/◌, ◌%◌, ◌^◌, ◌<◌}
use native.Mathlib.Omega.{arith}

abbrev pub u8 : ℕ → ℕ
u8 x = x % 2 ^ 8

abbrev pub u16 : ℕ → ℕ
u16 x = x % 2 ^ 16

abbrev pub u32 : ℕ → ℕ
u32 x = x % 2 ^ 32

abbrev pub add32 : ℕ → ℕ → ℕ
add32 a b = (a + b) % 2 ^ 32

-- The modulus is added first, since subtraction on numbers stops at 0.
abbrev pub sub32 : ℕ → ℕ → ℕ
sub32 a b = (a + 2 ^ 32 - b) % 2 ^ 32

abbrev pub mul32 : ℕ → ℕ → ℕ
mul32 a b = (a * b) % 2 ^ 32

-- `DIV_ROUND_UP(x, step)` of kernel/global.h
unfoldable pub div_round_up : ℕ → ℕ → ℕ
div_round_up x step = add32 x (step - 1) / step

pub div_round_up_covers :
    (x : ℕ)
    → x < 2 ^ 31
    → (x < div_round_up x 4096 * 4096 + 1) × (div_round_up x 4096 * 4096 < x + 4096)
unfolding div_round_up
div_round_up_covers x h = omega arith
