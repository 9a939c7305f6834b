-- ===== src/Bitmap/Bits.antt =====
-- A bitmap as a set of indices: what `bitmap_set` and `bitmap_init` do to each bit.
use os_elephant.Base.{
  ℕ, ◌/◌, ◌%◌, ◌<◌, ◌≡◌, Bool, true, false, ◌==◌, neb, if◌then◌else◌, ok, arith, refl,
}
use os_elephant.Base.Bytes.{
  bit_on, bit_raise, bit_drop, bit_on-bit_raise, bit_on-bit_drop, bit_raise-byte, bit_drop-byte,
}
use os_elephant.Bitmap.{Bitmap, bitmap_scan_test, bitmap_set, store}

-- Bit `i` is in use.
abbrev pub used : Bitmap → ℕ → Bool
used b i = neb (bitmap_scan_test b i) 0

-- Every byte of the memory is a byte.
abbrev pub IsBytes : Bitmap → Type 0
IsBytes b = (i : ℕ) → b.bits i < 256

-- The bitmap that a `bitmap_set` leaves.
unfoldable pub with_bit : Bitmap → ℕ → Bool → Bitmap
with_bit b i v = record b {
  bits =
      store b.bits (i / 8)
        (if v then bit_raise (b.bits (i / 8)) (i % 8) else bit_drop (b.bits (i / 8)) (i % 8));
}

pub bitmap_set_one : (b : Bitmap) (i : ℕ) → bitmap_set b i 1 ≡ ok (with_bit b i true)
unfolding bitmap_set with_bit
bitmap_set_one b i = refl

pub bitmap_set_zero : (b : Bitmap) (i : ℕ) → bitmap_set b i 0 ≡ ok (with_bit b i false)
unfolding bitmap_set with_bit
bitmap_set_zero b i = refl

pub with_bit-IsBytes : (b : Bitmap) (i : ℕ) (v : Bool) → IsBytes b → IsBytes (with_bit b i v)
unfolding with_bit
with_bit-IsBytes b i v h j = ground (
  arith,
  h j,
  bit_raise-byte (b.bits (i / 8)) (i % 8) (h (i / 8)) (omega arith),
  bit_drop-byte (b.bits (i / 8)) (i % 8) (h (i / 8)) (omega arith),
)

-- Bit `i` takes the value, and every other bit keeps its own.
pub used-with_bit :
    (b : Bitmap) (i j : ℕ) (v : Bool)
    → IsBytes b
    → used (with_bit b i v) j ≡ (if i == j then v else used b j)
unfolding with_bit bitmap_scan_test bit_on
used-with_bit b i j true h = ground (
  arith,
  bit_on-bit_raise (b.bits (i / 8)) (i % 8) (j % 8) (h (i / 8)) (omega arith) (omega arith),
)
used-with_bit b i j false h = ground (
  arith,
  bit_on-bit_drop (b.bits (i / 8)) (i % 8) (j % 8) (h (i / 8)) (omega arith) (omega arith),
)
