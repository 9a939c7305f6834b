-- ===== src/Bitmap.antt =====
-- Bitmaps: ch15/lib/kernel/bitmap.c and bitmap.h. The pools of physical pages and of virtual
-- addresses, the inodes and the blocks of a partition are handed out through them.
pub mod Bits
pub mod Scan
pub mod Run
mod Tests
use os_elephant.Base.{
  ℕ, zero, suc, ◌+◌, ◌-◌, ◌*◌, ◌/◌, ◌%◌, ◌^◌, Bool, true, false, ◌&&◌, ◌||◌, Option, none, some,
  ltb, ◌==◌, neb, if◌then◌else◌, Outcome, ok, panic, out_of_fuel, assert, ◌>>=◌, ◌>>◌, bit_and,
  bit_or, sub32, add32, u8, u32,
}
use os_elephant.Base.Bytes.{bit_on, bit_raise, bit_drop}

-- `bits` is the memory from `btmp->bits` on, which goes on behind the last byte of the bitmap.
pub record Bitmap : Type 0 where
  pub btmp_bytes_len : ℕ
  pub bits : ℕ → ℕ

-- Store one byte.
abbrev pub store : (ℕ → ℕ) → ℕ → ℕ → ℕ → ℕ
store bits i v j = if i == j then v else bits j

-- `memset(btmp->bits, 0, btmp->btmp_bytes_len)`
unfoldable pub bitmap_init : Bitmap → Bitmap
bitmap_init b = record b { bits = λ i. if ltb i b.btmp_bytes_len then 0 else b.bits i }

-- The masked byte: zero when the bit is clear.
unfoldable pub bitmap_scan_test : Bitmap → ℕ → ℕ
bitmap_scan_test b bit_idx = bit_and (b.bits (bit_idx / 8)) (2 ^ (bit_idx % 8))

-- `while (0xff == bits[idx_byte] && idx_byte < btmp_bytes_len) idx_byte++`
unfoldable pub skip_full : ℕ → Bitmap → ℕ → Outcome ℕ
skip_full zero b idx_byte = out_of_fuel
skip_full (suc fuel) b idx_byte =
    let rest = skip_full fuel b (idx_byte + 1) in
    if (b.bits idx_byte == 255) && ltb idx_byte b.btmp_bytes_len then rest else ok idx_byte

-- `while ((uint8_t)(BITMAP_MASK << idx_bit) & bits[idx_byte]) idx_bit++`
unfoldable pub skip_ones : ℕ → ℕ → ℕ → Outcome ℕ
skip_ones zero byte idx_bit = out_of_fuel
skip_ones (suc fuel) byte idx_bit =
    let rest = skip_ones fuel byte (idx_bit + 1) in
    if neb (bit_and (u8 (2 ^ idx_bit)) byte) 0 then rest else ok idx_bit

-- `while (bit_left-- > 0)`: the length of the run of clear bits that ends at `next_bit`
unfoldable pub count_run : ℕ → Bitmap → ℕ → ℕ → ℕ → Option ℕ
count_run zero b cnt next_bit count = none
count_run (suc bit_left) b cnt next_bit count =
    let count' = if neb (bitmap_scan_test b next_bit) 0 then 0 else count + 1 in
    let rest = count_run bit_left b cnt (next_bit + 1) count' in
    if count' == cnt then some (add32 (sub32 next_bit cnt) 1) else rest

unfoldable pub scan_from : Bitmap → ℕ → ℕ → Option ℕ
scan_from b cnt bit_idx_start =
    if cnt == 1
    then some bit_idx_start
    else count_run (sub32 (b.btmp_bytes_len * 8) bit_idx_start) b cnt (bit_idx_start + 1) 1

-- An index is the 32 bits of an `int`; `none` stands for -1. The test that would return it for a
-- full bitmap follows an `ASSERT` of the opposite, so a full bitmap stops the machine.
unfoldable pub bitmap_scan : Bitmap → ℕ → Outcome (Option ℕ)
unfolding skip_full skip_ones count_run scan_from
bitmap_scan b cnt = do
  idx_byte ← skip_full (b.btmp_bytes_len + 1) b 0
  assert (ltb idx_byte b.btmp_bytes_len)
  idx_bit ← skip_ones 9 (b.bits idx_byte) 0
  ok (if idx_byte == b.btmp_bytes_len then none else scan_from b cnt (u32 (idx_byte * 8 + idx_bit)))

unfoldable pub bitmap_set : Bitmap → ℕ → ℕ → Outcome Bitmap
bitmap_set b bit_idx value = do
  assert ((value == 0) || (value == 1))
  let byte_idx = bit_idx / 8
  let bit_odd = bit_idx % 8
  let byte = b.bits byte_idx
  let byte' = if value == 0 then bit_drop byte bit_odd else bit_raise byte bit_odd
  ok (record b { bits = store b.bits byte_idx byte' })
