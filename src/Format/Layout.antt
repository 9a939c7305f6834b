-- ===== src/Format/Layout.antt =====
-- The regions of a fresh file system, and a bitmap on the disk: ch15/fs/fs.c and ch15/fs/file.c.
use os_elephant.Base.{ℕ, ◌+◌, ◌*◌, ◌^◌, ◌<◌, ◌≤◌, ◌≡◌, arith, ok, some, false, true}
use os_elephant.Bitmap.{Bitmap}
use os_elephant.Bitmap.Bits.{used, IsBytes, with_bit, bitmap_set_one}
use os_elephant.Bitmap.Scan.{bitmap_scan-one}
use os_elephant.Format.{SuperBlock, block_bitmap_alloc, take_bit}

-- With a free block in the map `block_bitmap_alloc` returns the sector of the first one and marks
-- it.
pub block_bitmap_alloc-first :
    (sb : SuperBlock) (b : Bitmap) (i : ℕ)
    → IsBytes b
    → i < b.btmp_bytes_len * 8
    → used b i ≡ false
    → sb.data_start_lba + b.btmp_bytes_len * 8 < 2 ^ 32
    → (k : ℕ) × (block_bitmap_alloc sb b ≡ ok (some (sb.data_start_lba + k), with_bit b k true))
      × (k ≤ i)
      × (used b k ≡ false)
unfolding block_bitmap_alloc take_bit
block_bitmap_alloc-first sb b i bytes inside free fits =
    let (k, run, le, clear, _) = bitmap_scan-one b i bytes (omega (arith, fits)) inside free in
    (k, rw (run, bitmap_set_one b k) (ground arith), le, clear)
