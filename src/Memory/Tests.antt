-- ===== src/Memory/Tests.antt =====
-- Two pools of sixteen pages and a page table with one table in it, and the theorems at them.
use os_elephant.Base.{ℕ, ◌≡◌, refl, false, ◌==◌, if◌then◌else◌, ok, arith}
use os_elephant.Bitmap.{Bitmap, bitmap_scan_test}
use os_elephant.Bitmap.Bits.{used, IsBytes}
use os_elephant.Memory.{Pool, Pages, palloc}
use os_elephant.Memory.Alloc.{pfree}
use os_elephant.Memory.Init.{MemBlockDesc}
use os_elephant.Memory.Pools.{pfree-palloc}

-- Pages 0 to 12 are in use.
abbrev taken : Bitmap
taken = record { btmp_bytes_len = 2; bits = λ i. if i == 0 then 255 else if i == 1 then 31 else 0 }

taken-IsBytes : IsBytes taken
taken-IsBytes i = ground arith

taken_free : used taken 13 ≡ false
unfolding bitmap_scan_test
taken_free = refl

abbrev all_taken : Bitmap
all_taken = record { btmp_bytes_len = 0; bits = λ i. 255 }

abbrev pool_at : ℕ → Bitmap → Pool
pool_at start b = record {
  pool_bitmap = b;
  phy_addr_start = start;
  pool_size = 65536;
  lock_depth = 0;
}

-- Only the page table of the first 4 MB is there.
abbrev s : Pages
s = record {
  kernel_pool = pool_at 0x200000 taken;
  user_pool = pool_at 0x300000 taken;
  kernel_vaddr = record { vaddr_bitmap = taken; vaddr_start = 0xc0100000 };
  user_vaddr = record { vaddr_bitmap = taken; vaddr_start = 0x8048000 };
  has_pgdir = false;
  words = λ q. if q == 0xfffff000 then 0x102007 else 0;
}

pfree-palloc_example :
    (a : ℕ) × (p : Pool) × (s' : Pages) × (palloc s.kernel_pool ≡ ok (a, p))
    × (pfree a (record s { kernel_pool = p }) ≡ ok s')
    × ((m : ℕ) → used s'.kernel_pool.pool_bitmap m ≡ used taken m)
pfree-palloc_example =
    pfree-palloc s 13 taken-IsBytes (omega arith) (omega arith) (omega arith) taken_free

abbrev desc32 : MemBlockDesc
desc32 = record { block_size = 32; blocks_per_arena = 127 }
