-- ===== src/Process/Tests.antt =====
-- A pool with three free pages, and the theorem on the page directory at it.
use os_elephant.Base.{
  ℕ, ◌+◌, ◌*◌, ◌<◌, ◌≤◌, ◌≡◌, ◌⊎◌, refl, Outcome, ok, panic, fault, out_of_fuel, false, ◌==◌,
  if◌then◌else◌, arith, bit_or,
}
use os_elephant.Bitmap.{
  Bitmap, bitmap_scan_test, skip_full, skip_ones, count_run, scan_from, bitmap_scan, bitmap_set,
}
use os_elephant.Memory.{
  Pool, Pages, pf_kernel, pg_size, vaddr_get, set_run, pde_idx, pte_idx, pte_ptr, pde_ptr, palloc,
  page_table_add,
}
use os_elephant.Memory.Alloc.{malloc_page, map_pages, addr_v2p}
use os_elephant.Process.{create_page_dir, current_dir, user_page}
use os_elephant.Process.Directory.{create_page_dir_lem}

abbrev taken : Bitmap
taken = record { btmp_bytes_len = 2; bits = λ i. if i == 0 then 255 else if i == 1 then 31 else 0 }

abbrev pool : Pool
pool = record { pool_bitmap = taken; phy_addr_start = 0x200000; pool_size = 65536; lock_depth = 0 }

abbrev s : Pages
s = record {
  kernel_pool = pool;
  user_pool = pool;
  kernel_vaddr = record { vaddr_bitmap = taken; vaddr_start = 0xc0100000 };
  user_vaddr = record { vaddr_bitmap = taken; vaddr_start = 0x8048000 };
  has_pgdir = false;
  words = λ q. if q == 0xfffffc00 then 7 else 0;
}

pages_of : Outcome (ℕ × Pages) → Pages
pages_of (ok r) = r.1
pages_of panic = s
pages_of fault = s
pages_of out_of_fuel = s

p : Pages
p = pages_of (malloc_page pf_kernel 1 s)

p_run : malloc_page pf_kernel 1 s ≡ ok (0xc010d000, p)
unfolding p pages_of malloc_page map_pages vaddr_get set_run pde_idx pte_idx pte_ptr pde_ptr palloc
    page_table_add bitmap_scan_test skip_full skip_ones count_run scan_from bitmap_scan bitmap_set
p_run = refl

create_page_dir_lem_example :
    (s' : Pages) × (create_page_dir s ≡ ok (0xc010d000, s'))
    × ((i : ℕ) → i < 768 → s'.words (0xc010d000 + 4 * i) ≡ 0)
    × ((i : ℕ) → 768 ≤ i → i < 1023 → s'.words (0xc010d000 + 4 * i) ≡ p.words (current_dir + 4 * i))
    × (s'.words (0xc010d000 + 4 * 1023) ≡ bit_or (addr_v2p 0xc010d000 p) user_page)
    × ((q : ℕ) → (q < 0xc010d000) ⊎ (0xc010d000 + pg_size ≤ q) → s'.words q ≡ p.words q)
    × (s' ≡ record p { words = s'.words })
create_page_dir_lem_example =
    create_page_dir_lem 0xc010d000 s p p_run (omega arith) refl (omega arith)
