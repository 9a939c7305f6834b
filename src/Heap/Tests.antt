-- ===== src/Heap/Tests.antt =====
-- A heap with one arena of blocks of 32 bytes, and the theorems at it.
use os_elephant.Base.{
  ◌*◌, ℕ, ◌+◌, ◌≡◌, inr, refl, true, false, ◌==◌, if◌then◌else◌, [], ◌∷◌, some, ok, Outcome, panic,
  fault, out_of_fuel, arith,
}
use os_elephant.Base.Members.{has}
use os_elephant.KernelList.{Links, KList}
use os_elephant.KernelList.Chain.{IsList}
use os_elephant.Bitmap.{Bitmap}
use os_elephant.Memory.{Pages, PoolFlags, pf_kernel, Pool}
use os_elephant.Memory.Alloc.{malloc_page, lock_acquire}
use os_elephant.Memory.Init.{MemBlockDesc, block2arena, block_desc_init, desc_loop}
use os_elephant.Heap.{Heap, no_arena, sys_malloc, sys_free}
use os_elephant.Heap.Clear.{HasFree}
use os_elephant.Heap.Pop.{IsDesc, InPage, Took, sys_malloc_block}
use os_elephant.Heap.Free.{malloc-free}

abbrev map : Bitmap
map = record { btmp_bytes_len = 2; bits = λ i. 255 }

abbrev pool : Pool
pool = record { pool_bitmap = map; phy_addr_start = 0x200000; pool_size = 65536; lock_depth = 0 }

abbrev lists : PoolFlags → ℕ → KList
lists pf i = record { head = 100 + 16 * i; tail = 108 + 16 * i }

-- The first two blocks of the arena are free.
abbrev first : ℕ
first = 0xc010000c

abbrev second : ℕ
second = 0xc010002c

abbrev linked : Links
linked = record {
  prev = λ q.
      if q == first then 116 else if q == second then first else if q == 124 then second else 0;
  next = λ q.
      if q == 116 then first else if q == first then second else if q == second then 124 else 0;
  intr = true;
}

abbrev blocks_32 : MemBlockDesc
blocks_32 = record { block_size = 32; blocks_per_arena = 127 }

abbrev heap : Heap
heap = record {
  pages = record {
    kernel_pool = pool;
    user_pool = pool;
    kernel_vaddr = record { vaddr_bitmap = map; vaddr_start = 0xc0100000 };
    user_vaddr = record { vaddr_bitmap = map; vaddr_start = 0x8048000 };
    has_pgdir = false;
    words = λ q. q;
  };
  links = linked;
  arenas = λ a.
      if a == 0xc0100000
      then record { desc = some (pf_kernel, 1); cnt = 2; large = false }
      else no_arena;
  free_list = lists;
}

blocks_32-IsDesc : IsDesc 20 1 blocks_32
unfolding block_desc_init desc_loop
blocks_32-IsDesc = record { at = refl; enough = omega arith; least = inr (omega arith) }

first-InPage : InPage first 32
first-InPage = record { behind = omega arith; inside = omega arith }

heap-HasFree : HasFree linked (lists pf_kernel 1) 32 (first ∷ (second ∷ []))
unfolding has
heap-HasFree = record {
  list = record { chain = omega arith; distinct = ground arith };
  apart = λ x y hx hy ne. ground (arith, hx, hy, ne);
}

sys_malloc_block_example :
    (h' : Heap) × (sys_malloc 5 20 heap ≡ ok (first, h'))
    × Took first (second ∷ []) pf_kernel 1 blocks_32 heap h'
sys_malloc_block_example =
    sys_malloc_block 5 20 1 first (second ∷ []) blocks_32 heap (omega arith) (omega arith)
      (omega arith) blocks_32-IsDesc heap-HasFree first-InPage

malloc-free_example :
    (h₁ : Heap) × (h₂ : Heap) × (sys_malloc 5 20 heap ≡ ok (first, h₁))
    × (sys_free 5 first h₁ ≡ ok h₂)
    × IsList h₂.links (lists pf_kernel 1) (second ∷ (first ∷ []))
    × (h₂.arenas (block2arena first) ≡ heap.arenas (block2arena first))
unfolding block2arena
malloc-free_example =
    malloc-free 5 20 1 first (second ∷ []) blocks_32 heap (omega arith) (omega arith) (omega arith)
      blocks_32-IsDesc heap-HasFree first-InPage refl refl (omega arith) (omega arith)
      (λ e. absurd (omega (arith, e)))

-- Thirteen pages are in use, and the table for the next one is there.
abbrev some_used : Bitmap
some_used = record {
  btmp_bytes_len = 2;
  bits = λ i. if i == 0 then 255 else if i == 1 then 31 else 0;
}

abbrev used_pool : Pool
used_pool = record {
  pool_bitmap = some_used;
  phy_addr_start = 0x200000;
  pool_size = 65536;
  lock_depth = 0;
}

abbrev bare_list : Links
bare_list = record {
  prev = λ q. if q == 124 then 116 else 0;
  next = λ q. if q == 116 then 124 else 0;
  intr = true;
}

abbrev bare : Heap
bare = record {
  pages = record {
    kernel_pool = used_pool;
    user_pool = used_pool;
    kernel_vaddr = record { vaddr_bitmap = some_used; vaddr_start = 0xc0100000 };
    user_vaddr = record { vaddr_bitmap = some_used; vaddr_start = 0x8048000 };
    has_pgdir = false;
    words = λ q. if q == 0xfffffc00 then 7 else 0;
  };
  links = bare_list;
  arenas = λ a. no_arena;
  free_list = lists;
}

pages_of : Outcome (ℕ × Pages) → Pages
pages_of (ok r) = r.1
pages_of panic = bare.pages
pages_of fault = bare.pages
pages_of out_of_fuel = bare.pages

granted : Pages
granted = pages_of (malloc_page pf_kernel 1 (lock_acquire pf_kernel bare.pages))
