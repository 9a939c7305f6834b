-- ===== src/Memory/Init.antt =====
-- The set-up of the pools, and the blocks of an arena: `mem_pool_init`, `block_desc_init`,
-- `arena2block` and `block2arena` of ch15/kernel/memory.c.
use os_elephant.Base.{ℕ, zero, suc, ◌+◌, ◌-◌, ◌*◌, ◌/◌, List, [], ◌∷◌, add32, sub32, mul32, u16}
use os_elephant.Bitmap.{Bitmap, bitmap_init}
use os_elephant.Memory.{Pages, pg_size}

abbrev pub k_heap_start : ℕ
k_heap_start = 0xc0100000

-- `bits` is the memory from `MEM_BITMAP_BASE` on, where the three bitmaps stand in a row:
-- their three `bitmap_init` clear the bytes of all three.
unfoldable pub mem_pool_init : ℕ → (ℕ → ℕ) → Pages → Pages
unfolding bitmap_init
mem_pool_init all_mem bits s =
    let used_mem = pg_size * 256 + 0x100000 in
    let all_free_pages = u16 (sub32 all_mem used_mem / pg_size) in
    let kernel_free_pages = all_free_pages / 2 in
    let user_free_pages = all_free_pages - kernel_free_pages in
    let kbm_length = kernel_free_pages / 8 in
    let ubm_length = user_free_pages / 8 in
    let cleared =
      bitmap_init (record { btmp_bytes_len = kbm_length + ubm_length + kbm_length; bits = bits }) in
    let bitmap_at : ℕ → ℕ → Bitmap =
      λ offset len. record { btmp_bytes_len = len; bits = λ i. cleared.bits (offset + i) } in
    record s {
      kernel_pool = record {
        pool_bitmap = bitmap_at 0 kbm_length;
        phy_addr_start = used_mem;
        pool_size = mul32 kernel_free_pages pg_size;
        lock_depth = 0;
      };
      user_pool = record {
        pool_bitmap = bitmap_at kbm_length ubm_length;
        phy_addr_start = add32 used_mem (mul32 kernel_free_pages pg_size);
        pool_size = mul32 user_free_pages pg_size;
        lock_depth = 0;
      };
      kernel_vaddr = record {
        vaddr_bitmap = bitmap_at (kbm_length + ubm_length) kbm_length;
        vaddr_start = k_heap_start;
      };
    }

-- The list of free blocks of a descriptor is empty after the set-up and not part of the record.
pub record MemBlockDesc : Type 0 where
  pub block_size : ℕ
  pub blocks_per_arena : ℕ

-- `sizeof(struct arena)`: a pointer, a counter and a `bool`, which is an `int`
abbrev pub arena_size : ℕ
arena_size = 12

abbrev pub desc_cnt : ℕ
desc_cnt = 7

unfoldable pub desc_loop : ℕ → ℕ → List MemBlockDesc
desc_loop zero block_size = []
desc_loop (suc left) block_size =
    record { block_size = block_size; blocks_per_arena = (pg_size - arena_size) / block_size }
    ∷ desc_loop left (u16 (block_size * 2))

unfoldable pub block_desc_init : List MemBlockDesc
unfolding desc_loop
block_desc_init = desc_loop desc_cnt 16

unfoldable pub arena2block : ℕ → MemBlockDesc → ℕ → ℕ
arena2block a desc idx = add32 (add32 a arena_size) (mul32 idx desc.block_size)

unfoldable pub block2arena : ℕ → ℕ
block2arena b = b / pg_size * pg_size
