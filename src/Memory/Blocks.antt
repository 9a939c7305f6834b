-- ===== src/Memory/Blocks.antt =====
-- Where the pools and the blocks of an arena lie: `mem_pool_init`, `block_desc_init`, `arena2block`
-- and `block2arena` of ch15/kernel/memory.c.
use mathlib.Core.Path.{subst}
use os_elephant.Base.{
  ℕ, zero, suc, ◌+◌, ◌-◌, ◌*◌, ◌/◌, ◌%◌, ◌^◌, ◌<◌, ◌≤◌, ◌≡◌, refl, sym, ap, get_elem?, some, arith,
}
use os_elephant.Memory.{Pages, pg_size}
use os_elephant.Memory.Init.{
  mem_pool_init, MemBlockDesc, arena_size, desc_loop, block_desc_init, arena2block, block2arena,
}

-- From 2 MB to just under 258 MB of memory: the user pool follows the kernel pool, both lie in the
-- memory and leave less than a page of it, and each bitmap covers its pool up to seven pages.
pub mem_pool_init_lem :
    (all_mem : ℕ) (bits : ℕ → ℕ) (s : Pages)
    → 2 ^ 21 ≤ all_mem
    → all_mem < 2 ^ 28 + 2 ^ 21
    → let k = (mem_pool_init all_mem bits s).kernel_pool in
      let u = (mem_pool_init all_mem bits s).user_pool in
      (k.phy_addr_start ≡ 2 ^ 21)
      × (k.phy_addr_start + k.pool_size ≡ u.phy_addr_start)
      × (u.phy_addr_start + u.pool_size ≤ all_mem)
      × (all_mem < u.phy_addr_start + u.pool_size + pg_size)
      × (k.pool_bitmap.btmp_bytes_len * 8 * pg_size ≤ k.pool_size)
      × (k.pool_size < (k.pool_bitmap.btmp_bytes_len + 1) * 8 * pg_size)
      × (u.pool_bitmap.btmp_bytes_len * 8 * pg_size ≤ u.pool_size)
      × (u.pool_size < (u.pool_bitmap.btmp_bytes_len + 1) * 8 * pg_size)
unfolding mem_pool_init
mem_pool_init_lem all_mem bits s low high = (
  refl,
  omega arith,
  omega arith,
  omega arith,
  omega arith,
  omega arith,
  omega arith,
  omega arith,
)

-- The number of pages is kept in 16 bits: from 258 MB on, the pools together have 256 MB less than
-- the memory holds, or a multiple of that.
pub mem_pool_init_wraps :
    (all_mem : ℕ) (bits : ℕ → ℕ) (s : Pages)
    → 2 ^ 28 + 2 ^ 21 ≤ all_mem
    → all_mem < 2 ^ 32
    → let k = (mem_pool_init all_mem bits s).kernel_pool in
      let u = (mem_pool_init all_mem bits s).user_pool in
      k.phy_addr_start + k.pool_size + u.pool_size + 2 ^ 28 ≤ all_mem
unfolding mem_pool_init
mem_pool_init_wraps all_mem bits s low high = omega arith

some_inj : {d e : MemBlockDesc} → some d ≡ some e → d ≡ e
some_inj h = cc

in_arena :
    (size : ℕ) (a idx : ℕ) (d : MemBlockDesc)
    → ((idx : ℕ) → idx < (4096 - 12) / size → idx * size + size ≤ 4084)
    → d ≡ record { block_size = size; blocks_per_arena = (pg_size - arena_size) / size }
    → 0 < size
    → a % 4096 ≡ 0
    → a < 2 ^ 32
    → idx < d.blocks_per_arena
    → (block2arena (arena2block a d idx) ≡ a) × (arena2block a d idx + d.block_size ≤ a + pg_size)
unfolding arena2block block2arena
in_arena size a idx d room e pos aligned fits inside =
    let s : d.block_size ≡ size = ap (λ (d : MemBlockDesc). d.block_size) e in
    let n : d.blocks_per_arena ≡ (4096 - 12) / size =
      ap (λ (d : MemBlockDesc). d.blocks_per_arena) e in
    let r : idx * size + size ≤ 4084 = room idx (subst (λ x. idx < x) n inside) in
    rw s (omega arith, omega arith)

-- A block of an arena lies in the arena's page, and its address gives the page back; the arena
-- starts at a page and the index is one of the descriptor's blocks.
pub block2arena-arena2block :
    (i a idx : ℕ) (d : MemBlockDesc)
    → get_elem? block_desc_init i ≡ some d
    → a % 4096 ≡ 0
    → a < 2 ^ 32
    → idx < d.blocks_per_arena
    → (block2arena (arena2block a d idx) ≡ a) × (arena2block a d idx + d.block_size ≤ a + pg_size)
unfolding block_desc_init desc_loop
block2arena-arena2block zero a idx d e =
    in_arena 16 a idx d (λ idx h. omega arith) (sym (some_inj e)) (omega arith)
block2arena-arena2block (suc zero) a idx d e =
    in_arena 32 a idx d (λ idx h. omega arith) (sym (some_inj e)) (omega arith)
block2arena-arena2block (suc (suc zero)) a idx d e =
    in_arena 64 a idx d (λ idx h. omega arith) (sym (some_inj e)) (omega arith)
block2arena-arena2block (suc (suc (suc zero))) a idx d e =
    in_arena 128 a idx d (λ idx h. omega arith) (sym (some_inj e)) (omega arith)
block2arena-arena2block (suc (suc (suc (suc zero)))) a idx d e =
    in_arena 256 a idx d (λ idx h. omega arith) (sym (some_inj e)) (omega arith)
block2arena-arena2block (suc (suc (suc (suc (suc zero))))) a idx d e =
    in_arena 512 a idx d (λ idx h. omega arith) (sym (some_inj e)) (omega arith)
block2arena-arena2block (suc (suc (suc (suc (suc (suc zero)))))) a idx d e =
    in_arena 1024 a idx d (λ idx h. omega arith) (sym (some_inj e)) (omega arith)
block2arena-arena2block (suc (suc (suc (suc (suc (suc (suc i))))))) a idx d e = absurd cc
