-- ===== src/Memory/Table.antt =====
-- The page table as a map from virtual to physical pages: `page_table_add` and `addr_v2p` of
-- ch15/kernel/memory.c.
use os_elephant.Base.{ℕ, ◌+◌, ◌*◌, ◌/◌, ◌^◌, ◌<◌, ◌≡◌, ◌≢◌, arith}
use os_elephant.Memory.{Pages, pg_size, pde_idx, pte_idx, pte_ptr, pde_ptr}

-- The entries stand in the order of the pages, four bytes each, in the last 4 MB.
pub pte_ptr_lem : (v : ℕ) → v < 2 ^ 32 → pte_ptr v ≡ 0xffc00000 + v / 4096 * 4
unfolding pte_ptr pte_idx
pte_ptr_lem v h = omega arith

pub pde_ptr_lem : (v : ℕ) → v < 2 ^ 32 → pde_ptr v ≡ 0xfffff000 + v / 2 ^ 22 * 4
unfolding pde_ptr pde_idx
pde_ptr_lem v h = omega arith

-- No other entry of the page directory names the page table of an address.
abbrev pub OwnTable : ℕ → Pages → Type 0
OwnTable v s =
    (i : ℕ)
    → i < 1023
    → i ≢ pde_idx v
    → s.words (0xfffff000 + i * 4) / pg_size ≢ s.words (pde_ptr v) / pg_size
