-- ===== src/Heap/Refill.antt =====
-- A new arena for an empty free list: `sys_malloc` of ch15/kernel/memory.c.
use os_elephant.Base.{ℕ, suc, ◌-◌, ◌<◌, ◌≡◌, ap, true, false, if◌then◌else◌, ◌∷◌, some, arith}
use os_elephant.Interrupt.{intr_disable, intr_set_status}
use os_elephant.KernelList.{Links, set_intr}
use os_elephant.Memory.{PoolFlags, Pages, pool_of, put_pool, pg_size}
use os_elephant.Memory.Init.{MemBlockDesc, arena2block}
use os_elephant.Heap.{Heap, within, no_arena, clear_links, put_arena}
use os_elephant.Heap.Clear.{HasFree}
use os_elephant.Heap.Blocks.{blocks}

-- The pool after the release of its lock.
abbrev pub released : PoolFlags → Pages → Pages
released pf s = let p = pool_of pf s in put_pool pf (record p { lock_depth = p.lock_depth - 1 }) s

-- What a new arena leaves of which a block is taken: the others are free, the block is cleared, and
-- no word outside the arena's page changes.
pub record Filled (a i : ℕ) (pf : PoolFlags) (d : MemBlockDesc) (p : Pages) (h h' : Heap)
    : Type 0 where
  pub free :
      HasFree h'.links (h.free_list pf i) d.block_size (blocks a d 1 (d.blocks_per_arena - 1))
  pub arena :
      h'.arenas a ≡ record { desc = some (pf, i); cnt = d.blocks_per_arena - 1; large = false }
  pub block_words :
      (q : ℕ) → within (arena2block a d 0) d.block_size q ≡ true → h'.pages.words q ≡ 0
  pub other_words : (q : ℕ) → within a pg_size q ≡ false → h'.pages.words q ≡ p.words q
  pub pages : h'.pages ≡ record (released pf p) { words = h'.pages.words }
  pub lists : h'.free_list ≡ h.free_list

module _ (i a : ℕ) (pf : PoolFlags) (d : MemBlockDesc) (p : Pages) (h : Heap) where
  abbrev page_cleared : Heap
  page_cleared = record h {
    pages = record p { words = λ q. if within a pg_size q then 0 else p.words q };
    links = clear_links a pg_size h.links;
    arenas = λ q. if within a pg_size q then no_arena else h.arenas q;
  }

  abbrev arena_filled : Links → Heap
  arena_filled s' =
      record (put_arena a (record { desc = some (pf, i); cnt = d.blocks_per_arena; large = false })
        page_cleared) {
          links = set_intr (intr_set_status (intr_disable h.links.intr).0 s'.intr).1 s';
        }

first_block :
    (a n : ℕ) (d : MemBlockDesc) → 0 < n → blocks a d 0 n ≡ arena2block a d 0 ∷ blocks a d 1 (n - 1)
first_block a n d pos = let e : n ≡ suc (n - 1) = omega arith in ap (blocks a d 0) e
