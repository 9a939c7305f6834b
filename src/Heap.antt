-- ===== src/Heap.antt =====
-- Memory of any size: `sys_malloc` and `sys_free` of ch15/kernel/memory.c. Blocks of up to 1024
-- bytes come from free lists, one for each of seven sizes, which arenas of one page fill; more
-- takes whole pages.
pub mod Clear
pub mod Blocks
pub mod Page
pub mod Refill
pub mod Free
pub mod Pop
mod Tests
use os_elephant.Base.{
  ℕ, zero, suc, ◌+◌, ◌-◌, ◌*◌, Bool, true, false, not, ◌&&◌, ◌||◌, Option, none, some, get_elem?,
  ltb, leb, ◌==◌, neb, if◌then◌else◌, Outcome, ok, fault, assert, ◌>>=◌, ◌>>◌, add32, sub32, mul32,
  div_round_up,
}
use os_elephant.Interrupt.{intr_disable, intr_set_status}
use os_elephant.KernelList.{
  Links, KList, set_intr, list_append, list_remove, list_pop, list_empty, elem_find,
}
use os_elephant.Memory.{PoolFlags, pf_kernel, pf_user, Pages, pg_size, pool_of, clear}
use os_elephant.Memory.Alloc.{lock_acquire, lock_release, malloc_page, mfree_page}
use os_elephant.Memory.Init.{
  MemBlockDesc, arena_size, block_desc_init, arena2block, block2arena, k_heap_start,
}

-- `desc` points into the descriptors of the kernel or of the process, by the index there.
pub record Arena : Type 0 where
  pub desc : Option (PoolFlags × ℕ)
  pub cnt : ℕ
  pub large : Bool

-- In memory the structure at an arena's start and the links in its free blocks are words of the
-- same page; here each has a store of its own, so `pages.words` of these places says nothing of the
-- code.  The pages, the links of the free blocks, the structures at the start of the arenas, by
-- their addresses, and the sentinels of the free lists.
pub record Heap : Type 0 where
  pub pages : Pages
  pub links : Links
  pub arenas : ℕ → Arena
  pub free_list : PoolFlags → ℕ → KList

-- No such descriptor: behind the end of the array.
abbrev pub desc_at : ℕ → Outcome MemBlockDesc
desc_at i = elim (get_elem? block_desc_init i) [ none ↦ fault | some d ↦ ok d ]

abbrev pub within : ℕ → ℕ → ℕ → Bool
within p size q = leb p q && ltb q (p + size)

abbrev pub no_arena : Arena
no_arena = record { desc = none; cnt = 0; large = false }

abbrev pub clear_links : ℕ → ℕ → Links → Links
clear_links p size s = record s {
  prev = λ q. if within p size q then 0 else s.prev q;
  next = λ q. if within p size q then 0 else s.next q;
}

-- `memset(p, 0, size)`: the links and the structures in the range are cleared with it.
unfoldable pub clear_range : ℕ → ℕ → Heap → Outcome Heap
clear_range p size h = do
  pages ← clear p size h.pages
  ok (record h {
    pages = pages;
    links = clear_links p size h.links;
    arenas = λ q. if within p size q then no_arena else h.arenas q;
  })

abbrev pub put_arena : ℕ → Arena → Heap → Heap
put_arena a r h = record h { arenas = λ q. if q == a then r else h.arenas q }

-- The running thread has a page directory or not.
abbrev pub flags_of : Heap → PoolFlags
flags_of h = if h.pages.has_pgdir then pf_user else pf_kernel

-- The first descriptor whose blocks are large enough.
unfoldable pub find_desc : ℕ → ℕ → ℕ → Outcome ℕ
find_desc zero desc_idx size = ok desc_idx
find_desc (suc left) desc_idx size =
    let rest = find_desc left (desc_idx + 1) size in
    desc_at desc_idx >>= λ d. if leb size d.block_size then ok desc_idx else rest

-- The blocks of a new arena go to the list in order.
unfoldable pub add_blocks : ℕ → ℕ → KList → ℕ → MemBlockDesc → ℕ → Links → Outcome Links
add_blocks fuel zero l a d block_idx s = ok s
add_blocks fuel (suc left) l a d block_idx s = do
  let b = arena2block a d block_idx
  found ← elem_find fuel l b s
  assert (not found)
  add_blocks fuel left l a d (block_idx + 1) (list_append l b s)

-- A page for blocks of one size; false where there is none.
unfoldable pub new_arena : ℕ → PoolFlags → ℕ → MemBlockDesc → Heap → Outcome (Bool × Heap)
new_arena fuel pf desc_idx d h = do
  (a, pages) ← malloc_page pf 1 h.pages
  let filled = clear_range a pg_size (record h { pages = pages }) >>= λ h.
      (let with_arena =
          put_arena a
            (record { desc = some (pf, desc_idx); cnt = d.blocks_per_arena; large = false }) h in
        let (old_status, off) = intr_disable h.links.intr in
        add_blocks fuel d.blocks_per_arena (h.free_list pf desc_idx) a d 0 (set_intr off h.links)
        >>= λ s.
            ok (
              true,
              record with_arena { links = set_intr (intr_set_status old_status s.intr).1 s },
            ))
  if a == 0 then ok (false, record h { pages = pages }) else filled

-- The first free block is cleared and counted off its arena.
unfoldable pub take_block : PoolFlags → ℕ → MemBlockDesc → Heap → Outcome (ℕ × Heap)
take_block pf desc_idx d h = do
  let (b, links) = list_pop (h.free_list pf desc_idx) h.links
  h ← clear_range b d.block_size (record h { links = links })
  let a = block2arena b
  let arena = h.arenas a
  ok (b, put_arena a (record arena { cnt = sub32 arena.cnt 1 }) h)

-- More than 1024 bytes.
unfoldable pub malloc_large : PoolFlags → ℕ → Heap → Outcome (ℕ × Heap)
malloc_large pf size h = do
  let page_cnt = div_round_up (add32 size arena_size) pg_size
  (a, pages) ← malloc_page pf page_cnt h.pages
  let filled = clear_range a (mul32 page_cnt pg_size) (record h { pages = pages }) >>= λ h.
      ok (a + arena_size, put_arena a (record { desc = none; cnt = page_cnt; large = true }) h)
  if a == 0 then ok (0, record h { pages = pages }) else filled

unfoldable pub malloc_small : ℕ → PoolFlags → ℕ → Heap → Outcome (ℕ × Heap)
malloc_small fuel pf size h = do
  desc_idx ← find_desc 7 0 size
  d ← desc_at desc_idx
  let refilled = new_arena fuel pf desc_idx d h >>= λ r.
      if r.0 then take_block pf desc_idx d r.1 else ok (0, r.1)
  if list_empty (h.free_list pf desc_idx) h.links then refilled else take_block pf desc_idx d h

abbrev pub with_pages : Pages → Heap → Heap
with_pages s h = record h { pages = s }

-- The address, or 0 for `NULL`. `fuel` bounds the searches of a free list.
unfoldable pub sys_malloc : ℕ → ℕ → Heap → Outcome (ℕ × Heap)
sys_malloc fuel size h = do
  let pf = flags_of h
  let locked = with_pages (lock_acquire pf h.pages) h
  let taken =
      (if ltb 1024 size then malloc_large pf size locked else malloc_small fuel pf size locked)
      >>= λ r. lock_release pf r.1.pages >>= λ s. ok (r.0, with_pages s r.1)
  if ltb 0 size && ltb size (pool_of pf h.pages).pool_size then taken else ok (0, h)

-- All blocks of an arena leave the list.
unfoldable pub drop_blocks : ℕ → ℕ → KList → ℕ → MemBlockDesc → ℕ → Links → Outcome Links
drop_blocks fuel zero l a d block_idx s = ok s
drop_blocks fuel (suc left) l a d block_idx s = do
  let b = arena2block a d block_idx
  found ← elem_find fuel l b s
  assert found
  drop_blocks fuel left l a d (block_idx + 1) (list_remove b s)

-- A block goes to the end of the list of its arena's descriptor, and the page with it when all its
-- blocks are free.
unfoldable pub give_back : ℕ → PoolFlags → ℕ → ℕ → PoolFlags × ℕ → Heap → Outcome Heap
give_back fuel pf b a (of_pf, desc_idx) h = do
  d ← desc_at desc_idx
  let l = h.free_list of_pf desc_idx
  let appended = list_append l b h.links
  let arena = h.arenas a
  let counted =
      put_arena a (record arena { cnt = add32 arena.cnt 1 }) (record h { links = appended })
  let emptied = drop_blocks fuel d.blocks_per_arena l a d 0 appended >>= λ s.
      mfree_page pf a 1 counted.pages >>= λ p. ok (record counted { links = s; pages = p })
  if add32 arena.cnt 1 == d.blocks_per_arena then emptied else ok counted

-- A block of an arena without a descriptor that is not marked as large makes the code follow
-- `NULL`.
unfoldable pub sys_free : ℕ → ℕ → Heap → Outcome Heap
sys_free fuel ptr h = do
  assert (neb ptr 0)
  let pf = flags_of h
  assert (h.pages.has_pgdir || leb k_heap_start ptr)
  let locked = with_pages (lock_acquire pf h.pages) h
  let a = block2arena ptr
  let arena = h.arenas a
  freed ← elim arena.desc [
    | none ↦
        if arena.large
        then (mfree_page pf a arena.cnt locked.pages >>= λ p. ok (with_pages p locked))
        else fault
    | some of ↦ give_back fuel pf ptr a of locked
  ]
  s ← lock_release pf freed.pages
  ok (with_pages s freed)
