-- ===== src/Heap/Free.antt =====
-- A block goes back to its free list: `sys_free` of ch15/kernel/memory.c.
use os_elephant.Base.{
  neq_false, ℕ, ◌^◌, ◌<◌, ◌≤◌, ◌≡◌, ◌≢◌, refl, sym, ap, ◌∙◌, true, false, ◌||◌, leb, ◌==◌, neb,
  ==_iff, List, [], ◌∷◌, ◌++◌, some, ok, arith, sub32, add32,
}
use os_elephant.Base.Members.{has, Distinct}
use os_elephant.KernelList.{KList, list_append}
use os_elephant.KernelList.Chain.{IsList}
use os_elephant.KernelList.Update.{list_append_lem}
use os_elephant.Memory.{PoolFlags, pf_kernel, pf_user, Pages, pool_of}
use os_elephant.Memory.Alloc.{lock_acquire, lock_release}
use os_elephant.Memory.Init.{MemBlockDesc, block2arena, k_heap_start}
use os_elephant.Heap.{Heap, Arena, put_arena, flags_of, give_back, sys_free, sys_malloc, desc_at}
use os_elephant.Heap.Pop.{relock, IsDesc, InPage, desc_at_lem, sys_malloc_block}
use os_elephant.Heap.Clear.{HasFree, all_of}

-- What a block leaves that went back.
pub record Gave (b : ℕ) (bs : List ℕ) (pf : PoolFlags) (i : ℕ) (h h' : Heap) : Type 0 where
  pub list : IsList h'.links (h.free_list pf i) (bs ++ (b ∷ []))
  pub arena :
      h'.arenas (block2arena b)
      ≡ record (h.arenas (block2arena b)) { cnt = add32 (h.arenas (block2arena b)).cnt 1 }
  pub other_arenas : (a : ℕ) → a ≢ block2arena b → h'.arenas a ≡ h.arenas a
  pub pages : h'.pages ≡ h.pages
  pub lists : h'.free_list ≡ h.free_list

lock_back : (pf : PoolFlags) (s : Pages) → lock_release pf (lock_acquire pf s) ≡ ok s
lock_back pf_kernel s = relock pf_kernel s s.words
lock_back pf_user s = relock pf_user s s.words

abbrev given : ℕ → PoolFlags → ℕ → Heap → Heap
given b pf i h =
    let arena = h.arenas (block2arena b) in
    put_arena (block2arena b) (record arena { cnt = add32 arena.cnt 1 })
      (record h { links = list_append (h.free_list pf i) b h.links })

-- `sys_free` of a block puts it at the end of the list of its arena's descriptor and counts it, if
-- the arena is not then full of free blocks: no other arena, no page and no lock changes.
pub sys_free_lem :
    (fuel i b : ℕ) (bs : List ℕ) (of : PoolFlags) (d : MemBlockDesc) (h : Heap)
    → b ≢ 0
    → (h.pages.has_pgdir || leb k_heap_start b) ≡ true
    → (h.arenas (block2arena b)).desc ≡ some (of, i)
    → desc_at i ≡ ok d
    → IsList h.links (h.free_list of i) bs
    → has b (all_of (h.free_list of i) bs) ≡ false
    → add32 (h.arenas (block2arena b)).cnt 1 ≢ d.blocks_per_arena
    → (h' : Heap) × (sys_free fuel b h ≡ ok h') × Gave b bs of i h h'
unfolding sys_free give_back
sys_free_lem fuel i b bs of d h nz own arena at is new more =
    let t1 : neb b 0 ≡ true = ground arith in
    let t2 = neq_false _ _ more in
    let here : (block2arena b == block2arena b) ≡ true = (==_iff _ _).1 refl in
    (
      given b of i h,
      rw (t1, own, arena, at, t2, lock_back (flags_of h) h.pages) (rw (sym arena) refl),
      record {
        list = list_append_lem (h.free_list of i) b h.links is new;
        arena = rw here refl;
        other_arenas = λ a ne. rw (neq_false a (block2arena b) ne) refl;
        pages = refl;
        lists = refl;
      },
    )

new_again :
    (l : KList) (b : ℕ) (bs : List ℕ) → Distinct (all_of l (b ∷ bs)) → has b (all_of l bs) ≡ false
unfolding has
new_again l b bs h = ground (arith, ==_iff l.head b, ==_iff b l.head)

-- `sys_malloc` of 1 to 1024 bytes, less than the size of the caller's pool, from a free list of the
-- smallest blocks that are large enough, when its blocks do not overlap and the first lies in one
-- page behind the structure of an arena, and then `sys_free` of that block: if the block is a
-- kernel address or the caller a process, and its arena is of the caller's descriptor and had some
-- but not all of its blocks free, then both calls return, the block is the last of the list behind
-- the other free blocks, and the arena is as it was before the two calls.
pub malloc-free :
    (fuel size i b : ℕ) (bs : List ℕ) (d : MemBlockDesc) (h : Heap)
    → 0 < size
    → size ≤ 1024
    → size < (pool_of (flags_of h) h.pages).pool_size
    → IsDesc size i d
    → HasFree h.links (h.free_list (flags_of h) i) d.block_size (b ∷ bs)
    → InPage b d.block_size
    → (h.pages.has_pgdir || leb k_heap_start b) ≡ true
    → (h.arenas (block2arena b)).desc ≡ some (flags_of h, i)
    → 0 < (h.arenas (block2arena b)).cnt
    → (h.arenas (block2arena b)).cnt < 2 ^ 32
    → (h.arenas (block2arena b)).cnt ≢ d.blocks_per_arena
    → (h₁ : Heap) × (h₂ : Heap) × (sys_malloc fuel size h ≡ ok (b, h₁))
      × (sys_free fuel b h₁ ≡ ok h₂)
      × IsList h₂.links (h.free_list (flags_of h) i) (bs ++ (b ∷ []))
      × (h₂.arenas (block2arena b) ≡ h.arenas (block2arena b))
malloc-free fuel size i b bs d h pos small fits is free place own arena some_used bound more =
    let (h₁, run, took) = sys_malloc_block fuel size i b bs d h pos small fits is free place in
    let dir : h₁.pages.has_pgdir ≡ h.pages.has_pgdir = ap (λ (s : Pages). s.has_pgdir) took.pages in
    let cnt : (h₁.arenas (block2arena b)).cnt ≡ sub32 (h.arenas (block2arena b)).cnt 1 =
      ap (λ (r : Arena). r.cnt) took.arena in
    let ret : add32 (sub32 (h.arenas (block2arena b)).cnt 1) 1 ≡ (h.arenas (block2arena b)).cnt =
      ground arith in
    let back : add32 (h₁.arenas (block2arena b)).cnt 1 ≡ (h.arenas (block2arena b)).cnt =
      rw cnt ret in
    let list : IsList h₁.links (h₁.free_list (flags_of h) i) bs = rw took.lists took.free.list in
    let (h₂, freed, gave) =
      sys_free_lem fuel i b bs (flags_of h) d h₁ (ground (arith, place.behind)) (rw dir own)
        (ap (λ (r : Arena). r.desc) took.arena ∙ arena) (desc_at_lem size i d is) list
        (rw took.lists (new_again (h.free_list (flags_of h) i) b bs free.list.distinct))
        (λ e. more (sym back ∙ e)) in
    (
      h₁,
      h₂,
      run,
      freed,
      (rw (sym took.lists) gave.list),
      gave.arena
          ∙ ap (λ (r : Arena). record r { cnt = add32 r.cnt 1 }) took.arena
          ∙ ap (λ n. record (h.arenas (block2arena b)) { cnt = n }) ret,
    )
