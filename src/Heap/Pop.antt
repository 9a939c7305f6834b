-- ===== src/Heap/Pop.antt =====
-- A block from a free list, and back: `sys_malloc` and `sys_free` of ch15/kernel/memory.c.
use os_elephant.Base.{
  neq_false, ◌*◌, suc, zero, ◌/◌, ℕ, ◌+◌, ◌-◌, ◌%◌, ◌<◌, ◌≤◌, ◌≡◌, ◌≢◌, ◌⊎◌, inl, inr, refl, sym,
  ap, true, false, ltb, ◌==◌, neb, ==_iff, if◌then◌else◌, List, [], ◌∷◌, none, some, get_elem?, ok,
  arith, Bool-cases, sub32,
}
use os_elephant.KernelList.{Links, KList, list_pop, list_empty}
use os_elephant.KernelList.Chain.{IsList}
use os_elephant.KernelList.Update.{list_pop_lem, list_empty_iff}
use os_elephant.Memory.{PoolFlags, pf_kernel, pf_user, Pages, pool_of, pg_size}
use os_elephant.Memory.Alloc.{lock_acquire, lock_release}
use os_elephant.Memory.Init.{MemBlockDesc, block_desc_init, desc_loop, block2arena}
use os_elephant.Heap.{
  Heap, within, no_arena, clear_links, clear_range, put_arena, flags_of, find_desc, take_block,
  malloc_small, sys_malloc, with_pages, desc_at,
}
use os_elephant.Heap.Clear.{HasFree, HasFree-clear}

-- What a taken block leaves: the list without it, its arena with one less, its bytes cleared.
pub record Took (b : ℕ) (bs : List ℕ) (pf : PoolFlags) (i : ℕ) (d : MemBlockDesc) (h h' : Heap)
    : Type 0 where
  pub free : HasFree h'.links (h.free_list pf i) d.block_size bs
  pub arena :
      h'.arenas (block2arena b)
      ≡ record (h.arenas (block2arena b)) { cnt = sub32 (h.arenas (block2arena b)).cnt 1 }
  pub other_arenas : (a : ℕ) → a % pg_size ≡ 0 → a ≢ block2arena b → h'.arenas a ≡ h.arenas a
  pub words : (q : ℕ) → h'.pages.words q ≡ (if within b d.block_size q then 0 else h.pages.words q)
  pub pages : h'.pages ≡ record (h.pages) { words = h'.pages.words }
  pub lists : h'.free_list ≡ h.free_list

-- The block lies in a page, behind the structure of its arena.
pub record InPage (b size : ℕ) : Type 0 where
  pub behind : 12 ≤ b % pg_size
  pub inside : b % pg_size + size ≤ pg_size

module _ (b : ℕ) (bs : List ℕ) (pf : PoolFlags) (i : ℕ) (d : MemBlockDesc) (h : Heap)
    (free : HasFree h.links (h.free_list pf i) d.block_size (b ∷ bs))
    (place : InPage b d.block_size) where
  abbrev pub popped : Links
  popped = (list_pop (h.free_list pf i) h.links).1

  abbrev pub cleared : Heap
  cleared = record h {
    pages = record (h.pages) {
      words = λ q. if within b d.block_size q then 0 else h.pages.words q;
    };
    links = clear_links b d.block_size popped;
    arenas = λ q. if within b d.block_size q then no_arena else h.arenas q;
  }

  abbrev pub taken : Heap
  taken =
      let a = block2arena b in
      put_arena a (record (cleared.arenas a) { cnt = sub32 (cleared.arenas a).cnt 1 }) cleared

  pub take_steps : take_block pf i d h ≡ ok (b, taken)
  unfolding take_block clear_range
  take_steps =
      let popped_b : (list_pop (h.free_list pf i) h.links).0 ≡ b =
        (list_pop_lem (h.free_list pf i) h.links b bs free.list).0 in
      let not_null : neb b 0 ≡ true = ground (arith, place.behind) in rw (popped_b, not_null) refl

  page_out : (q : ℕ) → q % 4096 ≡ 0 → within b d.block_size q ≡ false
  page_out q e = ground (arith, place.behind, place.inside)

  arena_out : within b d.block_size (block2arena b) ≡ false
  unfolding block2arena
  arena_out = page_out (b / 4096 * 4096) (omega arith)

  pub Took-of : Took b bs pf i d h taken
  Took-of = record {
    free =
        HasFree-clear h.links popped (h.free_list pf i) d.block_size b bs free
          (list_pop_lem (h.free_list pf i) h.links b bs free.list).1;
    arena =
        let here : (block2arena b == block2arena b) ≡ true = (==_iff _ _).1 refl in
        rw (here, arena_out) refl;
    other_arenas = λ a e ne. rw (neq_false a (block2arena b) ne, page_out a e) refl;
    words = λ q. refl;
    pages = refl;
    lists = refl;
  }

pub relock :
    (pf : PoolFlags) (s : Pages) (w : ℕ → ℕ)
    → lock_release pf (record (lock_acquire pf s) { words = w }) ≡ ok (record s { words = w })
relock pf_kernel s w =
    let back : s.kernel_pool.lock_depth + 1 - 1 ≡ s.kernel_pool.lock_depth = omega arith in
    let held : ltb 0 (s.kernel_pool.lock_depth + 1) ≡ true = ground arith in
    rw held (
      ap (λ n. ok (record s { words = w; kernel_pool = record (s.kernel_pool) { lock_depth = n } }))
        back)
relock pf_user s w =
    let back : s.user_pool.lock_depth + 1 - 1 ≡ s.user_pool.lock_depth = omega arith in
    let held : ltb 0 (s.user_pool.lock_depth + 1) ≡ true = ground arith in
    rw held (
      ap (λ n. ok (record s { words = w; user_pool = record (s.user_pool) { lock_depth = n } }))
        back)

lock_words : (pf : PoolFlags) (s : Pages) → (lock_acquire pf s).words ≡ s.words
lock_words pf_kernel s = refl
lock_words pf_user s = refl

not_empty :
    (l : KList) (s : Links) (x : ℕ) (xs : List ℕ) → IsList s l (x ∷ xs) → list_empty l s ≡ false
not_empty l s x xs is = elim (Bool-cases (list_empty l s)) [
  | inl e ↦ let none : x ∷ xs ≡ [] = (list_empty_iff l s (x ∷ xs) is).0 e in absurd (cc none)
  | inr e ↦ e
]

-- The descriptor for a size: its blocks are large enough, and those of the one before are not.
pub record IsDesc (size i : ℕ) (d : MemBlockDesc) : Type 0 where
  pub at : get_elem? block_desc_init i ≡ some d
  pub enough : size ≤ d.block_size
  pub least : (i ≡ 0) ⊎ (d.block_size < size + size)

some_inj : {d e : MemBlockDesc} → some d ≡ some e → e ≡ d
some_inj h = cc

pub desc_at_lem : (size i : ℕ) (d : MemBlockDesc) → IsDesc size i d → desc_at i ≡ ok d
unfolding block_desc_init desc_loop
desc_at_lem size i d is = let at : get_elem? block_desc_init i ≡ some d = is.at in rw (at) refl

size_at :
    (i block : ℕ) (d : MemBlockDesc)
    → some d ≡ some (record { block_size = block; blocks_per_arena = 4084 / block })
    → d.block_size ≡ block
size_at i block d e = ap (λ (x : MemBlockDesc). x.block_size) (sym (some_inj e))

pub find_desc_lem : (size i : ℕ) (d : MemBlockDesc) → IsDesc size i d → find_desc 7 0 size ≡ ok i
unfolding find_desc block_desc_init desc_loop
find_desc_lem size zero d is = let s = size_at 0 16 d (sym is.at) in ground (arith, s, is.enough)
find_desc_lem size (suc zero) d is =
    let s = size_at 0 32 d (sym is.at) in ground (arith, s, is.enough, is.least)
find_desc_lem size (suc (suc zero)) d is =
    let s = size_at 0 64 d (sym is.at) in ground (arith, s, is.enough, is.least)
find_desc_lem size (suc (suc (suc zero))) d is =
    let s = size_at 0 128 d (sym is.at) in ground (arith, s, is.enough, is.least)
find_desc_lem size (suc (suc (suc (suc zero)))) d is =
    let s = size_at 0 256 d (sym is.at) in ground (arith, s, is.enough, is.least)
find_desc_lem size (suc (suc (suc (suc (suc zero))))) d is =
    let s = size_at 0 512 d (sym is.at) in ground (arith, s, is.enough, is.least)
find_desc_lem size (suc (suc (suc (suc (suc (suc zero)))))) d is =
    let s = size_at 0 1024 d (sym is.at) in ground (arith, s, is.enough, is.least)
find_desc_lem size (suc (suc (suc (suc (suc (suc (suc i))))))) d is =
    let at : none ≡ some d = is.at in ground (arith, at)

-- `sys_malloc` of 1 to 1024 bytes, less than the size of the caller's pool: if the descriptor with
-- the smallest blocks that are large enough has a free list that is not empty, whose blocks do not
-- overlap and whose first block lies in one page behind the structure of an arena, then that block
-- is returned; the list is the rest, the count of the block's arena is one less and no other arena
-- at the start of a page changes, the words in the block are 0 and all others as before, and so are
-- the pools, the locks and the sentinels.
pub sys_malloc_block :
    (fuel size i b : ℕ) (bs : List ℕ) (d : MemBlockDesc) (h : Heap)
    → 0 < size
    → size ≤ 1024
    → size < (pool_of (flags_of h) h.pages).pool_size
    → IsDesc size i d
    → HasFree h.links (h.free_list (flags_of h) i) d.block_size (b ∷ bs)
    → InPage b d.block_size
    → (h' : Heap) × (sys_malloc fuel size h ≡ ok (b, h')) × Took b bs (flags_of h) i d h h'
unfolding sys_malloc malloc_small
sys_malloc_block fuel size i b bs d h pos small fits is free place =
    let pf = flags_of h in
    let locked = with_pages (lock_acquire pf h.pages) h in
    let last = taken b bs pf i d locked free place in
    let t1 : ltb 0 size ≡ true = ground arith in
    let t2 : ltb size (pool_of (flags_of h) h.pages).pool_size ≡ true = ground arith in
    let t3 : ltb 1024 size ≡ false = ground arith in
    let t4 = not_empty (h.free_list pf i) h.links b bs free.list in
    let h' = taken b bs pf i d h free place in
    (
      h',
      rw
          (
            t1,
            t2,
            t3,
            find_desc_lem size i d is,
            desc_at_lem size i d is,
            t4,
            take_steps b bs pf i d locked free place,
            lock_words pf h.pages,
            relock pf h.pages h'.pages.words,
          )
          refl,
      Took-of b bs pf i d h free place,
    )
