-- ===== src/Memory/Alloc.antt =====
-- Whole pages, taken and given back: ch15/kernel/memory.c from `malloc_page` on.
use os_elephant.Base.{
  ℕ, zero, suc, ◌+◌, ◌-◌, ◌*◌, ◌/◌, ◌%◌, Bool, not, ◌&&◌, ltb, leb, ◌==◌, if◌then◌else◌, Outcome,
  ok, assert, ◌>>=◌, ◌>>◌, add32, sub32, mul32,
}
use os_elephant.Bitmap.{bitmap_set}
use os_elephant.Memory.{
  PoolFlags, pf_kernel, pf_user, Pages, pg_size, pool_of, put_pool, space_of, put_space, put_word,
  clear, set_run, vaddr_get, pte_ptr, palloc, page_table_add,
}

-- `lock_acquire` and `lock_release` by a thread that the lock does not make wait.
abbrev pub lock_acquire : PoolFlags → Pages → Pages
lock_acquire pf s =
    let p = pool_of pf s in put_pool pf (record p { lock_depth = p.lock_depth + 1 }) s

abbrev pub lock_release : PoolFlags → Pages → Outcome Pages
lock_release pf s =
    let p = pool_of pf s in
    assert (ltb 0 p.lock_depth) >> ok (put_pool pf (record p { lock_depth = p.lock_depth - 1 }) s)

-- The loop of `malloc_page`, which gives up at the first page that it does not get.
unfoldable pub map_pages : ℕ → PoolFlags → ℕ → ℕ → Pages → Outcome (ℕ × Pages)
unfolding palloc page_table_add
map_pages zero pf start vaddr s = ok (start, s)
map_pages (suc left) pf start vaddr s = palloc (pool_of pf s) >>= λ taken.
    let with_pool = put_pool pf taken.1 s in
    if taken.0 == 0
    then ok (0, with_pool)
    else (page_table_add vaddr taken.0 with_pool >>= λ s'.
        map_pages left pf start (add32 vaddr pg_size) s')

unfoldable pub malloc_page : PoolFlags → ℕ → Pages → Outcome (ℕ × Pages)
unfolding vaddr_get map_pages
malloc_page pf pg_cnt s = do
  assert (ltb 0 pg_cnt && ltb pg_cnt 3840)
  got ← vaddr_get pf pg_cnt s
  if got.0 == 0 then ok (0, got.1) else map_pages pg_cnt pf got.0 got.0 got.1

unfoldable pub get_kernel_pages : ℕ → Pages → Outcome (ℕ × Pages)
unfolding malloc_page
get_kernel_pages pg_cnt s = do
  got ← malloc_page pf_kernel pg_cnt s
  if got.0 == 0 then ok got else (clear got.0 (mul32 pg_cnt pg_size) got.1 >>= λ s'. ok (got.0, s'))

-- The pages are cleared without a test for `NULL`.
unfoldable pub get_user_pages : ℕ → Pages → Outcome (ℕ × Pages)
unfolding malloc_page
get_user_pages pg_cnt s = do
  got ← malloc_page pf_user pg_cnt (lock_acquire pf_user s)
  s' ← clear got.0 (mul32 pg_cnt pg_size) got.1
  s'' ← lock_release pf_user s'
  ok (got.0, s'')

-- The space of the caller takes the page: a process takes user memory, a kernel thread kernel
-- memory.
unfoldable pub claim : PoolFlags → ℕ → Pages → Outcome Pages
claim pf vaddr s =
    let space = space_of pf s in
    let bit_idx = sub32 vaddr space.vaddr_start / pg_size in
    assert (elim pf [ pf_kernel ↦ not s.has_pgdir | pf_user ↦ s.has_pgdir ])
    >> (assert (ltb 0 bit_idx)
        >> (bitmap_set space.vaddr_bitmap bit_idx 1 >>= λ b. ok (put_space pf b s)))

-- Where no page is left the code returns with the lock still held.
unfoldable pub get_a_page : PoolFlags → ℕ → Pages → Outcome (ℕ × Pages)
unfolding claim palloc page_table_add
get_a_page pf vaddr s = do
  claimed ← claim pf vaddr (lock_acquire pf s)
  taken ← palloc (pool_of pf claimed)
  let with_pool = put_pool pf taken.1 claimed
  if taken.0 == 0
      then ok (0, with_pool)
      else (page_table_add vaddr taken.0 with_pool >>= λ s'.
          lock_release pf s' >>= λ s''. ok (vaddr, s''))

unfoldable pub get_a_page_without_opvaddrbitmap : PoolFlags → ℕ → Pages → Outcome (ℕ × Pages)
unfolding palloc page_table_add
get_a_page_without_opvaddrbitmap pf vaddr s = do
  let locked = lock_acquire pf s
  taken ← palloc (pool_of pf locked)
  let with_pool = put_pool pf taken.1 locked
  if taken.0 == 0
      then (lock_release pf with_pool >>= λ s'. ok (0, s'))
      else (page_table_add vaddr taken.0 with_pool >>= λ s'.
          lock_release pf s' >>= λ s''. ok (vaddr, s''))

unfoldable pub addr_v2p : ℕ → Pages → ℕ
unfolding pte_ptr
addr_v2p vaddr s = add32 (s.words (pte_ptr vaddr) / pg_size * pg_size) (vaddr % pg_size)

unfoldable pub pfree : ℕ → Pages → Outcome Pages
pfree pg_phy_addr s =
    let pf = if leb s.user_pool.phy_addr_start pg_phy_addr then pf_user else pf_kernel in
    let p = pool_of pf s in
    bitmap_set p.pool_bitmap (sub32 pg_phy_addr p.phy_addr_start / pg_size) 0 >>= λ b.
    ok (put_pool pf (record p { pool_bitmap = b }) s)

-- `*pte &= ~PG_P_1`
unfoldable pub page_table_pte_remove : ℕ → Pages → Pages
unfolding pte_ptr
page_table_pte_remove vaddr s = put_word (pte_ptr vaddr) (s.words (pte_ptr vaddr) / 2 * 2) s

unfoldable pub vaddr_remove : PoolFlags → ℕ → ℕ → Pages → Outcome Pages
unfolding set_run
vaddr_remove pf vaddr pg_cnt s =
    let space = space_of pf s in
    set_run pg_cnt space.vaddr_bitmap (sub32 vaddr space.vaddr_start / pg_size) 0 >>= λ b.
    ok (put_space pf b s)

-- The two loops of `mfree_page` differ in the range that the physical address must lie in.
unfoldable pub free_pages : ℕ → Bool → ℕ → Pages → Outcome Pages
unfolding addr_v2p pfree page_table_pte_remove
free_pages zero of_user vaddr s = ok s
free_pages (suc left) of_user vaddr s =
    let pg_phy_addr = addr_v2p vaddr s in
    let inside =
      if of_user
      then leb s.user_pool.phy_addr_start pg_phy_addr
      else leb s.kernel_pool.phy_addr_start pg_phy_addr
        && ltb pg_phy_addr s.user_pool.phy_addr_start in
    assert ((pg_phy_addr % pg_size == 0) && inside)
    >> (pfree pg_phy_addr s >>= λ s'.
        free_pages left of_user (add32 vaddr pg_size) (page_table_pte_remove vaddr s'))

unfoldable pub mfree_page : PoolFlags → ℕ → ℕ → Pages → Outcome Pages
unfolding addr_v2p free_pages vaddr_remove
mfree_page pf vaddr pg_cnt s = do
  assert (leb 1 pg_cnt && (vaddr % pg_size == 0))
  let pg_phy_addr = addr_v2p vaddr s
  assert ((pg_phy_addr % pg_size == 0) && leb 0x102000 pg_phy_addr)
  s' ← free_pages pg_cnt (leb s.user_pool.phy_addr_start pg_phy_addr) vaddr s
  vaddr_remove pf vaddr pg_cnt s'
