-- ===== src/Memory.antt =====
-- The page allocator: ch15/kernel/memory.c and memory.h. Physical pages come from two pools,
-- virtual pages from the kernel's or from the running process's address space, and the page table,
-- seen through its mapping at the top of the address space, joins the two.
pub mod Alloc
pub mod Init
pub mod Table
pub mod Pools
pub mod Blocks
mod Tests
use os_elephant.Base.{
  ℕ, zero, suc, ◌+◌, ◌-◌, ◌*◌, ◌/◌, ◌%◌, ◌^◌, Bool, true, false, not, ◌&&◌, ◌||◌, Option, none,
  some, ltb, leb, ◌==◌, neb, if◌then◌else◌, Outcome, ok, panic, assert, ◌>>=◌, ◌>>◌, add32, sub32,
  mul32, u16,
}
use os_elephant.Bitmap.{Bitmap, bitmap_init, bitmap_scan, bitmap_set}

pub data PoolFlags : Type 0 where
  pf_kernel pf_user : PoolFlags

-- `lock_depth` is `holder_repeat_nr` of the lock while the running thread holds it, else 0.
pub record Pool : Type 0 where
  pub pool_bitmap : Bitmap
  pub phy_addr_start : ℕ
  pub pool_size : ℕ
  pub lock_depth : ℕ

pub record VirtualAddr : Type 0 where
  pub vaddr_bitmap : Bitmap
  pub vaddr_start : ℕ

-- `has_pgdir`: the running thread has a page directory of its own; `user_vaddr` is its
-- `userprog_vaddr`; `words` is the memory in words, by the addresses at which they start.
pub record Pages : Type 0 where
  pub kernel_pool : Pool
  pub user_pool : Pool
  pub kernel_vaddr : VirtualAddr
  pub user_vaddr : VirtualAddr
  pub has_pgdir : Bool
  pub words : ℕ → ℕ

abbrev pub pg_size : ℕ
pg_size = 4096

abbrev pub is_kernel : PoolFlags → Bool
is_kernel pf_kernel = true
is_kernel pf_user = false

abbrev pub pool_of : PoolFlags → Pages → Pool
pool_of pf_kernel s = s.kernel_pool
pool_of pf_user s = s.user_pool

abbrev pub put_pool : PoolFlags → Pool → Pages → Pages
put_pool pf_kernel p s = record s { kernel_pool = p }
put_pool pf_user p s = record s { user_pool = p }

abbrev pub space_of : PoolFlags → Pages → VirtualAddr
space_of pf_kernel s = s.kernel_vaddr
space_of pf_user s = s.user_vaddr

abbrev pub put_space : PoolFlags → Bitmap → Pages → Pages
put_space pf_kernel b s = record s { kernel_vaddr = record (s.kernel_vaddr) { vaddr_bitmap = b } }
put_space pf_user b s = record s { user_vaddr = record (s.user_vaddr) { vaddr_bitmap = b } }

abbrev pub put_word : ℕ → ℕ → Pages → Pages
put_word p v s = record s { words = λ q. if p == q then v else s.words q }

-- `memset(p, 0, size)`, which asserts that `p` is not `NULL`
abbrev pub clear : ℕ → ℕ → Pages → Outcome Pages
clear p size s =
    assert (neb p 0)
    >> ok (record s { words = λ q. if leb p q && ltb q (p + size) then 0 else s.words q })

-- The loops over `bitmap_set(b, bit_idx_start + cnt++, value)`
unfoldable pub set_run : ℕ → Bitmap → ℕ → ℕ → Outcome Bitmap
set_run zero b i value = ok b
set_run (suc left) b i value = bitmap_set b i value >>= λ b'. set_run left b' (add32 i 1) value

-- The address 0 is `NULL`.
unfoldable pub vaddr_get : PoolFlags → ℕ → Pages → Outcome (ℕ × Pages)
unfolding set_run
vaddr_get pf pg_cnt s = do
  let space = space_of pf s
  scanned ← bitmap_scan space.vaddr_bitmap pg_cnt
  elim scanned [
    | none ↦ ok (0, s)
    | some bit_idx_start ↦ do
      b ← set_run pg_cnt space.vaddr_bitmap bit_idx_start 1
      let vaddr_start = add32 space.vaddr_start (mul32 bit_idx_start pg_size)
      assert (is_kernel pf || ltb vaddr_start (0xc0000000 - pg_size))
      ok (vaddr_start, put_space pf b s)
  ]

-- A mask of high bits is a division and a product: on 32-bit numbers the two agree.
unfoldable pub pde_idx : ℕ → ℕ
pde_idx addr = addr / 2 ^ 22

unfoldable pub pte_idx : ℕ → ℕ
pte_idx addr = addr % 2 ^ 22 / 2 ^ 12

unfoldable pub pte_ptr : ℕ → ℕ
unfolding pte_idx
pte_ptr vaddr = add32 (add32 0xffc00000 (vaddr / 2 ^ 22 * 2 ^ 22 / 2 ^ 10)) (pte_idx vaddr * 4)

unfoldable pub pde_ptr : ℕ → ℕ
unfolding pde_idx
pde_ptr vaddr = add32 0xfffff000 (pde_idx vaddr * 4)

unfoldable pub palloc : Pool → Outcome (ℕ × Pool)
palloc m_pool = do
  scanned ← bitmap_scan m_pool.pool_bitmap 1
  elim scanned [
    | none ↦ ok (0, m_pool)
    | some bit_idx ↦ do
      b ← bitmap_set m_pool.pool_bitmap bit_idx 1
      ok (add32 (mul32 bit_idx pg_size) m_pool.phy_addr_start, record m_pool { pool_bitmap = b })
  ]

-- `*entry & PG_P_1`
abbrev pub is_present : ℕ → Bool
is_present entry = entry % 2 == 1

-- `addr | PG_US_U | PG_RW_W | PG_P_1`: the three low bits are set
abbrev pub entry_for : ℕ → ℕ
entry_for addr = addr / 8 * 8 + 7

-- `words` is the memory as the addresses show it, with one word for each address: of two addresses
-- of one physical page a write changes the other too, which is not modelled. The loader gives
-- entries 0 and 768 of the kernel's directory the same table.
unfoldable pub page_table_add : ℕ → ℕ → Pages → Outcome Pages
unfolding palloc pde_ptr pte_ptr
page_table_add vaddr page_phyaddr s =
    let pde = pde_ptr vaddr in
    let pte = pte_ptr vaddr in
    if is_present (s.words pde)
    then assert (not (is_present (s.words pte))) >> ok (put_word pte (entry_for page_phyaddr) s)
    else (palloc s.kernel_pool >>= λ taken.
        let with_pde = put_word pde (entry_for taken.0) (record s { kernel_pool = taken.1 }) in
        clear (pte / pg_size * pg_size) pg_size with_pde >>= λ cleared.
        assert (not (is_present (cleared.words pte)))
        >> ok (put_word pte (entry_for page_phyaddr) cleared))
