-- ===== src/Memory/Pools.antt =====
-- Physical pages: `palloc`, `pfree` and the runs of bits of ch15/kernel/memory.c.
use os_elephant.Base.{
  ℕ, zero, suc, ◌+◌, ◌-◌, ◌*◌, ◌/◌, ◌%◌, ◌^◌, ◌<◌, ◌≤◌, ◌≡◌, refl, Bool, true, false, ◌&&◌, ltb,
  leb, if◌then◌else◌, ok, panic, arith,
}
use os_elephant.Bitmap.{Bitmap, bitmap_set}
use os_elephant.Bitmap.Bits.{
  used, IsBytes, with_bit, bitmap_set_one, bitmap_set_zero, with_bit-IsBytes, used-with_bit,
}
use os_elephant.Bitmap.Scan.{bitmap_scan-one, bitmap_scan-full}
use os_elephant.Memory.{Pool, Pages, pg_size, palloc, set_run}
use os_elephant.Memory.Alloc.{pfree}

-- The pages of a pool have 32-bit addresses.
abbrev pub Fits : Pool → Type 0
Fits p = p.phy_addr_start + p.pool_bitmap.btmp_bytes_len * 8 * pg_size < 2 ^ 32

-- A pool with a free page: `palloc` returns the first one and marks it.
pub palloc-first :
    (p : Pool) (i : ℕ)
    → IsBytes p.pool_bitmap
    → Fits p
    → i < p.pool_bitmap.btmp_bytes_len * 8
    → used p.pool_bitmap i ≡ false
    → (k : ℕ) × (palloc p
        ≡ ok (
          p.phy_addr_start + k * pg_size,
          record p { pool_bitmap = with_bit p.pool_bitmap k true },
        ))
      × (k ≤ i)
      × (used p.pool_bitmap k ≡ false)
      × ((m : ℕ) → m < k → used p.pool_bitmap m ≡ true)
unfolding palloc
palloc-first p i bytes fits inside free =
    let (k, run, le, clear, below) =
      bitmap_scan-one p.pool_bitmap i bytes (omega (arith, fits)) inside free in
    (k, rw (run, bitmap_set_one p.pool_bitmap k) (ground arith), le, clear, below)

-- A pool without a free page: `palloc` does not return `NULL`, it stops the machine.
pub palloc-full :
    (p : Pool)
    → IsBytes p.pool_bitmap
    → ((i : ℕ) → i < p.pool_bitmap.btmp_bytes_len * 8 → used p.pool_bitmap i ≡ true)
    → palloc p ≡ panic
unfolding palloc
palloc-full p bytes full = rw (bitmap_scan-full p.pool_bitmap 1 bytes full)

-- A page taken from the kernel pool and given back leaves the pool's map as it was, when the pool
-- lies below the user pool.
pub pfree-palloc :
    (s : Pages) (i : ℕ)
    → IsBytes s.kernel_pool.pool_bitmap
    → Fits s.kernel_pool
    → s.kernel_pool.phy_addr_start + s.kernel_pool.pool_bitmap.btmp_bytes_len * 8 * pg_size
      ≤ s.user_pool.phy_addr_start
    → i < s.kernel_pool.pool_bitmap.btmp_bytes_len * 8
    → used s.kernel_pool.pool_bitmap i ≡ false
    → (a : ℕ) × (p : Pool) × (s' : Pages) × (palloc s.kernel_pool ≡ ok (a, p))
      × (pfree a (record s { kernel_pool = p }) ≡ ok s')
      × ((m : ℕ) → used s'.kernel_pool.pool_bitmap m ≡ used s.kernel_pool.pool_bitmap m)
unfolding pfree
pfree-palloc s i bytes fits apart inside free =
    let (k, run, le, clear, _) = palloc-first s.kernel_pool i bytes fits inside free in
    let b = s.kernel_pool.pool_bitmap in
    let taken = record (s.kernel_pool) { pool_bitmap = with_bit b k true } in
    let freed = with_bit (with_bit b k true) k false in
    (
      s.kernel_pool.phy_addr_start + k * pg_size,
      taken,
      record s { kernel_pool = record taken { pool_bitmap = freed } },
      run,
      released k (omega arith),
      λ m. ground (
        arith,
        used-with_bit (with_bit b k true) k m false (with_bit-IsBytes b k true bytes),
        used-with_bit b k m true bytes,
      ),
    )
  where
    released :
        (k : ℕ)
        → k < s.kernel_pool.pool_bitmap.btmp_bytes_len * 8
        → pfree (s.kernel_pool.phy_addr_start + k * pg_size) (record s {
          kernel_pool = record (s.kernel_pool) {
            pool_bitmap = with_bit s.kernel_pool.pool_bitmap k true;
          };
        })
          ≡ ok (record s {
            kernel_pool = record (s.kernel_pool) {
              pool_bitmap = with_bit (with_bit s.kernel_pool.pool_bitmap k true) k false;
            };
          })
    released k lt =
        let below : leb s.user_pool.phy_addr_start (s.kernel_pool.phy_addr_start + k * pg_size)
            ≡ false =
          ground arith in
        let index : (s.kernel_pool.phy_addr_start
                + k * pg_size
                + 2 ^ 32
                - s.kernel_pool.phy_addr_start)
              % 2 ^ 32
              / pg_size
            ≡ k =
          omega arith in
        unfold pfree in
        rw (below, index, bitmap_set_zero (with_bit s.kernel_pool.pool_bitmap k true) k)

-- The loop over `bitmap_set` sets or clears the bits of the run and no other.
pub set_run_lem :
    (n : ℕ) (b : Bitmap) (i : ℕ) (v : Bool)
    → IsBytes b
    → i + n < 2 ^ 32
    → (b' : Bitmap) × (set_run n b i (if v then 1 else 0) ≡ ok b')
      × IsBytes b'
      × ((m : ℕ) → used b' m ≡ (if leb i m && ltb m (i + n) then v else used b m))
unfolding set_run
set_run_lem zero b i v bytes fits = (b, refl, bytes, λ m. ground arith)
set_run_lem (suc n) b i v bytes fits =
    let (b', run, bytes', reads) =
      set_run_lem n (with_bit b i v) (i + 1) v (with_bit-IsBytes b i v bytes) (omega arith) in
    let wraps : (i + 1) % 2 ^ 32 ≡ i + 1 = omega arith in
    (b', rw (first v, wraps) run, bytes', λ m. ground (arith, reads m, used-with_bit b i m v bytes))
  where
    first : (v : Bool) → bitmap_set b i (if v then 1 else 0) ≡ ok (with_bit b i v)
    first true = bitmap_set_one b i
    first false = bitmap_set_zero b i
