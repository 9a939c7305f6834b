-- ===== src/Fork/Pages.antt =====
-- The pages of a process and those of its copy: `copy_body_stack3` of ch15/userprog/fork.c.
use os_elephant.Base.{
  ℕ, zero, suc, ◌+◌, ◌-◌, ◌*◌, ◌^◌, ◌<◌, ◌≤◌, ◌≡◌, refl, ap, ◌∙◌, Bool, true, false, ◌&&◌, ◌||◌,
  ltb, leb, ◌==◌, if◌then◌else◌, ok, arith, Bool-cases, inl, inr,
}
use os_elephant.Bitmap.{Bitmap}
use os_elephant.Bitmap.Bits.{used}
use os_elephant.Memory.{pg_size}
use os_elephant.Fork.{Task, Space, page_of, table_of, copy_page, copy_body_stack3}
use os_elephant.Fork.Bits.{pages_from, copy_bytes_lem}

-- How many of a number of bits from `k` on are set.
unfoldable pub set_bits : ℕ → Bitmap → ℕ → ℕ
set_bits zero b k = 0
set_bits (suc left) b k = (if used b k then 1 else 0) + set_bits left b (k + 1)

-- Page `p` is one of the marked ones of the `n` from the page of bit `k` on; the first is the page
-- `first`.
abbrev pub marked : Bitmap → ℕ → ℕ → ℕ → ℕ → Bool
marked b first k n p = leb (first + k) p && (ltb p (first + k + n) && used b (p - first))

-- What a copy of pages leaves.
pub record Copied (b : Bitmap) (first k n : ℕ) (parent child child' : Space) : Type 0 where
  pub mapped : (p : ℕ) → child'.mapped p ≡ (if marked b first k n p then true else child.mapped p)
  pub tables : (p : ℕ) → marked b first k n p ≡ true → child'.tables (table_of p) ≡ true
  pub tables_kept : (i : ℕ) → child.tables i ≡ true → child'.tables i ≡ true
  pub bytes :
      (q : ℕ)
      → child'.bytes q ≡ (if marked b first k n (page_of q) then parent.bytes q else child.bytes q)

marked_step :
    (b : Bitmap) (first k n p : ℕ)
    → marked b first k (suc n) p ≡ ((p == first + k) && used b k || marked b first (k + 1) n p)
marked_step b first k n p = elim (Bool-cases (p == first + k)) [
  | inl here ↦
      let e : p ≡ first + k = ground (arith, here) in
      let back : first + k - first ≡ k = omega arith in rw e (rw back (ground arith))
  | inr other ↦ ground (arith, other)
]

-- The copy of one page.
abbrev with_page : ℕ → Space → Space → Space
with_page at parent child = record {
  mapped = λ p. if p == at then true else child.mapped p;
  tables = λ i. if i == table_of at then true else child.tables i;
  bytes = λ q. if page_of q == at then parent.bytes q else child.bytes q;
}

copy_page_lem :
    (k first pages spare : ℕ) (parent child : Space)
    → parent.mapped (first + k) ≡ true
    → child.mapped (first + k) ≡ false
    → 0 < pages
    → 0 < spare
    → (spare' : ℕ) × (copy_page (k * pg_size + first * pg_size) parent (child, pages, spare)
        ≡ ok (with_page (first + k) parent child, pages - 1, spare'))
      × (spare' ≤ spare)
      × (spare ≤ spare' + 1)
unfolding copy_page
copy_page_lem k first pages spare parent child there fresh room more =
    let at : page_of (k * pg_size + first * pg_size) ≡ first + k = omega arith in
    let t : ltb 0 pages ≡ true = ground arith in
    let t' : ltb 0 spare ≡ true = ground arith in
    elim (Bool-cases (child.tables (table_of (first + k)))) [
      | inl has_table ↦ (spare, rw (at, there, fresh, t, has_table) refl, omega arith, omega arith)
      | inr no_table ↦ (spare - 1, rw (at, there, t, no_table, t') refl, omega arith, omega arith)
    ]

Copied-page :
    (b : Bitmap) (first k n : ℕ) (parent child child' : Space)
    → used b k ≡ true
    → Copied b first (k + 1) n parent (with_page (first + k) parent child) child'
    → Copied b first k (suc n) parent child child'
Copied-page b first k n parent child child' u c = record {
  mapped = λ p. c.mapped p ∙ rw (marked_step b first k n p, u) (ground arith);
  tables = λ p h. table_there p (rw (marked_step b first k n p, u) at h);
  tables_kept = λ i h. c.tables_kept i (ground (arith, h));
  bytes = λ q. c.bytes q ∙ rw (marked_step b first k n (page_of q), u) (ground arith);
}
  where
    table_there :
        (p : ℕ)
        → ((p == first + k) && true || marked b first (k + 1) n p) ≡ true
        → child'.tables (table_of p) ≡ true
    table_there p h = elim (Bool-cases (p == first + k)) [
      | inl here ↦
          let e : p ≡ first + k = ground (arith, here) in
          rw e (c.tables_kept (table_of (first + k)) (ground arith))
      | inr other ↦ c.tables p (ground (arith, h, other))
    ]

Copied-none :
    (b : Bitmap) (first k n : ℕ) (parent child child' : Space)
    → used b k ≡ false
    → Copied b first (k + 1) n parent child child'
    → Copied b first k (suc n) parent child child'
Copied-none b first k n parent child child' u c = record {
  mapped = λ p. c.mapped p ∙ rw (marked_step b first k n p, u) (ground arith);
  tables = λ p h. c.tables p (ground (arith, rw (marked_step b first k n p, u) at h));
  tables_kept = λ i h. c.tables_kept i h;
  bytes = λ q. c.bytes q ∙ rw (marked_step b first k n (page_of q), u) (ground arith);
}

-- One round of the pages, by the bit.
module _ (left : ℕ) (b : Bitmap) (k first pages spare : ℕ) (parent child : Space) where
  page_step :
      (spare' : ℕ)
      → used b k ≡ true
      → copy_page (k * pg_size + first * pg_size) parent (child, pages, spare)
        ≡ ok (with_page (first + k) parent child, pages - 1, spare')
      → pages_from (suc left) b k (first * pg_size) parent (child, pages, spare)
        ≡ pages_from left b
            (k + 1)
            (first * pg_size)
            parent
            (with_page (first + k) parent child, pages - 1, spare')
  unfolding pages_from
  page_step spare' u run = rw (u, run) refl

  page_skip :
      used b k ≡ false
      → pages_from (suc left) b k (first * pg_size) parent (child, pages, spare)
        ≡ pages_from left b (k + 1) (first * pg_size) parent (child, pages, spare)
  unfolding pages_from
  page_skip u = rw u refl

  bit_step : used b k ≡ true → set_bits (suc left) b k ≡ 1 + set_bits left b (k + 1)
  unfolding set_bits
  bit_step u = rw u refl

  bit_skip : used b k ≡ false → set_bits (suc left) b k ≡ set_bits left b (k + 1)
  unfolding set_bits
  bit_skip u = rw u (omega arith)

pages_from_lem :
    (left : ℕ) (b : Bitmap) (k first pages spare : ℕ) (parent child : Space)
    → ((j : ℕ)
        → k ≤ j
        → j < k + left
        → used b j ≡ true
        → (parent.mapped (first + j) ≡ true) × (child.mapped (first + j) ≡ false))
    → set_bits left b k ≤ pages
    → set_bits left b k ≤ spare
    → (child' : Space) × (spare' : ℕ) × (pages_from left b k
          (first * pg_size)
          parent
          (child, pages, spare)
        ≡ ok (child', pages - set_bits left b k, spare'))
      × Copied b first k left parent child child'
      × (spare' ≤ spare)
      × (spare ≤ spare' + set_bits left b k)
pages_from_lem zero b k first pages spare parent child there room more = (
  child,
  spare,
  (unfold pages_from set_bits in ap (λ n. ok (child, n, spare)) (omega arith)),
  record {
    mapped = λ p. ground arith;
    tables = λ p h. absurd (ground (arith, h));
    tables_kept = λ i h. h;
    bytes = λ q. ground arith;
  },
  omega arith,
  omega arith,
)
pages_from_lem (suc left) b k first pages spare parent child there room more =
    elim (Bool-cases (used b k)) [
      | inl u ↦
          let count = bit_step left b k first pages spare parent child u in
          let (seen, fresh) = there k (omega arith) (omega arith) u in
          let (spare₁, run₁, less₁, most₁) =
            copy_page_lem k first pages spare parent child seen fresh (omega (arith, room, count))
              (omega (arith, more, count)) in
          let (child', spare', run, copied, less, most) =
            pages_from_lem left b (k + 1) first (pages - 1) spare₁ parent
              (with_page (first + k) parent child)
              (λ j le lt uj.
                (let (sj, fj) = there j (omega arith) (omega arith) uj in (sj, ground (arith, fj))))
              (omega (arith, room, count)) (omega (arith, more, count, most₁)) in
          (
            child',
            spare',
            page_step left b k first pages spare parent child spare₁ u run₁
                ∙ (run ∙ ap (λ n. ok (child', n, spare')) (omega (arith, count))),
            Copied-page b first k left parent child child' u copied,
            omega (arith, less, less₁),
            omega (arith, most, most₁, count),
          )
      | inr clear ↦
          let count = bit_skip left b k first pages spare parent child clear in
          let (child', spare', run, copied, less, most) =
            pages_from_lem left b (k + 1) first pages spare parent child
              (λ j le lt. there j (omega arith) (omega arith)) (omega (arith, room, count))
              (omega (arith, more, count)) in
          (
            child',
            spare',
            page_skip left b k first pages spare parent child clear
                ∙ (run ∙ ap (λ n. ok (child', n, spare')) (omega (arith, count))),
            Copied-none b first k left parent child child' clear copied,
            less,
            omega (arith, most, count),
          )
    ]

-- `copy_body_stack3` of a process whose marked pages lie below 4 GB and are mapped, to an address
-- space that has none of them, with enough pages in both pools, takes one page of the user pool for
-- each mark and at most as many of the kernel pool: each marked page of the copy holds the bytes of
-- the process's, and nothing else of the copy changes.
pub copy_body_stack3_lem :
    (t : Task) (first pages spare : ℕ) (parent child : Space)
    → t.vaddr_start ≡ first * pg_size
    → t.vaddr_bitmap.btmp_bytes_len * 32768 + t.vaddr_start ≤ 2 ^ 32
    → ((j : ℕ)
        → j < t.vaddr_bitmap.btmp_bytes_len * 8
        → used t.vaddr_bitmap j ≡ true
        → (parent.mapped (first + j) ≡ true) × (child.mapped (first + j) ≡ false))
    → set_bits (t.vaddr_bitmap.btmp_bytes_len * 8) t.vaddr_bitmap 0 ≤ pages
    → set_bits (t.vaddr_bitmap.btmp_bytes_len * 8) t.vaddr_bitmap 0 ≤ spare
    → (child' : Space) × (spare' : ℕ) × (copy_body_stack3 t parent (child, pages, spare)
        ≡ ok
            (child', pages - set_bits (t.vaddr_bitmap.btmp_bytes_len * 8) t.vaddr_bitmap 0, spare'))
      × Copied t.vaddr_bitmap first 0 (t.vaddr_bitmap.btmp_bytes_len * 8) parent child child'
      × (spare' ≤ spare)
      × (spare ≤ spare' + set_bits (t.vaddr_bitmap.btmp_bytes_len * 8) t.vaddr_bitmap 0)
unfolding copy_body_stack3
copy_body_stack3_lem t first pages spare parent child start fits there room more =
    let (child', spare', run, copied, less, most) =
      pages_from_lem (t.vaddr_bitmap.btmp_bytes_len * 8) t.vaddr_bitmap 0 first pages spare parent
        child (λ j le lt. there j (omega arith)) room more in
    (
      child',
      spare',
      copy_bytes_lem t.vaddr_bitmap.btmp_bytes_len t.vaddr_bitmap 0 t.vaddr_start parent
            (child, pages, spare) (omega (arith, fits))
          ∙ (ap
                (λ v.
                  pages_from (t.vaddr_bitmap.btmp_bytes_len * 8) t.vaddr_bitmap 0 v parent
                    (child, pages, spare))
                start
              ∙ run),
      copied,
      less,
      most,
    )
