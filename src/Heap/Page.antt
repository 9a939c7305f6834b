-- ===== src/Heap/Page.antt =====
-- The page of a new arena and its blocks: `sys_malloc` of ch15/kernel/memory.c.
use os_elephant.Base.{
  ℕ, zero, suc, ◌+◌, ◌%◌, ◌^◌, ◌<◌, ◌≤◌, ◌≡◌, ◌≢◌, ◌⊎◌, inl, inr, sym, ap, ◌∙◌, true, false, ltb,
  ◌==◌, ==_iff, List, [], ◌∷◌, Option, none, some, get_elem?, ok, arith, Bool-cases,
}
use os_elephant.Base.Members.{has, has-append}
use os_elephant.KernelList.{Links, KList}
use os_elephant.KernelList.Chain.{IsList}
use os_elephant.Memory.{pg_size}
use os_elephant.Memory.Init.{MemBlockDesc, arena2block, block2arena, block_desc_init, desc_loop}
use os_elephant.Memory.Blocks.{block2arena-arena2block}
use os_elephant.Heap.{within, add_blocks}
use os_elephant.Heap.Clear.{HasFree, all_of}
use os_elephant.Heap.Blocks.{blocks, add_blocks_lem, Ordered-of}

-- A page that is not 0 and lies below 4 GB.
pub record IsPage (a : ℕ) : Type 0 where
  pub nonzero : a ≢ 0
  pub aligned : a % pg_size ≡ 0
  pub fits : a < 2 ^ 32

count_of : (o : Option MemBlockDesc) → ℕ
count_of none = 0
count_of (some d) = d.blocks_per_arena

pub several :
    (i : ℕ) (d : MemBlockDesc) → get_elem? block_desc_init i ≡ some d → 1 < d.blocks_per_arena
unfolding block_desc_init desc_loop count_of
several zero d e = let n : 255 ≡ d.blocks_per_arena = ap count_of e in omega (arith, n)
several (suc zero) d e = let n : 127 ≡ d.blocks_per_arena = ap count_of e in omega (arith, n)
several (suc (suc zero)) d e = let n : 63 ≡ d.blocks_per_arena = ap count_of e in omega (arith, n)
several (suc (suc (suc zero))) d e =
    let n : 31 ≡ d.blocks_per_arena = ap count_of e in omega (arith, n)
several (suc (suc (suc (suc zero)))) d e =
    let n : 15 ≡ d.blocks_per_arena = ap count_of e in omega (arith, n)
several (suc (suc (suc (suc (suc zero))))) d e =
    let n : 7 ≡ d.blocks_per_arena = ap count_of e in omega (arith, n)
several (suc (suc (suc (suc (suc (suc zero)))))) d e =
    let n : 3 ≡ d.blocks_per_arena = ap count_of e in omega (arith, n)
several (suc (suc (suc (suc (suc (suc (suc i))))))) d e = absurd cc

pub bounded :
    (i : ℕ) (d : MemBlockDesc) → get_elem? block_desc_init i ≡ some d → d.blocks_per_arena < 256
unfolding block_desc_init desc_loop count_of
bounded zero d e = let n : 255 ≡ d.blocks_per_arena = ap count_of e in omega (arith, n)
bounded (suc zero) d e = let n : 127 ≡ d.blocks_per_arena = ap count_of e in omega (arith, n)
bounded (suc (suc zero)) d e = let n : 63 ≡ d.blocks_per_arena = ap count_of e in omega (arith, n)
bounded (suc (suc (suc zero))) d e =
    let n : 31 ≡ d.blocks_per_arena = ap count_of e in omega (arith, n)
bounded (suc (suc (suc (suc zero)))) d e =
    let n : 15 ≡ d.blocks_per_arena = ap count_of e in omega (arith, n)
bounded (suc (suc (suc (suc (suc zero))))) d e =
    let n : 7 ≡ d.blocks_per_arena = ap count_of e in omega (arith, n)
bounded (suc (suc (suc (suc (suc (suc zero)))))) d e =
    let n : 3 ≡ d.blocks_per_arena = ap count_of e in omega (arith, n)
bounded (suc (suc (suc (suc (suc (suc (suc i))))))) d e = absurd cc

-- A block of the arena that is in its page.
has-blocks :
    (x a idx n : ℕ) (d : MemBlockDesc)
    → has x (blocks a d idx n) ≡ true
    → (j : ℕ) × (idx ≤ j) × (j < idx + n) × (x ≡ arena2block a d j)
unfolding has
has-blocks x a idx zero d h = absurd (cc h)
has-blocks x a idx (suc n) d h = elim (Bool-cases (x == arena2block a d idx)) [
  | inl e ↦ (idx, omega arith, omega arith, (==_iff _ _).0 e)
  | inr e ↦
      let (j, low, high, at) = has-blocks x a (idx + 1) n d (rw e at h) in
      (j, omega arith, omega arith, at)
]

pub member_cases :
    (y : ℕ) (l : KList) (xs : List ℕ)
    → has y (all_of l xs) ≡ true
    → (y ≡ l.head) ⊎ ((has y xs ≡ true) ⊎ (y ≡ l.tail))
unfolding has
member_cases y l xs h = elim (Bool-cases (y == l.head)) [
  | inl e ↦ inl ((==_iff _ _).0 e)
  | inr e ↦ elim (Bool-cases (has y xs)) [
    | inl f ↦ inr (inl f)
    | inr f ↦ inr (inr (ground (arith, h, e, f, has-append y xs (l.tail ∷ []))))
  ]
]

-- The blocks of a page, for sentinels outside it.
module _ (i a : ℕ) (d : MemBlockDesc) (l : KList) (at : get_elem? block_desc_init i ≡ some d)
    (page : IsPage a) (head_out : within a pg_size l.head ≡ false)
    (tail_out : within a pg_size l.tail ≡ false) where
  in_page :
      (k : ℕ)
      → k < d.blocks_per_arena
      → (a ≤ arena2block a d k) × (arena2block a d k + d.block_size ≤ a + pg_size)
  unfolding block2arena
  in_page k lt =
      let (start, last) = block2arena-arena2block i a k d at page.aligned page.fits lt in
      (omega (arith, start), last)

  apart_blocks :
      (j k : ℕ)
      → j < d.blocks_per_arena
      → k < d.blocks_per_arena
      → arena2block a d k ≢ arena2block a d j
      → (arena2block a d k < arena2block a d j)
        ⊎ (arena2block a d j + d.block_size ≤ arena2block a d k)
  apart_blocks j k lj lk ne = elim (Bool-cases (ltb j k)) [
    | inl e ↦ inr (Ordered-of i a j k d at page.aligned page.fits (ground (arith, e)) lk).before
    | inr e ↦ elim (Bool-cases (ltb k j)) [
      | inl f ↦
          let o = Ordered-of i a k j d at page.aligned page.fits (ground (arith, f)) lj in
          inl (omega (arith, o.before, o.some_bytes))
      | inr f ↦
          let same_index : k ≡ j = ground (arith, e, f) in
          absurd (ne (ap (arena2block a d) same_index))
    ]
  ]

  apart_sentinel :
      (j y : ℕ)
      → j < d.blocks_per_arena
      → within a pg_size y ≡ false
      → (y < arena2block a d j) ⊎ (arena2block a d j + d.block_size ≤ y)
  apart_sentinel j y lj out = let (low, high) = in_page j lj in ground (arith, low, high, out)

  apart_all :
      (j y : ℕ)
      → j < d.blocks_per_arena
      → has y (all_of l (blocks a d 0 d.blocks_per_arena)) ≡ true
      → y ≢ arena2block a d j
      → (y < arena2block a d j) ⊎ (arena2block a d j + d.block_size ≤ y)
  apart_all j y lj hy ne = elim (member_cases y l (blocks a d 0 d.blocks_per_arena) hy) [
    | inl e ↦ apart_sentinel j y lj (rw e head_out)
    | inr (inl inner) ↦
        let (k, _, lk, ey) = has-blocks y a 0 d.blocks_per_arena d inner in
        rw ey (apart_blocks j k lj (omega arith) (λ e. ne (ey ∙ e)))
    | inr (inr e) ↦ apart_sentinel j y lj (rw e tail_out)
  ]

  pub HasFree-blocks :
      (s : Links)
      → IsList s l (blocks a d 0 d.blocks_per_arena)
      → HasFree s l d.block_size (blocks a d 0 d.blocks_per_arena)
  HasFree-blocks s is = record {
    list = is;
    apart = λ x y hx hy ne.
        (let (j, _, lj, ex) = has-blocks x a 0 d.blocks_per_arena d hx in
          rw ex (apart_all j y (omega arith) hy (λ e. ne (e ∙ sym ex))));
  }

  -- The links of a filled list, for one that was empty.
  pub filled_links :
      (fuel : ℕ) (s : Links)
      → IsList s l []
      → d.blocks_per_arena < fuel
      → (s' : Links) × (add_blocks fuel d.blocks_per_arena l a d 0 s ≡ ok s')
        × IsList s' l (blocks a d 0 d.blocks_per_arena)
        × (s'.intr ≡ s.intr)
  unfolding has
  filled_links fuel s is enough =
      add_blocks_lem fuel d.blocks_per_arena 0 a l d s [] is
        (λ k le lt.
          (let (low, high) = in_page k (omega arith) in
            let o = Ordered-of i a 0 1 d at page.aligned page.fits (omega arith) (several i d at) in
            ground (arith, low, high, o.some_bytes, head_out, tail_out)))
        (λ j k le lt lk e.
          (let o = Ordered-of i a j k d at page.aligned page.fits lt (omega arith) in
            omega (arith, o.before, o.some_bytes, e)))
        (omega (arith, enough))
