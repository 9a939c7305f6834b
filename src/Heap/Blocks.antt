-- ===== src/Heap/Blocks.antt =====
-- The blocks of a new arena in their order: `arena2block` of ch15/kernel/memory.c and the loop of
-- `sys_malloc` over it.
use mathlib.Core.List.{append_assoc, append-nil}
use os_elephant.Base.{
  ℕ, zero, suc, ◌+◌, ◌-◌, ◌*◌, ◌/◌, ◌%◌, ◌^◌, ◌<◌, ◌≤◌, ◌≡◌, ◌≢◌, refl, sym, ap, ◌∙◌, get_elem?,
  Option, none, some, arith, false, List, [], ◌∷◌, ◌++◌, length, length-append, ok,
}
use os_elephant.Base.Members.{has, has-append}
use os_elephant.KernelList.{Links, KList, list_append, list_insert_before, elem_find}
use os_elephant.KernelList.Chain.{IsList}
use os_elephant.KernelList.Update.{list_append_lem}
use os_elephant.KernelList.Walk.{elem_find-has}
use os_elephant.Memory.{pg_size}
use os_elephant.Memory.Init.{MemBlockDesc, arena_size, desc_loop, block_desc_init, arena2block}
use os_elephant.Heap.{add_blocks}
use os_elephant.Heap.Clear.{all_of}

-- Block `j` of an arena ends before block `k`, both in the arena's page behind its structure.
pub record Ordered (a j k : ℕ) (d : MemBlockDesc) : Type 0 where
  pub behind : a + 12 ≤ arena2block a d j
  pub before : arena2block a d j + d.block_size ≤ arena2block a d k
  pub inside : arena2block a d k + d.block_size ≤ a + pg_size
  pub some_bytes : 0 < d.block_size

in_order :
    (size a j k : ℕ) (d : MemBlockDesc)
    → ((j k : ℕ)
        → j < k
        → k < (4096 - 12) / size
        → (j * size + size ≤ k * size) × (k * size + size ≤ 4084))
    → 0 < size
    → some (record { block_size = size; blocks_per_arena = (pg_size - arena_size) / size }) ≡ some d
    → a % 4096 ≡ 0
    → a < 2 ^ 32
    → j < k
    → k < d.blocks_per_arena
    → Ordered a j k d
unfolding arena2block
in_order size a j k d room pos e aligned fits lt inside =
    let s : size ≡ d.block_size =
      ap (λ (o : Option MemBlockDesc). elim o [ none ↦ 0 | some x ↦ x.block_size ]) e in
    let n : (4096 - 12) / size ≡ d.blocks_per_arena =
      ap (λ (o : Option MemBlockDesc). elim o [ none ↦ 0 | some x ↦ x.blocks_per_arena ]) e in
    let (first, last) = room j k lt (omega (arith, n, inside)) in
    rw (sym s) (record {
      behind = omega arith;
      before = omega arith;
      inside = omega arith;
      some_bytes = pos;
    })

pub Ordered-of :
    (i a j k : ℕ) (d : MemBlockDesc)
    → get_elem? block_desc_init i ≡ some d
    → a % 4096 ≡ 0
    → a < 2 ^ 32
    → j < k
    → k < d.blocks_per_arena
    → Ordered a j k d
unfolding block_desc_init desc_loop
Ordered-of zero a j k d e =
    in_order 16 a j k d (λ j k lt h. (omega arith, omega arith)) (omega arith) e
Ordered-of (suc zero) a j k d e =
    in_order 32 a j k d (λ j k lt h. (omega arith, omega arith)) (omega arith) e
Ordered-of (suc (suc zero)) a j k d e =
    in_order 64 a j k d (λ j k lt h. (omega arith, omega arith)) (omega arith) e
Ordered-of (suc (suc (suc zero))) a j k d e =
    in_order 128 a j k d (λ j k lt h. (omega arith, omega arith)) (omega arith) e
Ordered-of (suc (suc (suc (suc zero)))) a j k d e =
    in_order 256 a j k d (λ j k lt h. (omega arith, omega arith)) (omega arith) e
Ordered-of (suc (suc (suc (suc (suc zero))))) a j k d e =
    in_order 512 a j k d (λ j k lt h. (omega arith, omega arith)) (omega arith) e
Ordered-of (suc (suc (suc (suc (suc (suc zero)))))) a j k d e =
    in_order 1024 a j k d (λ j k lt h. (omega arith, omega arith)) (omega arith) e
Ordered-of (suc (suc (suc (suc (suc (suc (suc i))))))) a j k d e = absurd cc

-- The blocks from one index on.
abbrev pub blocks : ℕ → MemBlockDesc → ℕ → ℕ → List ℕ
blocks a d idx zero = []
blocks a d idx (suc n) = arena2block a d idx ∷ blocks a d (idx + 1) n

list_append_intr : (l : KList) (elem : ℕ) (s : Links) → (list_append l elem s).intr ≡ s.intr
unfolding list_append list_insert_before
list_append_intr l elem s = ground arith

absent_of : (q : ℕ) (l : KList) (xs : List ℕ) → has q (all_of l xs) ≡ false → has q xs ≡ false
unfolding has
absent_of q l xs h = ground (arith, h, has-append q xs (l.tail ∷ []))

absent_behind :
    (q b : ℕ) (l : KList) (xs : List ℕ)
    → has q (all_of l xs) ≡ false
    → q ≢ b
    → has q (all_of l (xs ++ (b ∷ []))) ≡ false
unfolding has
absent_behind q b l xs h ne = ground (
  arith,
  h,
  ne,
  has-append q xs (l.tail ∷ []),
  has-append q xs (b ∷ []),
  has-append q (xs ++ (b ∷ [])) (l.tail ∷ []),
)

pub add_blocks_lem :
    (fuel left idx a : ℕ) (l : KList) (d : MemBlockDesc) (s : Links) (xs : List ℕ)
    → IsList s l xs
    → ((k : ℕ) → idx ≤ k → k < idx + left → has (arena2block a d k) (all_of l xs) ≡ false)
    → ((j k : ℕ) → idx ≤ j → j < k → k < idx + left → arena2block a d k ≢ arena2block a d j)
    → length xs + left < fuel
    → (s' : Links) × (add_blocks fuel left l a d idx s ≡ ok s')
      × IsList s' l (xs ++ blocks a d idx left)
      × (s'.intr ≡ s.intr)
unfolding add_blocks
add_blocks_lem fuel zero idx a l d s xs is new apart enough =
    (s, refl, (rw (append-nil xs) is), refl)
add_blocks_lem fuel (suc left) idx a l d s xs is new apart enough =
    let b = arena2block a d idx in
    let absent : has b xs ≡ false = absent_of b l xs (new idx (omega arith) (omega arith)) in
    let found : elem_find fuel l b s ≡ ok false =
      elem_find-has l s xs is fuel (omega arith) b ∙ ap ok absent in
    let appended : IsList (list_append l b s) l (xs ++ (b ∷ [])) =
      list_append_lem l b s is (new idx (omega arith) (omega arith)) in
    let (s', run, is', intr) =
      add_blocks_lem fuel left (idx + 1) a l d (list_append l b s) (xs ++ (b ∷ [])) appended
        (λ k le lt.
          absent_behind (arena2block a d k) b l xs (new k (omega arith) (omega arith))
            (apart idx k (omega arith) (omega arith) (omega arith)))
        (λ j k le lt h. apart j k (omega arith) lt (omega arith))
        (let e = length-append xs (b ∷ []) in omega (arith, e, enough)) in
    (
      s',
      rw found run,
      (rw (append_assoc xs (b ∷ []) (blocks a d (idx + 1) left)) at is'),
      intr ∙ list_append_intr l b s,
    )
