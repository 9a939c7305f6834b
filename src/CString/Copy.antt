-- ===== src/CString/Copy.antt =====
-- `memset`, `memcpy` and `memcmp`, byte by byte.
use os_elephant.Base.{
  ℕ, zero, suc, ◌+◌, ◌-◌, ◌≤◌, ◌<◌, ◌≡◌, ◌≢◌, ◌⊎◌, ◌↔◌, refl, Bool, true, false, ◌&&◌, ◌==◌, ltb,
  leb, if◌then◌else◌, ok, arith, Bool-cases, inl, inr, ◌∙◌, ap, sym,
}
use os_elephant.CString.{
  Memory, write, set_loop, memset, copy_loop, memcpy, cmp_loop, memcmp, Sign, same, minus, plus,
  signed_order,
}

-- Address `q` is one of the `size` from `p` on.
abbrev pub within : ℕ → ℕ → ℕ → Bool
within p size q = leb p q && ltb q (p + size)

set_loop_lem :
    (size dst value : ℕ) (m : Memory) (q : ℕ)
    → set_loop size dst value m q ≡ (if within dst size q then value else m q)
unfolding set_loop
set_loop_lem zero dst value m q = ground arith
set_loop_lem (suc size) dst value m q =
    ground (arith, set_loop_lem size (dst + 1) value (write m dst value) q)

-- `memset` writes the value to each of the bytes, and to no other.
pub memset_lem :
    (dst value size : ℕ) (m : Memory)
    → dst ≢ 0
    → (m' : Memory) × (memset dst value size m ≡ ok m')
      × ((q : ℕ) → m' q ≡ (if within dst size q then value else m q))
unfolding memset
memset_lem dst value size m ne =
    (set_loop size dst value m, ground arith, set_loop_lem size dst value m)

-- A copy upwards is exact if the destination does not start inside the source.
abbrev pub Clear : ℕ → ℕ → ℕ → Type 0
Clear dst src size = (dst ≤ src) ⊎ (src + size ≤ dst)

copy_loop_lem :
    (size dst src : ℕ) (m : Memory)
    → Clear dst src size
    → (q : ℕ)
    → copy_loop size dst src m q ≡ (if within dst size q then m (src + (q - dst)) else m q)
unfolding copy_loop
copy_loop_lem zero dst src m c q = ground arith
copy_loop_lem (suc size) dst src m c q =
    copy_loop_lem size (dst + 1) (src + 1) (write m dst (m src)) (omega arith) q ∙ moved
  where
    moved :
        (if within (dst + 1) size q
          then write m dst (m src) (src + 1 + (q - (dst + 1)))
          else write m dst (m src) q)
        ≡ (if within dst (suc size) q then m (src + (q - dst)) else m q)
    moved = elim (Bool-cases (within (dst + 1) size q)) [
      | inl e ↦
          let e' : within dst (suc size) q ≡ true = ground arith in
          let ne : (dst == src + 1 + (q - (dst + 1))) ≡ false = ground arith in
          rw (e, e', ne) (ap m (ground arith))
      | inr e ↦ rw e (elim (Bool-cases (dst == q)) [
        | inl d ↦
            let e' : within dst (suc size) q ≡ true = ground arith in
            rw (d, e') (ap m (ground arith))
        | inr d ↦ let e' : within dst (suc size) q ≡ false = ground arith in rw (d, e')
      ])
    ]

-- `memcpy` copies upwards: if the destination does not start inside the source and neither address
-- is `NULL`, each byte of it becomes the byte that the source held before, and no other byte
-- changes. The two may overlap.
pub memcpy_lem :
    (dst src size : ℕ) (m : Memory)
    → dst ≢ 0
    → src ≢ 0
    → Clear dst src size
    → (m' : Memory) × (memcpy dst src size m ≡ ok m')
      × ((q : ℕ) → m' q ≡ (if within dst size q then m (src + (q - dst)) else m q))
unfolding memcpy
memcpy_lem dst src size m nd ns c =
    (copy_loop size dst src m, ground arith, copy_loop_lem size dst src m c)

cmp_loop-same :
    (size a b : ℕ) (m : Memory)
    → (cmp_loop size a b m ≡ same) ↔ ((i : ℕ) → i < size → m (a + i) ≡ m (b + i))
unfolding cmp_loop
cmp_loop-same zero a b m = ((λ h i lt. absurd (omega arith)), λ h. refl)
cmp_loop-same (suc size) a b m = elim (Bool-cases (m a == m b)) [
  | inl e ↦ rw e (
    (λ h i lt. front e ((cmp_loop-same size (a + 1) (b + 1) m).0 h) i lt),
    λ h.
        (cmp_loop-same size (a + 1) (b + 1) m).1
          (λ i lt. shift a i ∙ h (i + 1) (omega arith) ∙ sym (shift b i)),
  )
  | inr e ↦ rw e ((λ h. absurd (other h)), λ h. absurd (differs e (h 0 (omega arith))))
]
  where
    shift : (p i : ℕ) → m (p + 1 + i) ≡ m (p + (i + 1))
    shift p i = ap m (omega arith)

    other : (if ltb (signed_order (m b)) (signed_order (m a)) then plus else minus) ≡ same → ⊥
    other h = ground arith

    first : (p : ℕ) → m (p + 0) ≡ m p
    first p = ap m (omega arith)

    differs : (m a == m b) ≡ false → m (a + 0) ≡ m (b + 0) → ⊥
    differs e h = ground (arith, first a, first b)

    front :
        (m a == m b) ≡ true
        → ((i : ℕ) → i < size → m (a + 1 + i) ≡ m (b + 1 + i))
        → (i : ℕ) → i < suc size
        → m (a + i) ≡ m (b + i)
    front e h zero lt = first a ∙ ground arith ∙ sym (first b)
    front e h (suc i) lt = later a i ∙ h i (omega arith) ∙ sym (later b i)
      where
        later : (p i : ℕ) → m (p + suc i) ≡ m (p + 1 + i)
        later p i = ap m (omega arith)

-- `memcmp` returns 0 exactly when the two ranges hold the same bytes.
pub memcmp-same_iff :
    (a b size : ℕ) (m : Memory)
    → a ≢ 0
    → (r : Sign) × (memcmp a b size m ≡ ok r)
      × ((r ≡ same) ↔ ((i : ℕ) → i < size → m (a + i) ≡ m (b + i)))
unfolding memcmp
memcmp-same_iff a b size m ne = (cmp_loop size a b m, ground arith, cmp_loop-same size a b m)
