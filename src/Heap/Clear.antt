-- ===== src/Heap/Clear.antt =====
-- A free list and the `memset` of a block by `sys_malloc` of ch15/kernel/memory.c.
use os_elephant.Base.{
  ℕ, ◌+◌, ◌<◌, ◌≤◌, ◌≡◌, ◌≢◌, ◌⊎◌, inl, inr, refl, sym, ap, ◌∙◌, true, false, ==_iff, List, [], ◌∷◌,
  ◌++◌, arith,
}
use os_elephant.Base.Members.{has, has-append}
use os_elephant.KernelList.{Links, KList}
use os_elephant.KernelList.Chain.{IsList, frame}
use os_elephant.Heap.{within, clear_links}

-- All elements of a list, the sentinels among them.
abbrev pub all_of : KList → List ℕ → List ℕ
all_of l xs = l.head ∷ (xs ++ (l.tail ∷ []))

-- The free blocks of one size, apart from each other and from the sentinels.
pub record HasFree (s : Links) (l : KList) (size : ℕ) (bs : List ℕ) : Type 0 where
  pub list : IsList s l bs
  pub apart :
      (x y : ℕ) → has x bs ≡ true → has y (all_of l bs) ≡ true → y ≢ x → (y < x) ⊎ (x + size ≤ y)

pub out_of_range : (x y size : ℕ) → (y < x) ⊎ (x + size ≤ y) → within x size y ≡ false
out_of_range x y size (inl h) = ground arith
out_of_range x y size (inr h) = ground arith

has_before : (q : ℕ) (xs : List ℕ) (t : ℕ) → has q xs ≡ true → has q (xs ++ (t ∷ [])) ≡ true
has_before q xs t h = ground (arith, has-append q xs (t ∷ []))

pub IsList-clear :
    (p size : ℕ) (s : Links) (l : KList) (xs : List ℕ)
    → IsList s l xs
    → ((q : ℕ) → has q (all_of l xs) ≡ true → within p size q ≡ false)
    → IsList (clear_links p size s) l xs
unfolding has
IsList-clear p size s l xs is out = record {
  chain =
      frame s (clear_links p size s) l.head xs l.tail
        (λ q h. rw (out q (ground (arith, h, has-append q xs (l.tail ∷ [])))) refl)
        (λ q h. rw (out q (ground (arith, h))) refl) is.chain;
  distinct = is.distinct;
}

-- A list without its first block, which is cleared.
pub HasFree-clear :
    (s t : Links) (l : KList) (size b : ℕ) (bs : List ℕ)
    → HasFree s l size (b ∷ bs)
    → IsList t l bs
    → HasFree (clear_links b size t) l size bs
unfolding has
HasFree-clear s t l size b bs free is = record {
  list = IsList-clear b size t l bs is λ q h.
      out_of_range b q size (free.apart b q (ground (arith, ==_iff b b)) (later q h) (differs q h));
  apart = λ x y hx hy ne. free.apart x y (ground (arith, hx)) (later y hy) ne;
}
  where
    later : (q : ℕ) → has q (all_of l bs) ≡ true → has q (all_of l (b ∷ bs)) ≡ true
    later q h = ground (arith, h)

    differs : (q : ℕ) → has q (all_of l bs) ≡ true → q ≢ b
    differs q h e =
        let h' : has b (all_of l bs) ≡ true = ap (λ x. has x (all_of l bs)) (sym e) ∙ h in
        absurd (ground (arith, h', free.list.distinct))
