-- ===== src/KernelList/Walk.antt =====
-- The loops over a list: they end at the tail, within one round more than there are elements.
use os_elephant.Base.{
  ℕ, zero, suc, ◌+◌, ◌<◌, Bool, false, ◌==◌, ◌≡◌, refl, List, [], ◌∷◌, ◌++◌, arith, if◌then◌else◌,
  Option, none, some, ok, length, Bool-cases, inl, inr, ap, ◌∙◌,
}
use os_elephant.Base.Members.{has, Distinct, has-append}
use os_elephant.KernelList.{
  Links, KList, len_loop, list_len, find_loop, elem_find, traversal_loop, list_traversal,
  list_empty,
}
use os_elephant.KernelList.Chain.{Chain, IsList}
use os_elephant.KernelList.Update.{list_empty_iff}

-- The first element that a callback accepts.
unfoldable pub find_first : (ℕ → Bool) → List ℕ → Option ℕ
find_first p [] = none
find_first p (x ∷ xs) = if p x then some x else find_first p xs

module _ (s : Links) (tail : ℕ) where
  len_loop_lem :
      (fuel a : ℕ) (xs : List ℕ) (n : ℕ)
      → Chain s a xs tail
      → has tail xs ≡ false
      → length xs < fuel
      → len_loop fuel tail s (s.next a) n ≡ ok (n + length xs)
  unfolding len_loop has
  len_loop_lem zero a xs n c d h = absurd (omega arith)
  len_loop_lem (suc fuel) a [] n c d h = ground arith
  len_loop_lem (suc fuel) a (x ∷ xs) n c d h =
      let ne : (x == tail) ≡ false = ground arith in
      rw (c.0, ne)
        (len_loop_lem fuel x xs (n + 1) c.2 (ground arith) (omega arith) ∙ ap ok (omega arith))

  find_loop_lem :
      (fuel a obj : ℕ) (xs : List ℕ)
      → Chain s a xs tail
      → has tail xs ≡ false
      → length xs < fuel
      → find_loop fuel tail obj s (s.next a) ≡ ok (has obj xs)
  unfolding find_loop has
  find_loop_lem zero a obj xs c d h = absurd (omega arith)
  find_loop_lem (suc fuel) a obj [] c d h = ground arith
  find_loop_lem (suc fuel) a obj (x ∷ xs) c d h =
      let ne : (x == tail) ≡ false = ground arith in
      let ih = find_loop_lem fuel x obj xs c.2 (ground arith) (omega arith) in
      rw (c.0, ne, ih) (ground arith)

  traversal_loop_lem :
      (fuel a : ℕ) (func : ℕ → ℕ → Bool) (arg : ℕ) (xs : List ℕ)
      → Chain s a xs tail
      → has tail xs ≡ false
      → length xs < fuel
      → traversal_loop fuel tail func arg s (s.next a) ≡ ok (find_first (λ e. func e arg) xs)
  unfolding traversal_loop has find_first
  traversal_loop_lem zero a func arg xs c d h = absurd (omega arith)
  traversal_loop_lem (suc fuel) a func arg [] c d h = ground arith
  traversal_loop_lem (suc fuel) a func arg (x ∷ xs) c d h =
      let ne : (x == tail) ≡ false = ground arith in
      let ih = traversal_loop_lem fuel x func arg xs c.2 (ground arith) (omega arith) in
      rw (c.0, ne, ih) (ground arith)

tail_apart : (xs : List ℕ) (t : ℕ) → Distinct (xs ++ (t ∷ [])) → has t xs ≡ false
unfolding has
tail_apart [] t d = refl
tail_apart (x ∷ xs) t d = ground (arith, tail_apart xs t d.1, has-append x xs (t ∷ []))

module _ (l : KList) (s : Links) (xs : List ℕ) (is : IsList s l xs) (fuel : ℕ)
    (enough : length xs < fuel) where
  -- `list_len` counts the elements.
  pub list_len_lem : list_len fuel l s ≡ ok (length xs)
  unfolding list_len
  list_len_lem =
      len_loop_lem s l.tail fuel l.head xs 0 is.chain (tail_apart xs l.tail is.distinct.1) enough
      ∙ ap ok (omega arith)

  -- `elem_find` decides membership.
  pub elem_find-has : (obj : ℕ) → elem_find fuel l obj s ≡ ok (has obj xs)
  unfolding elem_find
  elem_find-has obj =
      find_loop_lem s l.tail fuel l.head obj xs is.chain (tail_apart xs l.tail is.distinct.1) enough

  -- `list_traversal` returns the first element that the callback accepts.
  pub list_traversal-find_first :
      (func : ℕ → ℕ → Bool) (arg : ℕ)
      → list_traversal fuel l func arg s ≡ ok (find_first (λ e. func e arg) xs)
  unfolding list_traversal find_first
  list_traversal-find_first func arg = elim (Bool-cases (list_empty l s)) [
    | inl e ↦ let none_left : xs ≡ [] = (list_empty_iff l s xs is).0 e in rw (e, none_left)
    | inr e ↦ rw e (
        traversal_loop_lem s l.tail fuel l.head func arg xs is.chain
          (tail_apart xs l.tail is.distinct.1) enough)
  ]
