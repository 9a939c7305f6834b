-- ===== src/KernelList/Update.antt =====
-- Inserting, appending, pushing, removing and popping, as operations on the elements in order.
use mathlib.Core.List.{append_assoc}
use os_elephant.Base.{
  ℕ, true, false, ◌==◌, ◌≡◌, ◌≢◌, ◌↔◌, refl, List, [], ◌∷◌, ◌++◌, arith, if◌then◌else◌, Bool-cases,
  inl, inr,
}
use os_elephant.Base.Members.{
  has, Distinct, has-append, Distinct-insert, Distinct-remove, ne_of_has,
}
use os_elephant.KernelList.{
  Links, KList, list_init, list_insert_before, list_push, list_append, list_remove, list_pop,
  list_empty,
}
use os_elephant.KernelList.Chain.{Chain, IsList, frame, has-prev, has-next, Chain-split}

module _ (before elem : ℕ) (s : Links) where
  next-insert :
      (p : ℕ)
      → (list_insert_before before elem s).next p
        ≡ (if elem == p then before else if s.prev before == p then elem else s.next p)
  unfolding list_insert_before
  next-insert p = ground arith

  prev-insert :
      (p : ℕ)
      → (list_insert_before before elem s).prev p
        ≡ (if before == p then elem else if elem == p then s.prev before else s.prev p)
  unfolding list_insert_before
  prev-insert p = ground arith

module _ (pelem : ℕ) (s : Links) where
  next-remove :
      (p : ℕ)
      → (list_remove pelem s).next p ≡ (if s.prev pelem == p then s.next pelem else s.next p)
  unfolding list_remove
  next-remove p = ground arith

  -- `pelem->next` is read again after the first write.
  prev-remove :
      s.prev pelem ≢ pelem
      → (p : ℕ)
      → (list_remove pelem s).prev p ≡ (if s.next pelem == p then s.prev pelem else s.prev p)
  unfolding list_remove
  prev-remove ne p = ground arith

-- Every operation leaves the interrupt flag as it was.
pub intr-insert : (before elem : ℕ) (s : Links) → (list_insert_before before elem s).intr ≡ s.intr
unfolding list_insert_before
intr-insert before elem s = ground arith

pub intr-remove : (pelem : ℕ) (s : Links) → (list_remove pelem s).intr ≡ s.intr
unfolding list_remove
intr-remove pelem s = ground arith

-- Inserting a new element before the end of a chain.
insert-Chain :
    (s : Links) (a : ℕ) (xs : List ℕ) (before elem : ℕ)
    → Distinct (a ∷ (xs ++ (before ∷ [])))
    → has elem (a ∷ (xs ++ (before ∷ []))) ≡ false
    → Chain s a xs before
    → Chain (list_insert_before before elem s) a (xs ++ (elem ∷ [])) before
unfolding has
insert-Chain s a [] before elem d new c = (
  ground (arith, next-insert before elem s a),
  ground (arith, prev-insert before elem s elem),
  (
    ground (arith, next-insert before elem s elem),
    ground (arith, prev-insert before elem s before),
  ),
)
insert-Chain s a (x ∷ xs) before elem d new c =
    let last : has (s.prev before) (x ∷ xs) ≡ true = has-prev s x xs before c.2 in
    (
      ground (arith, next-insert before elem s a, apart (s.prev before) last),
      ground (arith, prev-insert before elem s x, has-append x xs (before ∷ [])),
      insert-Chain s x xs before elem d.1 (ground arith) c.2,
    )
  where
    apart : (q : ℕ) → has q (x ∷ xs) ≡ true → (q == a) ≡ false
    apart q h = elim (Bool-cases (q == a)) [
      | inl e ↦ absurd (ground (arith, has-append a xs (before ∷ [])))
      | inr e ↦ e
    ]

-- Inserting a new element after the start of a chain.
push-Chain :
    (s : Links) (a : ℕ) (xs : List ℕ) (b elem : ℕ)
    → Distinct (a ∷ (xs ++ (b ∷ [])))
    → has elem (a ∷ (xs ++ (b ∷ []))) ≡ false
    → Chain s a xs b
    → Chain (list_insert_before (s.next a) elem s) a (elem ∷ xs) b
unfolding has
push-Chain s a [] b elem d new c =
    let t = list_insert_before (s.next a) elem s in
    (
      ground (arith, next-insert (s.next a) elem s a),
      ground (arith, prev-insert (s.next a) elem s elem),
      (
        ground (arith, next-insert (s.next a) elem s elem),
        ground (arith, prev-insert (s.next a) elem s b),
      ),
    )
push-Chain s a (x ∷ xs) b elem d new c = (
  ground (arith, next-insert (s.next a) elem s a),
  ground (arith, prev-insert (s.next a) elem s elem),
  (
    ground (arith, next-insert (s.next a) elem s elem),
    ground (arith, prev-insert (s.next a) elem s x),
    frame s (list_insert_before (s.next a) elem s) x xs b
        (λ p h. spared_next p h (next-insert (s.next a) elem s p))
        (λ p h. spared_prev p h (prev-insert (s.next a) elem s p)) c.2,
  ),
)
  where
    spared_next :
        (p : ℕ)
        → has p (x ∷ xs) ≡ true
        → {v : ℕ}
        → v ≡ (if elem == p then s.next a else if s.prev (s.next a) == p then elem else s.next p)
        → v ≡ s.next p
    spared_next p h e = ground (
      arith,
      ne_of_has p elem (x ∷ xs) h,
      ne_of_has p a (x ∷ xs) h,
      has-append a xs (b ∷ []),
      has-append elem xs (b ∷ []),
    )

    spared_prev :
        (p : ℕ)
        → has p (xs ++ (b ∷ [])) ≡ true
        → {v : ℕ}
        → v ≡ (if s.next a == p then elem else if elem == p then s.prev (s.next a) else s.prev p)
        → v ≡ s.prev p
    spared_prev p h e =
        ground (arith, ne_of_has p elem (xs ++ (b ∷ [])) h, ne_of_has p x (xs ++ (b ∷ [])) h)

-- In a well-formed list, `list_append` puts an element that is not in it, nor its head or tail, at
-- the end.
pub list_append_lem :
    (l : KList) (elem : ℕ) (s : Links) {xs : List ℕ}
    → IsList s l xs
    → has elem (l.head ∷ (xs ++ (l.tail ∷ []))) ≡ false
    → IsList (list_append l elem s) l (xs ++ (elem ∷ []))
unfolding list_append
list_append_lem l elem s {xs} is new = record {
  chain = insert-Chain s l.head xs l.tail elem is.distinct new is.chain;
  distinct =
      rw (append_assoc xs (elem ∷ []) (l.tail ∷ []))
        (Distinct-insert (l.head ∷ xs) (l.tail ∷ []) elem is.distinct new);
}

-- `list_push` puts a new element at the front.
pub list_push_lem :
    (l : KList) (elem : ℕ) (s : Links) (xs : List ℕ)
    → IsList s l xs
    → has elem (l.head ∷ (xs ++ (l.tail ∷ []))) ≡ false
    → IsList (list_push l elem s) l (elem ∷ xs)
unfolding list_push list_insert_before
list_push_lem l elem s xs is new = record {
  chain = push-Chain s l.head xs l.tail elem is.distinct new is.chain;
  distinct = Distinct-insert (l.head ∷ []) (xs ++ (l.tail ∷ [])) elem is.distinct new;
}

-- Taking the element `x` out of the middle of a chain.
remove-Chain :
    (s : Links) (a : ℕ) (xs : List ℕ) (x : ℕ) (ys : List ℕ) (b : ℕ)
    → Distinct (a ∷ (xs ++ (x ∷ (ys ++ (b ∷ [])))))
    → Chain s a (xs ++ (x ∷ ys)) b
    → Chain (list_remove x s) a (xs ++ ys) b
unfolding has
remove-Chain s a [] x [] b d c =
    (ground (arith, next-remove x s a), ground (arith, prev-remove x s (ground arith) b))
remove-Chain s a [] x (y ∷ ys) b d c = (
  ground (arith, next-remove x s a),
  ground (arith, prev-remove x s (ground arith) y),
  frame s (list_remove x s) y ys b
      (λ p h. ground (arith, next-remove x s p, ne_of_has p a (y ∷ ys) h, has-append a ys (b ∷ [])))
      (λ p h. ground (arith, prev-remove x s (ground arith) p, ne_of_has p y (ys ++ (b ∷ [])) h))
      c.2.2,
)
remove-Chain s a (z ∷ zs) x ys b d c =
    let (front, back) = Chain-split s z zs x ys b c.2 in
    let before : has (s.prev x) (z ∷ zs) ≡ true = has-prev s z zs x front in
    let after : has (s.next x) (ys ++ (b ∷ [])) ≡ true = has-next s x ys b back in
    let (_, out) = Distinct-remove (z ∷ zs) (ys ++ (b ∷ [])) x d.1 in
    let apart : s.prev x ≢ x =
      ground (arith, ne_of_has (s.prev x) x (z ∷ zs) before, has-append x zs (ys ++ (b ∷ []))) in
    (
      ground (
        arith,
        next-remove x s a,
        ne_of_has (s.prev x) a (z ∷ zs) before,
        has-append a zs (x ∷ (ys ++ (b ∷ []))),
      ),
      ground (
        arith,
        prev-remove x s apart z,
        ne_of_has (s.next x) z (ys ++ (b ∷ [])) after,
        has-append z zs (x ∷ (ys ++ (b ∷ []))),
      ),
      remove-Chain s z zs x ys b d.1 c.2,
    )

-- From a well-formed list, `list_remove` takes an element out, wherever it stands; the others stay
-- in order.
pub list_remove_lem :
    (l : KList) (s : Links) (xs : List ℕ) (x : ℕ) (ys : List ℕ)
    → IsList s l (xs ++ (x ∷ ys))
    → IsList (list_remove x s) l (xs ++ ys)
list_remove_lem l s xs x ys is =
    let d : Distinct (l.head ∷ (xs ++ (x ∷ (ys ++ (l.tail ∷ []))))) =
      rw (append_assoc xs (x ∷ ys) (l.tail ∷ [])) at is.distinct in
    record {
      chain = remove-Chain s l.head xs x ys l.tail d is.chain;
      distinct =
          rw (append_assoc xs ys (l.tail ∷ []))
            (Distinct-remove (l.head ∷ xs) (ys ++ (l.tail ∷ [])) x d).0;
    }

-- From a well-formed list that is not empty, `list_pop` returns the first element and leaves the
-- others.
pub list_pop_lem :
    (l : KList) (s : Links) (x : ℕ) (xs : List ℕ)
    → IsList s l (x ∷ xs)
    → ((list_pop l s).0 ≡ x) × IsList (list_pop l s).1 l xs
unfolding list_pop
list_pop_lem l s x xs is =
    let e : s.next l.head ≡ x = is.chain.0 in (e, rw e (list_remove_lem l s [] x xs is))

-- `list_init` makes an empty list.
pub list_init_lem : (l : KList) (s : Links) → l.head ≢ l.tail → IsList (list_init l s) l []
unfolding list_init has
list_init_lem l s ne = record {
  chain = (ground arith, ground arith);
  distinct = (ground arith, (refl, tt));
}

-- `list_empty` tells the empty list from the others.
pub list_empty_iff :
    (l : KList) (s : Links) (xs : List ℕ) → IsList s l xs → (list_empty l s ≡ true) ↔ (xs ≡ [])
unfolding list_empty has
list_empty_iff l s [] is = ((λ _. refl), λ _. ground (arith, is.chain))
list_empty_iff l s (x ∷ xs) is = (
  (λ h. absurd (ground (arith, is.chain, is.distinct, has-append x xs (l.tail ∷ [])))),
  λ h. absurd (cc h),
)
