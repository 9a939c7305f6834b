-- ===== src/Base/Members.antt =====
-- Lists of numbers as sets: membership as a test, and lists with no number twice.
use Prim.Native.Nat.{ℕ}
use mathlib.Core.Path.{◌≡◌, refl}
use mathlib.Core.Bool.{Bool, true, false, ◌||◌}
use mathlib.Core.List.{List, [], ◌∷◌, ◌++◌}
use native.Mathlib.Omega.{arith}
use os_elephant.Base.Tests.{◌==◌}

unfoldable pub has : ℕ → List ℕ → Bool
has a [] = false
has a (x ∷ xs) = (a == x) || has a xs

abbrev pub Distinct : List ℕ → Type 0
Distinct [] = Unit
Distinct (x ∷ xs) = (has x xs ≡ false) × Distinct xs

pub has-append : (a : ℕ) (xs ys : List ℕ) → has a (xs ++ ys) ≡ (has a xs || has a ys)
unfolding has
has-append a [] ys = refl
has-append a (x ∷ xs) ys = ground (arith, has-append a xs ys)

pub Distinct-snoc :
    (xs : List ℕ) (x : ℕ) → Distinct xs → has x xs ≡ false → Distinct (xs ++ (x ∷ []))
unfolding has
Distinct-snoc [] x d h = (refl, tt)
Distinct-snoc (y ∷ ys) x d h =
    (ground (arith, has-append y ys (x ∷ [])), Distinct-snoc ys x d.1 (ground arith))

pub Distinct-insert :
    (xs ys : List ℕ) (x : ℕ)
    → Distinct (xs ++ ys)
    → has x (xs ++ ys) ≡ false
    → Distinct (xs ++ (x ∷ ys))
Distinct-insert [] ys x d new = (new, d)
Distinct-insert (z ∷ zs) ys x d new =
    (insert_fresh, Distinct-insert zs ys x d.1 (unfold has in ground arith))
  where
    insert_fresh : has z (zs ++ (x ∷ ys)) ≡ false
    insert_fresh = unfold has in ground (arith, has-append z zs (x ∷ ys), has-append z zs ys)

-- Taking one element out of a list with no element twice leaves such a list, without it.
pub Distinct-remove :
    (xs ys : List ℕ) (x : ℕ)
    → Distinct (xs ++ (x ∷ ys))
    → Distinct (xs ++ ys) × (has x (xs ++ ys) ≡ false)
unfolding has
Distinct-remove [] ys x d = (d.1, d.0)
Distinct-remove (z ∷ zs) ys x d =
    let (rest, out) = Distinct-remove zs ys x d.1 in
    (
      (ground (arith, has-append z zs (x ∷ ys), has-append z zs ys), rest),
      ground (arith, has-append z zs (x ∷ ys), has-append z zs ys),
    )

-- What is in a list differs from what is not.
pub ne_of_has : (p q : ℕ) (xs : List ℕ) → has p xs ≡ true → has q xs ≡ false → (q == p) ≡ false
unfolding has
ne_of_has p q [] h k = absurd (cc h)
ne_of_has p q (x ∷ xs) h k = ground (arith, ne_of_has p q xs)
