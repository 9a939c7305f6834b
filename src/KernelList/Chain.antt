-- ===== src/KernelList/Chain.antt =====
-- What a list stands for: its elements in order, linked in both directions.
use os_elephant.Base.{ℕ, true, ◌≡◌, List, [], ◌∷◌, ◌++◌, arith}
use os_elephant.Base.Members.{has, Distinct}
use os_elephant.KernelList.{Links, KList}

-- `next` leads from `a` through `xs` to `b`, and `prev` leads back.
abbrev pub Chain : Links → ℕ → List ℕ → ℕ → Type 0
Chain s a [] b = (s.next a ≡ b) × (s.prev b ≡ a)
Chain s a (x ∷ xs) b = (s.next a ≡ x) × (s.prev x ≡ a) × Chain s x xs b

-- The list holds the elements `xs`, which differ from one another and from the sentinels.
pub record IsList (s : Links) (l : KList) (xs : List ℕ) : Type 0 where
  pub chain : Chain s l.head xs l.tail
  pub distinct : Distinct (l.head ∷ (xs ++ (l.tail ∷ [])))

-- A chain survives any change that spares its own links.
pub frame :
    (s t : Links) (a : ℕ) (xs : List ℕ) (b : ℕ)
    → ((p : ℕ) → has p (a ∷ xs) ≡ true → t.next p ≡ s.next p)
    → ((p : ℕ) → has p (xs ++ (b ∷ [])) ≡ true → t.prev p ≡ s.prev p)
    → Chain s a xs b
    → Chain t a xs b
unfolding has
frame s t a [] b n p c = (ground (arith, n a), ground (arith, p b))
frame s t a (x ∷ xs) b n p c = (
  ground (arith, n a),
  ground (arith, p x),
  frame s t x xs b (λ q h. n q (ground arith)) (λ q h. p q (ground arith)) c.2,
)

-- The element before `b` is `a` or one of `xs`.
pub has-prev :
    (s : Links) (a : ℕ) (xs : List ℕ) (b : ℕ) → Chain s a xs b → has (s.prev b) (a ∷ xs) ≡ true
unfolding has
has-prev s a [] b c = ground arith
has-prev s a (x ∷ xs) b c = ground (arith, has-prev s x xs b c.2)

-- The element after `a` is one of `xs` or `b`.
pub has-next :
    (s : Links) (a : ℕ) (xs : List ℕ) (b : ℕ)
    → Chain s a xs b
    → has (s.next a) (xs ++ (b ∷ [])) ≡ true
unfolding has
has-next s a [] b c = ground arith
has-next s a (x ∷ xs) b c = ground arith

-- A chain through `x` is a chain to `x` and one from `x`.
pub Chain-split :
    (s : Links) (a : ℕ) (xs : List ℕ) (x : ℕ) (ys : List ℕ) (b : ℕ)
    → Chain s a (xs ++ (x ∷ ys)) b
    → Chain s a xs x × Chain s x ys b
Chain-split s a [] x ys b c = ((c.0, c.1), c.2)
Chain-split s a (z ∷ zs) x ys b c =
    let (front, back) = Chain-split s z zs x ys b c.2 in ((c.0, c.1, front), back)
