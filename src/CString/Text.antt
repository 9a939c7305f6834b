-- ===== src/CString/Text.antt =====
-- The string functions, against the text that the memory holds.
use mathlib.Core.Path.{ap₂}
use os_elephant.Base.{
  ℕ, zero, suc, ◌+◌, ◌≤◌, ◌<◌, ◌≡◌, ◌≢◌, ◌↔◌, refl, true, false, ◌&&◌, List, [], ◌∷◌, length, ◌==◌,
  neb, ok, arith, Bool-cases, inl, inr, ◌∙◌, sym,
}
use os_elephant.CString.{Memory, strlen_loop, strlen, strcmp_loop, order, strcmp, Sign, same}

-- The memory at `p` holds the bytes of the text, none of them NUL, and a NUL behind them.
abbrev pub CStr : Memory → ℕ → List ℕ → Type 0
CStr m p [] = m p ≡ 0
CStr m p (c ∷ s) = (m p ≡ c) × (c ≢ 0) × (c < 256) × CStr m (p + 1) s

-- A text survives a change elsewhere.
pub CStr-frame :
    (m m' : Memory) (p : ℕ) (s : List ℕ)
    → ((q : ℕ) → p ≤ q → q ≤ p + length s → m' q ≡ m q)
    → CStr m p s
    → CStr m' p s
CStr-frame m m' p [] h t = h p (omega arith) (omega arith) ∙ t
CStr-frame m m' p (c ∷ s) h t = (
  h p (omega arith) (omega arith) ∙ t.0,
  t.1,
  t.2,
  CStr-frame m m' (p + 1) s (λ q lo hi. h q (omega arith) (omega arith)) t.3,
)

pub strlen_loop_lem :
    (fuel p : ℕ) (m : Memory) (s : List ℕ)
    → CStr m p s
    → length s < fuel
    → strlen_loop fuel p m ≡ ok (p + length s + 1)
unfolding strlen_loop
strlen_loop_lem zero p m s t h = absurd (omega arith)
strlen_loop_lem (suc fuel) p m [] t h = ground arith
strlen_loop_lem (suc fuel) p m (c ∷ s) t h = ground (arith, strlen_loop_lem fuel (p + 1) m s t.3)

-- `strlen` returns the length of the text.
pub strlen-length :
    (fuel p : ℕ) (m : Memory) (s : List ℕ)
    → p ≢ 0
    → CStr m p s
    → length s < fuel
    → strlen fuel p m ≡ ok (length s)
unfolding strlen
strlen-length fuel p m s ne t h = ground (arith, strlen_loop_lem fuel p m s t h)

order-same : (c d : ℕ) → c < 256 → d < 256 → (order c d ≡ same) ↔ (c ≡ d)
unfolding order
order-same c d hc hd = ((λ h. ground arith), λ h. ground arith)

-- A comparison that stops at once, at bytes of which the first is NUL or the two differ.
stops :
    (fuel a b : ℕ) (m : Memory)
    → (neb (m a) 0 && (m a == m b)) ≡ false
    → strcmp_loop (suc fuel) a b m ≡ ok (order (m a) (m b))
unfolding strcmp_loop
stops fuel a b m e = ground arith

tail_eq : {c d : ℕ} {s t : List ℕ} → c ∷ s ≡ d ∷ t → s ≡ t
tail_eq e = cc

head_eq : {c d : ℕ} {s t : List ℕ} → c ∷ s ≡ d ∷ t → c ≡ d
head_eq e = cc

-- What a comparison of two texts must return: 0 exactly at equal texts.
strcmp_loop_lem :
    (fuel a b : ℕ) (m : Memory) (s t : List ℕ)
    → CStr m a s
    → CStr m b t
    → length s < fuel
    → (r : Sign) × (strcmp_loop fuel a b m ≡ ok r) × ((r ≡ same) ↔ (s ≡ t))
strcmp_loop_lem zero a b m s t x y h = absurd (omega arith)
strcmp_loop_lem (suc fuel) a b m [] [] x y h = (
  order (m a) (m b),
  stops fuel a b m (ground arith),
  ((λ e. refl), λ e. (order-same (m a) (m b) (omega arith) (omega arith)).1 (x ∙ sym y)),
)
strcmp_loop_lem (suc fuel) a b m [] (d ∷ t) x y h = (
  order (m a) (m b),
  stops fuel a b m (ground arith),
  (
    (λ e. absurd (ground (arith, (order-same (m a) (m b) (omega arith) (omega arith)).0 e))),
    λ e. absurd (cc e),
  ),
)
strcmp_loop_lem (suc fuel) a b m (c ∷ s) [] x y h = (
  order (m a) (m b),
  stops fuel a b m (ground arith),
  (
    (λ e. absurd (ground (arith, (order-same (m a) (m b) (omega arith) (omega arith)).0 e))),
    λ e. absurd (cc e),
  ),
)
strcmp_loop_lem (suc fuel) a b m (c ∷ s) (d ∷ t) x y h = elim (Bool-cases (m a == m b)) [
  | inl e ↦
      let (r, run, iff) = strcmp_loop_lem fuel (a + 1) (b + 1) m s t x.3 y.3 (omega arith) in
      let same_head : c ≡ d = ground arith in
      (r, goes (ground arith) ∙ run, ((λ z. ap₂ ◌∷◌ same_head (iff.0 z)), λ z. iff.1 (tail_eq z)))
  | inr e ↦ (
    order (m a) (m b),
    stops fuel a b m (ground arith),
    (
      (λ z. absurd (ground (arith, (order-same (m a) (m b) (omega arith) (omega arith)).0 z))),
      λ z. absurd (ground (arith, head_eq z)),
    ),
  )
]
  where
    goes :
        (neb (m a) 0 && (m a == m b)) ≡ true
        → strcmp_loop (suc fuel) a b m ≡ strcmp_loop fuel (a + 1) (b + 1) m
    goes e = unfold strcmp_loop in rw e

-- On two texts at addresses that are not `NULL`, `strcmp` returns, and returns 0 exactly when the
-- texts are equal; the fuel exceeds the length of the first.
pub strcmp-same_iff :
    (fuel a b : ℕ) (m : Memory) (s t : List ℕ)
    → a ≢ 0
    → b ≢ 0
    → CStr m a s
    → CStr m b t
    → length s < fuel
    → (r : Sign) × (strcmp fuel a b m ≡ ok r) × ((r ≡ same) ↔ (s ≡ t))
unfolding strcmp
strcmp-same_iff fuel a b m s t na nb x y h =
    let (r, run, iff) = strcmp_loop_lem fuel a b m s t x y h in (r, ground (arith, run), iff)
