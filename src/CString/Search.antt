-- ===== src/CString/Search.antt =====
-- Looking for a character: `strchr`, `strrchr` and `strchrs`.
use mathlib.Core.Option
use os_elephant.Base.{
  ℕ, zero, suc, ◌+◌, ◌≤◌, ◌<◌, ◌≡◌, ◌≢◌, refl, Bool, true, false, Option, none, some, List, [], ◌∷◌,
  length, ◌==◌, if◌then◌else◌, Outcome, ok, arith, ◌∙◌, ap,
}
use os_elephant.CString.{
  Memory, strchr_loop, strchr, strrchr_loop, strrchr, count_loop, strchrs, char_is,
}
use os_elephant.CString.Text.{CStr}

-- The place of the first, or last, byte of the text that is the character.
unfoldable pub first_at : ℕ → List ℕ → Option ℕ
first_at ch [] = none
first_at ch (c ∷ s) = if c == ch then some 0 else Option.map (λ i. i + 1) (first_at ch s)

unfoldable pub last_at : ℕ → List ℕ → Option ℕ
last_at ch [] = none
last_at ch (c ∷ s) = elim (last_at ch s) [
  | some i ↦ some (i + 1)
  | none ↦ if c == ch then some 0 else none
]

unfoldable pub count : ℕ → List ℕ → ℕ
count ch [] = 0
count ch (c ∷ s) = (if c == ch then 1 else 0) + count ch s

-- An index as a pointer into the text at `p`.
abbrev pub pointer : ℕ → Option ℕ → Option ℕ
pointer p none = none
pointer p (some i) = some (p + i)

char_is_lem : (c ch : ℕ) → ch < 128 → char_is c ch ≡ (c == ch)
char_is_lem c ch h = ground arith

strchr_loop_lem :
    (fuel p ch : ℕ) (m : Memory) (s : List ℕ)
    → ch < 128
    → CStr m p s
    → length s < fuel
    → strchr_loop fuel p ch m ≡ ok (pointer p (first_at ch s))
unfolding strchr_loop first_at
strchr_loop_lem zero p ch m s a t h = absurd (omega arith)
strchr_loop_lem (suc fuel) p ch m [] a t h = ground arith
strchr_loop_lem (suc fuel) p ch m (c ∷ s) a t h =
    let go : (m p == 0) ≡ false = ground arith in
    rw (go, t.0, char_is_lem c ch a, strchr_loop_lem fuel (p + 1) ch m s a t.3 (omega arith))
      (shift (c == ch) (first_at ch s))
  where
    shift :
        (b : Bool) (o : Option ℕ)
        → (if b then ok (some p) else ok (pointer (p + 1) o))
          ≡ ok (pointer p (if b then some 0 else Option.map (λ i. i + 1) o))
    shift true o = ap (λ q. ok (some q)) (omega arith)
    shift false none = refl
    shift false (some i) = ap (λ q. ok (some q)) (omega arith)

-- `strchr` returns a pointer to the first such character of the text, or `NULL`; the character is
-- one below 128.
pub strchr-first_at :
    (fuel p ch : ℕ) (m : Memory) (s : List ℕ)
    → p ≢ 0
    → ch < 128
    → CStr m p s
    → length s < fuel
    → strchr fuel p ch m ≡ ok (pointer p (first_at ch s))
unfolding strchr
strchr-first_at fuel p ch m s ne a t h = ground (arith, strchr_loop_lem fuel p ch m s a t h)

strchr_loop_high :
    (fuel p ch : ℕ) (m : Memory) (s : List ℕ)
    → 128 ≤ ch
    → CStr m p s
    → length s < fuel
    → strchr_loop fuel p ch m ≡ ok none
unfolding strchr_loop
strchr_loop_high zero p ch m s a t h = absurd (omega arith)
strchr_loop_high (suc fuel) p ch m [] a t h = ground arith
strchr_loop_high (suc fuel) p ch m (c ∷ s) a t h =
    ground (arith, strchr_loop_high fuel (p + 1) ch m s a t.3)

-- A byte from 128 on is never found: the text's `char` is negative there, the argument is not.
pub strchr_high :
    (fuel p ch : ℕ) (m : Memory) (s : List ℕ)
    → p ≢ 0
    → 128 ≤ ch
    → CStr m p s
    → length s < fuel
    → strchr fuel p ch m ≡ ok none
unfolding strchr
strchr_high fuel p ch m s ne a t h = ground (arith, strchr_loop_high fuel p ch m s a t h)

count_loop_lem :
    (fuel p ch n : ℕ) (m : Memory) (s : List ℕ)
    → ch < 128
    → CStr m p s
    → length s < fuel
    → count_loop fuel p ch n m ≡ ok (n + count ch s)
unfolding count_loop count
count_loop_lem zero p ch n m s a t h = absurd (omega arith)
count_loop_lem (suc fuel) p ch n m [] a t h = ground arith
count_loop_lem (suc fuel) p ch n m (c ∷ s) a t h = ground (
  arith,
  count_loop_lem fuel (p + 1) ch (n + 1) m s a t.3,
  count_loop_lem fuel (p + 1) ch n m s a t.3,
)

-- `strchrs` counts the character in the text.
pub strchrs-count :
    (fuel p ch : ℕ) (m : Memory) (s : List ℕ)
    → p ≢ 0
    → ch < 128
    → CStr m p s
    → length s < fuel
    → strchrs fuel p ch m ≡ ok (count ch s)
unfolding strchrs
strchrs-count fuel p ch m s ne a t h = ground (arith, count_loop_lem fuel p ch 0 m s a t h)

strrchr_loop_lem :
    (fuel p ch : ℕ) (last : Option ℕ) (m : Memory) (s : List ℕ)
    → ch < 128
    → CStr m p s
    → length s < fuel
    → strrchr_loop fuel p ch last m
      ≡ ok (elim (last_at ch s) [ some i ↦ some (p + i) | none ↦ last ])
unfolding strrchr_loop last_at
strrchr_loop_lem zero p ch last m s a t h = absurd (omega arith)
strrchr_loop_lem (suc fuel) p ch last m [] a t h = ground arith
strrchr_loop_lem (suc fuel) p ch last m (c ∷ s) a t h =
    let go : (m p == 0) ≡ false = ground arith in
    rw (go, t.0, char_is_lem c ch a)
      (strrchr_loop_lem fuel (p + 1) ch (if c == ch then some p else last) m s a t.3 (omega arith)
        ∙ shift (c == ch) (last_at ch s))
  where
    shift :
        (b : Bool) (o : Option ℕ)
        → ◌≡◌ {A = Outcome (Option ℕ)}
            (ok (elim o [ some i ↦ some (p + 1 + i) | none ↦ if b then some p else last ]))
            (ok
              (elim (let r : Option ℕ = elim o [
                | some i ↦ some (i + 1)
                | none ↦ if b then some 0 else none
              ] in
                r) [ some i ↦ some (p + i) | none ↦ last ]))
    shift true none = ap (λ q. ok (some q)) (omega arith)
    shift false none = refl
    shift b (some i) = ap (λ q. ok (some q)) (omega arith)

-- `strrchr` returns a pointer to the last such character of the text, or `NULL`.
pub strrchr-last_at :
    (fuel p ch : ℕ) (m : Memory) (s : List ℕ)
    → p ≢ 0
    → ch < 128
    → CStr m p s
    → length s < fuel
    → strrchr fuel p ch m ≡ ok (pointer p (last_at ch s))
unfolding strrchr
strrchr-last_at fuel p ch m s ne a t h = ground (arith, strrchr_loop_lem fuel p ch none m s a t h)
