-- ===== src/Stdio/Digits.antt =====
-- The digits that `itoa` of ch15/lib/stdio.c writes, read back.
use os_elephant.Base.{
  ℕ, zero, suc, ◌+◌, ◌-◌, ◌*◌, ◌/◌, ◌%◌, ◌<◌, ◌≤◌, ◌≡◌, ◌≢◌, refl, ap, true, false, ltb, ◌==◌,
  if◌then◌else◌, Outcome, ok, arith, Bool-cases, inl, inr,
}
use os_elephant.CString.{Memory, write}
use os_elephant.Stdio.{digit, itoa}

unfoldable pub digit_value : ℕ → ℕ
digit_value c = if ltb c 58 then c - 48 else c - 65 + 10

-- The number that `n` digits from `p` on stand for.
unfoldable pub reading : ℕ → Memory → ℕ → ℕ → ℕ
unfolding digit_value
reading base mem p zero = 0
reading base mem p (suc n) = reading base mem p n * base + digit_value (mem (p + n))

digit_value-digit : (m : ℕ) → m < 16 → digit_value (digit m) ≡ m
unfolding digit_value digit
digit_value-digit m h = ground arith

reading_frame :
    (base p n x v : ℕ) (mem : Memory)
    → p + n ≤ x
    → reading base (write mem x v) p n ≡ reading base mem p n
unfolding reading
reading_frame base p zero x v mem h = refl
reading_frame base p (suc n) x v mem h =
    let apart : (x == p + n) ≡ false = ground arith in
    rw (reading_frame base p n x v mem (omega arith), apart) refl

-- What a call of `itoa` comes to: `n` digits from `p` on that read as the value, and no byte before
-- `p` changed.
pub record Printed (base value p : ℕ) (mem : Memory) (o : Outcome (ℕ × Memory)) : Type 0 where
  pub n : ℕ
  pub mem' : Memory
  pub runs : o ≡ ok (p + n, mem')
  pub some_digit : 0 < n
  pub reads : reading base mem' p n ≡ value
  pub below : (q : ℕ) → q < p → mem' q ≡ mem q

module _ (base : ℕ) (few : base ≤ 16) (small : (v : ℕ) → v % base < base)
    (split : (v : ℕ) → v / base * base + v % base ≡ v)
    (shrinks : (v : ℕ) → v / base ≢ 0 → v / base < v) where
  last :
      (value p n : ℕ) (mem : Memory)
      → reading base mem p n ≡ value / base
      → reading base (write mem (p + n) (digit (value % base))) p (suc n) ≡ value
  unfolding reading
  last value p n mem h =
      let self : (p + n == p + n) ≡ true = ground arith in
      let digit_small : value % base < 16 = omega (arith, small value) in
      rw
        (
          reading_frame base p n (p + n) (digit (value % base)) mem (omega arith),
          h,
          self,
          digit_value-digit (value % base) digit_small,
        )
        (split value)

  itoa_lem :
      (fuel value p : ℕ) (mem : Memory)
      → value < fuel
      → Printed base value p mem (itoa fuel value p base mem)
  unfolding itoa
  itoa_lem zero value p mem lt = absurd (omega arith)
  itoa_lem (suc fuel) value p mem lt = elim (Bool-cases (value / base == 0)) [
    | inl e ↦ record {
      n = 1;
      mem' = write mem (p + 0) (digit (value % base));
      runs = rw e (ap (λ r. ok (p + 1, write mem r (digit (value % base)))) (omega arith));
      some_digit = omega arith;
      reads = last value p 0 mem (first e);
      below = λ q h. ground arith;
    }
    | inr e ↦
        let nonzero : value / base ≢ 0 = ground arith in
        let less : value / base < value = shrinks value nonzero in
        let r = itoa_lem fuel (value / base) p mem (omega arith) in
        record {
          n = suc r.n;
          mem' = write r.mem' (p + r.n) (digit (value % base));
          runs =
              rw (e, r.runs)
                (ap (λ q. ok (q, write r.mem' (p + r.n) (digit (value % base)))) (omega arith));
          some_digit = omega arith;
          reads = last value p r.n r.mem' r.reads;
          below = λ q h. ground (arith, r.below q h);
        }
  ]
    where
      first : (value / base == 0) ≡ true → reading base mem p 0 ≡ value / base
      first e = unfold reading in ground arith

-- `itoa` in base 10 returns, leaves digits from the pointer on that read as the value, and changes
-- no byte before it; the fuel exceeds the value.
pub itoa-decimal :
    (fuel value p : ℕ) (mem : Memory)
    → value < fuel
    → Printed 10 value p mem (itoa fuel value p 10 mem)
itoa-decimal = itoa_lem 10 (omega arith) (λ v. omega arith) (λ v. omega arith) (λ v h. omega arith)

-- `itoa` in base 16 returns, leaves digits from the pointer on that read as the value, and changes
-- no byte before it; the fuel exceeds the value.
pub itoa-hexadecimal :
    (fuel value p : ℕ) (mem : Memory)
    → value < fuel
    → Printed 16 value p mem (itoa fuel value p 16 mem)
itoa-hexadecimal =
    itoa_lem 16 (omega arith) (λ v. omega arith) (λ v. omega arith) (λ v h. omega arith)
