-- ===== src/Fork/Bits.antt =====
-- The marks of a process's pages, one by one: `copy_body_stack3` of ch15/userprog/fork.c.
use os_elephant.Base.{
  ◌⊎◌, ℕ, zero, suc, ◌+◌, ◌*◌, ◌/◌, ◌%◌, ◌^◌, ◌<◌, ◌≤◌, ◌≡◌, refl, sym, ap, ◌∙◌, true, false, ◌==◌,
  if◌then◌else◌, Outcome, ok, panic, fault, out_of_fuel, ◌>>=◌, add32, mul32, arith, Bool-cases,
  inl, inr,
}
use os_elephant.Base.Bytes.{bit_on}
use os_elephant.Bitmap.{Bitmap, bitmap_scan_test}
use os_elephant.Bitmap.Bits.{used}
use os_elephant.Memory.{pg_size}
use os_elephant.Fork.{Space, copy_page, copy_bits, copy_bytes}

-- The pages from the bit `k` on, one by one.
unfoldable pub pages_from : ℕ → Bitmap → ℕ → ℕ → Space → Space × ℕ × ℕ → Outcome (Space × ℕ × ℕ)
pages_from zero b k start parent c = ok c
pages_from (suc left) b k start parent c =
    (if used b k then copy_page (k * pg_size + start) parent c else ok c)
    >>= pages_from left b (k + 1) start parent

bind_same {ℓ} :
    {A : Type ℓ} (m : Outcome A) (f g : A → Outcome A)
    → ((a : A) → f a ≡ g a)
    → (m >>= f) ≡ (m >>= g)
bind_same (ok a) f g h = h a
bind_same panic f g h = refl
bind_same fault f g h = refl
bind_same out_of_fuel f g h = refl

bind_assoc {ℓ} :
    {A : Type ℓ} (m : Outcome A) (f g : A → Outcome A)
    → ((m >>= f) >>= g) ≡ (m >>= λ a. (f a >>= g))
bind_assoc (ok a) f g = refl
bind_assoc panic f g = refl
bind_assoc fault f g = refl
bind_assoc out_of_fuel f g = refl

pages_from-add :
    (m n : ℕ) (b : Bitmap) (k start : ℕ) (parent : Space) (c : Space × ℕ × ℕ)
    → (pages_from m b k start parent c >>= pages_from n b (k + m) start parent)
      ≡ pages_from (m + n) b k start parent c
unfolding pages_from
pages_from-add zero n b k start parent c =
    let e1 : k + 0 ≡ k = omega arith in let e2 : 0 + n ≡ n = omega arith in rw (e1, e2) refl
pages_from-add (suc m) n b k start parent c =
    let e1 : k + suc m ≡ k + 1 + m = omega arith in
    let e2 : suc m + n ≡ suc (m + n) = omega arith in
    rw (e1, e2)
      (bind_assoc (if used b k then copy_page (k * pg_size + start) parent c else ok c)
          (pages_from m b (k + 1) start parent) (pages_from n b (k + 1 + m) start parent)
        ∙ bind_same (if used b k then copy_page (k * pg_size + start) parent c else ok c) _ _
            (pages_from-add m n b (k + 1) start parent))

used_at : (b : Bitmap) (i j : ℕ) → j < 8 → used b (i * 8 + j) ≡ bit_on (b.bits i) j
unfolding bit_on bitmap_scan_test
used_at b i j lt =
    let e1 : (i * 8 + j) / 8 ≡ i = omega arith in
    let e2 : (i * 8 + j) % 8 ≡ j = omega arith in rw (e1, e2) refl

copy_bits_lem :
    (left : ℕ) (b : Bitmap) (i j start : ℕ) (parent : Space) (c : Space × ℕ × ℕ)
    → j + left ≤ 8
    → (i * 8 + 8) * 4096 + start ≤ 2 ^ 32
    → copy_bits left (b.bits i) i j start parent c ≡ pages_from left b (i * 8 + j) start parent c
unfolding copy_bits pages_from
copy_bits_lem zero b i j start parent c le fits = refl
copy_bits_lem (suc left) b i j start parent c le fits =
    let u = used_at b i j (omega arith) in
    let v : add32 (mul32 (i * 8 + j) pg_size) start ≡ (i * 8 + j) * pg_size + start =
      omega (arith, fits, le) in
    let next : i * 8 + j + 1 ≡ i * 8 + (j + 1) = omega arith in
    rw (u, v, next)
      (bind_same
        (if bit_on (b.bits i) j then copy_page ((i * 8 + j) * pg_size + start) parent c else ok c) _
        _ λ c. copy_bits_lem left b i (j + 1) start parent c (omega arith) fits)

none_set :
    (i start : ℕ) (parent : Space) (c : Space × ℕ × ℕ) → copy_bits 8 0 i 0 start parent c ≡ ok c
unfolding copy_bits bit_on
none_set i start parent c = refl

pub copy_bytes_lem :
    (left : ℕ) (b : Bitmap) (i start : ℕ) (parent : Space) (c : Space × ℕ × ℕ)
    → (i + left) * 32768 + start ≤ 2 ^ 32
    → copy_bytes left b i start parent c ≡ pages_from (left * 8) b (i * 8) start parent c
unfolding copy_bytes
copy_bytes_lem zero b i start parent c fits = unfold pages_from in refl
copy_bytes_lem (suc left) b i start parent c fits =
    let bits : (if b.bits i == 0 then ok c else copy_bits 8 (b.bits i) i 0 start parent c)
        ≡ pages_from 8 b (i * 8) start parent c =
      by_byte (Bool-cases (b.bits i == 0)) in
    let next : i * 8 + 8 ≡ (i + 1) * 8 = omega arith in
    let all : suc left * 8 ≡ 8 + left * 8 = omega arith in
    rw (bits, all)
      (bind_same (pages_from 8 b (i * 8) start parent c) _ _ (λ c.
          copy_bytes_lem left b (i + 1) start parent c (omega (arith, fits))
          ∙ ap (λ k. pages_from (left * 8) b k start parent c) (sym next))
        ∙ pages_from-add 8 (left * 8) b (i * 8) start parent c)
  where
    by_byte :
        (((b.bits i == 0) ≡ true) ⊎ ((b.bits i == 0) ≡ false))
        → (if b.bits i == 0 then ok c else copy_bits 8 (b.bits i) i 0 start parent c)
          ≡ pages_from 8 b (i * 8) start parent c
    by_byte h =
        let at : i * 8 + 0 ≡ i * 8 = omega arith in
        let walk : copy_bits 8 (b.bits i) i 0 start parent c
            ≡ pages_from 8 b (i * 8) start parent c =
          rw at at (copy_bits_lem 8 b i 0 start parent c (omega arith) (omega (arith, fits))) in
        elim h [
          | inl z ↦
              let e : b.bits i ≡ 0 = ground (arith, z) in
              rw z (sym (none_set i start parent c) ∙ (rw e at walk))
          | inr nz ↦ rw nz walk
        ]
