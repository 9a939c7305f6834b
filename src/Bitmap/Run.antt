-- ===== src/Bitmap/Run.antt =====
-- `bitmap_scan` for more than one bit: a run of free bits, and how far it may reach.
use os_elephant.Base.{
  ℕ, zero, suc, ◌+◌, ◌-◌, ◌*◌, ◌^◌, ◌≤◌, ◌<◌, ◌≡◌, ◌≢◌, Bool, true, false, some, ltb, ◌==◌,
  if◌then◌else◌, ok, arith, Bool-cases, sym, ◌∙◌, ap, inl, inr, add32, sub32,
}
use os_elephant.Bitmap.{Bitmap, bitmap_scan, count_run, scan_from}
use os_elephant.Bitmap.Bits.{used, IsBytes}
use os_elephant.Bitmap.Scan.{Stops, bitmap_scan-Stops}

-- All of the `n` bits from `s` on are free.
abbrev pub FreeRun : Bitmap → ℕ → ℕ → Type 0
FreeRun b s n = (m : ℕ) → s ≤ m → m < s + n → used b m ≡ false

-- The loop has just seen `count` free bits in front of `next_bit`.
record Counting (b : Bitmap) (cnt next_bit count : ℕ) : Type 0 where
  short : count < cnt
  fits : count ≤ next_bit
  seen : (m : ℕ) → next_bit ≤ m + count → m < next_bit → used b m ≡ false

-- After the next bit the loop has found its run, or goes on counting.
Counting-next :
    (b : Bitmap) (cnt next count : ℕ)
    → Counting b cnt next count
    → let count' = if used b next then 0 else count + 1 in
      (count' ≡ cnt → FreeRun b (next + 1 - cnt) cnt)
      × (count' ≢ cnt → Counting b cnt (next + 1) count')
Counting-next b cnt next count c = elim (Bool-cases (used b next)) [
  | inl e ↦ rw e (
    (λ z. absurd (omega (arith, c.short))),
    λ ne. record {
      short = omega (arith, c.short);
      fits = omega arith;
      seen = λ m lo hi. absurd (omega arith);
    },
  )
  | inr e ↦ rw e (
    (λ z m lo hi. at e m (omega (arith, c.fits)) (omega (arith, c.fits))),
    λ ne. record {
      short = omega (arith, c.short);
      fits = omega (arith, c.fits);
      seen = λ m lo hi. at e m (omega arith) (omega arith);
    },
  )
]
  where
    at : used b next ≡ false → (m : ℕ) → next ≤ m + count → m < next + 1 → used b m ≡ false
    at e m lo hi = elim (Bool-cases (m == next)) [
      | inl h ↦ let h' : m ≡ next = ground arith in rw h' e
      | inr h ↦ c.seen m lo (ground arith)
    ]

-- What it finds is a free run that ends at most at the last bit it looks at.
count_run_sound :
    (left : ℕ) (b : Bitmap) (cnt next count : ℕ) {s : ℕ}
    → next + left < 2 ^ 32
    → Counting b cnt next count
    → count_run left b cnt next count ≡ some s
    → FreeRun b s cnt × (s + cnt ≤ next + left)
unfolding count_run
count_run_sound zero b cnt next count small c h = absurd (cc h)
count_run_sound (suc left) b cnt next count {s} small c h =
    elim (Bool-cases ((if used b next then 0 else count + 1) == cnt)) [
      | inl e ↦
          let found : add32 (sub32 next cnt) 1 ≡ s = ground arith in
          let least : cnt ≤ next + 1 = ground (arith, c.fits) in
          let place : s ≡ next + 1 - cnt = omega (arith, c.short) in
          (rw place ((Counting-next b cnt next count c).0 (ground arith)), omega arith)
      | inr e ↦
          let (free, le) =
            count_run_sound left b cnt (next + 1) (if used b next then 0 else count + 1)
              (omega arith) ((Counting-next b cnt next count c).1 (ground arith)) (ground arith) in
          (free, omega (arith, le))
    ]

-- A free run in front of it is found, or an earlier one.
count_run_complete :
    (left : ℕ) (b : Bitmap) (cnt next count t : ℕ)
    → next + left < 2 ^ 32
    → Counting b cnt next count
    → FreeRun b t cnt
    → next ≤ t + count
    → t + cnt ≤ next + left
    → (s : ℕ) × (count_run left b cnt next count ≡ some s) × (s ≤ t)
unfolding count_run
count_run_complete zero b cnt next count t small c run start end = absurd (omega (arith, c.short))
count_run_complete (suc left) b cnt next count t small c run start end =
    elim (Bool-cases ((if used b next then 0 else count + 1) == cnt)) [
      | inl e ↦
          let least : cnt ≤ next + 1 = ground (arith, c.fits) in
          let most : next + 1 ≤ t + cnt = ground (arith, c.short) in
          (add32 (sub32 next cnt) 1, rw e, omega (arith, c.short))
      | inr e ↦
          let (s, eq, le) =
            count_run_complete left b cnt (next + 1) (if used b next then 0 else count + 1) t
              (omega arith) ((Counting-next b cnt next count c).1 (ground arith)) run (later e)
              (omega arith) in
          (s, rw e eq, le)
    ]
  where
    later :
        ((if used b next then 0 else count + 1) == cnt) ≡ false
        → next + 1 ≤ t + (if used b next then 0 else count + 1)
    later e = elim (Bool-cases (used b next)) [
      | inl on ↦ elim (Bool-cases (leq t next)) [
        | inl le ↦ absurd (cc (on, run next (ground arith) (ground (arith, c.short))))
        | inr gt ↦ rw on (ground arith)
      ]
      | inr off ↦ rw off (omega arith)
    ]
      where
        leq : ℕ → ℕ → Bool
        leq a b = ltb a (b + 1)

-- The state in which `bitmap_scan` enters the loop: one free bit, at the index found first.
Counting-first :
    (b : Bitmap) (cnt start : ℕ) → 1 < cnt → used b start ≡ false → Counting b cnt (start + 1) 1
Counting-first b cnt start more free = record {
  short = more;
  fits = omega arith;
  seen = λ m lo hi. let e : m ≡ start = omega arith in rw e free;
}

scan_from-count_run :
    (b : Bitmap) (cnt start : ℕ)
    → 1 < cnt
    → start < b.btmp_bytes_len * 8
    → b.btmp_bytes_len * 8 < 2 ^ 31
    → scan_from b cnt start ≡ count_run (b.btmp_bytes_len * 8 - start) b cnt (start + 1) 1
unfolding scan_from
scan_from-count_run b cnt start more inside small =
    let e : (cnt == 1) ≡ false = ground arith in
    let e' : sub32 (b.btmp_bytes_len * 8) start ≡ b.btmp_bytes_len * 8 - start = omega arith in
    rw (e, e')

module _ (b : Bitmap) (cnt : ℕ) (bytes : IsBytes b) (small : b.btmp_bytes_len * 8 < 2 ^ 31)
    (more : 1 < cnt) where
  -- What it returns is a run of free bits; its last bit lies in the bitmap, or is the one bit
  -- behind.
  bitmap_scan-FreeRun :
      (i : ℕ) {s : ℕ}
      → i < b.btmp_bytes_len * 8
      → used b i ≡ false
      → bitmap_scan b cnt ≡ ok (some s)
      → FreeRun b s cnt × (s + cnt ≤ b.btmp_bytes_len * 8 + 1)
  bitmap_scan-FreeRun i {s} inside free found =
      let (j, k, stops, run) = bitmap_scan-Stops b cnt i bytes (omega (arith, small)) inside free in
      let start : ℕ = j * 8 + k in
      let within : start < b.btmp_bytes_len * 8 = omega (arith, stops.inside, stops.small) in
      let e : scan_from b cnt start ≡ some s = cc run in
      let (ends, le) =
        count_run_sound (b.btmp_bytes_len * 8 - start) b cnt (start + 1) 1 {s = s} (omega arith)
          (Counting-first b cnt start more stops.free)
          (sym (scan_from-count_run b cnt start more within small) ∙ e) in
      (ends, omega arith)

  -- If there is a run of free bits in a bitmap of less than 2 ^ 31 bits, `bitmap_scan` for more
  -- than one bit returns the start of a run of free bits that is no later. Either run may reach one
  -- bit behind the bitmap.
  pub bitmap_scan-run_first :
      (t : ℕ)
      → t < b.btmp_bytes_len * 8
      → FreeRun b t cnt
      → t + cnt ≤ b.btmp_bytes_len * 8 + 1
      → (s : ℕ) × (bitmap_scan b cnt ≡ ok (some s))
        × (s ≤ t)
        × FreeRun b s cnt
        × (s + cnt ≤ b.btmp_bytes_len * 8 + 1)
  bitmap_scan-run_first t inside run end =
      let (j, k, stops, e) =
        bitmap_scan-Stops b cnt t bytes (omega (arith, small)) inside
          (run t (omega arith) (omega arith)) in
      let start : ℕ = j * 8 + k in
      let within : start < b.btmp_bytes_len * 8 = omega (arith, stops.inside, stops.small) in
      let (s, found, le) =
        count_run_complete (b.btmp_bytes_len * 8 - start) b cnt (start + 1) 1 t (omega arith)
          (Counting-first b cnt start more stops.free) run (not_before j k stops) (omega arith) in
      let all = e ∙ ap ok (scan_from-count_run b cnt start more within small ∙ found) in
      let (free, ends) =
        bitmap_scan-FreeRun t {s = s} inside (run t (omega arith) (omega arith)) all in
      (s, all, le, free, ends)
    where
      not_before : (j k : ℕ) → Stops b j k → j * 8 + k + 1 ≤ t + 1
      not_before j k stops = elim (Bool-cases (ltb t (j * 8 + k))) [
        | inl h ↦ absurd (cc (stops.before t (ground arith), run t (omega arith) (omega arith)))
        | inr h ↦ ground arith
      ]

-- The loop looks one bit too far: if only the last bit of the bitmap is free, and the memory behind
-- it starts with a clear bit, then two bits are granted of which the second is not in the bitmap.
pub bitmap_scan_overrun :
    (b : Bitmap)
    → IsBytes b
    → 0 < b.btmp_bytes_len
    → b.btmp_bytes_len * 8 < 2 ^ 31
    → ((m : ℕ) → m < b.btmp_bytes_len * 8 - 1 → used b m ≡ true)
    → used b (b.btmp_bytes_len * 8 - 1) ≡ false
    → used b (b.btmp_bytes_len * 8) ≡ false
    → bitmap_scan b 2 ≡ ok (some (b.btmp_bytes_len * 8 - 1))
bitmap_scan_overrun b bytes pos small before last behind =
    let (s, found, le, free, _) =
      bitmap_scan-run_first b 2 bytes small (omega arith) t (omega arith) pair (omega arith) in
    found ∙ ap (λ n. ok (some n)) (same s le (free s (omega arith) (omega arith)))
  where
    t : ℕ
    t = b.btmp_bytes_len * 8 - 1

    pair : FreeRun b t 2
    pair m lo hi = elim (Bool-cases (m == t)) [
      | inl e ↦ let e' : m ≡ t = ground arith in rw e' last
      | inr e ↦ let e' : m ≡ b.btmp_bytes_len * 8 = ground arith in rw e' behind
    ]

    same : (s : ℕ) → s ≤ t → used b s ≡ false → s ≡ t
    same s le off = elim (Bool-cases (ltb s t)) [
      | inl h ↦ absurd (cc (before s (ground arith)))
      | inr h ↦ ground arith
    ]
