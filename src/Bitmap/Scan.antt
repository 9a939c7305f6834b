-- ===== src/Bitmap/Scan.antt =====
-- `bitmap_scan` for one bit: the first free index, or a stopped machine.
use os_elephant.Base.{
  ℕ, zero, suc, ◌+◌, ◌*◌, ◌/◌, ◌%◌, ◌^◌, u32, ◌≤◌, ◌<◌, ◌≡◌, ◌≢◌, Bool, true, false, ◌&&◌, not,
  some, ltb, ◌==◌, Outcome, ok, panic, out_of_fuel, fault, arith, refl, ◌||◌, Bool-cases, inl, inr,
}
use os_elephant.Base.Bytes.{bit_on, every, every_below}
use os_elephant.Bitmap.{Bitmap, bitmap_scan, bitmap_scan_test, skip_full, skip_ones, scan_from}
use os_elephant.Bitmap.Bits.{used, IsBytes}

-- Where the walk over full bytes ends.
record Skipped (b : Bitmap) (i j : ℕ) : Type 0 where
  lower : i ≤ j
  upper : j ≤ b.btmp_bytes_len
  full : (m : ℕ) → i ≤ m → m < j → b.bits m ≡ 255
  gap : j < b.btmp_bytes_len → b.bits j ≢ 255

skip_full-Skipped :
    (fuel : ℕ) (b : Bitmap) (i : ℕ)
    → b.btmp_bytes_len < fuel + i
    → i ≤ b.btmp_bytes_len
    → (j : ℕ) × (skip_full fuel b i ≡ ok j) × Skipped b i j
unfolding skip_full
skip_full-Skipped zero b i enough le = absurd (omega arith)
skip_full-Skipped (suc fuel) b i enough le =
    elim (Bool-cases ((b.bits i == 255) && ltb i b.btmp_bytes_len)) [
      | inl e ↦
          let (j, run, s) = skip_full-Skipped fuel b (i + 1) (omega arith) (ground arith) in
          (
            j,
            rw e run,
            record {
              lower = omega (arith, s.lower);
              upper = s.upper;
              full = λ m lo hi. step j s m lo hi (ground arith);
              gap = s.gap;
            },
          )
      | inr e ↦ (
        i,
        rw e,
        record {
          lower = omega arith;
          upper = le;
          full = λ m lo hi. absurd (omega arith);
          gap = λ lt. ground arith;
        },
      )
    ]
  where
    step : (j : ℕ) → Skipped b (i + 1) j → (m : ℕ) → i ≤ m → m < j → b.bits i ≡ 255 → b.bits m ≡ 255
    step j s m lo hi e = elim (Bool-cases (m == i)) [
      | inl h ↦ ground arith
      | inr h ↦ s.full m (ground arith) hi
    ]

-- The walk over the low ones of a byte, checked on every byte.
ones_test : ℕ → Bool
ones_test x = (x == 255) || (elim (skip_ones 9 x 0) [
  | ok k ↦ ltb k 8 && (not (bit_on x k) && every (bit_on x) k)
  | _ ↦ false
])

ones_table : every ones_test 256 ≡ true
unfolding every ones_test skip_ones bit_on
ones_table = refl

full_byte_table : every (bit_on 255) 8 ≡ true
unfolding every bit_on
full_byte_table = refl

ok_inv :
    (x : ℕ) (r : Outcome ℕ)
    → (elim r [ ok k ↦ ltb k 8 && (not (bit_on x k) && every (bit_on x) k) | _ ↦ false ]) ≡ true
    → (k : ℕ) × (r ≡ ok k) × (k < 8) × (bit_on x k ≡ false) × (every (bit_on x) k ≡ true)
ok_inv x (ok k) h = (k, refl, ground arith, ground arith, ground arith)
ok_inv x panic h = absurd (cc h)
ok_inv x fault h = absurd (cc h)
ok_inv x out_of_fuel h = absurd (cc h)

skip_ones_lem :
    (x : ℕ)
    → x < 256
    → x ≢ 255
    → (k : ℕ) × (skip_ones 9 x 0 ≡ ok k)
      × (k < 8)
      × (bit_on x k ≡ false)
      × (every (bit_on x) k ≡ true)
unfolding ones_test
skip_ones_lem x h ne =
    ok_inv x (skip_ones 9 x 0) (ground (arith, every_below ones_test 256 ones_table x h))

-- `skip_ones` at the gap, `used` at an index.
used-bit_on : (b : Bitmap) (i : ℕ) → used b i ≡ bit_on (b.bits (i / 8)) (i % 8)
unfolding bitmap_scan_test bit_on
used-bit_on b i = refl

used_of_full_byte : (b : Bitmap) (i : ℕ) → b.bits (i / 8) ≡ 255 → used b i ≡ true
used_of_full_byte b i e =
    rw (used-bit_on, e) (every_below (bit_on 255) 8 full_byte_table (i % 8) (omega arith))

-- The byte and the bit at which the two walks stop.
pub record Stops (b : Bitmap) (j k : ℕ) : Type 0 where
  pub inside : j < b.btmp_bytes_len
  pub small : k < 8
  pub free : used b (j * 8 + k) ≡ false
  pub before : (m : ℕ) → m < j * 8 + k → used b m ≡ true

Stops-of :
    (b : Bitmap) (j k : ℕ)
    → Skipped b 0 j
    → j < b.btmp_bytes_len
    → k < 8
    → bit_on (b.bits j) k ≡ false
    → every (bit_on (b.bits j)) k ≡ true
    → Stops b j k
Stops-of b j k s lt small off ones = record {
  inside = lt;
  small = small;
  free = rw (used-bit_on, div_eq k small, mod_eq k small) off;
  before = λ m h. elim (Bool-cases (m / 8 == j)) [
    | inl e ↦
        let e' : m / 8 ≡ j = ground arith in
        rw (used-bit_on, e') (every_below _ k ones (m % 8) (omega arith))
    | inr e ↦ used_of_full_byte b m (s.full (m / 8) (omega arith) (ground arith))
  ];
}
  where
    div_eq : (k : ℕ) → k < 8 → (j * 8 + k) / 8 ≡ j
    div_eq k h = omega arith

    mod_eq : (k : ℕ) → k < 8 → (j * 8 + k) % 8 ≡ k
    mod_eq k h = omega arith

-- With a free bit in a bitmap of at most 2 ^ 32 bits the two walks stop at the first one.
pub bitmap_scan-Stops :
    (b : Bitmap) (cnt i : ℕ)
    → IsBytes b
    → b.btmp_bytes_len * 8 ≤ 2 ^ 32
    → i < b.btmp_bytes_len * 8
    → used b i ≡ false
    → (j k : ℕ) × Stops b j k × (bitmap_scan b cnt ≡ ok (scan_from b cnt (j * 8 + k)))
unfolding bitmap_scan
bitmap_scan-Stops b cnt i bytes most inside free =
    let (j, run, s) = skip_full-Skipped (b.btmp_bytes_len + 1) b 0 (omega arith) (omega arith) in
    let lt : j < b.btmp_bytes_len = stop_inside j s in
    let (k, run', small, off, ones) = skip_ones_lem (b.bits j) (bytes j) (s.gap lt) in
    let e : ltb j b.btmp_bytes_len ≡ true = ground arith in
    let e' : (j == b.btmp_bytes_len) ≡ false = ground arith in
    let word : u32 (j * 8 + k) ≡ j * 8 + k = omega (arith, most, lt, small) in
    (j, k, Stops-of b j k s lt small off ones, rw (run, e, run', e', word))
  where
    stop_inside : (j : ℕ) → Skipped b 0 j → j < b.btmp_bytes_len
    stop_inside j s = elim (Bool-cases (ltb (i / 8) j)) [
      | inl h ↦ absurd (cc (used_of_full_byte b i (s.full (i / 8) (omega arith) (ground arith))))
      | inr h ↦ ground arith
    ]

pub bitmap_scan-one :
    (b : Bitmap) (i : ℕ)
    → IsBytes b
    → b.btmp_bytes_len * 8 ≤ 2 ^ 32
    → i < b.btmp_bytes_len * 8
    → used b i ≡ false
    → (s : ℕ) × (bitmap_scan b 1 ≡ ok (some s))
      × (s ≤ i)
      × (used b s ≡ false)
      × ((m : ℕ) → m < s → used b m ≡ true)
unfolding scan_from
bitmap_scan-one b i bytes most inside free =
    let (j, k, stops, run) = bitmap_scan-Stops b 1 i bytes most inside free in
    (j * 8 + k, run, at_most j k stops, stops.free, stops.before)
  where
    at_most : (j k : ℕ) → Stops b j k → j * 8 + k ≤ i
    at_most j k stops = elim (Bool-cases (ltb i (j * 8 + k))) [
      | inl h ↦ absurd (cc (stops.before i (ground arith)))
      | inr h ↦ ground arith
    ]

-- A bitmap of less than 2 ^ 31 bits with a free bit: `bitmap_scan` for one bit returns, and returns
-- the first free index.
pub bitmap_scan-first :
    (b : Bitmap) (i : ℕ)
    → IsBytes b
    → b.btmp_bytes_len * 8 < 2 ^ 31
    → i < b.btmp_bytes_len * 8
    → used b i ≡ false
    → (s : ℕ) × (bitmap_scan b 1 ≡ ok (some s))
      × (s ≤ i)
      × (used b s ≡ false)
      × ((m : ℕ) → m < s → used b m ≡ true)
bitmap_scan-first b i bytes small inside free =
    bitmap_scan-one b i bytes (omega (arith, small)) inside free

byte_of_all_on : (x : ℕ) → x < 256 → every (bit_on x) 8 ≡ true → x ≡ 255
byte_of_all_on x h all = elim (Bool-cases (x == 255)) [
  | inl e ↦ ground arith
  | inr e ↦
      let (k, run, small, off, ones) = skip_ones_lem x h (ground arith) in
      absurd (cc (off, every_below (bit_on x) 8 all k small))
]

every_intro :
    (test : ℕ → Bool) (bound : ℕ) → ((i : ℕ) → i < bound → test i ≡ true) → every test bound ≡ true
unfolding every
every_intro test zero all = refl
every_intro test (suc bound) all =
    ground (arith, all bound, every_intro test bound (λ i below. all i (omega arith)))

-- A full bitmap: the walk leaves the bitmap and the `ASSERT` behind it stops the machine, for any
-- count.
pub bitmap_scan-full :
    (b : Bitmap) (cnt : ℕ)
    → IsBytes b
    → ((i : ℕ) → i < b.btmp_bytes_len * 8 → used b i ≡ true)
    → bitmap_scan b cnt ≡ panic
unfolding bitmap_scan
bitmap_scan-full b cnt bytes full =
    let (j, run, s) = skip_full-Skipped (b.btmp_bytes_len + 1) b 0 (omega arith) (omega arith) in
    rw (run, outside j s)
  where
    full_byte : (j : ℕ) → j < b.btmp_bytes_len → b.bits j ≡ 255
    full_byte j lt = byte_of_all_on (b.bits j) (bytes j) (
        every_intro _ 8 λ k small.
          let at : used b (j * 8 + k) ≡ true = full (j * 8 + k) (omega arith) in
          let q : (j * 8 + k) / 8 ≡ j = omega arith in
          let r : (j * 8 + k) % 8 ≡ k = omega arith in rw (used-bit_on, q, r) at at)

    outside : (j : ℕ) → Skipped b 0 j → ltb j b.btmp_bytes_len ≡ false
    outside j s = elim (Bool-cases (ltb j b.btmp_bytes_len)) [
      | inl h ↦ absurd (s.gap (ground arith) (full_byte j (ground arith)))
      | inr h ↦ h
    ]
