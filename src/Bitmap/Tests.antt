-- ===== src/Bitmap/Tests.antt =====
-- Runs of the bitmap on small inputs, and the theorems at bitmaps of two bytes.
use os_elephant.Base.{
  ◌+◌, ℕ, ◌-◌, ◌*◌, ◌<◌, ◌||◌, not, ◌≤◌, ◌≡◌, refl, true, false, some, ltb, ◌==◌, if◌then◌else◌, ok,
  arith,
}
use os_elephant.Base.Bytes.{every, every_below}
use os_elephant.Bitmap.{Bitmap, bitmap_scan, bitmap_scan_test}
use os_elephant.Bitmap.Bits.{used, IsBytes}
use os_elephant.Bitmap.Scan.{bitmap_scan-first}
use os_elephant.Bitmap.Run.{FreeRun, bitmap_scan-run_first, bitmap_scan_overrun}

-- Bits 0 to 8 and 12 are in use.
abbrev some_used : Bitmap
some_used = record {
  btmp_bytes_len = 2;
  bits = λ i. if i == 0 then 255 else if i == 1 then 17 else 0;
}

-- All but the last bit are in use.
abbrev last_free : Bitmap
last_free = record {
  btmp_bytes_len = 2;
  bits = λ i. if i == 0 then 255 else if i == 1 then 127 else 0;
}

abbrev all_used : Bitmap
all_used = record { btmp_bytes_len = 2; bits = λ i. 255 }

some_used-IsBytes : IsBytes some_used
some_used-IsBytes i = ground arith

last_free-IsBytes : IsBytes last_free
last_free-IsBytes i = ground arith

scan_three : bitmap_scan some_used 3 ≡ ok (some 9)
unfolding bitmap_scan bitmap_scan_test
scan_three = refl

scan_four : bitmap_scan some_used 4 ≡ ok (some 13)
unfolding bitmap_scan bitmap_scan_test
scan_four = refl

all_used-used : (i : ℕ) → i < 2 * 8 → used all_used i ≡ true
unfolding bitmap_scan_test every
all_used-used i h = every_below (used all_used) 16 refl i h

low_used : (m : ℕ) → m < 2 * 8 - 1 → used last_free m ≡ true
unfolding bitmap_scan_test every
low_used m h = every_below (used last_free) 15 refl m h

three_free : FreeRun some_used 13 3
unfolding bitmap_scan_test every
three_free m lo hi = ground (arith, every_below (λ m. ltb m 13 || not (used some_used m)) 16 refl m)

bitmap_scan-first_example :
    (s : ℕ) × (bitmap_scan some_used 1 ≡ ok (some s))
    × (s ≤ 13)
    × (used some_used s ≡ false)
    × ((m : ℕ) → m < s → used some_used m ≡ true)
unfolding bitmap_scan_test
bitmap_scan-first_example =
    bitmap_scan-first some_used 13 some_used-IsBytes (omega arith) (omega arith) refl

bitmap_scan-run_first_example :
    (s : ℕ) × (bitmap_scan some_used 3 ≡ ok (some s))
    × (s ≤ 13)
    × FreeRun some_used s 3
    × (s + 3 ≤ some_used.btmp_bytes_len * 8 + 1)
bitmap_scan-run_first_example =
    bitmap_scan-run_first some_used 3 some_used-IsBytes (omega arith) (omega arith) 13 (omega arith)
      three_free (omega arith)

bitmap_scan_overrun_example : bitmap_scan last_free 2 ≡ ok (some 15)
unfolding bitmap_scan_test
bitmap_scan_overrun_example =
    bitmap_scan_overrun last_free last_free-IsBytes (omega arith) (omega arith) low_used refl refl
