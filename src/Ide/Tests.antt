-- ===== src/Ide/Tests.antt =====
-- The first channel with a drive that answers at once, a text and two disks, and the theorems at
-- them.
use os_elephant.Base.{
  ℕ, ◌+◌, ◌*◌, ◌-◌, ◌≡◌, inl, refl, true, false, ◌==◌, if◌then◌else◌, ok, panic, arith, List, [],
  ◌∷◌,
}
use os_elephant.Base.Bytes.{bit_on}
use os_elephant.CString.{Memory}
use os_elephant.CString.Copy.{within}
use os_elephant.Ide.{Channel, Driver, busy_wait}
use os_elephant.Ide.Wait.{busy_wait_slow, napped}
use os_elephant.Ide.Swap.{neighbour, swap_pairs_bytes, swap_pairs_bytes_lem}
use os_elephant.Ide.Partition.{Entry, PartScan, partition_scan}
use os_elephant.Ide.Chain.{Chain, found, partition_scan_lem, partition_scan_four}

abbrev primary : Channel
primary = record {
  port_base = 0x1f0;
  irq_no = 0x2e;
  lock_depth = 0;
  expecting_intr = false;
  disk_done = 0;
}

abbrev driver : Driver
driver = record { channel = primary; log = []; readings = 0 }

-- Ready with data.
abbrev ready : ℕ → ℕ
ready n = 8

-- Busy for ever.
abbrev stuck : ℕ → ℕ
stuck n = 128

stuck_bit : bit_on 128 7 ≡ true
unfolding bit_on
stuck_bit = refl

busy_wait_slow_example :
    ((busy_wait stuck driver).0 ≡ false) × ((busy_wait stuck driver).1.log ≡ napped 29999 [])
busy_wait_slow_example = busy_wait_slow stuck driver λ i lt. stuck_bit

abbrev letters : Memory
letters q = q

swap_pairs_bytes_lem_example :
    (m' : Memory) × (swap_pairs_bytes 11 100 200 20 letters ≡ ok m')
    × ((q : ℕ)
        → m' q ≡ (
            if q == 200 + 20
            then 0
            else if within 200 20 q
            then letters (100 + neighbour (q - 200))
            else letters q))
swap_pairs_bytes_lem_example =
    swap_pairs_bytes_lem 11 100 200 20 letters refl (omega arith) (inl (omega arith)) (omega arith)

abbrev entry : ℕ → ℕ → ℕ → Entry
entry fs_type start_lba sec_cnt = record {
  fs_type = fs_type;
  start_lba = start_lba;
  sec_cnt = sec_cnt;
}

-- Two logical partitions, in the sectors 1000 and 5000.
abbrev extended : ℕ → ℕ → Entry
extended lba i =
    if i == 0
    then entry 131 63 2000
    else if i == 1
    then (if lba == 1000 then entry 5 4000 3000 else entry 0 0 0)
    else entry 0 0 0

abbrev scan : PartScan
scan = record { ext_lba_base = 1000; p_no = 0; l_no = 0; partition_list = [] }

abbrev parts : List (ℕ × ℕ)
parts = (1063, 2000) ∷ ((5063, 2000) ∷ [])

extended-Chain : Chain extended 1000 1000 parts
extended-Chain = (
  record {
    own = omega arith;
    used = omega arith;
    plain = omega arith;
    start = refl;
    size = refl;
    third = refl;
    fourth = refl;
  },
  refl,
  (
    record {
      own = omega arith;
      used = omega arith;
      plain = omega arith;
      start = refl;
      size = refl;
      third = refl;
      fourth = refl;
    },
    refl,
  ),
)

partition_scan_lem_example : partition_scan extended 2 1000 scan ≡ ok (found parts scan)
partition_scan_lem_example =
    partition_scan_lem extended 2 1000 parts scan (omega arith) (omega arith) (omega arith)
      (omega arith) extended-Chain

partition_scan_four_example : partition_scan (λ lba i. entry 131 (100 * i) 100) 3 0 scan ≡ panic
partition_scan_four_example =
    partition_scan_four (λ lba i. entry 131 (100 * i) 100) 2 scan refl
      λ i lt. ((omega arith), (omega arith))
