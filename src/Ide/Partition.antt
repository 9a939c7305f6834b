-- ===== src/Ide/Partition.antt =====
-- The partition tables of a disk: `partition_scan` of ch15/device/ide.c. `table` gives the entries
-- of the table in the sector with a number; memory for a sector is taken and given back without a
-- trace here.
use os_elephant.Base.{
  ℕ, zero, suc, ◌+◌, ltb, leb, ◌==◌, if◌then◌else◌, Outcome, ok, fault, out_of_fuel, assert, ◌>>=◌,
  ◌>>◌, add32, List, [], ◌∷◌, ◌++◌,
}

-- `struct partition_table_entry`, as far as it is read.
pub record Entry : Type 0 where
  pub fs_type : ℕ
  pub start_lba : ℕ
  pub sec_cnt : ℕ

-- A partition of the list, with the number in its name.
pub record DiskPartition : Type 0 where
  pub start_lba : ℕ
  pub sec_cnt : ℕ
  pub number : ℕ

-- The globals of the scan, and the list.
pub record PartScan : Type 0 where
  pub ext_lba_base : ℕ
  pub p_no : ℕ
  pub l_no : ℕ
  pub partition_list : List DiskPartition

-- A primary partition; the array has four places.
unfoldable pub add_primary : ℕ → Entry → PartScan → Outcome PartScan
add_primary ext_lba p s =
    let added : DiskPartition = record {
      start_lba = add32 ext_lba p.start_lba;
      sec_cnt = p.sec_cnt;
      number = s.p_no + 1;
    } in
    if ltb s.p_no 4
    then assert (ltb (s.p_no + 1) 4)
      >> ok (record s { p_no = s.p_no + 1; partition_list = s.partition_list ++ (added ∷ []) })
    else fault

-- A logical partition; the array has eight places.
unfoldable pub add_logical : ℕ → Entry → PartScan → Outcome PartScan
add_logical ext_lba p s =
    let added : DiskPartition = record {
      start_lba = add32 ext_lba p.start_lba;
      sec_cnt = p.sec_cnt;
      number = s.l_no + 5;
    } in
    if ltb s.l_no 8
    then ok (record s { l_no = s.l_no + 1; partition_list = s.partition_list ++ (added ∷ []) })
    else fault

-- An extended partition: the first is the base of the others.
unfoldable pub scan_extended :
    (ℕ → PartScan → Outcome PartScan) → Entry → PartScan → Outcome PartScan
scan_extended scan p s =
    if s.ext_lba_base == 0
    then scan p.start_lba (record s { ext_lba_base = p.start_lba })
    else scan (add32 p.start_lba s.ext_lba_base) s

-- The loop over the entries from `part_idx` on. With eight logical partitions the scan of the
-- sector ends.
unfoldable pub scan_loop :
    (ℕ → PartScan → Outcome PartScan) → (ℕ → Entry) → ℕ → ℕ → ℕ → PartScan → Outcome PartScan
scan_loop scan entry ext_lba zero part_idx s = ok s
scan_loop scan entry ext_lba (suc left) part_idx s =
    let p = entry part_idx in
    let further = scan_loop scan entry ext_lba left (part_idx + 1) in
    let extended = scan_extended scan p s >>= further in
    let primary = add_primary ext_lba p s >>= further in
    let logical = add_logical ext_lba p s >>= λ s'.
    (let more = further s' in if leb 8 s'.l_no then ok s' else more) in
    if p.fs_type == 5
    then extended
    else if p.fs_type == 0
    then further s
    else if ext_lba == 0
    then primary
    else logical

unfoldable pub partition_scan : (ℕ → ℕ → Entry) → ℕ → ℕ → PartScan → Outcome PartScan
partition_scan table zero ext_lba s = out_of_fuel
partition_scan table (suc fuel) ext_lba s =
    scan_loop (partition_scan table fuel) (table ext_lba) ext_lba 4 0 s
