-- ===== src/Directory/Delete.antt =====
-- `delete_dir_entry` of ch15/fs/dir.c: the entry with an inode's number is cleared, and its block
-- is given back when it was the only one.
use os_elephant.Base.{
  ℕ, zero, suc, ◌+◌, ◌-◌, ◌*◌, Bool, true, false, not, ◌&&◌, Option, none, some, ltb, leb, ◌==◌,
  neb, if◌then◌else◌, Outcome, ok, arith, refl, ◌≡◌, ◌<◌, ◌≤◌, out_of_fuel, assert, ◌>>=◌, ◌>>◌,
  sub32,
}
use os_elephant.Bitmap.{bitmap_set}
use os_elephant.CString.{Memory, strcmp, memset}
use os_elephant.Inode.{Inode, Bytes, inode_sync}
use os_elephant.Format.{dir_entry_bytes}
use os_elephant.FileIo.{block_size, put, sync_block}
use os_elephant.Directory.{Dir, load_sector, i_no, f_type, is_same, dir_blocks, dir_entrys_per_sec}
use os_elephant.Directory.Insert.{store_sector, with_disk, with_sector, store_table}

-- What one pass over a block finds; `dir_entry_cnt` counts the entries but `.` and `..`.
pub record Scan : Type 0 where
  pub is_dir_first_block : Bool
  pub dir_entry_cnt : ℕ
  pub dir_entry_found : Option ℕ

abbrev is_none : Option ℕ → Bool
is_none none = true
is_none (some p) = false

-- One entry; `dot` and `dotdot` are the addresses of the two literals.
unfoldable pub scan_entry : ℕ → ℕ → ℕ → ℕ → ℕ → Memory → Scan → Outcome Scan
scan_entry fuel dot dotdot inode_no dir_e m scan =
    let counted = record scan { dir_entry_cnt = scan.dir_entry_cnt + 1 } in
    let hit =
      assert (is_none scan.dir_entry_found)
      >> ok (record counted { dir_entry_found = some dir_e }) in
    let other = strcmp fuel dir_e dotdot m >>= λ r.
    if is_same r then ok scan else if i_no m dir_e == inode_no then hit else ok counted in
    let named = strcmp fuel dir_e dot m >>= λ r.
    if is_same r then ok (record scan { is_dir_first_block = true }) else other in
    if f_type m dir_e == 0 then ok scan else named

unfoldable pub scan_block : ℕ → ℕ → ℕ → ℕ → ℕ → ℕ → Memory → Scan → Outcome Scan
unfolding scan_entry
scan_block fuel dot dotdot inode_no zero dir_e m scan = ok scan
scan_block fuel dot dotdot inode_no (suc left) dir_e m scan =
    scan_entry fuel dot dotdot inode_no dir_e m scan >>= λ scan'.
    scan_block fuel dot dotdot inode_no left (dir_e + dir_entry_bytes) m scan'

-- `while (indirect_block_idx < 140)`: the index does not move.
unfoldable pub count_indirect : ℕ → ℕ → (ℕ → ℕ) → ℕ → Outcome ℕ
count_indirect zero idx all_blocks n = out_of_fuel
count_indirect (suc fuel) idx all_blocks n =
    let rest = count_indirect fuel idx all_blocks (if neb (all_blocks idx) 0 then n + 1 else n) in
    if ltb idx 140 then rest else ok n

-- The bit of a block is cleared, in memory and on the disk.
unfoldable pub free_block : ℕ → Dir → Outcome Dir
unfolding sync_block
free_block lba dir = do
  b ← bitmap_set dir.vol.block_bitmap (sub32 lba dir.vol.sb.data_start_lba) 0
  ok (record dir { vol = sync_block lba (record (dir.vol) { block_bitmap = b }) })

unfoldable pub drop_block : ℕ → ℕ → (ℕ → ℕ) → Dir → Outcome Dir
unfolding free_block count_indirect
drop_block fuel block_idx all_blocks dir = do
  dir ← free_block (all_blocks block_idx) dir
  let indirect = (do
    n ← count_indirect fuel 12 all_blocks 0
    assert (leb 1 n)
    let last = free_block (dir.inode.i_sectors 12) dir >>= λ d. ok (with_sector d 12 0)
    if ltb 1 n then ok (store_table (put all_blocks block_idx 0) dir) else last)
  if ltb block_idx 12 then ok (with_sector dir block_idx 0) else indirect

-- The entry goes, then the size and the inode on the disk. What `inode_sync` leaves in the buffer
-- is not kept.
unfoldable pub erase_found :
    ℕ → (Inode → Bytes) → ℕ → (ℕ → ℕ) → ℕ → Scan → ℕ → Dir → Outcome (Bool × Dir)
unfolding drop_block
erase_found fuel image block_idx all_blocks io_buf scan found dir = do
  assert (leb 1 scan.dir_entry_cnt)
  let wipe = (do
    m ← memset found 0 dir.vol.sb.dir_entry_size dir.memory
    ok (
        with_disk (record dir { memory = m })
          (store_sector dir.vol.disk (all_blocks block_idx) io_buf m)))
  let alone = (scan.dir_entry_cnt == 1) && not scan.is_dir_first_block
  dir ← (if alone then drop_block fuel block_idx all_blocks dir else wipe)
  assert (leb dir.vol.sb.dir_entry_size dir.inode.i_size)
  let inode = record (dir.inode) { i_size = dir.inode.i_size - dir.vol.sb.dir_entry_size }
  m ← memset io_buf 0 (block_size * 2) dir.memory
  disk ← inode_sync image dir.vol.part inode (λ i. m (io_buf + i)) dir.vol.disk
  ok (true, with_disk (record dir { memory = m; inode = inode }) disk)

unfoldable pub delete_loop :
    ℕ → (Inode → Bytes) → ℕ → ℕ → ℕ → ℕ → ℕ → (ℕ → ℕ) → ℕ → Dir → Outcome (Bool × Dir)
unfolding scan_block erase_found
delete_loop fuel image dot dotdot zero block_idx inode_no all_blocks io_buf dir = ok (false, dir)
delete_loop fuel image dot dotdot (suc left) block_idx inode_no all_blocks io_buf dir =
    let next : Dir → Outcome (Bool × Dir) =
      delete_loop fuel image dot dotdot left (block_idx + 1) inode_no all_blocks io_buf in
    let searched = (do
      m ← memset io_buf 0 block_size dir.memory
      let m' = load_sector dir.vol.disk (all_blocks block_idx) io_buf m
      let dir = record dir { memory = m' }
      scan ←
          scan_block fuel dot dotdot inode_no (dir_entrys_per_sec dir) io_buf m'
            (record { is_dir_first_block = false; dir_entry_cnt = 0; dir_entry_found = none })
      elim scan.dir_entry_found [
        | none ↦ next dir
        | some found ↦ erase_found fuel image block_idx all_blocks io_buf scan found dir
      ]) in
    if all_blocks block_idx == 0 then next dir else searched

unfoldable pub delete_dir_entry : ℕ → (Inode → Bytes) → ℕ → ℕ → ℕ → ℕ → Dir → Outcome (Bool × Dir)
unfolding delete_loop dir_blocks
delete_dir_entry fuel image dot dotdot inode_no io_buf dir =
    delete_loop fuel image dot dotdot 140 0 inode_no (dir_blocks dir) io_buf dir

count_indirect_stuck :
    (fuel idx : ℕ) (all_blocks : ℕ → ℕ) (n : ℕ)
    → idx < 140
    → count_indirect fuel idx all_blocks n ≡ out_of_fuel
unfolding count_indirect
count_indirect_stuck zero idx all_blocks n h = refl
count_indirect_stuck (suc fuel) idx all_blocks n h =
    let e : ltb idx 140 ≡ true = ground arith in
    rw e (count_indirect_stuck fuel idx all_blocks (if neb (all_blocks idx) 0 then n + 1 else n) h)

-- When the only entry of a block behind the direct ones goes, and the block is to be given back,
-- the code does not return: no fuel is enough.
pub drop_block_stuck :
    (fuel block_idx : ℕ) (all_blocks : ℕ → ℕ) (dir : Dir)
    → 12 ≤ block_idx
    → drop_block fuel block_idx all_blocks dir ≡ out_of_fuel
unfolding drop_block bitmap_set
drop_block_stuck fuel block_idx all_blocks dir h =
    let far : ltb block_idx 12 ≡ false = ground arith in
    rw (far, count_indirect_stuck fuel 12 all_blocks 0 (omega arith)) refl
