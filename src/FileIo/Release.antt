-- ===== src/FileIo/Release.antt =====
-- `inode_release` of ch15/fs/inode.c: the blocks of a file and its inode are given back.
pub mod Blocks
pub mod Whole
mod Tests
use mathlib.Core.Path.{subst}
use os_elephant.Base.{
  neq_false, ℕ, zero, suc, ◌+◌, ◌-◌, ◌*◌, ◌/◌, ◌%◌, ◌^◌, ◌<◌, ◌≤◌, ◌≡◌, ◌≢◌, inl, inr, refl, sym,
  ap, ◌∙◌, Bool, true, false, ◌&&◌, ltb, leb, ◌==◌, if◌then◌else◌, Outcome, ok, assert, ◌>>=◌, ◌>>◌,
  arith, Bool-cases, ==_iff, sub32, add32,
}
use os_elephant.Bitmap.{Bitmap, bitmap_set}
use os_elephant.Bitmap.Bits.{
  used, IsBytes, with_bit, with_bit-IsBytes, used-with_bit, bitmap_set_zero,
}
use os_elephant.Inode.{Inode, Bytes, inode_size, inode_delete, overlay}
use os_elephant.Inode.Place.{IsInside, first_byte, inode_delete_lem}
use os_elephant.Format.{SuperBlock, bitmap_sync}
use os_elephant.FileIo.{Volume, block_size, word_at, sync_block}
use os_elephant.FileIo.Sound.{bits_of, sync_before}

-- One block.
unfoldable pub release_block : ℕ → Volume → Outcome Volume
unfolding sync_block
release_block lba v = do
  let block_bitmap_idx = sub32 lba v.sb.data_start_lba
  assert (ltb 0 block_bitmap_idx)
  b ← bitmap_set v.block_bitmap block_bitmap_idx 0
  ok (sync_block lba (record v { block_bitmap = b }))

-- `while (block_idx < block_cnt)`
unfoldable pub release_loop : ℕ → ℕ → (ℕ → ℕ) → Volume → Outcome Volume
unfolding release_block
release_loop zero block_idx all_blocks v = ok v
release_loop (suc left) block_idx all_blocks v =
    let skipped = release_loop left (block_idx + 1) all_blocks v in
    let released = release_block (all_blocks block_idx) v >>= λ v'.
    release_loop left (block_idx + 1) all_blocks v' in
    if all_blocks block_idx == 0 then skipped else released

-- The blocks of the file, and that of its indirect table, whose addresses are read first.
unfoldable pub release_data : Inode → Volume → Outcome Volume
release_data inode_to_del v =
    let table = inode_to_del.i_sectors 12 in
    let all_blocks : ℕ → ℕ = λ i.
      if ltb i 12
      then inode_to_del.i_sectors i
      else word_at v.disk (table * block_size + (i - 12) * 4) in
    let with_table = release_block table v >>= λ v'. release_loop 140 0 all_blocks v' in
    if table == 0 then release_loop 12 0 inode_to_del.i_sectors v else with_table

-- Between `inode_open`, which gives the inode, and `inode_close`.
unfoldable pub inode_release : Inode → ℕ → Bytes → Bitmap → Volume → Outcome (Bitmap × Volume)
inode_release inode_to_del inode_no io_buf inode_bitmap v = do
  assert (inode_to_del.i_no == inode_no)
  v ← release_data inode_to_del v
  b ← bitmap_set inode_bitmap inode_no 0
  let disk = bitmap_sync v.sb.inode_bitmap_lba b inode_no v.disk
  disk' ← inode_delete v.part inode_no io_buf disk
  ok (b, record v { disk = disk' })
