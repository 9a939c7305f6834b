-- ===== src/FileIo.antt =====
-- Reading and writing regular files: `file_write` and `file_read` of ch15/fs/file.c. A file has
-- twelve direct blocks and up to 128 more, whose addresses stand in an indirect table on the disk.
pub mod Write
pub mod Read
pub mod Chunk
pub mod Appends
pub mod Reads
pub mod Sound
pub mod Grow
pub mod Collect
pub mod Output
pub mod Written
pub mod Input
pub mod Release
mod Tests
use os_elephant.Base.{
  ℕ, zero, suc, ◌+◌, ◌-◌, ◌*◌, ◌/◌, ◌%◌, ◌^◌, Bool, true, false, not, ◌&&◌, ◌||◌, Option, none,
  some, ltb, leb, ◌==◌, neb, if◌then◌else◌, Outcome, ok, out_of_fuel, assert, ◌>>=◌, ◌>>◌, add32,
  sub32,
}
use os_elephant.Bitmap.{Bitmap}
use os_elephant.Inode.{Inode, Partition, Bytes, ide_read, ide_write}
use os_elephant.Format.{SuperBlock, block_bitmap_alloc, bitmap_sync}

abbrev pub block_size : ℕ
block_size = 512

-- What is used of `cur_part`.
pub record Volume : Type 0 where
  pub sb : SuperBlock
  pub part : Partition
  pub block_bitmap : Bitmap
  pub disk : Bytes

-- A file at work: its inode, the position, and the array `all_blocks` of its block addresses.
pub record Io : Type 0 where
  pub vol : Volume
  pub inode : Inode
  pub fd_pos : ℕ
  pub all_blocks : ℕ → ℕ

-- A 32-bit word of the disk, the low byte first.
abbrev pub word_at : Bytes → ℕ → ℕ
word_at disk q = disk q + disk (q + 1) * 2 ^ 8 + disk (q + 2) * 2 ^ 16 + disk (q + 3) * 2 ^ 24

abbrev pub byte_of : ℕ → ℕ → ℕ
byte_of w zero = w % 256
byte_of w (suc i) = byte_of (w / 256) i

abbrev pub put : (ℕ → ℕ) → ℕ → ℕ → ℕ → ℕ
put f i v j = if i == j then v else f j

-- `ide_read(disk, table, all_blocks + 12, 1)`
unfoldable pub read_table : ℕ → Io → Io
read_table table io = record io {
  all_blocks = λ i.
      if leb 12 i && ltb i 140
      then word_at io.vol.disk (table * block_size + (i - 12) * 4)
      else io.all_blocks i;
}

-- `ide_write(disk, table, all_blocks + 12, 1)`
unfoldable pub write_table : ℕ → Io → Io
write_table table io = record io {
  vol = record (io.vol) {
    disk = ide_write io.vol.disk table 1 λ i. byte_of (io.all_blocks (12 + i / 4)) (i % 4);
  };
}

-- `block_bitmap_alloc`, with the bitmap in its place
unfoldable pub alloc_block : Volume → Outcome (Option ℕ × Volume)
unfolding block_bitmap_alloc
alloc_block v =
    block_bitmap_alloc v.sb v.block_bitmap >>= λ r. ok (r.0, record v { block_bitmap = r.1 })

-- `bitmap_sync(cur_part, block_lba - data_start_lba, BLOCK_BITMAP)`
unfoldable pub sync_block : ℕ → Volume → Volume
unfolding bitmap_sync
sync_block block_lba v = record v {
  disk =
      bitmap_sync v.sb.block_bitmap_lba v.block_bitmap (sub32 block_lba v.sb.data_start_lba) v.disk;
}

-- A new direct block goes to the inode and to the array, an indirect one to the array alone.
abbrev pub place_direct : ℕ → ℕ → Io → Outcome Io
place_direct block_idx block_lba io =
    assert (io.inode.i_sectors block_idx == 0)
    >> ok (record io {
      inode = record (io.inode) { i_sectors = put io.inode.i_sectors block_idx block_lba };
      all_blocks = put io.all_blocks block_idx block_lba;
    })

abbrev pub place_indirect : ℕ → ℕ → Io → Outcome Io
place_indirect block_idx block_lba io =
    ok (record io { all_blocks = put io.all_blocks block_idx block_lba })

abbrev pub place : ℕ → ℕ → Io → Outcome Io
place block_idx block_lba io =
    if ltb block_idx 12
    then place_direct block_idx block_lba io
    else place_indirect block_idx block_lba io

-- `while (block_idx < file_will_use_blocks)`; the flag is false where no block is left and the
-- caller returns -1.
unfoldable pub grow : (ℕ → ℕ → Io → Outcome Io) → ℕ → ℕ → Io → Outcome (Bool × Io)
unfolding alloc_block sync_block
grow place_at zero block_idx io = ok (true, io)
grow place_at (suc left) block_idx io = do
  (lba, vol) ← alloc_block io.vol
  elim lba [
    | none ↦ ok (false, record io { vol = vol })
    | some block_lba ↦ do
      placed ← place_at block_idx block_lba (record io { vol = vol })
      grow place_at left (block_idx + 1) (record placed { vol = sync_block block_lba placed.vol })
  ]

-- An empty file gets its first block.
unfoldable pub first_block : Io → Outcome (Bool × Io)
unfolding alloc_block sync_block
first_block io =
    let fresh : Outcome (Bool × Io) = (do
      (lba, vol) ← alloc_block io.vol
      elim lba [
        | none ↦ ok (false, record io { vol = vol })
        | some block_lba ↦ do
          assert (neb (sub32 block_lba vol.sb.data_start_lba) 0)
          ok (
            true,
            record io {
              vol = sync_block block_lba vol;
              inode = record (io.inode) { i_sectors = put io.inode.i_sectors 0 block_lba };
            },
          )
      ]) in
    if io.inode.i_sectors 0 == 0 then fresh else ok (true, io)

abbrev pub keep_last : ℕ → Io → Io
keep_last block_idx io = record io {
  all_blocks = put io.all_blocks block_idx (io.inode.i_sectors block_idx);
}

-- The table of a file that grows beyond the direct blocks. Its bit of the bitmap is not written to
-- the disk.
unfoldable pub new_table : ℕ → ℕ → Io → Outcome (Bool × Io)
unfolding alloc_block grow write_table
new_table used will io = do
  (lba, vol) ← alloc_block io.vol
  elim lba [
    | none ↦ ok (false, record io { vol = vol })
    | some table ↦ do
      assert (io.inode.i_sectors 12 == 0)
      let with_table = record io {
        vol = vol;
        inode = record (io.inode) { i_sectors = put io.inode.i_sectors 12 table };
      }
      (went, io') ← grow place (will - used) used with_table
      ok (went, if went then write_table table io' else io')
  ]

-- The addresses that the write needs are collected in `all_blocks`.
unfoldable pub gather : ℕ → ℕ → Io → Outcome (Bool × Io)
unfolding read_table grow new_table write_table
gather used will io =
    let within_direct = ok (true, keep_last (used - 1) io) in
    let within_indirect =
      assert (neb (io.inode.i_sectors 12) 0) >> ok (true, read_table (io.inode.i_sectors 12) io) in
    let direct =
      assert (neb (io.inode.i_sectors (used - 1)) 0)
      >> grow place_direct (will - used) used (keep_last (used - 1) io) in
    let across = new_table used will (keep_last (used - 1) io) in
    let indirect =
      assert (neb (io.inode.i_sectors 12) 0)
      >> (grow place_indirect (will - used) used (read_table (io.inode.i_sectors 12) io) >>= λ r.
          ok (r.0, if r.0 then write_table (io.inode.i_sectors 12) r.1 else r.1)) in
    if sub32 will used == 0
    then (if leb used 12 then within_direct else within_indirect)
    else if leb will 12
    then direct
    else if leb used 12
    then across
    else indirect
