-- ===== src/Format.antt =====
-- The layout of a fresh file system: the super block that `partition_format` of ch15/fs/fs.c fills
-- in, and the allocation of inodes and blocks by ch15/fs/file.c.
pub mod Layout
mod Tests
use os_elephant.Base.{
  ℕ, ◌+◌, ◌*◌, ◌/◌, Option, none, some, Outcome, ok, ◌>>=◌, add32, sub32, mul32, div_round_up, ltb,
  leb, ◌&&◌, if◌then◌else◌, ◌-◌,
}
use os_elephant.Bitmap.{Bitmap, bitmap_scan, bitmap_set}
use os_elephant.Inode.{Bytes, ide_write, inode_size}

abbrev pub max_files_per_part : ℕ
max_files_per_part = 4096

abbrev pub bits_per_sector : ℕ
bits_per_sector = 4096

abbrev pub sector_size : ℕ
sector_size = 512

-- `sizeof(struct dir_entry)`: a name of 16 bytes, a number and a type
abbrev pub dir_entry_bytes : ℕ
dir_entry_bytes = 24

pub record SuperBlock : Type 0 where
  pub magic : ℕ
  pub sec_cnt : ℕ
  pub inode_cnt : ℕ
  pub part_lba_base : ℕ
  pub block_bitmap_lba : ℕ
  pub block_bitmap_sects : ℕ
  pub inode_bitmap_lba : ℕ
  pub inode_bitmap_sects : ℕ
  pub inode_table_lba : ℕ
  pub inode_table_sects : ℕ
  pub data_start_lba : ℕ
  pub root_inode_no : ℕ
  pub dir_entry_size : ℕ

-- The number of data blocks: what the first estimate of the block bitmap leaves.
unfoldable pub block_bitmap_bit_len : ℕ → ℕ
unfolding div_round_up
block_bitmap_bit_len sec_cnt =
    let inode_bitmap_sects = div_round_up max_files_per_part bits_per_sector in
    let inode_table_sects = div_round_up (inode_size * max_files_per_part) sector_size in
    let used_sects = 1 + 1 + inode_bitmap_sects + inode_table_sects in
    let free_sects = sub32 sec_cnt used_sects in
    sub32 free_sects (div_round_up free_sects bits_per_sector)

unfoldable pub super_block : ℕ → ℕ → SuperBlock
unfolding block_bitmap_bit_len div_round_up
super_block start_lba sec_cnt =
    let inode_bitmap_sects = div_round_up max_files_per_part bits_per_sector in
    let inode_table_sects = div_round_up (inode_size * max_files_per_part) sector_size in
    let block_bitmap_sects = div_round_up (block_bitmap_bit_len sec_cnt) bits_per_sector in
    let block_bitmap_lba = add32 start_lba 2 in
    let inode_bitmap_lba = add32 block_bitmap_lba block_bitmap_sects in
    let inode_table_lba = add32 inode_bitmap_lba inode_bitmap_sects in
    record {
      magic = 0x19590318;
      sec_cnt = sec_cnt;
      inode_cnt = max_files_per_part;
      part_lba_base = start_lba;
      block_bitmap_lba = block_bitmap_lba;
      block_bitmap_sects = block_bitmap_sects;
      inode_bitmap_lba = inode_bitmap_lba;
      inode_bitmap_sects = inode_bitmap_sects;
      inode_table_lba = inode_table_lba;
      inode_table_sects = inode_table_sects;
      data_start_lba = add32 inode_table_lba inode_table_sects;
      root_inode_no = 0;
      dir_entry_size = dir_entry_bytes;
    }

-- `none` is -1.
unfoldable pub take_bit : Bitmap → Option ℕ → Outcome (Option ℕ × Bitmap)
take_bit b none = ok (none, b)
take_bit b (some bit_idx) = bitmap_set b bit_idx 1 >>= λ b'. ok (some bit_idx, b')

unfoldable pub inode_bitmap_alloc : Bitmap → Outcome (Option ℕ × Bitmap)
unfolding take_bit
inode_bitmap_alloc inode_bitmap = bitmap_scan inode_bitmap 1 >>= take_bit inode_bitmap

abbrev pub sector_of : ℕ → Option ℕ → Option ℕ
sector_of data_start_lba none = none
sector_of data_start_lba (some bit_idx) = some (add32 data_start_lba bit_idx)

unfoldable pub block_bitmap_alloc : SuperBlock → Bitmap → Outcome (Option ℕ × Bitmap)
unfolding take_bit
block_bitmap_alloc sb block_bitmap = do
  scanned ← bitmap_scan block_bitmap 1
  (bit_idx, b) ← take_bit block_bitmap scanned
  ok (sector_of sb.data_start_lba bit_idx, b)

-- The sector of the bitmap in memory that holds the bit is written to its place on the disk; the
-- bitmap on the disk starts at `bitmap_lba`.
unfoldable pub bitmap_sync : ℕ → Bitmap → ℕ → Bytes → Bytes
bitmap_sync bitmap_lba b bit_idx disk =
    let off_sec = bit_idx / 4096 in
    ide_write disk (add32 bitmap_lba off_sec) 1 (λ i. b.bits (off_sec * 512 + i))
