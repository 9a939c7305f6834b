-- ===== src/FileIo/Release/Tests.antt =====
-- The file of two blocks that is given back.
use os_elephant.Base.{ℕ, ◌≡◌, false, ◌==◌, if◌then◌else◌, ok, arith, refl}
use os_elephant.Bitmap.{Bitmap}
use os_elephant.Bitmap.Bits.{used}
use os_elephant.Inode.{Inode}
use os_elephant.FileIo.{Volume}
use os_elephant.FileIo.Release.{inode_release}
use os_elephant.FileIo.Release.Blocks.{Owned, Released}
use os_elephant.FileIo.Release.Whole.{HasInode, inode_release-Released}

abbrev map : Bitmap
map = record { btmp_bytes_len = 2; bits = λ i. if i == 0 then 15 else 0 }

abbrev vol : Volume
vol = record {
  sb = record {
    magic = 0x19590318;
    sec_cnt = 2000;
    inode_cnt = 4096;
    part_lba_base = 64;
    block_bitmap_lba = 66;
    block_bitmap_sects = 1;
    inode_bitmap_lba = 67;
    inode_bitmap_sects = 1;
    inode_table_lba = 68;
    inode_table_sects = 608;
    data_start_lba = 676;
    root_inode_no = 0;
    dir_entry_size = 24;
  };
  part = record { start_lba = 64; sec_cnt = 2000; inode_table_lba = 68 };
  block_bitmap = map;
  disk = λ q. q;
}

abbrev inode : Inode
inode = record {
  i_no = 3;
  i_size = 600;
  i_open_cnts = 1;
  write_deny = false;
  i_sectors = λ i. if i == 0 then 677 else if i == 1 then 679 else 0;
}

vol-Owned : Owned vol inode.i_sectors
vol-Owned = record {
  bytes = λ i. ground arith;
  fits = omega arith;
  map_before = omega arith;
  in_data = λ i h there. ground arith;
  in_map = λ i h there. ground arith;
  apart = λ i j hi hj ne there. ground arith;
}

vol-HasInode : HasInode vol 3
vol-HasInode = record { inside = omega arith; table_before = omega arith; map_before = omega arith }

inode_release-Released_example :
    (b' : Bitmap) × (v' : Volume) × (inode_release inode 3 (λ i. 0) map vol ≡ ok (b', v'))
    × Released inode.i_sectors 0 vol v'
    × ((k : ℕ) → used b' k ≡ (if 3 == k then false else used map k))
inode_release-Released_example =
    inode_release-Released inode 3 (λ i. 0) map vol refl refl vol-Owned (λ i. ground arith)
      vol-HasInode
