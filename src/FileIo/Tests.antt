-- ===== src/FileIo/Tests.antt =====
-- A file of 510 bytes on a small volume, and the theorems at a write that reaches a second block.
use os_elephant.Base.{
  ℕ, ◌+◌, ◌-◌, ◌<◌, ◌≡◌, ◌==◌, true, false, if◌then◌else◌, some, ok, panic, arith, refl, ap, ◌∙◌,
}
use os_elephant.Bitmap.{Bitmap, bitmap_scan_test}
use os_elephant.Bitmap.Bits.{used, IsBytes}
use os_elephant.Format.{SuperBlock}
use os_elephant.Inode.{Inode, Bytes}
use os_elephant.FileIo.{Io, Volume}
use os_elephant.FileIo.Write.{file_write}
use os_elephant.FileIo.Read.{file_read}
use os_elephant.FileIo.Chunk.{Holds}
use os_elephant.FileIo.Sound.{Room, Sound}
use os_elephant.FileIo.Collect.{IsOpen}
use os_elephant.FileIo.Output.{HasPlace}
use os_elephant.FileIo.Written.{Written, file_write-Written}
use os_elephant.FileIo.Input.{Got, file_read-Got, file_write-file_read, file_read_stuck}

-- The blocks 0, of the root directory, and 1 are taken.
abbrev map : Bitmap
map = record { btmp_bytes_len = 2; bits = λ i. if i == 0 then 3 else 0 }

abbrev sb : SuperBlock
sb = record {
  magic = 0x19590318;
  sec_cnt = 2000;
  inode_cnt = 4096;
  part_lba_base = 64;
  block_bitmap_lba = 66;
  block_bitmap_sects = 1;
  inode_bitmap_lba = 67;
  inode_bitmap_sects = 1;
  inode_table_lba = 68;
  inode_table_sects = 608;
  data_start_lba = 676;
  root_inode_no = 0;
  dir_entry_size = 24;
}

abbrev vol : Volume
vol = record {
  sb = sb;
  part = record { start_lba = 64; sec_cnt = 2000; inode_table_lba = 68 };
  block_bitmap = map;
  disk = λ q. q;
}

abbrev file : Io
file = record {
  vol = vol;
  inode = record {
    i_no = 3;
    i_size = 510;
    i_open_cnts = 1;
    write_deny = false;
    i_sectors = λ i. if i == 0 then 677 else 0;
  };
  fd_pos = 500;
  all_blocks = λ i. 0;
}

abbrev image : Inode → Bytes
image inode i = inode.i_no + inode.i_size + i

map-IsBytes : IsBytes map
map-IsBytes i = ground arith

zero_of : (i : ℕ) → i < 1 → i ≡ 0
zero_of i h = omega arith

root_taken : used map 0 ≡ true
unfolding bitmap_scan_test
root_taken = refl

two_free : used map 2 ≡ false
unfolding bitmap_scan_test
two_free = refl

one_taken : used map 1 ≡ true
unfolding bitmap_scan_test
one_taken = refl

file-Sound : Sound vol file.inode.i_sectors 1
file-Sound = record {
  bytes = map-IsBytes;
  fits = omega arith;
  map_before = omega arith;
  in_data = λ i h. ground arith;
  marked = λ i h. ap (λ k. used map ((if k == 0 then 677 else 0) - 676)) (zero_of i h) ∙ one_taken;
  apart = λ i j hi hj ne. absurd (ne (omega arith));
  clear = λ i lo hi. ground arith;
}

file-IsOpen : IsOpen file
file-IsOpen = record {
  sound = file-Sound;
  empty = λ e. absurd (omega (arith, e));
  root_taken = root_taken;
}

file-HasPlace : HasPlace vol 3
file-HasPlace = record {
  small = omega arith;
  inside = omega arith;
  one_sector = omega arith;
  before = omega arith;
}

file-Room : Room map 1
file-Room = record {
  free = λ i. 2 + i;
  rising = λ i j lt h. omega arith;
  inside = λ i h. omega arith;
  clear = λ i h. ap (λ k. used map (2 + k)) (zero_of i h) ∙ two_free;
}

file_write-file_read_example :
    (io' : Io) × (back : Bytes) × (io'' : Io) × (file_write 6 image true true
        (λ i. 0)
        (λ i. i + 65)
        5
        file
      ≡ ok (some 5, io'))
    × (file_read 6 true true (λ i. 0) 5 (record io' { fd_pos = 510 }) ≡ ok (some 5, back, io''))
    × ((i : ℕ) → i < 5 → back i ≡ i + 65)
file_write-file_read_example =
    file_write-file_read 6 image (λ i. 0) (λ i. i + 65) (λ i. 0) 5 file (omega arith) (omega arith)
      file-IsOpen file-HasPlace file-Room

file_write-Written_example :
    (io' : Io) × (file_write 6 image true true (λ i. 0) (λ i. i + 65) 5 file ≡ ok (some 5, io'))
    × Written image (λ i. i + 65) 5 file io'
file_write-Written_example =
    file_write-Written 6 image (λ i. 0) (λ i. i + 65) 5 file (omega arith) (omega arith) file-IsOpen
      file-HasPlace file-Room

-- Position 500 of 510 bytes, and 20 asked for.
file_read-Got_example :
    (back : Bytes) × (io' : Io) × (file_read 21 true true (λ i. 0) 20 file
      ≡ ok (some 10, back, io'))
    × Got 20 (λ i. 0) file back io'
file_read-Got_example =
    file_read-Got 21 (λ i. 0) 20 file (omega arith) (omega arith) (omega arith) (omega arith)

file_read_stuck_example :
    file_read 21 true true
      (λ i. 0)
      20
      (record file { inode = record (file.inode) { i_size = 71680 }; fd_pos = 71160 })
    ≡ panic
file_read_stuck_example =
    file_read_stuck 21 true (λ i. 0) 20
      (record file { inode = record (file.inode) { i_size = 71680 }; fd_pos = 71160 }) (omega arith)
      (omega arith) (omega arith)

-- A file with its blocks one behind the other.
abbrev gathered : Io
gathered = record file { all_blocks = λ i. 700 + i }

gathered-Holds : Holds (λ i. 700 + i) gathered 5
gathered-Holds = record { apart = λ i j hi hj ne. omega arith; known = λ k lo hi. refl }
