-- ===== src/Inode/Tests.antt =====
-- A partition of 1000 sectors, and the theorems at inodes of it.
use os_elephant.Base.{ℕ, ◌+◌, ◌≡◌, false, ok, arith}
use os_elephant.Inode.{Inode, Partition, Bytes, inode_sync, overlay}
use os_elephant.Inode.Place.{IsInside, first_byte, inode_sync_truncates}

abbrev part : Partition
part = record { start_lba = 64; sec_cnt = 1000; inode_table_lba = 100 }

abbrev numbered : ℕ → Inode
numbered n = record {
  i_no = n;
  i_size = 5;
  i_open_cnts = 2;
  write_deny = false;
  i_sectors = λ i. 0;
}

abbrev image : Inode → Bytes
image inode i = inode.i_no + inode.i_open_cnts + i

-- Inode 6 lies across two sectors.
part_holds : IsInside part 6
part_holds = omega arith

inode_sync_truncates_example :
    (disk' : Bytes) × (inode_sync image part (numbered 262) (λ i. 0) (λ i. 1) ≡ ok disk')
    × ((q : ℕ)
        → disk' q
          ≡ overlay
              (first_byte part 6)
              (image (record (numbered 262) { i_open_cnts = 0; write_deny = false }))
              (λ i. 1)
              q)
inode_sync_truncates_example =
    inode_sync_truncates image part (numbered 262) (λ i. 0) (λ i. 1) part_holds
