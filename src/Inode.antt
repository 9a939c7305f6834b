-- ===== src/Inode.antt =====
-- Inodes, in memory and on the disk: ch15/fs/inode.c and inode.h. The disk is the bytes of its
-- sectors; `ide_read` and `ide_write` move whole sectors between it and a buffer.
pub mod Place
mod Tests
use os_elephant.Base.{
  ℕ, ◌+◌, ◌-◌, ◌*◌, ◌/◌, ◌%◌, Bool, true, false, ◌&&◌, ltb, leb, if◌then◌else◌, Outcome, ok, assert,
  ◌>>=◌, ◌>>◌, add32, mul32, u8,
}

-- The list link `inode_tag` is not part of the record.
pub record Inode : Type 0 where
  pub i_no : ℕ
  pub i_size : ℕ
  pub i_open_cnts : ℕ
  pub write_deny : Bool
  pub i_sectors : ℕ → ℕ

-- `sizeof(struct inode)`
abbrev pub inode_size : ℕ
inode_size = 76

pub record InodePosition : Type 0 where
  pub two_sec : Bool
  pub sec_lba : ℕ
  pub off_size : ℕ

-- What the functions read of a `struct partition`.
pub record Partition : Type 0 where
  pub start_lba : ℕ
  pub sec_cnt : ℕ
  pub inode_table_lba : ℕ

unfoldable pub inode_locate : Partition → ℕ → Outcome InodePosition
inode_locate part inode_no = do
  assert (ltb inode_no 4096)
  let off_size = mul32 inode_no inode_size
  let off_size_in_sec = off_size % 512
  let pos : InodePosition = record {
    two_sec = ltb (512 - off_size_in_sec) inode_size;
    sec_lba = add32 part.inode_table_lba (off_size / 512);
    off_size = off_size_in_sec;
  }
  ok pos

unfoldable pub inode_init : ℕ → Inode → Inode
inode_init inode_no new_inode = record {
  i_no = inode_no;
  i_size = 0;
  i_open_cnts = 0;
  write_deny = false;
  i_sectors = λ sec_idx. if ltb sec_idx 13 then 0 else new_inode.i_sectors sec_idx;
}

abbrev pub Bytes : Type 0
Bytes = ℕ → ℕ

abbrev pub ide_read : Bytes → ℕ → ℕ → Bytes → Bytes
ide_read disk lba sec_cnt buf i = if ltb i (sec_cnt * 512) then disk (lba * 512 + i) else buf i

abbrev pub ide_write : Bytes → ℕ → ℕ → Bytes → Bytes
ide_write disk lba sec_cnt buf q =
    if leb (lba * 512) q && ltb q (lba * 512 + sec_cnt * 512) then buf (q - lba * 512) else disk q

-- `memcpy(buf + off, bytes, sizeof(struct inode))`
abbrev pub overlay : ℕ → Bytes → Bytes → Bytes
overlay off bytes buf i = if leb off i && ltb i (off + inode_size) then bytes (i - off) else buf i

-- The sectors are read, changed in the buffer and written back.
unfoldable pub rewrite : InodePosition → Bytes → Bytes → Bytes → Bytes
rewrite pos bytes io_buf disk =
    let secs = if pos.two_sec then 2 else 1 in
    ide_write disk pos.sec_lba secs
      (overlay pos.off_size bytes (ide_read disk pos.sec_lba secs io_buf))

-- `image` is the layout of a `struct inode` in memory. The copy that goes to the disk has no open
-- count and no write mark, and its number is cut to a `uint8_t` before it is located.
unfoldable pub inode_sync : (Inode → Bytes) → Partition → Inode → Bytes → Bytes → Outcome Bytes
unfolding inode_locate rewrite
inode_sync image part inode io_buf disk = do
  let inode_no = u8 inode.i_no
  pos ← inode_locate part inode_no
  assert (leb pos.sec_lba (add32 part.start_lba part.sec_cnt))
  let pure_inode : Inode = record inode { i_open_cnts = 0; write_deny = false }
  ok (rewrite pos (image pure_inode) io_buf disk)

unfoldable pub inode_delete : Partition → ℕ → Bytes → Bytes → Outcome Bytes
unfolding inode_locate rewrite
inode_delete part inode_no io_buf disk = do
  assert (ltb inode_no 4096)
  pos ← inode_locate part inode_no
  assert (leb pos.sec_lba (add32 part.start_lba part.sec_cnt))
  ok (rewrite pos (λ i. 0) io_buf disk)
