-- ===== src/Directory.antt =====
-- Directories: ch15/fs/dir.c. A directory is a file whose blocks hold entries of 24 bytes; buffers,
-- names and entries lie in one memory of bytes.
pub mod Insert
pub mod Delete
pub mod Listing
pub mod Search
pub mod FreeEntry
pub mod Texts
pub mod Lookup
pub mod Inserted
pub mod Found
mod Tests
use os_elephant.Base.{
  ℕ, zero, suc, ◌+◌, ◌-◌, ◌*◌, ◌/◌, Bool, true, false, ◌&&◌, ◌||◌, Option, none, some, ltb, leb,
  ◌==◌, neb, if◌then◌else◌, Outcome, ok, assert, ◌>>=◌, ◌>>◌,
}
use os_elephant.CString.{Memory, Sign, minus, same, plus, strcmp, strlen, memcpy, memset}
use os_elephant.Inode.{Inode, Bytes}
use os_elephant.Format.{dir_entry_bytes}
use os_elephant.FileIo.{Volume, block_size, word_at, byte_of}

-- `struct dir`, with the partition it is on and the memory.
pub record Dir : Type 0 where
  pub vol : Volume
  pub inode : Inode
  pub dir_pos : ℕ
  pub memory : Memory

-- `ide_read(disk, lba, buf, 1)`
abbrev pub load_sector : Bytes → ℕ → ℕ → Memory → Memory
load_sector disk lba buf m a =
    if leb buf a && ltb a (buf + block_size) then disk (lba * block_size + (a - buf)) else m a

abbrev pub is_same : Sign → Bool
is_same minus = false
is_same same = true
is_same plus = false

-- The fields of a `struct dir_entry` behind the name.
abbrev pub i_no : Memory → ℕ → ℕ
i_no m p_de = word_at m (p_de + 16)

abbrev pub f_type : Memory → ℕ → ℕ
f_type m p_de = word_at m (p_de + 20)

-- The twelve direct blocks, and those of the table when there is one.
unfoldable pub dir_blocks : Dir → ℕ → ℕ
dir_blocks dir i =
    if ltb i 12
    then dir.inode.i_sectors i
    else if (dir.inode.i_sectors 12 == 0) || leb 140 i
    then 0
    else word_at dir.vol.disk (dir.inode.i_sectors 12 * block_size + (i - 12) * 4)

abbrev pub dir_entrys_per_sec : Dir → ℕ
dir_entrys_per_sec dir = block_size / dir.vol.sb.dir_entry_size

-- The entries of one block in memory.
unfoldable pub search_entries : ℕ → ℕ → ℕ → ℕ → Memory → Outcome (Option ℕ)
search_entries fuel zero p_de name m = ok none
search_entries fuel (suc left) p_de name m =
    let rest = search_entries fuel left (p_de + dir_entry_bytes) name m in
    strcmp fuel p_de name m >>= λ r. if is_same r then ok (some p_de) else rest

unfoldable pub search_blocks :
    ℕ → ℕ → ℕ → (ℕ → ℕ) → ℕ → ℕ → ℕ → Dir → Memory → Outcome (Bool × Memory)
unfolding search_entries
search_blocks fuel zero block_idx all_blocks buf name dir_e dir m = ok (false, m)
search_blocks fuel (suc left) block_idx all_blocks buf name dir_e dir m =
    let loaded = load_sector dir.vol.disk (all_blocks block_idx) buf m in
    let skipped = search_blocks fuel left (block_idx + 1) all_blocks buf name dir_e dir m in
    let searched = (do
      found ← search_entries fuel (dir_entrys_per_sec dir) buf name loaded
      elim found [
        | none ↦ do
          m' ← memset buf 0 block_size loaded
          search_blocks fuel left (block_idx + 1) all_blocks buf name dir_e dir m'
        | some p_de ↦ do m' ← memcpy dir_e p_de dir.vol.sb.dir_entry_size loaded; ok (true, m')
      ]) in
    if all_blocks block_idx == 0 then skipped else searched

-- `buf` is the buffer that `sys_malloc` gives; `fuel` bounds the comparison of two names.
unfoldable pub search_dir_entry : ℕ → Bool → ℕ → ℕ → ℕ → Dir → Outcome (Bool × Memory)
unfolding search_blocks dir_blocks
search_dir_entry fuel has_blocks buf name dir_e dir =
    if has_blocks
    then search_blocks fuel 140 0 (dir_blocks dir) buf name dir_e dir dir.memory
    else ok (false, dir.memory)

abbrev pub store_word : ℕ → ℕ → Memory → Memory
store_word p w m a = if leb p a && ltb a (p + 4) then byte_of w (a - p) else m a

-- A name of 16 bytes fills the field, and no NUL ends it.
unfoldable pub create_dir_entry : ℕ → ℕ → ℕ → ℕ → ℕ → Memory → Outcome Memory
create_dir_entry fuel filename inode_no file_type p_de m = do
  len ← strlen fuel filename m
  assert (leb len 16)
  m' ← memcpy p_de filename len m
  ok (store_word (p_de + 20) file_type (store_word (p_de + 16) inode_no m'))

unfoldable pub dir_is_empty : Dir → Bool
dir_is_empty dir = dir.inode.i_size == dir.vol.sb.dir_entry_size * 2
