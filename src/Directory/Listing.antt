-- ===== src/Directory/Listing.antt =====
-- `dir_read` of ch15/fs/dir.c: the entries of a directory, one for each call.
use os_elephant.Base.{
  ℕ, zero, suc, ◌+◌, Option, none, some, ltb, leb, ◌==◌, if◌then◌else◌, Outcome, ok, assert, ◌>>=◌,
  ◌>>◌, add32,
}
use os_elephant.CString.{Memory, memset}
use os_elephant.Format.{dir_entry_bytes}
use os_elephant.FileIo.{block_size}
use os_elephant.Directory.{Dir, load_sector, f_type, dir_blocks, dir_entrys_per_sec}

-- The entries in use before the position are passed over; the first one at it is the result.
unfoldable pub read_entries : ℕ → ℕ → ℕ → ℕ → ℕ → Memory → Outcome (Option ℕ × ℕ)
read_entries zero dir_e size cur dir_pos m = ok (none, cur)
read_entries (suc left) dir_e size cur dir_pos m =
    let unused = read_entries left (dir_e + dir_entry_bytes) size cur dir_pos m in
    let earlier = read_entries left (dir_e + dir_entry_bytes) size (add32 cur size) dir_pos m in
    let this = assert (cur == dir_pos) >> ok (some dir_e, cur) in
    if f_type m dir_e == 0 then unused else if ltb cur dir_pos then earlier else this

unfoldable pub read_dir_blocks : ℕ → ℕ → (ℕ → ℕ) → ℕ → ℕ → Dir → Outcome (Option ℕ × Dir)
unfolding read_entries
read_dir_blocks zero block_idx all_blocks dir_buf cur dir = ok (none, dir)
read_dir_blocks (suc left) block_idx all_blocks dir_buf cur dir =
    let next : ℕ → Dir → Outcome (Option ℕ × Dir) =
      read_dir_blocks left (block_idx + 1) all_blocks dir_buf in
    let size = dir.vol.sb.dir_entry_size in
    let searched = (do
      m ← memset dir_buf 0 block_size dir.memory
      let dir = record dir { memory = load_sector dir.vol.disk (all_blocks block_idx) dir_buf m }
      (found, cur') ← read_entries (dir_entrys_per_sec dir) dir_buf size cur dir.dir_pos dir.memory
      elim found [
        | none ↦ next cur' dir
        | some dir_e ↦ ok (some dir_e, record dir { dir_pos = add32 dir.dir_pos size })
      ]) in
    if leb dir.inode.i_size dir.dir_pos
    then ok (none, dir)
    else if all_blocks block_idx == 0
    then next cur dir
    else searched

-- `dir_buf` is the address of the buffer in the `struct dir`; `none` is `NULL`.
unfoldable pub dir_read : ℕ → Dir → Outcome (Option ℕ × Dir)
unfolding read_dir_blocks dir_blocks
dir_read dir_buf dir =
    read_dir_blocks (if dir.inode.i_sectors 12 == 0 then 12 else 140) 0 (dir_blocks dir) dir_buf 0
      dir
