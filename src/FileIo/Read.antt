-- ===== src/FileIo/Read.antt =====
-- `file_read` of ch15/fs/file.c.
use os_elephant.Base.{
  ℕ, zero, suc, ◌+◌, ◌-◌, ◌/◌, ◌%◌, Bool, ◌&&◌, Option, none, some, ltb, leb, ◌==◌, neb,
  if◌then◌else◌, Outcome, ok, out_of_fuel, assert, ◌>>=◌, ◌>>◌, add32, sub32,
}
use os_elephant.Inode.{Bytes, ide_read}
use os_elephant.FileIo.{Io, block_size, read_table}

-- The direct blocks from one index up to another.
unfoldable pub keep_blocks : ℕ → ℕ → Io → Io
keep_blocks from end io = record io {
  all_blocks = λ i. if leb from i && ltb i end then io.inode.i_sectors i else io.all_blocks i;
}

-- The addresses of the blocks with the bytes to read.
unfoldable pub gather_read : ℕ → ℕ → Io → Outcome Io
unfolding keep_blocks read_table
gather_read start_idx end_idx io =
    let table = io.inode.i_sectors 12 in
    let with_table = assert (neb table 0) >> ok (read_table table io) in
    let across = assert (neb table 0) >> ok (read_table table (keep_blocks start_idx 12 io)) in
    if sub32 start_idx end_idx == 0
    then (if ltb end_idx 12
        then ok (keep_blocks end_idx (end_idx + 1) io)
        else ok (read_table table io))
    else if ltb end_idx 12
    then ok (keep_blocks start_idx (end_idx + 1) io)
    else if ltb start_idx 12
    then across
    else with_table

-- `while (bytes_read < size)`: the bytes read, the buffer and the file.
unfoldable pub read_loop : ℕ → ℕ → ℕ → ℕ → Bytes → Io → Outcome (ℕ × Bytes × Io)
read_loop zero size bytes_read size_left buf io = out_of_fuel
read_loop (suc fuel) size bytes_read size_left buf io =
    let sec_lba = io.all_blocks (io.fd_pos / block_size) in
    let sec_off_bytes = io.fd_pos % block_size in
    let sec_left_bytes = block_size - sec_off_bytes in
    let chunk_size = if ltb size_left sec_left_bytes then size_left else sec_left_bytes in
    let io_buf : Bytes = ide_read io.vol.disk sec_lba 1 (λ i. 0) in
    let buf' : Bytes = λ i.
      if leb bytes_read i && ltb i (bytes_read + chunk_size)
      then io_buf (sec_off_bytes + (i - bytes_read))
      else buf i in
    let rest =
      read_loop fuel size (bytes_read + chunk_size) (size_left - chunk_size) buf'
        (record io { fd_pos = add32 io.fd_pos chunk_size }) in
    if ltb bytes_read size then rest else ok (bytes_read, buf, io)

-- `none` is -1: the end of the file, or no room for the addresses. Without `io_buf` the code goes
-- on and `memset`, or at last `sys_free`, stops the machine.
unfoldable pub file_read : ℕ → Bool → Bool → Bytes → ℕ → Io → Outcome (Option ℕ × Bytes × Io)
unfolding gather_read read_loop
file_read fuel has_buf has_blocks buf count io =
    let beyond = ltb io.inode.i_size (add32 io.fd_pos count) in
    let size = if beyond then sub32 io.inode.i_size io.fd_pos else count in
    let start_idx = io.fd_pos / block_size in
    let end_idx = add32 io.fd_pos size / block_size in
    let work = (do
      assert (ltb start_idx 139 && ltb end_idx 139)
      io' ← gather_read start_idx end_idx io
      assert has_buf
      (bytes_read, buf', io'') ← read_loop fuel size 0 size buf io'
      ok (some bytes_read, buf', io'')) in
    if beyond && (size == 0)
    then ok (none, buf, io)
    else if has_blocks
    then work
    else ok (none, buf, io)
