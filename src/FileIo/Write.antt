-- ===== src/FileIo/Write.antt =====
-- `file_write` of ch15/fs/file.c.
use os_elephant.Base.{
  u8, fault, ℕ, zero, suc, ◌+◌, ◌-◌, ◌*◌, ◌/◌, ◌%◌, Bool, true, false, not, ◌&&◌, Option, none,
  some, ltb, leb, if◌then◌else◌, Outcome, ok, out_of_fuel, assert, ◌>>=◌, ◌>>◌, add32, sub32,
}
use os_elephant.Inode.{Inode, Partition, Bytes, ide_read, ide_write, inode_locate, inode_sync}
use os_elephant.FileIo.{Io, block_size, first_block, gather}

-- One round of the loop: the sector is read if it is the first one, else it starts out clear; the
-- next bytes of `src` go into it, and it is written. The buffer and the size of the chunk come with
-- it.
unfoldable pub write_chunk : Bytes → ℕ → ℕ → Bool → Bytes → Io → ℕ × Bytes × Io
write_chunk src bytes_written size_left first io_buf io =
    let i_size = io.inode.i_size in
    let sec_lba = io.all_blocks (i_size / block_size) in
    let sec_off_bytes = i_size % block_size in
    let sec_left_bytes = block_size - sec_off_bytes in
    let chunk_size = if ltb size_left sec_left_bytes then size_left else sec_left_bytes in
    let cleared : Bytes = λ i. if ltb i block_size then 0 else io_buf i in
    let before : Bytes = if first then ide_read io.vol.disk sec_lba 1 cleared else cleared in
    let filled : Bytes = λ i.
      if leb sec_off_bytes i && ltb i (sec_off_bytes + chunk_size)
      then src (bytes_written + (i - sec_off_bytes))
      else before i in
    (
      chunk_size,
      filled,
      record io {
        vol = record (io.vol) { disk = ide_write io.vol.disk sec_lba 1 filled };
        inode = record (io.inode) { i_size = add32 i_size chunk_size };
        fd_pos = add32 io.fd_pos chunk_size;
      },
    )

-- `while (bytes_written < count)`
unfoldable pub write_loop : ℕ → ℕ → Bytes → ℕ → ℕ → Bool → Bytes → Io → Outcome (ℕ × Bytes × Io)
unfolding write_chunk
write_loop zero count src bytes_written size_left first io_buf io = out_of_fuel
write_loop (suc fuel) count src bytes_written size_left first io_buf io =
    let (chunk_size, filled, io') = write_chunk src bytes_written size_left first io_buf io in
    let rest =
      write_loop fuel count src (bytes_written + chunk_size) (size_left - chunk_size) false filled
        io' in
    if ltb bytes_written count then rest else ok (bytes_written, io_buf, io)

-- `inode_sync` with a buffer of one sector: an inode that lies across two sectors is read into it
-- and written from it behind its end.
unfoldable pub sync_inode : (Inode → Bytes) → Partition → Inode → Bytes → Bytes → Outcome Bytes
unfolding inode_locate
sync_inode image part inode io_buf disk = do
  pos ← inode_locate part (u8 inode.i_no)
  disk' ← inode_sync image part inode io_buf disk
  if pos.two_sec then fault else ok disk'

-- Behind the collection of the addresses: the bytes, then the inode.
unfoldable pub write_out : ℕ → (Inode → Bytes) → Bytes → ℕ → Bytes → Io → Outcome (Option ℕ × Io)
unfolding write_loop sync_inode
write_out fuel image src count io_buf io = do
  let start = record io { fd_pos = sub32 io.inode.i_size 1 }
  (bytes_written, io_buf', io') ← write_loop fuel count src 0 count true io_buf start
  disk ← sync_inode image io'.vol.part io'.inode io_buf' io'.vol.disk
  ok (some bytes_written, record io' { vol = record (io'.vol) { disk = disk } })

-- The two flags say whether `sys_malloc` gives the two buffers, `io_buf` is what the first holds,
-- and `all_blocks` is clear in `io`. `none` is -1.
unfoldable pub file_write :
    ℕ → (Inode → Bytes) → Bool → Bool → Bytes → Bytes → ℕ → Io → Outcome (Option ℕ × Io)
unfolding first_block gather write_out
file_write fuel image has_buf has_blocks io_buf src count io =
    let work = (do
      (went, io) ← first_block io
      let used = io.inode.i_size / block_size + 1
      let will = add32 io.inode.i_size count / block_size + 1
      let written = gather used will io >>= λ r.
          if r.0 then write_out fuel image src count io_buf r.1 else ok (none, r.1)
      if went then (assert (leb will 140) >> written) else ok (none, io)) in
    if ltb (block_size * 140) (add32 io.inode.i_size count)
    then ok (none, io)
    else if not (has_buf && has_blocks)
    then ok (none, io)
    else work
