-- ===== src/Directory/Insert.antt =====
-- `sync_dir_entry` of ch15/fs/dir.c: an entry goes to the first free place of a directory.
use os_elephant.Base.{
  ℕ, zero, suc, ◌+◌, ◌-◌, ◌/◌, ◌%◌, ◌^◌, Bool, true, false, Option, none, some, ltb, ◌==◌, neb,
  if◌then◌else◌, Outcome, ok, assert, ◌>>=◌, ◌>>◌, add32, sub32,
}
use os_elephant.Bitmap.{bitmap_set}
use os_elephant.CString.{Memory, memcpy, memset}
use os_elephant.Inode.{Bytes, ide_write}
use os_elephant.Format.{dir_entry_bytes}
use os_elephant.FileIo.{block_size, put, byte_of, alloc_block, sync_block}
use os_elephant.Directory.{Dir, load_sector, f_type, dir_entrys_per_sec}

-- `ide_write(disk, lba, buf, 1)`
abbrev pub store_sector : Bytes → ℕ → ℕ → Memory → Bytes
store_sector disk lba buf m = ide_write disk lba 1 λ i. m (buf + i)

abbrev pub with_disk : Dir → Bytes → Dir
with_disk dir disk = record dir { vol = record (dir.vol) { disk = disk } }

abbrev pub with_sector : Dir → ℕ → ℕ → Dir
with_sector dir i lba = record dir {
  inode = record (dir.inode) { i_sectors = put dir.inode.i_sectors i lba };
}

-- The table of the blocks from the thirteenth on.
abbrev pub store_table : (ℕ → ℕ) → Dir → Dir
store_table all_blocks dir = with_disk dir (
    ide_write dir.vol.disk (dir.inode.i_sectors 12) 1
      λ i. byte_of (all_blocks (12 + i / 4)) (i % 4))

-- The first entry of the block whose type is `FT_UNKNOWN`.
unfoldable pub free_entry : ℕ → ℕ → Memory → Option ℕ
free_entry zero dir_e m = none
free_entry (suc left) dir_e m =
    let rest = free_entry left (dir_e + dir_entry_bytes) m in
    if f_type m dir_e == 0 then some dir_e else rest

-- `block_lba` as a number, -1 being 2 ^ 32 - 1.
abbrev pub lba_of : Option ℕ → ℕ
lba_of none = 2 ^ 32 - 1
lba_of (some lba) = lba

-- The entry goes to the start of a new block.
unfoldable pub fill_block : ℕ → ℕ → ℕ → Dir → Outcome (Bool × Dir)
fill_block lba p_de io_buf dir = do
  m ← memset io_buf 0 block_size dir.memory
  m' ← memcpy io_buf p_de dir.vol.sb.dir_entry_size m
  ok (
    true,
    record dir {
      vol = record (dir.vol) { disk = store_sector dir.vol.disk lba io_buf m' };
      memory = m';
      inode = record (dir.inode) { i_size = add32 dir.inode.i_size dir.vol.sb.dir_entry_size };
    },
  )

-- The table, and the first block behind it. The test for a failed allocation compares with 12.
unfoldable pub first_indirect : ℕ → (ℕ → ℕ) → ℕ → ℕ → Dir → Outcome (Bool × Dir)
unfolding fill_block alloc_block sync_block
first_indirect table all_blocks p_de io_buf dir = do
  let dir = with_sector dir 12 table
  (lba, vol) ← alloc_block dir.vol
  let block_lba = lba_of lba
  let dir = record dir { vol = vol }
  let undone = bitmap_set vol.block_bitmap (sub32 table vol.sb.data_start_lba) 0 >>= λ b.
      ok (false, with_sector (record dir { vol = record vol { block_bitmap = b } }) 12 0)
  let synced = record dir { vol = sync_block block_lba vol }
  let added = fill_block block_lba p_de io_buf (store_table (put all_blocks 12 block_lba) synced)
  if block_lba == 12
      then undone
      else (assert (neb (sub32 block_lba vol.sb.data_start_lba) (2 ^ 32 - 1)) >> added)

unfoldable pub add_block : ℕ → (ℕ → ℕ) → ℕ → ℕ → Dir → Outcome (Bool × Dir)
unfolding first_indirect fill_block alloc_block sync_block
add_block block_idx all_blocks p_de io_buf dir = do
  (lba, vol) ← alloc_block dir.vol
  elim lba [
    | none ↦ ok (false, record dir { vol = vol })
    | some block_lba ↦ do
      assert (neb (sub32 block_lba vol.sb.data_start_lba) (2 ^ 32 - 1))
      let dir = record dir { vol = sync_block block_lba vol }
      let direct = fill_block block_lba p_de io_buf (with_sector dir block_idx block_lba)
      let across = first_indirect block_lba all_blocks p_de io_buf dir
      let indirect =
          fill_block block_lba p_de io_buf (store_table (put all_blocks block_idx block_lba) dir)
      if ltb block_idx 12 then direct else if block_idx == 12 then across else indirect
  ]

unfoldable pub insert_loop : ℕ → ℕ → (ℕ → ℕ) → ℕ → ℕ → Dir → Outcome (Bool × Dir)
unfolding add_block free_entry
insert_loop zero block_idx all_blocks p_de io_buf dir = ok (false, dir)
insert_loop (suc left) block_idx all_blocks p_de io_buf dir =
    let lba = all_blocks block_idx in
    let m = load_sector dir.vol.disk lba io_buf dir.memory in
    let rest =
      insert_loop left (block_idx + 1) all_blocks p_de io_buf (record dir { memory = m }) in
    let looked : Outcome (Bool × Dir) = elim (free_entry (dir_entrys_per_sec dir) io_buf m) [
      | none ↦ rest
      | some slot ↦ do
        m' ← memcpy slot p_de dir.vol.sb.dir_entry_size m
        ok (
          true,
          record dir {
            vol = record (dir.vol) { disk = store_sector dir.vol.disk lba io_buf m' };
            memory = m';
            inode = record (dir.inode) {
              i_size = add32 dir.inode.i_size dir.vol.sb.dir_entry_size;
            };
          },
        )
    ] in
    let added = add_block block_idx all_blocks p_de io_buf dir in if lba == 0 then added else looked

-- Of the array of the blocks only the direct ones are filled in.
unfoldable pub sync_dir_entry : ℕ → ℕ → Dir → Outcome (Bool × Dir)
unfolding insert_loop
sync_dir_entry p_de io_buf dir =
    assert (dir.inode.i_size % dir.vol.sb.dir_entry_size == 0)
    >> insert_loop 140 0 (λ i. if ltb i 12 then dir.inode.i_sectors i else 0) p_de io_buf dir
