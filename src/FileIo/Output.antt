-- ===== src/FileIo/Output.antt =====
-- The second half of `file_write` of ch15/fs/file.c: the bytes go to the blocks and the inode to
-- its table.
use mathlib.Core.Path.{subst₂, ap₂}
use os_elephant.Base.{
  u8, mul32, ◌-◌, ℕ, ◌+◌, ◌*◌, ◌/◌, ◌%◌, ◌^◌, ◌<◌, ◌≤◌, ◌≡◌, ◌≢◌, inl, refl, sym, ap, ◌∙◌, true,
  false, ltb, leb, ◌&&◌, some, ok, arith, sub32,
}
use os_elephant.Format.{SuperBlock}
use os_elephant.Inode.{Inode, Partition, Bytes, inode_size, inode_locate, overlay}
use os_elephant.Inode.Place.{IsInside, first_byte, inode_sync_lem}
use os_elephant.FileIo.{Io, Volume}
use os_elephant.FileIo.Write.{write_loop, write_out, sync_inode}
use os_elephant.FileIo.Appends.{Appended, write_loop_lem}
use os_elephant.FileIo.Chunk.{at, Holds}
use os_elephant.FileIo.Sound.{Sound}
use os_elephant.FileIo.Collect.{blocks_for}

-- The inode has a number that `inode_sync` keeps and a place in the table, which lies before the
-- blocks; it lies in one sector.
pub record HasPlace (v : Volume) (i_no : ℕ) : Type 0 where
  pub small : i_no < 256
  pub inside : IsInside v.part i_no
  pub one_sector : i_no * inode_size % 512 + inode_size ≤ 512
  pub before : first_byte v.part i_no + inode_size ≤ v.sb.data_start_lba * 512

abbrev pub on_disk : Inode → Inode
on_disk inode = record inode { i_open_cnts = 0; write_deny = false }

pub record Out (image : Inode → Bytes) (src : Bytes) (count : ℕ) (io io' : Io) : Type 0 where
  pub inode : io'.inode ≡ record (io.inode) { i_size = io.inode.i_size + count }
  pub volume : io'.vol ≡ record (io.vol) { disk = io'.vol.disk }
  pub old :
      (j : ℕ)
      → j < io.inode.i_size
      → at io'.vol.disk io.inode.i_sectors j ≡ at io.vol.disk io.inode.i_sectors j
  pub new : (i : ℕ) → i < count → at io'.vol.disk io.inode.i_sectors (io.inode.i_size + i) ≡ src i
  pub others :
      (q : ℕ)
      → io.vol.sb.data_start_lba * 512 ≤ q
      → ((k : ℕ) → k < blocks_for (io.inode.i_size + count) → q / 512 ≢ io.inode.i_sectors k)
      → io'.vol.disk q ≡ io.vol.disk q
  pub table :
      (i : ℕ)
      → i < inode_size
      → io'.vol.disk (first_byte io.vol.part io.inode.i_no + i) ≡ image (on_disk io'.inode) i

sync_inode_lem :
    (image : Inode → Bytes) (part : Partition) (inode : Inode) (io_buf disk : Bytes)
    → inode.i_no < 256
    → IsInside part inode.i_no
    → inode.i_no * inode_size % 512 + inode_size ≤ 512
    → (disk' : Bytes) × (sync_inode image part inode io_buf disk ≡ ok disk')
      × ((q : ℕ) → disk' q ≡ overlay (first_byte part inode.i_no) (image (on_disk inode)) disk q)
unfolding sync_inode inode_locate
sync_inode_lem image part inode io_buf disk byte place one =
    let (disk', run, differs) = inode_sync_lem image part inode io_buf disk byte place in
    let same : u8 inode.i_no ≡ inode.i_no = omega (arith, byte) in
    let few : ltb inode.i_no 4096 ≡ true = ground (arith, byte) in
    let whole : ltb (512 - mul32 inode.i_no inode_size % 512) inode_size ≡ false =
      ground (arith, byte, one) in
    (disk', rw (same, few, run, whole) refl, differs)

overlay_beyond :
    (off q : ℕ) (bytes disk : Bytes) → off + inode_size ≤ q → overlay off bytes disk q ≡ disk q
overlay_beyond off q bytes disk h =
    let outside : (leb off q && ltb q (off + inode_size)) ≡ false = ground arith in rw outside refl

overlay_inside :
    (off i : ℕ) (bytes disk : Bytes) → i < inode_size → overlay off bytes disk (off + i) ≡ bytes i
overlay_inside off i bytes disk h =
    let inside : (leb off (off + i) && ltb (off + i) (off + inode_size)) ≡ true = ground arith in
    rw inside (ap bytes (omega arith))

abbrev start : Io → Io
start io = record io { fd_pos = sub32 io.inode.i_size 1 }

module _ (fuel : ℕ) (image : Inode → Bytes) (src : Bytes) (count : ℕ) (io_buf : Bytes) (io : Io)
    (enough : count < fuel) (small : io.inode.i_size + count < 2 ^ 32)
    (sound : Sound io.vol io.inode.i_sectors (blocks_for (io.inode.i_size + count)))
    (array : (i : ℕ)
      → blocks_for io.inode.i_size ≤ i + 1
      → i < blocks_for (io.inode.i_size + count)
      → io.all_blocks i ≡ io.inode.i_sectors i)
    (place : HasPlace io.vol io.inode.i_no) where
  holds : Holds io.inode.i_sectors (start io) count
  holds = record {
    apart = λ i j hi hj. sound.apart i j (omega arith) (omega arith);
    known = λ k lo hi. array k (omega arith) (omega arith);
  }

  in_data :
      (j : ℕ)
      → j < io.inode.i_size + count
      → io.vol.sb.data_start_lba * 512 ≤ io.inode.i_sectors (j / 512) * 512 + j % 512
  in_data j h = omega (arith, sound.in_data (j / 512) (omega arith))

  write_steps :
      (buf : Bytes) (m : Io) (disk : Bytes)
      → write_loop fuel count src 0 count true io_buf (start io) ≡ ok (count, buf, m)
      → sync_inode image m.vol.part m.inode buf m.vol.disk ≡ ok disk
      → write_out fuel image src count io_buf io
        ≡ ok (some count, record m { vol = record (m.vol) { disk = disk } })
  unfolding write_out
  write_steps buf m disk loop sync = rw (loop, sync) refl

  -- What the loop leaves, and the disk behind `inode_sync`.
  module _ (m : Io) (new : Appended io.inode.i_sectors src 0 count (start io) m)
      (disk : Bytes) where
    abbrev inode' : Inode
    inode' = record (io.inode) { i_size = io.inode.i_size + count }

    same_inode : m.inode ≡ inode'
    same_inode = new.sectors ∙ ap (λ z. record (io.inode) { i_size = z }) new.size

    synced :
        (buf : Bytes)
        → sync_inode image io.vol.part inode' buf m.vol.disk ≡ ok disk
        → sync_inode image m.vol.part m.inode buf m.vol.disk ≡ ok disk
    synced buf e =
        ap₂ (λ (v : Volume) i. sync_inode image v.part i buf m.vol.disk) new.volume same_inode ∙ e

    module _
        (differs : (q : ℕ)
          → disk q
            ≡ overlay
                (first_byte io.vol.part io.inode.i_no)
                (image (on_disk inode'))
                m.vol.disk
                q) where
      blocks_kept : (q : ℕ) → io.vol.sb.data_start_lba * 512 ≤ q → disk q ≡ m.vol.disk q
      blocks_kept q h =
          differs q
          ∙ overlay_beyond (first_byte io.vol.part io.inode.i_no) q (image (on_disk inode'))
              m.vol.disk (omega (arith, place.before))

      Out-of_Appended : Out image src count io (record m { vol = record (m.vol) { disk = disk } })
      Out-of_Appended = record {
        inode = same_inode;
        volume = ap (λ (v : Volume). record v { disk = disk }) new.volume;
        old = λ j h. blocks_kept _ (in_data j (omega arith)) ∙ new.kept j h;
        new = λ i h.
            blocks_kept _ (in_data (io.inode.i_size + i) (omega arith))
            ∙ new.added i h
            ∙ ap src (omega arith);
        others = λ q beyond h. blocks_kept q beyond ∙ new.others q (λ k lo hi. h k (omega arith));
        table = λ i h.
            differs (first_byte io.vol.part io.inode.i_no + i)
            ∙ overlay_inside (first_byte io.vol.part io.inode.i_no) i (image (on_disk inode'))
                m.vol.disk h
            ∙ ap (λ x. image (on_disk x) i) (sym same_inode);
      }

  pub write_out-Out :
      (io' : Io) × (write_out fuel image src count io_buf io ≡ ok (some count, io'))
      × Out image src count io io'
  write_out-Out =
      let (buf, m, loop, new) =
        write_loop_lem fuel count io.inode.i_sectors src 0 count true io_buf (start io) enough
          (omega arith) small (inl refl) holds in
      let (disk, sync, differs) =
        sync_inode_lem image io.vol.part (record (io.inode) { i_size = io.inode.i_size + count })
          buf m.vol.disk place.small place.inside place.one_sector in
      (
        record m { vol = record (m.vol) { disk = disk } },
        write_steps buf m disk loop (synced m new disk buf sync),
        Out-of_Appended m new disk differs,
      )

-- It stays where the volume keeps its partition and its super block.
pub HasPlace-moved :
    (v w : Volume) (n n' : ℕ)
    → w.part ≡ v.part
    → w.sb ≡ v.sb
    → n' ≡ n
    → HasPlace v n
    → HasPlace w n'
HasPlace-moved v w n n' part sb number h = record {
  small = omega (arith, number, h.small);
  inside = subst₂ (λ p k. IsInside p k) (sym part) (sym number) h.inside;
  one_sector = omega (arith, number, h.one_sector);
  before =
      let start : w.sb.data_start_lba ≡ v.sb.data_start_lba =
        ap (λ (s : SuperBlock). s.data_start_lba) sb in
      let table : first_byte w.part n' ≡ first_byte v.part n = ap₂ first_byte part number in
      omega (arith, h.before, start, table);
}
