-- ===== src/FileIo/Release/Whole.antt =====
-- `inode_release` of ch15/fs/inode.c as a whole.
use mathlib.Core.Path.{subst}
use os_elephant.Base.{
  ℕ, ◌+◌, ◌*◌, ◌/◌, ◌%◌, ◌^◌, ◌<◌, ◌≤◌, ◌≡◌, refl, sym, ◌∙◌, true, false, ◌&&◌, ltb, leb, ◌==◌,
  if◌then◌else◌, ok, arith, ==_iff,
}
use os_elephant.Bitmap.{Bitmap}
use os_elephant.Bitmap.Bits.{used, IsBytes, with_bit, used-with_bit, bitmap_set_zero}
use os_elephant.Inode.{Inode, Bytes, inode_size, inode_delete, overlay}
use os_elephant.Inode.Place.{IsInside, first_byte, inode_delete_lem}
use os_elephant.Format.{SuperBlock, bitmap_sync}
use os_elephant.FileIo.{Volume}
use os_elephant.FileIo.Release.{release_loop, release_data, inode_release}
use os_elephant.FileIo.Release.Blocks.{Owned, Released, release_loop_lem}

-- The inode's bit, and the place of its table and its bitmap before the blocks.
pub record HasInode (v : Volume) (inode_no : ℕ) : Type 0 where
  pub inside : IsInside v.part inode_no
  pub table_before : first_byte v.part inode_no + inode_size ≤ v.sb.data_start_lba * 512
  pub map_before : v.sb.inode_bitmap_lba + inode_no / 4096 < v.sb.data_start_lba

-- The sector of the inode's bit.
sync_elsewhere :
    (lba n start q : ℕ) (b : Bitmap) (disk : Bytes)
    → lba + n / 4096 < start
    → start < 2 ^ 32
    → start * 512 ≤ q
    → bitmap_sync lba b n disk q ≡ disk q
unfolding bitmap_sync
sync_elsewhere lba n start q b disk before small beyond =
    let at_lba : ℕ = (lba + n / 4096) % 2 ^ 32 in
    let outside : (leb (at_lba * 512) q && ltb q (at_lba * 512 + 1 * 512)) ≡ false = ground arith in
    rw outside refl

overlay_before :
    (off q : ℕ) (bytes disk : Bytes) → off + inode_size ≤ q → overlay off bytes disk q ≡ disk q
overlay_before off q bytes disk h =
    let outside : (leb off q && ltb q (off + inode_size)) ≡ false = ground arith in rw outside refl

module _ (inode : Inode) (inode_no : ℕ) (io_buf : Bytes) (inode_bitmap : Bitmap) (v : Volume) where
  abbrev left_map : Bitmap
  left_map = with_bit inode_bitmap inode_no false

  abbrev synced : Volume → Bytes
  synced v₁ = bitmap_sync v₁.sb.inode_bitmap_lba left_map inode_no v₁.disk

  data_direct : inode.i_sectors 12 ≡ 0 → release_data inode v ≡ release_loop 12 0 inode.i_sectors v
  unfolding release_data
  data_direct no_table =
      let direct : (inode.i_sectors 12 == 0) ≡ true = (==_iff _ _).1 no_table in rw direct refl

  release_steps :
      (v₁ : Volume) (disk : Bytes)
      → inode.i_no ≡ inode_no
      → inode.i_sectors 12 ≡ 0
      → release_loop 12 0 inode.i_sectors v ≡ ok v₁
      → inode_delete v₁.part inode_no io_buf (synced v₁) ≡ ok disk
      → inode_release inode inode_no io_buf inode_bitmap v
        ≡ ok (left_map, record v₁ { disk = disk })
  unfolding inode_release
  release_steps v₁ disk number no_table loop gone =
      let this : (inode.i_no == inode_no) ≡ true = (==_iff _ _).1 number in
      rw (this, data_direct no_table ∙ loop, bitmap_set_zero inode_bitmap inode_no, gone) refl

  -- For an opened inode with the given number and without an indirect table, whose blocks lie in
  -- the data of the volume, are different and not that of the root directory, with a place in the
  -- table and the bitmap of inodes, both before the data: `inode_release` returns; the bits of
  -- exactly its blocks and its own bit are cleared, all other bits stay, and so does the data on
  -- the disk.
  pub inode_release-Released :
      inode.i_no ≡ inode_no
      → inode.i_sectors 12 ≡ 0
      → Owned v inode.i_sectors
      → IsBytes inode_bitmap
      → HasInode v inode_no
      → (b' : Bitmap) × (v' : Volume) × (inode_release inode inode_no io_buf inode_bitmap v
          ≡ ok (b', v'))
        × Released inode.i_sectors 0 v v'
        × ((k : ℕ) → used b' k ≡ (if inode_no == k then false else used inode_bitmap k))
  inode_release-Released number no_table owned bytes place =
      let (v₁, loop, r) = release_loop_lem inode.i_sectors 12 0 v refl owned in
      let (disk, gone, differs) =
        inode_delete_lem v₁.part inode_no io_buf (synced v₁)
          (subst (λ p. IsInside p inode_no) (sym r.part) place.inside) in
      (
        left_map,
        record v₁ { disk = disk },
        release_steps v₁ disk number no_table loop gone,
        record {
          sb = r.sb;
          part = r.part;
          freed = r.freed;
          others = r.others;
          blocks = λ q beyond.
              differs q
              ∙ overlay_before (first_byte v₁.part inode_no) q (λ i. 0) (synced v₁)
                  (subst (λ p. first_byte p inode_no + inode_size ≤ q) (sym r.part)
                    (omega (arith, place.table_before, beyond)))
              ∙ sync_elsewhere v₁.sb.inode_bitmap_lba inode_no v.sb.data_start_lba q left_map
                  v₁.disk
                  (subst
                    (λ (s : SuperBlock). s.inode_bitmap_lba + inode_no / 4096 < v.sb.data_start_lba)
                    (sym r.sb) place.map_before)
                  (omega (arith, owned.fits)) beyond
              ∙ r.blocks q beyond;
        },
        λ k. used-with_bit inode_bitmap inode_no k false bytes,
      )
