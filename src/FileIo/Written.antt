-- ===== src/FileIo/Written.antt =====
-- `file_write` of ch15/fs/file.c as a whole, for files within their direct blocks.
use mathlib.Core.Path.{subst, subst₂, ap₂}
use os_elephant.Base.{
  neq_false, ℕ, ◌+◌, ◌-◌, ◌*◌, ◌/◌, ◌%◌, ◌^◌, ◌<◌, ◌≤◌, ◌≡◌, ◌≢◌, inl, inr, refl, sym, ap, ◌∙◌,
  true, false, ltb, leb, ◌==◌, some, ok, arith, Bool-cases, ==_iff, add32,
}
use os_elephant.Bitmap.Bits.{used}
use os_elephant.Format.{SuperBlock}
use os_elephant.Inode.{Inode, Bytes, inode_size}
use os_elephant.Inode.Place.{first_byte}
use os_elephant.FileIo.{Io, Volume, block_size, first_block, gather}
use os_elephant.FileIo.Write.{write_out, file_write}
use os_elephant.FileIo.Chunk.{at}
use os_elephant.FileIo.Sound.{Room, Sound, Sound-disk, Sound-nonzero}
use os_elephant.FileIo.Collect.{
  blocks_for, held_by, IsOpen, Filled, Filled-trans, first_block-Filled, gather-Filled,
}
use os_elephant.FileIo.Output.{HasPlace, HasPlace-moved, on_disk, Out, write_out-Out}

-- What a write of `count` bytes leaves: the bytes of the file as they were, then those of `src`;
-- its inode in the table; and the blocks of the others, which the bitmap marks, untouched.
pub record Written (image : Inode → Bytes) (src : Bytes) (count : ℕ) (io io' : Io) : Type 0 where
  pub size : io'.inode.i_size ≡ io.inode.i_size + count
  pub same_no : io'.inode.i_no ≡ io.inode.i_no
  pub same_sb : io'.vol.sb ≡ io.vol.sb
  pub same_part : io'.vol.part ≡ io.vol.part
  pub open_ok : IsOpen io'
  pub old :
      (j : ℕ)
      → j < io.inode.i_size
      → at io'.vol.disk io'.inode.i_sectors j ≡ at io.vol.disk io.inode.i_sectors j
  pub new : (i : ℕ) → i < count → at io'.vol.disk io'.inode.i_sectors (io.inode.i_size + i) ≡ src i
  pub others :
      (q : ℕ)
      → io.vol.sb.data_start_lba * 512 ≤ q
      → used io.vol.block_bitmap (q / 512 - io.vol.sb.data_start_lba) ≡ true
      → ((k : ℕ) → k < held_by io.inode → q / 512 ≢ io.inode.i_sectors k)
      → io'.vol.disk q ≡ io.vol.disk q
  pub table :
      (i : ℕ)
      → i < inode_size
      → io'.vol.disk (first_byte io.vol.part io.inode.i_no + i) ≡ image (on_disk io'.inode) i

write_steps :
    (fuel : ℕ) (image : Inode → Bytes) (src : Bytes) (count : ℕ) (io_buf : Bytes)
    (io io₁ io₂ io₃ : Io)
    → blocks_for (io.inode.i_size + count) ≤ 12
    → first_block io ≡ ok (true, io₁)
    → io₁.inode.i_size ≡ io.inode.i_size
    → gather (io₁.inode.i_size / block_size + 1) (add32 io₁.inode.i_size count / block_size + 1) io₁
      ≡ ok (true, io₂)
    → write_out fuel image src count io_buf io₂ ≡ ok (some count, io₃)
    → file_write fuel image true true io_buf src count io ≡ ok (some count, io₃)
unfolding file_write
write_steps fuel image src count io_buf io io₁ io₂ io₃ small first size collect out =
    let fits : ltb (512 * 140) ((io.inode.i_size + count) % 2 ^ 32) ≡ false = ground arith in
    let blocks : leb ((io₁.inode.i_size + count) % 2 ^ 32 / 512 + 1) 140 ≡ true =
      ground (arith, size) in
    rw (fits, first, blocks, collect, out) refl

held_most : (inode : Inode) → held_by inode ≤ blocks_for inode.i_size
held_most inode = ground arith

held_has : (io : Io) (j : ℕ) → IsOpen io → j < io.inode.i_size → j / 512 < held_by io.inode
held_has io j io_ok h = elim (Bool-cases (io.inode.i_sectors 0 == 0)) [
  | inl e ↦ absurd (omega (arith, io_ok.empty ((==_iff _ _).0 e)))
  | inr e ↦ rw e (omega arith)
]

module _ (image : Inode → Bytes) (src : Bytes) (count : ℕ) (io io₂ io' : Io) (io_ok : IsOpen io)
    (f : Filled (held_by io.inode) (blocks_for (io.inode.i_size + count)) 0 io io₂)
    (out : Out image src count io₂ io') where
  size₂ : io₂.inode.i_size ≡ io.inode.i_size
  size₂ = ap (λ (x : Inode). x.i_size) f.inode

  no₂ : io₂.inode.i_no ≡ io.inode.i_no
  no₂ = ap (λ (x : Inode). x.i_no) f.inode

  sectors' : io'.inode.i_sectors ≡ io₂.inode.i_sectors
  sectors' = ap (λ (x : Inode). x.i_sectors) out.inode

  size' : io'.inode.i_size ≡ io.inode.i_size + count
  size' = omega (arith, ap (λ (x : Inode). x.i_size) out.inode, size₂)

  sb' : io'.vol.sb ≡ io₂.vol.sb
  sb' = ap (λ (v : Volume). v.sb) out.volume

  sound' : Sound io'.vol io'.inode.i_sectors (blocks_for (io.inode.i_size + count))
  sound' =
      subst₂ (λ v s. Sound v s (blocks_for (io.inode.i_size + count))) (sym out.volume)
        (sym sectors')
        (Sound-disk io₂.vol io'.vol.disk io₂.inode.i_sectors (blocks_for (io.inode.i_size + count))
          f.sound)

  held' : held_by io'.inode ≡ blocks_for (io.inode.i_size + count)
  held' =
      let e : (io'.inode.i_sectors 0 == 0) ≡ false =
        neq_false (io'.inode.i_sectors 0) 0
          (Sound-nonzero io'.vol io'.inode.i_sectors _ 0 sound' (omega arith)) in
      rw e (ap blocks_for size')

  open' : IsOpen io'
  open' = record {
    sound = subst (Sound io'.vol io'.inode.i_sectors) (sym held') sound';
    empty = λ e. absurd (Sound-nonzero io'.vol io'.inode.i_sectors _ 0 sound' (omega arith) e);
    root_taken =
        ap (λ (v : Volume). used v.block_bitmap 0) out.volume ∙ f.kept.marks 0 io_ok.root_taken;
  }

  old' :
      (j : ℕ)
      → j < io.inode.i_size
      → at io'.vol.disk io'.inode.i_sectors j ≡ at io.vol.disk io.inode.i_sectors j
  old' j h =
      let held : j / 512 < held_by io.inode = held_has io j io_ok h in
      let same : io₂.inode.i_sectors (j / 512) ≡ io.inode.i_sectors (j / 512) =
        f.old_sectors (j / 512) held in
      ap (λ s. at io'.vol.disk s j) sectors'
      ∙ out.old j (omega (arith, size₂))
      ∙ ap (λ b. io₂.vol.disk (b * 512 + j % 512)) same
      ∙ f.kept.blocks (io.inode.i_sectors (j / 512) * 512 + j % 512)
          (omega (arith, io_ok.sound.in_data (j / 512) held))

  others' :
      (q : ℕ)
      → io.vol.sb.data_start_lba * 512 ≤ q
      → used io.vol.block_bitmap (q / 512 - io.vol.sb.data_start_lba) ≡ true
      → ((k : ℕ) → k < held_by io.inode → q / 512 ≢ io.inode.i_sectors k)
      → io'.vol.disk q ≡ io.vol.disk q
  others' q beyond on apart =
      out.others q (omega (arith, ap (λ (s : SuperBlock). s.data_start_lba) f.kept.sb)) far
      ∙ f.kept.blocks q beyond
    where
      far : (k : ℕ) → k < blocks_for (io₂.inode.i_size + count) → q / 512 ≢ io₂.inode.i_sectors k
      far k lt e = elim (Bool-cases (ltb k (held_by io.inode))) [
        | inl mine ↦ apart k (ground arith) (e ∙ f.old_sectors k (ground arith))
        | inr other ↦
            let off : used io.vol.block_bitmap (q / 512 - io.vol.sb.data_start_lba) ≡ false =
              ap (λ b. used io.vol.block_bitmap (b - io.vol.sb.data_start_lba)) e
              ∙ f.fresh k (ground arith) (omega (arith, size₂)) in
            absurd (cc (on, off))
      ]

  Written-of : Written image src count io io'
  Written-of = record {
    size = size';
    same_no = ap (λ (x : Inode). x.i_no) out.inode ∙ no₂;
    same_sb = sb' ∙ f.kept.sb;
    same_part = ap (λ (v : Volume). v.part) out.volume ∙ f.kept.part;
    open_ok = open';
    old = old';
    new = λ i h. ap₂ (λ s z. at io'.vol.disk s (z + i)) sectors' (sym size₂) ∙ out.new i h;
    others = others';
    table = λ i h.
        ap₂ (λ p n. io'.vol.disk (first_byte p n + i)) (sym f.kept.part) (sym no₂) ∙ out.table i h;
  }

-- An open file (`IsOpen`: the blocks it has are marked, different and in the data of the volume,
-- the other direct ones are 0, it is empty when it has no block, the root's block is taken, the
-- bitmap lies before the data), that ends within its twelve direct blocks also behind the write,
-- with a place in the inode table before the data, in one sector, and a number below 256, as many
-- free blocks as the write needs, both buffers, and fuel above the count: `file_write` returns the
-- count; the file has its old bytes and behind them those of the source, it is again an open file
-- in that sense, its inode stands in the table on the disk, and no block that the bitmap marks for
-- another file is changed.
pub file_write-Written :
    (fuel : ℕ) (image : Inode → Bytes) (io_buf src : Bytes) (count : ℕ) (io : Io)
    → count < fuel
    → blocks_for (io.inode.i_size + count) ≤ 12
    → IsOpen io
    → HasPlace io.vol io.inode.i_no
    → Room io.vol.block_bitmap (blocks_for (io.inode.i_size + count) - held_by io.inode)
    → (io' : Io) × (file_write fuel image true true io_buf src count io ≡ ok (some count, io'))
      × Written image src count io io'
file_write-Written fuel image io_buf src count io enough small io_ok place room =
    let more : ℕ = blocks_for (io.inode.i_size + count) - blocks_for io.inode.i_size in
    let least = held_most io.inode in
    let (io₁, first, f₁) =
      first_block-Filled io (more + 0) io_ok
        (subst (Room io.vol.block_bitmap) (omega (arith, least)) room) in
    let size₁ : io₁.inode.i_size ≡ io.inode.i_size = ap (λ (x : Inode). x.i_size) f₁.inode in
    let (io₂, collect, f₂, array) =
      gather-Filled (blocks_for io.inode.i_size) more 0 io₁ (omega arith) (omega arith) f₁.sound
        f₁.room in
    let f : Filled (held_by io.inode) (blocks_for (io.inode.i_size + count)) 0 io io₂ =
      subst (λ t. Filled (held_by io.inode) t 0 io io₂) (omega arith)
        (Filled-trans (held_by io.inode) (blocks_for io.inode.i_size) _ 0 (more + 0) io io₁ io₂
          least f₁ f₂) in
    let size₂ : io₂.inode.i_size ≡ io.inode.i_size = ap (λ (x : Inode). x.i_size) f.inode in
    let (io', out, written) =
      write_out-Out fuel image src count io_buf io₂ enough (omega arith)
        (subst (λ t. Sound io₂.vol io₂.inode.i_sectors t) (omega arith) f.sound)
        (λ i lo hi. array i (omega arith) (omega arith))
        (HasPlace-moved io.vol io₂.vol io.inode.i_no io₂.inode.i_no f.kept.part f.kept.sb
          (ap (λ (x : Inode). x.i_no) f.inode) place) in
    (
      io',
      write_steps fuel image src count io_buf io io₁ io₂ io' small first size₁
          (ap₂ (λ a b. gather a b io₁) (omega arith) (omega arith) ∙ collect) out,
      Written-of image src count io io₂ io' io_ok f written,
    )
