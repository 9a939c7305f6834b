-- ===== src/Inode/Place.antt =====
-- Where an inode lies on the disk, and what is written there: ch15/fs/inode.c.
use os_elephant.Base.{
  ℕ, ◌+◌, ◌-◌, ◌*◌, ◌/◌, ◌%◌, ◌^◌, ◌<◌, ◌≤◌, ◌≡◌, refl, true, false, ◌&&◌, ltb, leb, ok, arith,
  Bool-cases, inl, inr, u8, ◌∙◌, ap,
}
use os_elephant.Inode.{
  Inode, inode_size, InodePosition, Partition, inode_locate, Bytes, rewrite, inode_sync,
  inode_delete, overlay, ide_read, ide_write,
}

-- The first byte of the inode on the disk.
abbrev pub first_byte : Partition → ℕ → ℕ
first_byte part inode_no = part.inode_table_lba * 512 + inode_no * inode_size

-- The place of an inode that the table holds.
pub record IsInside (part : Partition) (inode_no : ℕ) : Type 0 where
  pub small : inode_no < 4096
  pub fits : part.inode_table_lba + 608 < 2 ^ 32
  pub in_part : part.inode_table_lba + inode_no * inode_size / 512 ≤ part.start_lba + part.sec_cnt
  pub part_fits : part.start_lba + part.sec_cnt < 2 ^ 32

abbrev position : Partition → ℕ → InodePosition
position part inode_no = record {
  two_sec = ltb (512 - inode_no * inode_size % 512) inode_size;
  sec_lba = part.inode_table_lba + inode_no * inode_size / 512;
  off_size = inode_no * inode_size % 512;
}

locate_lem :
    (part : Partition) (inode_no : ℕ)
    → IsInside part inode_no
    → inode_locate part inode_no ≡ ok (position part inode_no)
unfolding inode_locate
locate_lem part n at =
    let small : ltb n 4096 ≡ true = ground (arith, at.small) in
    let bytes : n * inode_size % 2 ^ 32 ≡ n * inode_size = omega (arith, at.small) in
    let lba : (part.inode_table_lba + n * inode_size / 512) % 2 ^ 32
        ≡ part.inode_table_lba + n * inode_size / 512 =
      omega (arith, at.small, at.fits) in
    rw (small, bytes, lba) refl

-- Whether the inode lies in one sector or in two, its bytes are replaced and no other.
rewrite_at :
    (lba off : ℕ) (bytes io_buf disk : Bytes) (q : ℕ)
    → off < 512
    → rewrite
        (record { two_sec = ltb (512 - off) inode_size; sec_lba = lba; off_size = off })
        bytes
        io_buf
        disk
        q
      ≡ overlay (lba * 512 + off) bytes disk q
unfolding rewrite
rewrite_at lba off bytes io_buf disk q h = elim (Bool-cases (ltb (512 - off) inode_size)) [
  | inl two ↦ rw two (go 2 (ground arith))
  | inr one ↦ rw one (go 1 (ground arith))
]
  where
    go :
        (secs : ℕ)
        → off + inode_size ≤ secs * 512
        → ide_write disk lba secs (overlay off bytes (ide_read disk lba secs io_buf)) q
          ≡ overlay (lba * 512 + off) bytes disk q
    go secs room = elim (Bool-cases (leb (lba * 512) q && ltb q (lba * 512 + secs * 512))) [
      | inl e ↦
          let low : lba * 512 ≤ q = ground arith in
          let high : ltb (q - lba * 512) (secs * 512) ≡ true = ground arith in
          let back : lba * 512 + (q - lba * 512) ≡ q = omega arith in
          let at : q - lba * 512 - off ≡ q - (lba * 512 + off) = omega arith in
          let same_range : (leb off (q - lba * 512) && ltb (q - lba * 512) (off + inode_size))
              ≡ (leb (lba * 512 + off) q && ltb q (lba * 512 + off + inode_size)) =
            ground arith in
          rw (e, high, back, at, same_range) refl
      | inr e ↦
          let out : (leb (lba * 512 + off) q && ltb q (lba * 512 + off + inode_size)) ≡ false =
            ground arith in
          rw (e, out) refl
    ]

rewrite_lem :
    (part : Partition) (n : ℕ) (bytes io_buf disk : Bytes) (q : ℕ)
    → rewrite (position part n) bytes io_buf disk q ≡ overlay (first_byte part n) bytes disk q
rewrite_lem part n bytes io_buf disk q =
    rewrite_at (part.inode_table_lba + n * inode_size / 512) (n * inode_size % 512) bytes io_buf
      disk q (omega arith)
    ∙ ap (λ b. overlay b bytes disk q) (omega arith)

-- `inode_sync` writes the inode's bytes at the place of its number, and no other byte of the disk;
-- the number is below 256 and the table holds it.
pub inode_sync_lem :
    (image : Inode → Bytes) (part : Partition) (inode : Inode) (io_buf disk : Bytes)
    → inode.i_no < 256
    → IsInside part inode.i_no
    → (disk' : Bytes) × (inode_sync image part inode io_buf disk ≡ ok disk')
      × ((q : ℕ)
          → disk' q
            ≡ overlay
                (first_byte part inode.i_no)
                (image (record inode { i_open_cnts = 0; write_deny = false }))
                disk
                q)
unfolding inode_sync
inode_sync_lem image part inode io_buf disk byte at =
    let same : u8 inode.i_no ≡ inode.i_no = omega arith in
    let inside : leb (part.inode_table_lba + inode.i_no * inode_size / 512)
          ((part.start_lba + part.sec_cnt) % 2 ^ 32)
        ≡ true =
      ground (arith, at.in_part, at.part_fits) in
    (
      _,
      rw (same, locate_lem part inode.i_no at, inside) refl,
      rewrite_lem part inode.i_no (image (record inode { i_open_cnts = 0; write_deny = false }))
          io_buf disk,
    )

-- `inode_delete` clears the inode's bytes and no other byte of the disk; the table holds the inode.
pub inode_delete_lem :
    (part : Partition) (inode_no : ℕ) (io_buf disk : Bytes)
    → IsInside part inode_no
    → (disk' : Bytes) × (inode_delete part inode_no io_buf disk ≡ ok disk')
      × ((q : ℕ) → disk' q ≡ overlay (first_byte part inode_no) (λ i. 0) disk q)
unfolding inode_delete
inode_delete_lem part n io_buf disk at =
    let small : ltb n 4096 ≡ true = ground (arith, at.small) in
    let inside : leb (part.inode_table_lba + n * inode_size / 512)
          ((part.start_lba + part.sec_cnt) % 2 ^ 32)
        ≡ true =
      ground (arith, at.in_part, at.part_fits) in
    (_, rw (locate_lem part n at, small, inside) refl, rewrite_lem part n (λ i. 0) io_buf disk)

-- The number is cut to eight bits: `inode_sync` of an inode writes where the inode with the last
-- eight bits of its number lies.
pub inode_sync_truncates :
    (image : Inode → Bytes) (part : Partition) (inode : Inode) (io_buf disk : Bytes)
    → IsInside part (inode.i_no % 256)
    → (disk' : Bytes) × (inode_sync image part inode io_buf disk ≡ ok disk')
      × ((q : ℕ)
          → disk' q
            ≡ overlay
                (first_byte part (inode.i_no % 256))
                (image (record inode { i_open_cnts = 0; write_deny = false }))
                disk
                q)
unfolding inode_sync
inode_sync_truncates image part inode io_buf disk at =
    let n = inode.i_no % 256 in
    let inside : leb (part.inode_table_lba + n * inode_size / 512)
          ((part.start_lba + part.sec_cnt) % 2 ^ 32)
        ≡ true =
      ground (arith, at.in_part, at.part_fits) in
    (
      _,
      rw (locate_lem part n at, inside) refl,
      rewrite_lem part n (image (record inode { i_open_cnts = 0; write_deny = false })) io_buf disk,
    )
