-- ===== src/FileIo/Chunk.antt =====
-- One round of the loop of `file_write` of ch15/fs/file.c on the bytes of the file.
use os_elephant.Base.{
  neq_false, ℕ, ◌+◌, ◌-◌, ◌*◌, ◌/◌, ◌%◌, ◌^◌, ◌<◌, ◌≤◌, ◌≡◌, ◌≢◌, ◌⊎◌, inl, inr, refl, ap, ◌∙◌,
  Bool, true, false, ◌&&◌, ltb, leb, ◌==◌, if◌then◌else◌, arith, Bool-cases, ==_iff,
}
use os_elephant.Inode.{Bytes, ide_write}
use os_elephant.FileIo.{Io, block_size}
use os_elephant.FileIo.Write.{write_chunk}

-- Byte `j` of a file whose blocks stand at the given addresses.
abbrev pub at : Bytes → (ℕ → ℕ) → ℕ → ℕ
at disk blocks j = disk (blocks (j / block_size) * block_size + j % block_size)

-- No two of the blocks up to `last` are the same.
abbrev pub AreApart : (ℕ → ℕ) → ℕ → Type 0
AreApart blocks last = (i j : ℕ) → i ≤ last → j ≤ last → i ≢ j → blocks i ≢ blocks j

not_reached : (a b : ℕ) (c : Bool) → b < a → (leb a b && c) ≡ false
not_reached a b c h = ground arith

in_range : (a i n : ℕ) → i < n → (leb a (a + i) && ltb (a + i) (a + n)) ≡ true
in_range a i n h = ground arith

-- What a sector written to the disk changes.
pub write_at :
    (disk buf : Bytes) (lba q : ℕ)
    → ide_write disk lba 1 buf q ≡ (if q / 512 == lba then buf (q % 512) else disk q)
write_at disk buf lba q = elim (Bool-cases (q / 512 == lba)) [
  | inl e ↦
      let inside : (leb (lba * 512) q && ltb q (lba * 512 + 1 * 512)) ≡ true = ground arith in
      let off : q - lba * 512 ≡ q % 512 = ground arith in rw (e, inside, off) refl
  | inr e ↦
      let outside : (leb (lba * 512) q && ltb q (lba * 512 + 1 * 512)) ≡ false = ground arith in
      rw (e, outside) refl
]

-- The buffer need not hold the sector when the write starts at its first byte.
abbrev pub Ready : Bool → ℕ → ℕ → Type 0
Ready first size left = (first ≡ true) ⊎ ((left ≡ 0) ⊎ (size % block_size ≡ 0))

-- The blocks of the file, those that the next bytes reach among them; the array has the latter.
pub record Holds (addr : ℕ → ℕ) (io : Io) (left : ℕ) : Type 0 where
  pub apart : AreApart addr ((io.inode.i_size + left) / block_size)
  pub known :
      (k : ℕ)
      → io.inode.i_size / block_size ≤ k
      → k ≤ (io.inode.i_size + left) / block_size
      → io.all_blocks k ≡ addr k

abbrev pub chunk_of : ℕ → ℕ → ℕ
chunk_of size left =
    if ltb left (block_size - size % block_size) then left else block_size - size % block_size

module _ (src : Bytes) (written left : ℕ) (first : Bool) (io_buf : Bytes) (io : Io)
    (small : io.inode.i_size + left < 2 ^ 32) (some_left : 0 < left)
    (ready : Ready first io.inode.i_size left) (addr : ℕ → ℕ) (holds : Holds addr io left) where
  abbrev after : Io
  after = (write_chunk src written left first io_buf io).2

  chunk_size : (write_chunk src written left first io_buf io).0 ≡ chunk_of io.inode.i_size left
  unfolding write_chunk
  chunk_size = refl

  pub chunk_bounds :
      (0 < chunk_of io.inode.i_size left)
      × (chunk_of io.inode.i_size left ≤ left)
      × (chunk_of io.inode.i_size left + io.inode.i_size % block_size ≤ block_size)
  chunk_bounds = ground arith

  pub chunk_next :
      Ready false
        (io.inode.i_size + chunk_of io.inode.i_size left)
        (left - chunk_of io.inode.i_size left)
  chunk_next = elim (Bool-cases (ltb left (block_size - io.inode.i_size % block_size))) [
    | inl e ↦ rw e (inr (inl (omega arith)))
    | inr e ↦ rw e (inr (inr (omega arith)))
  ]

  here : io.all_blocks (io.inode.i_size / block_size) ≡ addr (io.inode.i_size / block_size)
  here = holds.known (io.inode.i_size / block_size) (omega arith) (omega arith)

  filled_lem :
      (i : ℕ)
      → i < block_size
      → (write_chunk src written left first io_buf io).1 i ≡ (
          if leb (io.inode.i_size % block_size) i
            && ltb i (io.inode.i_size % block_size + chunk_of io.inode.i_size left)
          then src (written + (i - io.inode.i_size % block_size))
          else if first
          then io.vol.disk (addr (io.inode.i_size / block_size) * block_size + i)
          else 0)
  unfolding write_chunk
  filled_lem i h = elim (Bool-cases first) [
    | inl e ↦ let inside : ltb i (1 * 512) ≡ true = ground arith in rw (e, inside, here) refl
    | inr e ↦ let inside : ltb i 512 ≡ true = ground arith in rw (e, inside) refl
  ]

  disk_lem :
      (q : ℕ)
      → after.vol.disk q ≡ (
          if q / 512 == addr (io.inode.i_size / block_size)
          then (write_chunk src written left first io_buf io).1 (q % 512)
          else io.vol.disk q)
  unfolding write_chunk
  disk_lem q =
      write_at io.vol.disk (write_chunk src written left first io_buf io).1
        (io.all_blocks (io.inode.i_size / block_size)) q
      ∙ rw here refl

  pub chunk_kept : (j : ℕ) → j < io.inode.i_size → at after.vol.disk addr j ≡ at io.vol.disk addr j
  chunk_kept j h = elim (Bool-cases (j / 512 == io.inode.i_size / 512)) [
    | inl e ↦
        let q : ℕ = addr (j / 512) * 512 + j % 512 in
        let same : j / 512 ≡ io.inode.i_size / 512 = (==_iff _ _).0 e in
        let sector : q / 512 ≡ addr (io.inode.i_size / 512) = omega (arith, ap addr same) in
        let hit : (q / 512 == addr (io.inode.i_size / 512)) ≡ true = (==_iff _ _).1 sector in
        let off : q % 512 ≡ j % 512 = omega arith in
        let below : j % 512 < io.inode.i_size % 512 = omega arith in
        let not_new : (leb (io.inode.i_size % block_size) (j % 512)
              && ltb (j % 512) (io.inode.i_size % block_size + chunk_of io.inode.i_size left))
            ≡ false =
          not_reached (io.inode.i_size % 512) (j % 512) _ below in
        let was_read : first ≡ true = read_first below in
        disk_lem q
        ∙ rw (hit, off) (filled_lem (j % 512) (omega arith) ∙ rw (not_new, was_read, same) refl)
    | inr e ↦
        let q : ℕ = addr (j / 512) * 512 + j % 512 in
        let ne : j / 512 ≢ io.inode.i_size / 512 = λ h. cc (e, (==_iff _ _).1 h) in
        let far : addr (j / 512) ≢ addr (io.inode.i_size / 512) =
          holds.apart (j / 512) (io.inode.i_size / 512) (omega arith) (omega arith) ne in
        let miss : (q / 512 == addr (io.inode.i_size / 512)) ≡ false =
          neq_false (q / 512) (addr (io.inode.i_size / 512)) (omega arith) in
        disk_lem q ∙ rw miss refl
  ]
    where
      read_first : j % 512 < io.inode.i_size % 512 → first ≡ true
      read_first below = elim ready [
        | inl e ↦ e
        | inr (inl e) ↦ absurd (omega arith)
        | inr (inr e) ↦ absurd (omega arith)
      ]

  pub chunk_added :
      (i : ℕ)
      → i < chunk_of io.inode.i_size left
      → at after.vol.disk addr (io.inode.i_size + i) ≡ src (written + i)
  chunk_added i h =
      let fits : chunk_of io.inode.i_size left + io.inode.i_size % 512 ≤ 512 = chunk_bounds.2 in
      let block : (io.inode.i_size + i) / 512 ≡ io.inode.i_size / 512 = omega arith in
      let offset : (io.inode.i_size + i) % 512 ≡ io.inode.i_size % 512 + i = omega arith in
      let q : ℕ = addr (io.inode.i_size / 512) * 512 + (io.inode.i_size % 512 + i) in
      let hit : (q / 512 == addr (io.inode.i_size / 512)) ≡ true = (==_iff _ _).1 (omega arith) in
      let off : q % 512 ≡ io.inode.i_size % 512 + i = omega arith in
      let new : (leb (io.inode.i_size % block_size) (io.inode.i_size % 512 + i)
            && ltb (io.inode.i_size % 512 + i)
                (io.inode.i_size % block_size + chunk_of io.inode.i_size left))
          ≡ true =
        in_range (io.inode.i_size % 512) i (chunk_of io.inode.i_size left) h in
      let back : io.inode.i_size % 512 + i - io.inode.i_size % 512 ≡ i = omega arith in
      let spot : addr ((io.inode.i_size + i) / 512) * 512 + (io.inode.i_size + i) % 512 ≡ q =
        rw (block, offset) refl in
      ap after.vol.disk spot
      ∙ disk_lem q
      ∙ rw (hit, off) (filled_lem (io.inode.i_size % 512 + i) (omega arith) ∙ rw (new, back) refl)

  pub chunk_others :
      (q : ℕ) → q / 512 ≢ addr (io.inode.i_size / block_size) → after.vol.disk q ≡ io.vol.disk q
  chunk_others q ne = disk_lem q ∙ rw (neq_false (q / 512) (addr (io.inode.i_size / 512)) ne) refl
