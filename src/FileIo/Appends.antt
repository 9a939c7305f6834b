-- ===== src/FileIo/Appends.antt =====
-- The loop of `file_write` as an append to the bytes of the file: ch15/fs/file.c.
use mathlib.Core.Path.{subst}
use os_elephant.Base.{
  ℕ, zero, suc, ◌+◌, ◌-◌, ◌/◌, ◌%◌, ◌^◌, ◌<◌, ◌≤◌, ◌≡◌, ◌≢◌, inl, inr, refl, sym, ap, ◌∙◌, Bool,
  true, false, ltb, ok, arith, Bool-cases,
}
use os_elephant.Inode.{Inode, Bytes}
use os_elephant.FileIo.{Io, Volume, block_size}
use os_elephant.FileIo.Write.{write_chunk, write_loop}
use os_elephant.FileIo.Chunk.{
  at, AreApart, Ready, Holds, chunk_of, chunk_bounds, chunk_next, chunk_kept, chunk_added,
  chunk_others,
}

-- What the loop leaves: the bytes of the file, then `n` bytes of the source, and no other change.
pub record Appended (addr : ℕ → ℕ) (src : Bytes) (written n : ℕ) (io io' : Io) : Type 0 where
  pub size : io'.inode.i_size ≡ io.inode.i_size + n
  pub blocks : io'.all_blocks ≡ io.all_blocks
  pub sectors : io'.inode ≡ record (io.inode) { i_size = io'.inode.i_size }
  pub volume : io'.vol ≡ record (io.vol) { disk = io'.vol.disk }
  pub kept : (j : ℕ) → j < io.inode.i_size → at io'.vol.disk addr j ≡ at io.vol.disk addr j
  pub added : (i : ℕ) → i < n → at io'.vol.disk addr (io.inode.i_size + i) ≡ src (written + i)
  pub others :
      (q : ℕ)
      → ((k : ℕ)
          → io.inode.i_size / block_size ≤ k
          → k ≤ (io.inode.i_size + n) / block_size
          → q / 512 ≢ addr k)
      → io'.vol.disk q ≡ io.vol.disk q

Appended-trans :
    (addr : ℕ → ℕ) (src : Bytes) (written c n : ℕ) (io m io' : Io)
    → Appended addr src written c io m
    → Appended addr src (written + c) n m io'
    → Appended addr src written (c + n) io io'
Appended-trans addr src written c n io m io' a b = record {
  size = omega (arith, a.size, b.size);
  blocks = b.blocks ∙ a.blocks;
  sectors = b.sectors ∙ ap (λ (x : Inode). record x { i_size = io'.inode.i_size }) a.sectors;
  volume = b.volume ∙ ap (λ (x : Volume). record x { disk = io'.vol.disk }) a.volume;
  kept = λ j h. older j h ∙ a.kept j h;
  added = λ i h. elim (Bool-cases (ltb i c)) [
    | inl e ↦ newer i (ground arith) ∙ a.added i (ground arith)
    | inr e ↦
        let rest : c ≤ i = ground arith in
        ap (λ p. at io'.vol.disk addr p) (omega (arith, a.size))
        ∙ b.added (i - c) (omega arith)
        ∙ ap src (omega arith)
  ];
  others = λ q h.
      b.others q (λ k lo hi e. h k (omega (arith, a.size)) (omega (arith, a.size)) e)
      ∙ a.others q (λ k lo hi. h k lo (omega arith));
}
  where
    same : (j : ℕ) → j < m.inode.i_size → at io'.vol.disk addr j ≡ at m.vol.disk addr j
    same j h = b.kept j h

    older : (j : ℕ) → j < io.inode.i_size → at io'.vol.disk addr j ≡ at m.vol.disk addr j
    older j h = same j (omega (arith, a.size))

    newer :
        (i : ℕ)
        → i < c
        → at io'.vol.disk addr (io.inode.i_size + i) ≡ at m.vol.disk addr (io.inode.i_size + i)
    newer i h = same (io.inode.i_size + i) (omega (arith, a.size))

module _ (src : Bytes) (written left : ℕ) (first : Bool) (io_buf : Bytes) (io : Io)
    (small : io.inode.i_size + left < 2 ^ 32) (some_left : 0 < left)
    (ready : Ready first io.inode.i_size left) (addr : ℕ → ℕ) (holds : Holds addr io left) where
  abbrev the_bounds :
      (0 < chunk_of io.inode.i_size left)
      × (chunk_of io.inode.i_size left ≤ left)
      × (chunk_of io.inode.i_size left + io.inode.i_size % block_size ≤ block_size)
  the_bounds = chunk_bounds src written left first io_buf io small some_left ready addr holds

  chunk-Appended :
      Appended addr src written
        (chunk_of io.inode.i_size left)
        io
        (write_chunk src written left first io_buf io).2
  unfolding write_chunk
  chunk-Appended = record {
    size = omega (arith, the_bounds.1);
    blocks = refl;
    sectors = refl;
    volume = refl;
    kept = chunk_kept src written left first io_buf io small some_left ready addr holds;
    added = chunk_added src written left first io_buf io small some_left ready addr holds;
    others = λ q h.
        chunk_others src written left first io_buf io small some_left ready addr holds q
          (h (io.inode.i_size / block_size) (omega arith) (omega arith));
  }

loop_stop :
    (fuel count : ℕ) (src : Bytes) (written left : ℕ) (first : Bool) (io_buf : Bytes) (io : Io)
    → written ≡ count
    → write_loop (suc fuel) count src written left first io_buf io ≡ ok (count, io_buf, io)
unfolding write_loop
loop_stop fuel count src written left first io_buf io e =
    let done : ltb written count ≡ false = ground arith in rw done (ap (λ w. ok (w, io_buf, io)) e)

loop_step :
    (fuel count : ℕ) (src : Bytes) (written left : ℕ) (first : Bool) (io_buf : Bytes) (io : Io)
    → written < count
    → write_loop (suc fuel) count src written left first io_buf io
      ≡ write_loop fuel count src
          (written + chunk_of io.inode.i_size left)
          (left - chunk_of io.inode.i_size left)
          false
          (write_chunk src written left first io_buf io).1
          (write_chunk src written left first io_buf io).2
unfolding write_loop write_chunk
loop_step fuel count src written left first io_buf io lt =
    let more : ltb written count ≡ true = ground arith in rw more refl

Holds-next :
    (addr : ℕ → ℕ) (io m : Io) (c left : ℕ)
    → m.inode.i_size ≡ io.inode.i_size + c
    → m.all_blocks ≡ io.all_blocks
    → c ≤ left
    → Holds addr io left
    → Holds addr m (left - c)
Holds-next addr io m c left size blocks fits h = record {
  apart = subst (λ z. AreApart addr (z / block_size)) (omega (arith, size)) h.apart;
  known = λ k lo hi. ap (λ bs. bs k) blocks ∙ h.known k (omega (arith, size)) (omega (arith, size));
}

-- The loop of `file_write`, at any size below 2 ^ 32, when the array has the blocks that the bytes
-- reach, the blocks of the file are different and the first sector is read or begins at a sector's
-- start: with more fuel than bytes left it returns the count, the old bytes of the file stay, the
-- new ones follow them, and no other sector of the disk and no other field changes.
pub write_loop_lem :
    (fuel count : ℕ) (addr : ℕ → ℕ) (src : Bytes) (written left : ℕ) (first : Bool) (io_buf : Bytes)
    (io : Io)
    → left < fuel
    → written + left ≡ count
    → io.inode.i_size + left < 2 ^ 32
    → Ready first io.inode.i_size left
    → Holds addr io left
    → (buf : Bytes) × (io' : Io) × (write_loop fuel count src written left first io_buf io
        ≡ ok (count, buf, io'))
      × Appended addr src written left io io'
write_loop_lem zero count addr src written left first io_buf io lt total small ready holds =
    absurd (omega arith)
write_loop_lem (suc fuel) count addr src written zero first io_buf io lt total small ready holds =
    (io_buf, io, loop_stop fuel count src written 0 first io_buf io (omega arith), nothing)
  where
    nothing : Appended addr src written 0 io io
    nothing = record {
      size = omega arith;
      blocks = refl;
      sectors = refl;
      volume = refl;
      kept = λ j h. refl;
      added = λ i h. absurd (omega arith);
      others = λ q h. refl;
    }
write_loop_lem (suc fuel) count addr src written (suc l) first io_buf io lt total small ready
      holds =
    let c : ℕ = chunk_of io.inode.i_size (suc l) in
    let buf : Bytes = (write_chunk src written (suc l) first io_buf io).1 in
    let m : Io = (write_chunk src written (suc l) first io_buf io).2 in
    let bounds =
      the_bounds src written (suc l) first io_buf io small (omega arith) ready addr holds in
    let one : Appended addr src written c io m =
      chunk-Appended src written (suc l) first io_buf io small (omega arith) ready addr holds in
    let ready' : Ready false m.inode.i_size (suc l - c) =
      subst (λ z. Ready false z (suc l - c)) (sym one.size)
        (chunk_next src written (suc l) first io_buf io small (omega arith) ready addr holds) in
    let (buf', io', runs, others) =
      write_loop_lem fuel count addr src (written + c) (suc l - c) false buf m
        (omega (arith, bounds.0)) (omega (arith, bounds.1)) (omega (arith, one.size, bounds.1))
        ready' (Holds-next addr io m c (suc l) one.size one.blocks bounds.1 holds) in
    (
      buf',
      io',
      loop_step fuel count src written (suc l) first io_buf io (omega arith) ∙ runs,
      subst (λ z. Appended addr src written z io io') (omega (arith, bounds.1))
          (Appended-trans addr src written c (suc l - c) io m io' one others),
    )
