-- ===== src/FileIo/Input.antt =====
-- `file_read` of ch15/fs/file.c as a whole, for files within their direct blocks, and what it gives
-- behind `file_write`.
use os_elephant.Base.{
  ℕ, ◌+◌, ◌-◌, ◌*◌, ◌/◌, ◌%◌, ◌^◌, ◌<◌, ◌≤◌, ◌≡◌, inl, inr, refl, sym, ap, ◌∙◌, Bool, true, false,
  ltb, leb, ◌==◌, ◌&&◌, none, some, ok, panic, arith, if◌then◌else◌, Bool-cases, sub32,
}
use os_elephant.Inode.{Inode, Bytes}
use os_elephant.FileIo.{Io, block_size}
use os_elephant.FileIo.Write.{file_write}
use os_elephant.FileIo.Read.{keep_blocks, gather_read, read_loop, file_read}
use os_elephant.FileIo.Chunk.{at}
use os_elephant.FileIo.Reads.{copied, copied_in, copied_behind, read_loop_lem}
use os_elephant.FileIo.Sound.{Room}
use os_elephant.FileIo.Collect.{blocks_for, held_by, IsOpen}
use os_elephant.FileIo.Output.{HasPlace}
use os_elephant.FileIo.Written.{file_write-Written}

gather_read_direct :
    (start end : ℕ) (io : Io)
    → start ≤ end
    → end < 12
    → gather_read start end io ≡ ok (keep_blocks start (end + 1) io)
unfolding gather_read
gather_read_direct start end io le small =
    let direct : ltb end 12 ≡ true = ground arith in
    elim (Bool-cases (sub32 start end == 0)) [
      | inl e ↦
          let same : start ≡ end = ground arith in
          rw (e, direct) (ap (λ k. ok (keep_blocks k (end + 1) io)) (sym same))
      | inr e ↦ rw (e, direct) refl
    ]

keep_blocks_lem :
    (from end k : ℕ) (io : Io)
    → from ≤ k
    → k < end
    → (keep_blocks from end io).all_blocks k ≡ io.inode.i_sectors k
unfolding keep_blocks
keep_blocks_lem from end k io lo hi =
    let inside : (leb from k && ltb k end) ≡ true = ground arith in rw inside refl

-- What a call asks for and what is left of the file.
abbrev pub to_read : ℕ → Io → ℕ
to_read count io =
    if ltb io.inode.i_size (io.fd_pos + count) then io.inode.i_size - io.fd_pos else count

abbrev pub at_end : ℕ → Io → Bool
at_end count io = ltb io.inode.i_size (io.fd_pos + count) && (to_read count io == 0)

to_read_most :
    (count : ℕ) (io : Io)
    → io.fd_pos ≤ io.inode.i_size
    → (io.fd_pos + to_read count io ≤ io.inode.i_size) × (to_read count io ≤ count)
to_read_most count io h = ground arith

-- What a read leaves: the bytes of the file from the position on, as far as asked for and as there
-- are.
pub record Got (count : ℕ) (buf : Bytes) (io : Io) (back : Bytes) (io' : Io) : Type 0 where
  pub bytes :
      (i : ℕ) → i < to_read count io → back i ≡ at io.vol.disk io.inode.i_sectors (io.fd_pos + i)
  pub rest : (i : ℕ) → to_read count io ≤ i → back i ≡ buf i
  pub moved : io'.fd_pos ≡ io.fd_pos + to_read count io
  pub same_inode : io'.inode ≡ io.inode
  pub same_volume : io'.vol ≡ io.vol

Got-none : (count : ℕ) (buf : Bytes) (io : Io) → at_end count io ≡ true → Got count buf io buf io
Got-none count buf io e =
    let none_left : to_read count io ≡ 0 = ground arith in
    record {
      bytes = λ i h. absurd (omega (arith, none_left));
      rest = λ i h. refl;
      moved = omega (arith, none_left);
      same_inode = refl;
      same_volume = refl;
    }

module _ (fuel : ℕ) (buf : Bytes) (count : ℕ) (io : Io) (enough : count < fuel)
    (inside : io.fd_pos ≤ io.inode.i_size) (small : io.inode.i_size < 12 * block_size)
    (fits : io.fd_pos + count < 2 ^ 32) where
  abbrev n : ℕ
  n = to_read count io

  abbrev gathered : Io
  gathered = keep_blocks (io.fd_pos / block_size) ((io.fd_pos + n) / block_size + 1) io

  abbrev back : Bytes
  back = copied gathered io.fd_pos 0 n buf

  most : (io.fd_pos + n ≤ io.inode.i_size) × (n ≤ count)
  most = to_read_most count io inside

  whole : (io.fd_pos + count) % 2 ^ 32 ≡ io.fd_pos + count
  whole = omega arith

  left_of : (io.inode.i_size + 2 ^ 32 - io.fd_pos) % 2 ^ 32 ≡ io.inode.i_size - io.fd_pos
  left_of = omega arith

  n_fits : (io.fd_pos + n) % 2 ^ 32 ≡ io.fd_pos + n
  n_fits = omega (arith, most.0)

  read_nothing : at_end count io ≡ true → file_read fuel true true buf count io ≡ ok (none, buf, io)
  unfolding file_read
  read_nothing e = rw (whole, left_of, e) refl

  read_steps :
      at_end count io ≡ false
      → read_loop fuel n 0 n buf gathered ≡ ok (n, back, record gathered { fd_pos = io.fd_pos + n })
      → file_read fuel true true buf count io
        ≡ ok (some n, back, record gathered { fd_pos = io.fd_pos + n })
  unfolding file_read
  read_steps e loop =
      let start_fits : (ltb (io.fd_pos / 512) 139 && ltb ((io.fd_pos + n) / 512) 139) ≡ true =
        ground (arith, most.0) in
      rw
        (
          whole,
          left_of,
          e,
          n_fits,
          start_fits,
          gather_read_direct (io.fd_pos / 512) ((io.fd_pos + n) / 512) io (omega arith)
              (omega (arith, most.0)),
          loop,
        )
        refl

  got_bytes : (i : ℕ) → i < n → back i ≡ at io.vol.disk io.inode.i_sectors (io.fd_pos + i)
  unfolding keep_blocks
  got_bytes i h =
      let at_i : io.fd_pos + (i - 0) ≡ io.fd_pos + i = omega arith in
      copied_in gathered io.fd_pos 0 n i buf (omega arith) (omega arith)
      ∙ ap (at io.vol.disk gathered.all_blocks) at_i
      ∙ ap (λ b. io.vol.disk (b * 512 + (io.fd_pos + i) % 512))
          (keep_blocks_lem (io.fd_pos / 512) ((io.fd_pos + n) / 512 + 1) ((io.fd_pos + i) / 512) io
            (omega arith) (omega arith))

  Got-some : Got count buf io back (record gathered { fd_pos = io.fd_pos + n })
  unfolding keep_blocks
  Got-some = record {
    bytes = got_bytes;
    rest = λ i h. copied_behind gathered io.fd_pos 0 n i buf (omega arith);
    moved = refl;
    same_inode = refl;
    same_volume = refl;
  }

-- `file_read` with both its buffers, of a file of less than twelve blocks and a position inside it,
-- with fuel above the count and no overflow of the position: it returns the number of bytes asked
-- for, or of those that are left when they are fewer (-1 when none is left), the caller's buffer
-- holds those bytes of the file and is otherwise unchanged, the position moves behind them, and the
-- inode and the volume stay.
pub file_read-Got :
    (fuel : ℕ) (buf : Bytes) (count : ℕ) (io : Io)
    → count < fuel
    → io.fd_pos ≤ io.inode.i_size
    → io.inode.i_size < 12 * block_size
    → io.fd_pos + count < 2 ^ 32
    → (back : Bytes) × (io' : Io) × (file_read fuel true true buf count io
        ≡ ok (if at_end count io then none else some (to_read count io), back, io'))
      × Got count buf io back io'
unfolding keep_blocks
file_read-Got fuel buf count io enough inside small fits = elim (Bool-cases (at_end count io)) [
  | inl e ↦ (
    buf,
    io,
    read_nothing fuel buf count io enough inside small fits e ∙ rw e refl,
    Got-none count buf io e,
  )
  | inr e ↦
      let most = to_read_most count io inside in
      let start : Io = gathered fuel buf count io enough inside small fits in
      (
        _,
        _,
        read_steps fuel buf count io enough inside small fits e (
              read_loop_lem fuel (to_read count io) 0 (to_read count io) buf start
                (omega (arith, most.1)) (omega arith) (omega (arith, most.0)))
            ∙ rw e refl,
        Got-some fuel buf count io enough inside small fits,
      )
]

-- An open file (`IsOpen`: the blocks it has are marked, different and in the data of the volume,
-- the other direct ones are 0, it is empty when it has no block, the root's block is taken, the
-- bitmap lies before the data), that ends within its twelve direct blocks also behind the write,
-- with a place in the inode table before the data, in one sector, and a number below 256, as many
-- free blocks as the write needs, both buffers, and fuel above the count: `file_write` returns the
-- count, and then `file_read` of that count from the old end of the file returns it too and gives
-- back the bytes that were written.
pub file_write-file_read :
    (fuel : ℕ) (image : Inode → Bytes) (io_buf src buf : Bytes) (count : ℕ) (io : Io)
    → count < fuel
    → blocks_for (io.inode.i_size + count) ≤ 12
    → IsOpen io
    → HasPlace io.vol io.inode.i_no
    → Room io.vol.block_bitmap (blocks_for (io.inode.i_size + count) - held_by io.inode)
    → (io' : Io) × (back : Bytes) × (io'' : Io) × (file_write fuel image true true io_buf src count
          io
        ≡ ok (some count, io'))
      × (file_read fuel true true buf count (record io' { fd_pos = io.inode.i_size })
          ≡ ok (some count, back, io''))
      × ((i : ℕ) → i < count → back i ≡ src i)
file_write-file_read fuel image io_buf src buf count io enough small io_ok place room =
    let (io', wrote, w) =
      file_write-Written fuel image io_buf src count io enough small io_ok place room in
    let from : Io = record io' { fd_pos = io.inode.i_size } in
    let (back, io'', read, got) =
      file_read-Got fuel buf count from enough (omega (arith, w.size)) (omega (arith, w.size))
        (omega arith) in
    let not_beyond : ltb io'.inode.i_size (io.inode.i_size + count) ≡ false =
      ground (arith, w.size) in
    let all_of : to_read count from ≡ count = rw not_beyond refl in
    let there : at_end count from ≡ false = rw not_beyond refl in
    (
      io',
      back,
      io'',
      wrote,
      read ∙ rw (there, all_of) refl,
      λ i h. got.bytes i (omega (arith, all_of)) ∙ w.new i h,
    )

-- A read inside the file that ends at byte 139 * 512 or behind it, which a file of 140 blocks
-- allows, stops the machine at the `ASSERT` on its block indices.
pub file_read_stuck :
    (fuel : ℕ) (has_buf : Bool) (buf : Bytes) (count : ℕ) (io : Io)
    → io.fd_pos + count ≤ io.inode.i_size
    → io.inode.i_size < 2 ^ 32
    → 139 * block_size ≤ io.fd_pos + count
    → file_read fuel has_buf true buf count io ≡ panic
unfolding file_read
file_read_stuck fuel has_buf buf count io inside fits late =
    let whole : (io.fd_pos + count) % 2 ^ 32 ≡ io.fd_pos + count = omega arith in
    let not_beyond : ltb io.inode.i_size (io.fd_pos + count) ≡ false = ground arith in
    let too_late : (ltb (io.fd_pos / 512) 139 && ltb ((io.fd_pos + count) / 512) 139) ≡ false =
      ground arith in
    rw (whole, not_beyond, whole, too_late) refl
