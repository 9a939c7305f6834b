-- ===== src/FileIo/Reads.antt =====
-- The loop of `file_read` as a copy of the bytes of the file: ch15/fs/file.c.
use os_elephant.Base.{
  ℕ, zero, suc, ◌+◌, ◌-◌, ◌*◌, ◌/◌, ◌%◌, ◌^◌, ◌<◌, ◌≤◌, ◌≡◌, ◌⊎◌, inl, inr, refl, sym, ap, ◌∙◌,
  true, false, ◌&&◌, ltb, leb, if◌then◌else◌, Outcome, ok, arith, Bool-cases, add32,
}
use mathlib.Core.Path.{ap₂, fun_ext}
use os_elephant.Inode.{Bytes, ide_read}
use os_elephant.FileIo.{Io, block_size}
use os_elephant.FileIo.Read.{read_loop}
use os_elephant.FileIo.Chunk.{at}

-- A buffer with the `n` bytes of the file from `pos` on at the index `start`.
abbrev pub copied : Io → ℕ → ℕ → ℕ → Bytes → Bytes
copied io pos start n buf i =
    if leb start i && ltb i (start + n)
    then at io.vol.disk io.all_blocks (pos + (i - start))
    else buf i

abbrev part_of : ℕ → ℕ → ℕ
part_of pos left =
    if ltb left (block_size - pos % block_size) then left else block_size - pos % block_size

part_bounds :
    (pos left : ℕ)
    → 0 < left
    → (0 < part_of pos left)
      × (part_of pos left ≤ left)
      × (part_of pos left + pos % block_size ≤ block_size)
part_bounds pos left h = ground arith

inside : (start n i : ℕ) → start ≤ i → i < start + n → (leb start i && ltb i (start + n)) ≡ true
inside start n i lo hi = ground arith

before : (start n i : ℕ) → i < start → (leb start i && ltb i (start + n)) ≡ false
before start n i lo = ground arith

behind : (start n i : ℕ) → start + n ≤ i → (leb start i && ltb i (start + n)) ≡ false
behind start n i lo = ground arith

pub copied_in :
    (io : Io) (pos start n i : ℕ) (buf : Bytes)
    → start ≤ i
    → i < start + n
    → copied io pos start n buf i ≡ at io.vol.disk io.all_blocks (pos + (i - start))
copied_in io pos start n i buf lo hi = rw (inside start n i lo hi) refl

copied_before :
    (io : Io) (pos start n i : ℕ) (buf : Bytes) → i < start → copied io pos start n buf i ≡ buf i
copied_before io pos start n i buf lo = rw (before start n i lo) refl

pub copied_behind :
    (io : Io) (pos start n i : ℕ) (buf : Bytes)
    → start + n ≤ i
    → copied io pos start n buf i ≡ buf i
copied_behind io pos start n i buf hi = rw (behind start n i hi) refl

below_or_not : (a b : ℕ) → (a < b) ⊎ (b ≤ a)
below_or_not a b = elim (Bool-cases (ltb a b)) [
  | inl e ↦ inl (ground arith)
  | inr e ↦ inr (ground arith)
]

copied-none : (io : Io) (pos start : ℕ) (buf : Bytes) → copied io pos start 0 buf ≡ buf
copied-none io pos start buf = fun_ext λ i. elim (below_or_not i start) [
  | inl lo ↦ copied_before io pos start 0 i buf lo
  | inr hi ↦ copied_behind io pos start 0 i buf (omega arith)
]

copied-twice :
    (io : Io) (pos start c n : ℕ) (buf : Bytes)
    → c ≤ n
    → copied io (pos + c) (start + c) (n - c) (copied io pos start c buf)
      ≡ copied io pos start n buf
copied-twice io pos start c n buf fits = fun_ext λ i.
    let first : Bytes = copied io pos start c buf in
    elim (below_or_not i start) [
      | inl lo ↦
          copied_before io (pos + c) (start + c) (n - c) i first (omega arith)
          ∙ copied_before io pos start c i buf lo
          ∙ sym (copied_before io pos start n i buf lo)
      | inr hi ↦ elim (below_or_not i (start + c)) [
        | inl lo ↦
            copied_before io (pos + c) (start + c) (n - c) i first lo
            ∙ copied_in io pos start c i buf hi lo
            ∙ sym (copied_in io pos start n i buf hi (omega arith))
        | inr hi' ↦ elim (below_or_not i (start + n)) [
          | inl lo ↦
              copied_in io (pos + c) (start + c) (n - c) i first hi' (omega arith)
              ∙ ap (at io.vol.disk io.all_blocks) (omega arith)
              ∙ sym (copied_in io pos start n i buf hi lo)
          | inr out ↦
              copied_behind io (pos + c) (start + c) (n - c) i first (omega arith)
              ∙ copied_behind io pos start c i buf hi'
              ∙ sym (copied_behind io pos start n i buf out)
        ]
      ]
    ]

abbrev chunk : Io → ℕ → ℕ → Bytes → Bytes
chunk io start c buf i =
    if leb start i && ltb i (start + c)
    then ide_read io.vol.disk (io.all_blocks (io.fd_pos / block_size)) 1 (λ j. 0)
        (io.fd_pos % block_size + (i - start))
    else buf i

add32_small : (a b : ℕ) → a + b < 2 ^ 32 → add32 a b ≡ a + b
add32_small a b h = omega arith

chunk-copied :
    (io : Io) (start c : ℕ) (buf : Bytes)
    → c + io.fd_pos % block_size ≤ block_size
    → chunk io start c buf ≡ copied io io.fd_pos start c buf
chunk-copied io start c buf fits = fun_ext λ i. elim (below_or_not i start) [
  | inl lo ↦ rw (before start c i lo) refl
  | inr hi ↦ elim (below_or_not i (start + c)) [
    | inl lo ↦
        let in_sector : ltb (io.fd_pos % 512 + (i - start)) (1 * 512) ≡ true = ground arith in
        let block : (io.fd_pos + (i - start)) / 512 ≡ io.fd_pos / 512 = omega arith in
        let offset : (io.fd_pos + (i - start)) % 512 ≡ io.fd_pos % 512 + (i - start) =
          omega arith in
        rw (inside start c i hi lo, in_sector, block, offset) refl
    | inr out ↦ rw (behind start c i out) refl
  ]
]

loop_stop :
    (fuel size bytes_read left : ℕ) (buf : Bytes) (io : Io)
    → size ≤ bytes_read
    → read_loop (suc fuel) size bytes_read left buf io ≡ ok (bytes_read, buf, io)
unfolding read_loop
loop_stop fuel size bytes_read left buf io e =
    let done : ltb bytes_read size ≡ false = ground arith in rw done refl

loop_step :
    (fuel size bytes_read left : ℕ) (buf : Bytes) (io : Io)
    → bytes_read < size
    → read_loop (suc fuel) size bytes_read left buf io
      ≡ read_loop fuel size
          (bytes_read + part_of io.fd_pos left)
          (left - part_of io.fd_pos left)
          (chunk io bytes_read (part_of io.fd_pos left) buf)
          (record io { fd_pos = add32 io.fd_pos (part_of io.fd_pos left) })
unfolding read_loop
loop_step fuel size bytes_read left buf io lt =
    let more : ltb bytes_read size ≡ true = ground arith in rw more refl

ended : ℕ → Bytes → Io → ℕ → Outcome (ℕ × Bytes × Io)
ended size buf io pos = ok (size, buf, record io { fd_pos = pos })

-- The loop of `file_read` with more fuel than bytes left and no overflow of the position is one
-- copy of the file's bytes into the buffer, and it moves the position behind them.
pub read_loop_lem :
    (fuel size bytes_read left : ℕ) (buf : Bytes) (io : Io)
    → left < fuel
    → bytes_read + left ≡ size
    → io.fd_pos + left < 2 ^ 32
    → read_loop fuel size bytes_read left buf io
      ≡ ok (size, copied io io.fd_pos bytes_read left buf, record io { fd_pos = io.fd_pos + left })
unfolding ended
read_loop_lem zero size bytes_read left buf io lt total small = absurd (omega arith)
read_loop_lem (suc fuel) size bytes_read zero buf io lt total small =
    loop_stop fuel size bytes_read 0 buf io (omega arith)
    ∙ ap (λ w. ended w buf io io.fd_pos) (omega arith)
    ∙ ap₂ (λ b p. ended size b io p) (sym (copied-none io io.fd_pos bytes_read buf)) (omega arith)
read_loop_lem (suc fuel) size bytes_read (suc l) buf io lt total small =
    let c : ℕ = part_of io.fd_pos (suc l) in
    let (some_part, fits, in_block) = part_bounds io.fd_pos (suc l) (omega arith) in
    let moved : add32 io.fd_pos c ≡ io.fd_pos + c = add32_small io.fd_pos c (omega arith) in
    let next : ℕ → Bytes → Outcome (ℕ × Bytes × Io) =
      λ p b. read_loop fuel size (bytes_read + c) (suc l - c) b (record io { fd_pos = p }) in
    loop_step fuel size bytes_read (suc l) buf io (omega arith)
    ∙ ap₂ next moved (chunk-copied io bytes_read c buf in_block)
    ∙ read_loop_lem fuel size (bytes_read + c) (suc l - c) (copied io io.fd_pos bytes_read c buf)
        (record io { fd_pos = io.fd_pos + c }) (omega arith) (omega arith) (omega arith)
    ∙ ap₂ (λ b p. ended size b io p) (copied-twice io io.fd_pos bytes_read c (suc l) buf fits)
        (omega arith)
