-- ===== src/FileIo/Collect.antt =====
-- The addresses that a write within the direct blocks needs: `first_block` and `gather` of the
-- model of ch15/fs/file.c.
use mathlib.Core.Path.{subst, subst₂}
use os_elephant.Base.{
  ℕ, zero, suc, ◌+◌, ◌-◌, ◌/◌, ◌<◌, ◌≤◌, ◌≡◌, ◌≢◌, inl, inr, refl, sym, ap, ◌∙◌, true, false, ltb,
  leb, ◌==◌, neb, if◌then◌else◌, some, ok, arith, Bool-cases, ==_iff, sub32,
}
use os_elephant.Bitmap.Bits.{used}
use os_elephant.Format.{SuperBlock}
use os_elephant.Inode.{Inode}
use os_elephant.FileIo.{
  Io, Volume, block_size, put, alloc_block, sync_block, first_block, place_direct, grow, gather,
  keep_last,
}
use os_elephant.FileIo.Sound.{
  Room, Sound, Kept, Kept-refl, Kept-trans, Taken, alloc_block-Taken, put_same,
}
use os_elephant.FileIo.Grow.{Grown, Grown-none, grow-Grown, Kept-free}

-- The number of blocks that a file of the given size holds, unless it is new.
abbrev pub blocks_for : ℕ → ℕ
blocks_for size = size / block_size + 1

-- The blocks that a file has: none before its first write.
abbrev pub held_by : Inode → ℕ
held_by inode = if inode.i_sectors 0 == 0 then 0 else blocks_for inode.i_size

-- A file between two calls.
pub record IsOpen (io : Io) : Type 0 where
  pub sound : Sound io.vol io.inode.i_sectors (held_by io.inode)
  pub empty : io.inode.i_sectors 0 ≡ 0 → io.inode.i_size ≡ 0
  pub root_taken : used io.vol.block_bitmap 0 ≡ true

-- The file has the blocks for its size and `more` behind them; those it had are the same.
pub record Filled (held total n : ℕ) (io io' : Io) : Type 0 where
  pub sound : Sound io'.vol io'.inode.i_sectors total
  pub room : Room io'.vol.block_bitmap n
  pub kept : Kept io.vol io'.vol
  pub inode : io'.inode ≡ record (io.inode) { i_sectors = io'.inode.i_sectors }
  pub old_sectors : (i : ℕ) → i < held → io'.inode.i_sectors i ≡ io.inode.i_sectors i
  pub fresh :
      (i : ℕ)
      → held ≤ i
      → i < total
      → used io.vol.block_bitmap (io'.inode.i_sectors i - io.vol.sb.data_start_lba) ≡ false

pub Filled-trans :
    (held used' total n n' : ℕ) (io m io' : Io)
    → held ≤ used'
    → Filled held used' n' io m
    → Filled used' total n m io'
    → Filled held total n io io'
Filled-trans held used' total n n' io m io' le a b = record {
  sound = b.sound;
  room = b.room;
  kept = Kept-trans io.vol m.vol io'.vol a.kept b.kept;
  inode = b.inode ∙ ap (λ (x : Inode). record x { i_sectors = io'.inode.i_sectors }) a.inode;
  old_sectors = λ i h. b.old_sectors i (omega arith) ∙ a.old_sectors i h;
  fresh = λ i lo hi. elim (Bool-cases (ltb i used')) [
    | inl e ↦
        ap (λ x. used io.vol.block_bitmap (x - io.vol.sb.data_start_lba))
          (b.old_sectors i (ground arith))
        ∙ a.fresh i lo (ground arith)
    | inr e ↦
        ap
          (λ (sb : SuperBlock).
            used io.vol.block_bitmap (io'.inode.i_sectors i - sb.data_start_lba))
          (sym a.kept.sb)
        ∙ Kept-free io.vol m.vol (io'.inode.i_sectors i - m.vol.sb.data_start_lba) a.kept
            (b.fresh i (ground arith) hi)
  ];
}

Filled-refl :
    (held n : ℕ) (io : Io)
    → Sound io.vol io.inode.i_sectors held
    → Room io.vol.block_bitmap n
    → Filled held held n io io
Filled-refl held n io sound room = record {
  sound = sound;
  room = room;
  kept = Kept-refl io.vol;
  inode = refl;
  old_sectors = λ i h. refl;
  fresh = λ i lo hi. absurd (omega arith);
}

-- A new file gets its first block.
abbrev started : ℕ → Volume → Io → Io
started lba got io = record io {
  vol = sync_block lba got;
  inode = record (io.inode) { i_sectors = put io.inode.i_sectors 0 lba };
}

first_step :
    (lba : ℕ) (got : Volume) (io : Io)
    → alloc_block io.vol ≡ ok (some lba, got)
    → io.inode.i_sectors 0 ≡ 0
    → neb (sub32 lba got.sb.data_start_lba) 0 ≡ true
    → first_block io ≡ ok (true, started lba got io)
unfolding first_block
first_step lba got io runs clear not_root =
    let e : (io.inode.i_sectors 0 == 0) ≡ true = (==_iff _ _).1 clear in rw (e, runs, not_root) refl

first_kept : (io : Io) → (io.inode.i_sectors 0 == 0) ≡ false → first_block io ≡ ok (true, io)
unfolding first_block
first_kept io e = rw e refl

-- The block is not that of the root directory, whose bit is set.
not_root :
    (v : Volume) (sectors : ℕ → ℕ) (n lba : ℕ) (got : Volume)
    → Sound v sectors 0
    → used v.block_bitmap 0 ≡ true
    → Taken v sectors 0 n lba got
    → neb (sub32 lba got.sb.data_start_lba) 0 ≡ true
not_root v sectors n lba got sound root taken =
    let same : got.sb.data_start_lba ≡ v.sb.data_start_lba =
      ap (λ (sb : SuperBlock). sb.data_start_lba) taken.same_sb in
    let other : lba - v.sb.data_start_lba ≢ 0 =
      λ e. absurd (cc (sym (ap (used v.block_bitmap) e) ∙ taken.fresh, root)) in
    ground (arith, same, other, taken.beyond, taken.small, sound.fits)

Filled-started :
    (n lba : ℕ) (got : Volume) (io : Io)
    → Taken io.vol io.inode.i_sectors 0 n lba got
    → Filled 0 1 n io (started lba got io)
Filled-started n lba got io taken = record {
  sound = taken.next;
  room = taken.room;
  kept = taken.kept;
  inode = refl;
  old_sectors = λ i h. absurd (omega arith);
  fresh = λ i lo hi.
      let here : i ≡ 0 = omega arith in
      ap (λ x. used io.vol.block_bitmap (x - io.vol.sb.data_start_lba))
        (ap (put io.inode.i_sectors 0 lba) here ∙ put_same io.inode.i_sectors 0 lba)
      ∙ taken.fresh;
}

-- A file with room for its first block has it, or gets it.
pub first_block-Filled :
    (io : Io) (n : ℕ)
    → IsOpen io
    → Room io.vol.block_bitmap (blocks_for io.inode.i_size - held_by io.inode + n)
    → (io' : Io) × (first_block io ≡ ok (true, io'))
      × Filled (held_by io.inode) (blocks_for io.inode.i_size) n io io'
first_block-Filled io n open_ok room = elim (Bool-cases (io.inode.i_sectors 0 == 0)) [
  | inl e ↦
      let clear : io.inode.i_sectors 0 ≡ 0 = (==_iff _ _).0 e in
      let held : held_by io.inode ≡ 0 = rw e refl in
      let total : blocks_for io.inode.i_size ≡ 1 = omega (arith, open_ok.empty clear) in
      let sound : Sound io.vol io.inode.i_sectors 0 =
        subst (Sound io.vol io.inode.i_sectors) held open_ok.sound in
      let (lba, got, taken) =
        alloc_block-Taken io.vol io.inode.i_sectors 0 n sound
          (subst (Room io.vol.block_bitmap) (omega (arith, held, total)) room) in
      (
        started lba got io,
        first_step lba got io taken.runs clear
            (not_root io.vol io.inode.i_sectors n lba got sound open_ok.root_taken taken),
        subst₂ (λ h t. Filled h t n io (started lba got io)) (sym held) (sym total)
            (Filled-started n lba got io taken),
      )
  | inr e ↦
      let held : held_by io.inode ≡ blocks_for io.inode.i_size = rw e refl in
      (
        io,
        first_kept io e,
        subst (λ h. Filled h (blocks_for io.inode.i_size) n io io) (sym held)
            (Filled-refl (blocks_for io.inode.i_size) n io
              (subst (Sound io.vol io.inode.i_sectors) held open_ok.sound)
              (subst (Room io.vol.block_bitmap) (omega (arith, held)) room)),
      )
]

module _ (used will : ℕ) (io : Io) (sound : Sound io.vol io.inode.i_sectors used) where
  nonzero : (i : ℕ) → i < used → neb (io.inode.i_sectors i) 0 ≡ true
  nonzero i h = ground (arith, sound.in_data i h, sound.map_before)

  gather_within : used ≡ will → will ≤ 12 → gather used will io ≡ ok (true, keep_last (used - 1) io)
  unfolding gather
  gather_within same small =
      let none_new : (sub32 will used == 0) ≡ true = ground arith in
      let direct : leb used 12 ≡ true = ground arith in rw (none_new, direct) refl

  gather_more :
      0 < used
      → used < will
      → will ≤ 12
      → gather used will io ≡ grow place_direct (will - used) used (keep_last (used - 1) io)
  unfolding gather
  gather_more some_used more small =
      let some_new : (sub32 will used == 0) ≡ false = ground arith in
      let direct : leb will 12 ≡ true = ground arith in
      let there : neb (io.inode.i_sectors (used - 1)) 0 ≡ true = nonzero (used - 1) (omega arith) in
      rw (some_new, direct, there) refl

keep_last_lem : (b i : ℕ) (io : Io) → i ≡ b → (keep_last b io).all_blocks i ≡ io.inode.i_sectors i
keep_last_lem b i io e =
    ap (put io.all_blocks b (io.inode.i_sectors b)) e
    ∙ put_same io.all_blocks b (io.inode.i_sectors b)
    ∙ sym (ap io.inode.i_sectors e)

Filled-keep :
    (used left n : ℕ) (io io' : Io)
    → Grown used left n (keep_last (used - 1) io) io'
    → Filled used (used + left) n io io'
Filled-keep used left n io io' g = record {
  sound = g.sound;
  room = g.room;
  kept = g.kept;
  inode = g.inode;
  old_sectors = g.old_sectors;
  fresh = g.fresh;
}

-- Behind the collection the file has its blocks, and the array has those from its last one on.
pub gather-Filled :
    (used more n : ℕ) (io : Io)
    → 0 < used
    → used + more ≤ 12
    → Sound io.vol io.inode.i_sectors used
    → Room io.vol.block_bitmap (more + n)
    → (io' : Io) × (gather used (used + more) io ≡ ok (true, io'))
      × Filled used (used + more) n io io'
      × ((i : ℕ) → used ≤ i + 1 → i < used + more → io'.all_blocks i ≡ io'.inode.i_sectors i)
gather-Filled used zero n io some_used small sound room = (
  keep_last (used - 1) io,
  gather_within used (used + 0) io sound (omega arith) small,
  filled,
  λ i lo hi. let here : i ≡ used - 1 = omega arith in array i here,
)
  where
    filled : Filled used (used + 0) n io (keep_last (used - 1) io)
    filled = Filled-keep used 0 n io (keep_last (used - 1) io) (
        Grown-none used n (keep_last (used - 1) io) sound
          (subst (Room io.vol.block_bitmap) (omega arith) room))

    array : (i : ℕ) → i ≡ used - 1 → (keep_last (used - 1) io).all_blocks i ≡ io.inode.i_sectors i
    array i e = keep_last_lem (used - 1) i io e
gather-Filled used (suc more) n io some_used small sound room =
    let kept : Io = keep_last (used - 1) io in
    let (io', runs, g) = grow-Grown (suc more) used n kept small sound room in
    (
      io',
      gather_more used (used + suc more) io sound some_used (omega arith) small
          ∙ ap (λ k. grow place_direct k used kept) (omega arith)
          ∙ runs,
      Filled-keep used (suc more) n io io' g,
      λ i lo hi. elim (Bool-cases (i == used - 1)) [
        | inl e ↦
            let here : i ≡ used - 1 = ground arith in
            g.old_array i (omega arith)
            ∙ keep_last_lem (used - 1) i io here
            ∙ sym (g.old_sectors i (omega arith))
        | inr e ↦ g.new_array i (ground arith) hi
      ],
    )
