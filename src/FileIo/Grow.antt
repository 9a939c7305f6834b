-- ===== src/FileIo/Grow.antt =====
-- How a file gets its direct blocks: the loop of ch15/fs/file.c over the blocks a write needs.
use mathlib.Core.Path.{subst}
use os_elephant.Base.{
  ℕ, zero, suc, ◌+◌, ◌-◌, ◌<◌, ◌≤◌, ◌≡◌, inl, inr, refl, sym, ap, ◌∙◌, true, false, ◌==◌, some, ok,
  arith, Bool-cases,
}
use os_elephant.Bitmap.Bits.{used}
use os_elephant.Format.{SuperBlock}
use os_elephant.Inode.{Inode}
use os_elephant.FileIo.{Io, Volume, put, alloc_block, sync_block, place_direct, grow}
use os_elephant.FileIo.Sound.{
  Room, Sound, Kept, Kept-refl, Kept-trans, Taken, alloc_block-Taken, put_same, put_other,
}

pub record Grown (held left n : ℕ) (io io' : Io) : Type 0 where
  pub sound : Sound io'.vol io'.inode.i_sectors (held + left)
  pub room : Room io'.vol.block_bitmap n
  pub kept : Kept io.vol io'.vol
  pub inode : io'.inode ≡ record (io.inode) { i_sectors = io'.inode.i_sectors }
  pub old_sectors : (i : ℕ) → i < held → io'.inode.i_sectors i ≡ io.inode.i_sectors i
  pub old_array : (i : ℕ) → i < held → io'.all_blocks i ≡ io.all_blocks i
  pub new_array : (i : ℕ) → held ≤ i → i < held + left → io'.all_blocks i ≡ io'.inode.i_sectors i
  pub fresh :
      (i : ℕ)
      → held ≤ i
      → i < held + left
      → used io.vol.block_bitmap (io'.inode.i_sectors i - io.vol.sb.data_start_lba) ≡ false

-- What a later bitmap has free an earlier one has free.
pub Kept-free :
    (v w : Volume) (i : ℕ)
    → Kept v w
    → used w.block_bitmap i ≡ false
    → used v.block_bitmap i ≡ false
Kept-free v w i kept off = elim (Bool-cases (used v.block_bitmap i)) [
  | inl on ↦ absurd (cc (kept.marks i on, off))
  | inr e ↦ e
]

pub Grown-none :
    (held n : ℕ) (io : Io)
    → Sound io.vol io.inode.i_sectors held
    → Room io.vol.block_bitmap n
    → Grown held 0 n io io
Grown-none held n io sound room = record {
  sound = subst (Sound io.vol io.inode.i_sectors) (omega arith) sound;
  room = room;
  kept = Kept-refl io.vol;
  inode = refl;
  old_sectors = λ i h. refl;
  old_array = λ i h. refl;
  new_array = λ i lo hi. absurd (omega arith);
  fresh = λ i lo hi. absurd (omega arith);
}

Grown-trans :
    (held left n n' : ℕ) (io m io' : Io)
    → Grown held 1 n' io m
    → Grown (held + 1) left n m io'
    → Grown held (suc left) n io io'
Grown-trans held left n n' io m io' a b = record {
  sound = subst (Sound io'.vol io'.inode.i_sectors) (omega arith) b.sound;
  room = b.room;
  kept = Kept-trans io.vol m.vol io'.vol a.kept b.kept;
  inode = b.inode ∙ ap (λ (x : Inode). record x { i_sectors = io'.inode.i_sectors }) a.inode;
  old_sectors = λ i h. b.old_sectors i (omega arith) ∙ a.old_sectors i h;
  old_array = λ i h. b.old_array i (omega arith) ∙ a.old_array i h;
  new_array = λ i lo hi. elim (Bool-cases (i == held)) [
    | inl e ↦
        let here : i < held + 1 = ground arith in
        b.old_array i here ∙ a.new_array i lo here ∙ sym (b.old_sectors i here)
    | inr e ↦ b.new_array i (ground arith) (omega arith)
  ];
  fresh = λ i lo hi. elim (Bool-cases (i == held)) [
    | inl e ↦
        let here : i < held + 1 = ground arith in
        ap (λ x. used io.vol.block_bitmap (x - io.vol.sb.data_start_lba)) (b.old_sectors i here)
        ∙ a.fresh i lo here
    | inr e ↦
        ap
          (λ (sb : SuperBlock).
            used io.vol.block_bitmap (io'.inode.i_sectors i - sb.data_start_lba))
          (sym a.kept.sb)
        ∙ Kept-free io.vol m.vol (io'.inode.i_sectors i - m.vol.sb.data_start_lba) a.kept
            (b.fresh i (ground arith) (omega arith))
  ];
}

abbrev placed : ℕ → ℕ → Volume → Io → Io
placed held lba got io = record io {
  vol = sync_block lba got;
  inode = record (io.inode) { i_sectors = put io.inode.i_sectors held lba };
  all_blocks = put io.all_blocks held lba;
}

grow_step :
    (left held lba : ℕ) (got : Volume) (io : Io)
    → alloc_block io.vol ≡ ok (some lba, got)
    → io.inode.i_sectors held ≡ 0
    → grow place_direct (suc left) held io
      ≡ grow place_direct left (held + 1) (placed held lba got io)
unfolding grow
grow_step left held lba got io runs clear = rw (runs, clear) refl

Grown-one :
    (held n lba : ℕ) (got : Volume) (io : Io)
    → Taken io.vol io.inode.i_sectors held n lba got
    → Grown held 1 n io (placed held lba got io)
Grown-one held n lba got io taken = record {
  sound =
      subst (Sound (sync_block lba got) (put io.inode.i_sectors held lba)) (omega arith) taken.next;
  room = taken.room;
  kept = taken.kept;
  inode = refl;
  old_sectors = λ i h. put_other io.inode.i_sectors held lba i (λ e. absurd (omega (arith, e)));
  old_array = λ i h. put_other io.all_blocks held lba i (λ e. absurd (omega (arith, e)));
  new_array = λ i lo hi.
      let here : i ≡ held = omega arith in
      ap (put io.all_blocks held lba) here
      ∙ put_same io.all_blocks held lba
      ∙ sym (put_same io.inode.i_sectors held lba)
      ∙ sym (ap (put io.inode.i_sectors held lba) here);
  fresh = λ i lo hi.
      ap (λ x. used io.vol.block_bitmap (x - io.vol.sb.data_start_lba))
        (ap (put io.inode.i_sectors held lba) (omega arith) ∙ put_same io.inode.i_sectors held lba)
      ∙ taken.fresh;
}

-- With enough free blocks the loop ends, and every new block stands in the inode and in the array.
pub grow-Grown :
    (left held n : ℕ) (io : Io)
    → held + left ≤ 12
    → Sound io.vol io.inode.i_sectors held
    → Room io.vol.block_bitmap (left + n)
    → (io' : Io) × (grow place_direct left held io ≡ ok (true, io')) × Grown held left n io io'
unfolding grow
grow-Grown zero held n io small sound room =
    (io, refl, Grown-none held n io sound (subst (Room io.vol.block_bitmap) (omega arith) room))
grow-Grown (suc left) held n io small sound room =
    let (lba, got, taken) =
      alloc_block-Taken io.vol io.inode.i_sectors held (left + n) sound
        (subst (Room io.vol.block_bitmap) (omega arith) room) in
    let one = Grown-one held (left + n) lba got io taken in
    let (io', runs, more) =
      grow-Grown left (held + 1) n (placed held lba got io) (omega arith) one.sound one.room in
    (
      io',
      grow_step left held lba got io taken.runs (sound.clear held (omega arith) (omega arith))
          ∙ runs,
      Grown-trans held left n (left + n) io (placed held lba got io) io' one more,
    )
