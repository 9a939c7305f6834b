-- ===== src/FileIo/Sound.antt =====
-- The blocks of a file and the bitmap of the blocks, and what an allocation by ch15/fs/file.c does
-- to them.
use os_elephant.Base.{
  ℕ, suc, ◌+◌, ◌-◌, ◌*◌, ◌/◌, ◌%◌, ◌^◌, ◌<◌, ◌≤◌, ◌≡◌, ◌≢◌, ◌⊎◌, inl, inr, refl, sym, ap, ◌∙◌, true,
  false, ◌&&◌, ltb, leb, ◌==◌, some, ok, arith, Bool-cases, ==_iff, sub32,
}
use os_elephant.Bitmap.{Bitmap}
use os_elephant.Bitmap.Bits.{used, IsBytes, with_bit, with_bit-IsBytes, used-with_bit}
use os_elephant.Inode.{Bytes}
use os_elephant.Format.{SuperBlock, bitmap_sync}
use os_elephant.Format.Layout.{block_bitmap_alloc-first}
use os_elephant.FileIo.{Volume, put, alloc_block, sync_block}

abbrev pub bits_of : Volume → ℕ
bits_of v = v.block_bitmap.btmp_bytes_len * 8

-- At least `k` free blocks.
pub record Room (b : Bitmap) (k : ℕ) : Type 0 where
  pub free : ℕ → ℕ
  pub rising : (i j : ℕ) → i < j → j < k → free i < free j
  pub inside : (i : ℕ) → i < k → free i < b.btmp_bytes_len * 8
  pub clear : (i : ℕ) → i < k → used b (free i) ≡ false

-- The first `held` entries of `sectors` are different blocks of the partition, marked in the
-- bitmap, and the other direct ones are 0. On the disk the bitmap lies before the blocks.
pub record Sound (v : Volume) (sectors : ℕ → ℕ) (held : ℕ) : Type 0 where
  pub bytes : IsBytes v.block_bitmap
  pub fits : v.sb.data_start_lba + bits_of v < 2 ^ 32
  pub map_before : v.sb.block_bitmap_lba + bits_of v / 4096 < v.sb.data_start_lba
  pub in_data : (i : ℕ) → i < held → v.sb.data_start_lba ≤ sectors i
  pub marked : (i : ℕ) → i < held → used v.block_bitmap (sectors i - v.sb.data_start_lba) ≡ true
  pub apart : (i j : ℕ) → i < held → j < held → i ≢ j → sectors i ≢ sectors j
  pub clear : (i : ℕ) → held ≤ i → i < 12 → sectors i ≡ 0

-- What stays: the data sectors of the disk, and all but the disk and the bitmap.
pub record Kept (v v' : Volume) : Type 0 where
  pub sb : v'.sb ≡ v.sb
  pub part : v'.part ≡ v.part
  pub len : v'.block_bitmap.btmp_bytes_len ≡ v.block_bitmap.btmp_bytes_len
  pub marks : (i : ℕ) → used v.block_bitmap i ≡ true → used v'.block_bitmap i ≡ true
  pub blocks : (q : ℕ) → v.sb.data_start_lba * 512 ≤ q → v'.disk q ≡ v.disk q

pub Kept-refl : (v : Volume) → Kept v v
Kept-refl v = record { sb = refl; part = refl; len = refl; marks = λ i h. h; blocks = λ q h. refl }

pub Kept-trans : (v w x : Volume) → Kept v w → Kept w x → Kept v x
Kept-trans v w x a b = record {
  sb = b.sb ∙ a.sb;
  part = b.part ∙ a.part;
  len = b.len ∙ a.len;
  marks = λ i h. b.marks i (a.marks i h);
  blocks = λ q h.
      b.blocks q (omega (arith, ap (λ (s : SuperBlock). s.data_start_lba) a.sb)) ∙ a.blocks q h;
}

pub put_same : (f : ℕ → ℕ) (i v : ℕ) → put f i v i ≡ v
put_same f i v = let e : (i == i) ≡ true = (==_iff i i).1 refl in rw e refl

pub put_other : (f : ℕ → ℕ) (i v j : ℕ) → i ≢ j → put f i v j ≡ f j
put_other f i v j h = let e : (i == j) ≡ false = ground arith in rw e refl

used_one : (b : Bitmap) (k : ℕ) → IsBytes b → used (with_bit b k true) k ≡ true
used_one b k h =
    let e : (k == k) ≡ true = (==_iff k k).1 refl in used-with_bit b k k true h ∙ rw e refl

used_stays :
    (b : Bitmap) (k i : ℕ) → IsBytes b → used b i ≡ true → used (with_bit b k true) i ≡ true
used_stays b k i h on = elim (Bool-cases (k == i)) [
  | inl e ↦ used-with_bit b k i true h ∙ rw e refl
  | inr e ↦ used-with_bit b k i true h ∙ rw e on
]

used_other : (b : Bitmap) (k i : ℕ) → IsBytes b → k ≢ i → used (with_bit b k true) i ≡ used b i
used_other b k i h ne =
    let e : (k == i) ≡ false = ground arith in used-with_bit b k i true h ∙ rw e refl

-- The first free block is taken: one less is left.
Room-with_bit :
    (b : Bitmap) (k n : ℕ) (room : Room b (suc n))
    → IsBytes b
    → k ≤ room.free 0
    → Room (with_bit b k true) n
unfolding with_bit
Room-with_bit b k n room h le = record {
  free = λ i. room.free (suc i);
  rising = λ i j lt below. room.rising (suc i) (suc j) (omega arith) (omega arith);
  inside = λ i below. room.inside (suc i) (omega arith);
  clear = λ i below.
      used_other b k (room.free (suc i)) h
        (λ e. absurd (omega (arith, room.rising 0 (suc i) (omega arith) (omega arith))))
      ∙ room.clear (suc i) (omega arith);
}

-- What an allocation and the copy of the bitmap to the disk leave behind.
pub record Taken (v : Volume) (sectors : ℕ → ℕ) (held n lba : ℕ) (got : Volume) : Type 0 where
  pub runs : alloc_block v ≡ ok (some lba, got)
  pub next : Sound (sync_block lba got) (put sectors held lba) (suc held)
  pub room : Room (sync_block lba got).block_bitmap n
  pub kept : Kept v (sync_block lba got)
  pub beyond : v.sb.data_start_lba ≤ lba
  pub fresh : used v.block_bitmap (lba - v.sb.data_start_lba) ≡ false
  pub small : lba < v.sb.data_start_lba + bits_of v
  pub same_sb : got.sb ≡ v.sb

-- The sector of the bitmap that is written lies before the blocks.
pub sync_before :
    (v : Volume) (k q : ℕ)
    → v.sb.data_start_lba + bits_of v < 2 ^ 32
    → v.sb.block_bitmap_lba + bits_of v / 4096 < v.sb.data_start_lba
    → k < bits_of v
    → v.sb.data_start_lba * 512 ≤ q
    → (sync_block (v.sb.data_start_lba + k) v).disk q ≡ v.disk q
unfolding sync_block bitmap_sync
sync_before v k q fits before lt beyond =
    let idx : sub32 (v.sb.data_start_lba + k) v.sb.data_start_lba ≡ k = omega arith in
    let lba : ℕ = (v.sb.block_bitmap_lba + k / 4096) % 2 ^ 32 in
    let outside : (leb (lba * 512) q && ltb q (lba * 512 + 1 * 512)) ≡ false = ground arith in
    rw (idx, outside) refl

old_or_new : (held i : ℕ) → i < suc held → (i < held) ⊎ (i ≡ held)
old_or_new held i h = elim (Bool-cases (ltb i held)) [
  | inl e ↦ inl (ground arith)
  | inr e ↦ inr (ground arith)
]

module _ (v : Volume) (sectors : ℕ → ℕ) (held k : ℕ) (sound : Sound v sectors held)
    (free : used v.block_bitmap k ≡ false) where
  abbrev lba : ℕ
  lba = v.sb.data_start_lba + k

  abbrev marks : Bitmap
  marks = with_bit v.block_bitmap k true

  old : (i : ℕ) → i < held → put sectors held lba i ≡ sectors i
  old i h = put_other sectors held lba i (λ e. absurd (omega (arith, e)))

  differs : (i : ℕ) → i < held → sectors i ≢ lba
  differs i h e =
      let on : used v.block_bitmap k ≡ true =
        ap (used v.block_bitmap) (omega (arith, e)) ∙ sound.marked i h in
      absurd (cc (on, free))

  in_data' : (i : ℕ) → i < suc held → v.sb.data_start_lba ≤ put sectors held lba i
  in_data' i h = elim (old_or_new held i h) [
    | inl lt ↦ omega (arith, old i lt, sound.in_data i lt)
    | inr e ↦ omega (arith, ap (put sectors held lba) e, put_same sectors held lba)
  ]

  marked' :
      (i : ℕ) → i < suc held → used marks (put sectors held lba i - v.sb.data_start_lba) ≡ true
  marked' i h = elim (old_or_new held i h) [
    | inl lt ↦
        ap (λ x. used marks (x - v.sb.data_start_lba)) (old i lt)
        ∙ used_stays v.block_bitmap k (sectors i - v.sb.data_start_lba) sound.bytes
            (sound.marked i lt)
    | inr e ↦
        ap (used marks) (omega (arith, ap (put sectors held lba) e, put_same sectors held lba))
        ∙ used_one v.block_bitmap k sound.bytes
  ]

  apart' :
      (i j : ℕ)
      → i < suc held
      → j < suc held
      → i ≢ j
      → put sectors held lba i ≢ put sectors held lba j
  apart' i j hi hj ne = elim (old_or_new held i hi) [
    | inl lt ↦ elim (old_or_new held j hj) [
      | inl lt' ↦ λ e. sound.apart i j lt lt' ne (sym (old i lt) ∙ e ∙ old j lt')
      | inr new ↦ λ e.
          differs i lt
            (sym (old i lt) ∙ e ∙ ap (put sectors held lba) new ∙ put_same sectors held lba)
    ]
    | inr new ↦ elim (old_or_new held j hj) [
      | inl lt' ↦ λ e.
          differs j lt'
            (sym (old j lt') ∙ sym e ∙ ap (put sectors held lba) new ∙ put_same sectors held lba)
      | inr new' ↦ absurd (ne (new ∙ sym new'))
    ]
  ]

  Sound-put :
      Sound (sync_block lba (record v { block_bitmap = marks })) (put sectors held lba) (suc held)
  unfolding sync_block with_bit
  Sound-put = record {
    bytes = with_bit-IsBytes v.block_bitmap k true sound.bytes;
    fits = sound.fits;
    map_before = sound.map_before;
    in_data = in_data';
    marked = marked';
    apart = apart';
    clear = λ i lo hi.
        put_other sectors held lba i (λ e. absurd (omega (arith, e)))
        ∙ sound.clear i (omega arith) hi;
  }

pub alloc_block-Taken :
    (v : Volume) (sectors : ℕ → ℕ) (held n : ℕ)
    → Sound v sectors held
    → Room v.block_bitmap (suc n)
    → (lba : ℕ) × (got : Volume) × Taken v sectors held n lba got
unfolding alloc_block sync_block with_bit
alloc_block-Taken v sectors held n sound room =
    let (k, run, le, free) =
      block_bitmap_alloc-first v.sb v.block_bitmap (room.free 0) sound.bytes
        (room.inside 0 (omega arith)) (room.clear 0 (omega arith)) sound.fits in
    let b : Bitmap = with_bit v.block_bitmap k true in
    let lba : ℕ = v.sb.data_start_lba + k in
    let got : Volume = record v { block_bitmap = b } in
    let index : lba - v.sb.data_start_lba ≡ k = omega arith in
    let below : k < bits_of v = omega (arith, room.inside 0 (omega arith)) in
    (
      lba,
      got,
      record {
        runs = rw run refl;
        next = Sound-put v sectors held k sound free;
        room = Room-with_bit v.block_bitmap k n room sound.bytes le;
        kept = record {
          sb = refl;
          part = refl;
          len = refl;
          marks = λ i on. used_stays v.block_bitmap k i sound.bytes on;
          blocks = λ q beyond. sync_before got k q sound.fits sound.map_before below beyond;
        };
        beyond = omega arith;
        fresh = ap (used v.block_bitmap) index ∙ free;
        small = omega arith;
        same_sb = refl;
      },
    )

-- The disk is not part of it.
pub Sound-disk :
    (v : Volume) (disk : Bytes) (sectors : ℕ → ℕ) (held : ℕ)
    → Sound v sectors held
    → Sound (record v { disk = disk }) sectors held
Sound-disk v disk sectors held s = record {
  bytes = s.bytes;
  fits = s.fits;
  map_before = s.map_before;
  in_data = s.in_data;
  marked = s.marked;
  apart = s.apart;
  clear = s.clear;
}

pub Sound-nonzero :
    (v : Volume) (sectors : ℕ → ℕ) (held i : ℕ) → Sound v sectors held → i < held → sectors i ≢ 0
Sound-nonzero v sectors held i s h e = absurd (omega (arith, s.in_data i h, s.map_before))
