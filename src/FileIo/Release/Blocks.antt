-- ===== src/FileIo/Release/Blocks.antt =====
-- The blocks that the loop of `inode_release` of ch15/fs/inode.c gives back.
use os_elephant.Base.{
  neq_false, ℕ, zero, suc, ◌+◌, ◌-◌, ◌*◌, ◌/◌, ◌^◌, ◌<◌, ◌≤◌, ◌≡◌, ◌≢◌, inl, inr, refl, sym, ap,
  ◌∙◌, true, false, ltb, ◌==◌, if◌then◌else◌, ok, arith, Bool-cases, ==_iff, sub32,
}
use os_elephant.Bitmap.Bits.{
  used, IsBytes, with_bit, with_bit-IsBytes, used-with_bit, bitmap_set_zero,
}
use os_elephant.FileIo.{Volume, sync_block}
use os_elephant.FileIo.Sound.{bits_of, sync_before}
use os_elephant.FileIo.Release.{release_block, release_loop}

-- The blocks of a file lie in the data of the volume, none of them is that of the root directory,
-- and they differ.
pub record Owned (v : Volume) (sectors : ℕ → ℕ) : Type 0 where
  pub bytes : IsBytes v.block_bitmap
  pub fits : v.sb.data_start_lba + bits_of v < 2 ^ 32
  pub map_before : v.sb.block_bitmap_lba + bits_of v / 4096 < v.sb.data_start_lba
  pub in_data : (i : ℕ) → i < 12 → sectors i ≢ 0 → v.sb.data_start_lba < sectors i
  pub in_map : (i : ℕ) → i < 12 → sectors i ≢ 0 → sectors i < v.sb.data_start_lba + bits_of v
  pub apart : (i j : ℕ) → i < 12 → j < 12 → i ≢ j → sectors i ≢ 0 → sectors i ≢ sectors j

-- What the release of the blocks from `idx` on leaves.
pub record Released (sectors : ℕ → ℕ) (idx : ℕ) (v v' : Volume) : Type 0 where
  pub sb : v'.sb ≡ v.sb
  pub part : v'.part ≡ v.part
  pub freed :
      (i : ℕ)
      → idx ≤ i
      → i < 12
      → sectors i ≢ 0
      → used v'.block_bitmap (sectors i - v.sb.data_start_lba) ≡ false
  pub others :
      (k : ℕ)
      → ((i : ℕ) → idx ≤ i → i < 12 → sectors i ≢ 0 → sectors i - v.sb.data_start_lba ≢ k)
      → used v'.block_bitmap k ≡ used v.block_bitmap k
  pub blocks : (q : ℕ) → v.sb.data_start_lba * 512 ≤ q → v'.disk q ≡ v.disk q

abbrev freed_one : ℕ → Volume → Volume
freed_one lba v =
    sync_block lba
      (record v { block_bitmap = with_bit v.block_bitmap (sub32 lba v.sb.data_start_lba) false })

release_block_lem :
    (lba : ℕ) (v : Volume)
    → v.sb.data_start_lba < lba
    → lba < 2 ^ 32
    → release_block lba v ≡ ok (freed_one lba v)
unfolding release_block
release_block_lem lba v lo hi =
    let positive : ltb 0 (sub32 lba v.sb.data_start_lba) ≡ true = ground arith in
    rw (positive, bitmap_set_zero v.block_bitmap (sub32 lba v.sb.data_start_lba)) refl

module _ (sectors : ℕ → ℕ) where
  Owned-freed : (lba : ℕ) (v : Volume) → Owned v sectors → Owned (freed_one lba v) sectors
  unfolding sync_block with_bit
  Owned-freed lba v o = record {
    bytes = with_bit-IsBytes v.block_bitmap (sub32 lba v.sb.data_start_lba) false o.bytes;
    fits = o.fits;
    map_before = o.map_before;
    in_data = o.in_data;
    in_map = o.in_map;
    apart = o.apart;
  }

  skip_step :
      (left idx : ℕ) (v : Volume)
      → (sectors idx == 0) ≡ true
      → release_loop (suc left) idx sectors v ≡ release_loop left (idx + 1) sectors v
  unfolding release_loop
  skip_step left idx v e = rw e refl

  free_step :
      (left idx : ℕ) (v : Volume)
      → (sectors idx == 0) ≡ false
      → release_block (sectors idx) v ≡ ok (freed_one (sectors idx) v)
      → release_loop (suc left) idx sectors v
        ≡ release_loop left (idx + 1) sectors (freed_one (sectors idx) v)
  unfolding release_loop
  free_step left idx v e run = rw (e, run) refl

  Released-skip :
      (idx : ℕ) (v v' : Volume)
      → sectors idx ≡ 0
      → Released sectors (idx + 1) v v'
      → Released sectors idx v v'
  Released-skip idx v v' zero_at r = record {
    sb = r.sb;
    part = r.part;
    freed = λ i lo hi there. elim (Bool-cases (i == idx)) [
      | inl e ↦ absurd (there (ap sectors ((==_iff _ _).0 e) ∙ zero_at))
      | inr e ↦ r.freed i (ground arith) hi there
    ];
    others = λ k h. r.others k (λ i lo. h i (omega arith));
    blocks = r.blocks;
  }

  module _ (idx : ℕ) (v v' : Volume) (o : Owned v sectors) (lt : idx < 12) (there : sectors idx ≢ 0)
      (r : Released sectors (idx + 1) (freed_one (sectors idx) v) v') where
    abbrev bit : ℕ
    bit = sectors idx - v.sb.data_start_lba

    bit_of : sub32 (sectors idx) v.sb.data_start_lba ≡ bit
    bit_of = omega (arith, o.in_data idx lt there, o.in_map idx lt there, o.fits)

    one :
        (k : ℕ)
        → used (freed_one (sectors idx) v).block_bitmap k
          ≡ (if bit == k then false else used v.block_bitmap k)
    unfolding sync_block
    one k =
        used-with_bit v.block_bitmap (sub32 (sectors idx) v.sb.data_start_lba) k false o.bytes
        ∙ ap (λ b. if b == k then false else used v.block_bitmap k) bit_of

    freed' :
        (i : ℕ)
        → idx ≤ i
        → i < 12
        → sectors i ≢ 0
        → used v'.block_bitmap (sectors i - v.sb.data_start_lba) ≡ false
    unfolding sync_block
    freed' i lo hi some_block = elim (Bool-cases (i == idx)) [
      | inl e ↦
          let eq : i ≡ idx = (==_iff _ _).0 e in
          let hit : (bit == bit) ≡ true = (==_iff bit bit).1 refl in
          ap (λ x. used v'.block_bitmap (sectors x - v.sb.data_start_lba)) eq
          ∙ r.others bit (λ j lo' hi' there' z.
            o.apart j idx hi' lt (λ w. absurd (omega (arith, w))) there'
              (omega (arith, o.in_data j hi' there', o.in_data idx lt there, z)))
          ∙ one bit
          ∙ rw hit refl
      | inr e ↦ r.freed i (ground arith) hi some_block
    ]

    others' :
        (k : ℕ)
        → ((i : ℕ) → idx ≤ i → i < 12 → sectors i ≢ 0 → sectors i - v.sb.data_start_lba ≢ k)
        → used v'.block_bitmap k ≡ used v.block_bitmap k
    unfolding sync_block
    others' k h =
        let miss : (bit == k) ≡ false = neq_false bit k (h idx (omega arith) lt there) in
        r.others k (λ i lo. h i (omega arith)) ∙ one k ∙ rw miss refl

    blocks' : (q : ℕ) → v.sb.data_start_lba * 512 ≤ q → v'.disk q ≡ v.disk q
    unfolding sync_block with_bit
    blocks' q beyond =
        let start : v.sb.data_start_lba + bit ≡ sectors idx =
          omega (arith, o.in_data idx lt there) in
        let marked : Volume = record v {
          block_bitmap = with_bit v.block_bitmap (sub32 (sectors idx) v.sb.data_start_lba) false;
        } in
        r.blocks q beyond
        ∙ ap (λ l. (sync_block l marked).disk q) (sym start)
        ∙ sync_before marked bit q o.fits o.map_before
            (omega (arith, o.in_map idx lt there, o.in_data idx lt there)) beyond

    Released-step : Released sectors idx v v'
    unfolding sync_block
    Released-step = record {
      sb = r.sb;
      part = r.part;
      freed = freed';
      others = others';
      blocks = blocks';
    }

  pub release_loop_lem :
      (left idx : ℕ) (v : Volume)
      → idx + left ≡ 12
      → Owned v sectors
      → (v' : Volume) × (release_loop left idx sectors v ≡ ok v') × Released sectors idx v v'
  unfolding release_loop
  release_loop_lem zero idx v total o = (
    v,
    refl,
    record {
      sb = refl;
      part = refl;
      freed = λ i lo hi. absurd (omega arith);
      others = λ k h. refl;
      blocks = λ q h. refl;
    },
  )
  release_loop_lem (suc left) idx v total o = elim (Bool-cases (sectors idx == 0)) [
    | inl e ↦
        let (v', run, r) = release_loop_lem left (idx + 1) v (omega arith) o in
        (v', skip_step left idx v e ∙ run, Released-skip idx v v' ((==_iff _ _).0 e) r)
    | inr e ↦
        let lt : idx < 12 = omega arith in
        let there : sectors idx ≢ 0 = λ z. absurd (cc ((==_iff _ _).1 z, e)) in
        let (v', run, r) =
          release_loop_lem left (idx + 1) (freed_one (sectors idx) v) (omega arith)
            (Owned-freed (sectors idx) v o) in
        (
          v',
          free_step left idx v e (
                release_block_lem (sectors idx) v (o.in_data idx lt there)
                  (omega (arith, o.in_map idx lt there, o.fits)))
              ∙ run,
          Released-step idx v v' o lt there r,
        )
  ]
