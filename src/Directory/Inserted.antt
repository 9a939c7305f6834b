-- ===== src/Directory/Inserted.antt =====
-- `sync_dir_entry` of ch15/fs/dir.c where a block of the directory has a free entry.
use mathlib.Core.Path.{subst, ap₂}
use os_elephant.Base.{
  neq_false, ℕ, zero, suc, ◌+◌, ◌-◌, ◌*◌, ◌/◌, ◌%◌, ◌^◌, ◌<◌, ◌≤◌, ◌≡◌, ◌≢◌, ◌⊎◌, inl, inr, refl,
  sym, ap, ◌∙◌, true, false, none, some, ltb, ◌==◌, if◌then◌else◌, ok, arith, Bool-cases, ==_iff,
  add32,
}
use os_elephant.CString.{Memory, memcpy}
use os_elephant.CString.Copy.{memcpy_lem, within}
use os_elephant.Format.{dir_entry_bytes}
use os_elephant.FileIo.{block_size}
use os_elephant.FileIo.Chunk.{write_at}
use os_elephant.Directory.{Dir, load_sector, f_type, dir_entrys_per_sec}
use os_elephant.Directory.Insert.{store_sector, free_entry, insert_loop, sync_dir_entry}
use os_elephant.Directory.Texts.{load_in, load-Off, Off}
use os_elephant.Directory.FreeEntry.{
  type_on_disk, f_type-load_sector, free_entry-some, free_entry-none, FirstFree, entry_at,
}

-- What an insertion leaves: the bytes of the entry at its place, and the size.
pub record Inserted (dir : Dir) (b i p_de io_buf : ℕ) (dir' : Dir) : Type 0 where
  pub inode : dir'.inode ≡ record (dir.inode) { i_size = dir.inode.i_size + dir_entry_bytes }
  pub volume : dir'.vol ≡ record (dir.vol) { disk = dir'.vol.disk }
  pub disk :
      (q : ℕ)
      → dir'.vol.disk q ≡ (
          if within (entry_at dir b i) dir_entry_bytes q
          then dir.memory (p_de + (q - entry_at dir b i))
          else dir.vol.disk q)
  pub memory : (a : ℕ) → Off io_buf a → dir'.memory a ≡ dir.memory a

-- The addresses of the entry and of the buffer.
pub record HasBuffers (p_de io_buf : ℕ) : Type 0 where
  pub entry_ok : p_de ≢ 0
  pub buf_ok : io_buf ≢ 0
  pub entry_off : (p_de + dir_entry_bytes ≤ io_buf) ⊎ (io_buf + block_size ≤ p_de)

entry_Off : (p_de io_buf j : ℕ) → HasBuffers p_de io_buf → j < 24 → Off io_buf (p_de + j)
entry_Off p_de io_buf j h lt = elim h.entry_off [
  | inl e ↦ inl (omega arith)
  | inr e ↦ inr (omega arith)
]

abbrev direct_blocks : Dir → ℕ → ℕ
direct_blocks dir i = if ltb i 12 then dir.inode.i_sectors i else 0

direct_blocks_lem : (dir : Dir) (c : ℕ) → c < 12 → direct_blocks dir c ≡ dir.inode.i_sectors c
direct_blocks_lem dir c h = let e : ltb c 12 ≡ true = ground arith in rw e refl

module _ (dir : Dir) (b i p_de io_buf : ℕ) (size : dir.vol.sb.dir_entry_size ≡ dir_entry_bytes)
    (fits : dir.inode.i_size + dir_entry_bytes < 2 ^ 32) (first : FirstFree dir b i)
    (bufs : HasBuffers p_de io_buf) where
  abbrev loaded : ℕ → Memory → Memory
  loaded c m = load_sector dir.vol.disk (direct_blocks dir c) io_buf m

  per_sec : dir_entrys_per_sec dir ≡ 21
  per_sec = rw size refl

  insert_skip :
      (left c : ℕ) (m : Memory)
      → (direct_blocks dir c == 0) ≡ false
      → free_entry (dir_entrys_per_sec dir) io_buf (loaded c m) ≡ none
      → insert_loop (suc left) c (direct_blocks dir) p_de io_buf (record dir { memory = m })
        ≡ insert_loop left
            (c + 1)
            (direct_blocks dir)
            p_de
            io_buf
            (record dir { memory = loaded c m })
  unfolding insert_loop
  insert_skip left c m e none_free = rw (e, none_free) refl

  abbrev inserted : Memory → Dir
  inserted m = record dir {
    vol = record (dir.vol) { disk = store_sector dir.vol.disk (direct_blocks dir b) io_buf m };
    memory = m;
    inode = record (dir.inode) { i_size = add32 dir.inode.i_size dir.vol.sb.dir_entry_size };
  }

  insert_hit :
      (left slot : ℕ) (m m' : Memory)
      → (direct_blocks dir b == 0) ≡ false
      → free_entry (dir_entrys_per_sec dir) io_buf (loaded b m) ≡ some slot
      → memcpy slot p_de dir.vol.sb.dir_entry_size (loaded b m) ≡ ok m'
      → insert_loop (suc left) b (direct_blocks dir) p_de io_buf (record dir { memory = m })
        ≡ ok (true, inserted m')
  unfolding insert_loop
  insert_hit left slot m m' e found copy = rw (e, found, copy) refl

  there : (c : ℕ) → c ≤ b → (direct_blocks dir c == 0) ≡ false
  there c h =
      rw (direct_blocks_lem dir c (omega (arith, first.direct)))
        (neq_false (dir.inode.i_sectors c) 0 (first.there c h))

  -- The types of the entries of a loaded block.
  type_of :
      (c j : ℕ) (m : Memory)
      → c ≤ b
      → j < 21
      → f_type (loaded c m) (io_buf + j * 24) ≡ type_on_disk dir.vol.disk (dir.inode.i_sectors c) j
  type_of c j m le lt =
      f_type-load_sector dir.vol.disk (direct_blocks dir c) io_buf j m lt
      ∙ ap (λ l. type_on_disk dir.vol.disk l j)
          (direct_blocks_lem dir c (omega (arith, first.direct)))

  module _ (m m' : Memory) (same_off : (a : ℕ) → Off io_buf a → m a ≡ dir.memory a)
      (bytes : (q : ℕ)
        → m' q ≡ (
            if within (io_buf + i * 24) 24 q
            then loaded b m (p_de + (q - (io_buf + i * 24)))
            else loaded b m q)) where
    here : direct_blocks dir b ≡ dir.inode.i_sectors b
    here = direct_blocks_lem dir b first.direct

    memory' : (a : ℕ) → Off io_buf a → m' a ≡ dir.memory a
    memory' a off =
        let outside : within (io_buf + i * 24) 24 a ≡ false = outside_slot a off in
        bytes a
        ∙ rw outside refl
        ∙ load-Off dir.vol.disk (direct_blocks dir b) io_buf a m off
        ∙ same_off a off
      where
        outside_slot : (a : ℕ) → Off io_buf a → within (io_buf + i * 24) 24 a ≡ false
        outside_slot a (inl h) = ground arith
        outside_slot a (inr h) = ground (arith, first.inside)

    -- The buffer as it goes to the disk.
    sector :
        (o : ℕ)
        → o < 512
        → m' (io_buf + o) ≡ (
            if within (i * 24) 24 o
            then dir.memory (p_de + (o - i * 24))
            else dir.vol.disk (dir.inode.i_sectors b * 512 + o))
    sector o h = elim (Bool-cases (within (i * 24) 24 o)) [
      | inl e ↦
          let lower : i * 24 ≤ o = ground arith in
          let upper : o < i * 24 + 24 = ground arith in
          let in_slot : within (io_buf + i * 24) 24 (io_buf + o) ≡ true = ground arith in
          let from : io_buf + o - (io_buf + i * 24) ≡ o - i * 24 = omega arith in
          let off : Off io_buf (p_de + (o - i * 24)) =
            entry_Off p_de io_buf (o - i * 24) bufs (omega arith) in
          bytes (io_buf + o)
          ∙ rw (in_slot, from, e)
              (load-Off dir.vol.disk (direct_blocks dir b) io_buf (p_de + (o - i * 24)) m off
                ∙ same_off (p_de + (o - i * 24)) off)
      | inr e ↦
          let out_of_slot : within (io_buf + i * 24) 24 (io_buf + o) ≡ false = ground arith in
          bytes (io_buf + o)
          ∙ rw (out_of_slot, e)
              (load_in dir.vol.disk (direct_blocks dir b) io_buf o m h
                ∙ ap (λ l. dir.vol.disk (l * 512 + o)) here)
    ]

    disk' :
        (q : ℕ)
        → (inserted m').vol.disk q ≡ (
            if within (entry_at dir b i) dir_entry_bytes q
            then dir.memory (p_de + (q - entry_at dir b i))
            else dir.vol.disk q)
    disk' q =
        write_at dir.vol.disk (λ o. m' (io_buf + o)) (direct_blocks dir b) q
        ∙ elim (Bool-cases (q / 512 == dir.inode.i_sectors b)) [
          | inl e ↦
              let block : q / 512 ≡ dir.inode.i_sectors b = (==_iff _ _).0 e in
              let whole : dir.inode.i_sectors b * 512 + q % 512 ≡ q = omega (arith, block) in
              let from : q - (dir.inode.i_sectors b * 512 + i * 24) ≡ q % 512 - i * 24 =
                omega (arith, block) in
              let same_test : within (dir.inode.i_sectors b * 512 + i * 24) 24 q
                  ≡ within (i * 24) 24 (q % 512) =
                shifted (dir.inode.i_sectors b * 512) (q % 512) q whole in
              rw (here, e, same_test, from) (sector (q % 512) (omega arith) ∙ rw whole refl)
          | inr e ↦
              let far : q / 512 ≢ dir.inode.i_sectors b = λ z. absurd (cc ((==_iff _ _).1 z, e)) in
              let outside : within (dir.inode.i_sectors b * 512 + i * 24) 24 q ≡ false =
                not_there (dir.inode.i_sectors b) q far first.inside in
              rw (here, e, outside) refl
        ]
      where
        shifted : (base o q : ℕ) → base + o ≡ q → within (base + i * 24) 24 q ≡ within (i * 24) 24 o
        shifted base o q e = ground arith

        not_there : (l q : ℕ) → q / 512 ≢ l → i < 21 → within (l * 512 + i * 24) 24 q ≡ false
        not_there l q far lt = ground arith

    Inserted-of : Inserted dir b i p_de io_buf (inserted m')
    Inserted-of = record {
      inode = ap (λ n. record (dir.inode) { i_size = n }) (add_lem size fits);
      volume = refl;
      disk = disk';
      memory = memory';
    }
      where
        add_lem :
            dir.vol.sb.dir_entry_size ≡ 24
            → dir.inode.i_size + 24 < 2 ^ 32
            → add32 dir.inode.i_size dir.vol.sb.dir_entry_size ≡ dir.inode.i_size + 24
        add_lem s f = omega arith

  abbrev Insertion : ℕ → ℕ → Memory → Type 0
  Insertion left c m =
      (dir' : Dir) × (insert_loop left c (direct_blocks dir) p_de io_buf (record dir { memory = m })
        ≡ ok (true, dir'))
      × Inserted dir b i p_de io_buf dir'

  insert_here :
      (left : ℕ) (m : Memory)
      → ((a : ℕ) → Off io_buf a → m a ≡ dir.memory a)
      → Insertion (suc left) b m
  insert_here left m same_off =
      let slot : ℕ = io_buf + i * 24 in
      let (m', copy, bytes) =
        memcpy_lem slot p_de 24 (loaded b m) (λ z. absurd (bufs.buf_ok (omega (arith, z))))
          bufs.entry_ok
          (elim bufs.entry_off [
            | inl h ↦ inr (omega (arith, h))
            | inr h ↦ inl (omega (arith, h, first.inside))
          ]) in
      let found : free_entry (dir_entrys_per_sec dir) io_buf (loaded b m) ≡ some slot =
        ap₂ (λ n p. free_entry n p (loaded b m)) per_sec (omega arith)
        ∙ free_entry-some 21 0 i io_buf (loaded b m) (omega arith) (omega (arith, first.inside))
            (λ j lo hi z.
              first.taken j hi
                (sym (type_of b j m (omega arith) (omega (arith, first.inside))) ∙ z))
            (type_of b i m (omega arith) first.inside ∙ first.free) in
      (
        inserted m',
        insert_hit left slot m m' (there b (omega arith)) found
            (ap (λ n. memcpy slot p_de n (loaded b m)) size ∙ copy),
        Inserted-of m m' same_off bytes,
      )

  insert_from :
      (d left c : ℕ) (m : Memory)
      → c + d ≡ b
      → d < left
      → ((a : ℕ) → Off io_buf a → m a ≡ dir.memory a)
      → Insertion left c m
  insert_from d zero c m eq lt same_off = absurd (omega arith)
  insert_from zero (suc left) c m eq lt same_off =
      subst (λ x. Insertion (suc left) x m) (omega arith) (insert_here left m same_off)
  insert_from (suc d) (suc left) c m eq lt same_off =
      let none_free : free_entry (dir_entrys_per_sec dir) io_buf (loaded c m) ≡ none =
        ap₂ (λ n p. free_entry n p (loaded c m)) per_sec (omega arith)
        ∙ free_entry-none 21 0 io_buf (loaded c m) (λ j lo hi z.
          first.full c j (omega arith) hi (sym (type_of c j m (omega arith) hi) ∙ z)) in
      let (dir', run, result) =
        insert_from d left (c + 1) (loaded c m) (omega arith) (omega arith)
          (λ a off. load-Off dir.vol.disk (direct_blocks dir c) io_buf a m off ∙ same_off a off) in
      (dir', insert_skip left c m (there c (omega arith)) none_free ∙ run, result)

-- `sync_dir_entry` of a directory of entries of 24 bytes, with a size that divides by 24 and stays
-- below 2 ^ 32, whose first free entry stands in a direct block with no missing block before it,
-- and with an entry outside the buffer, neither at `NULL`: it returns true, the bytes of the entry
-- are at the free place on the disk, no other byte of the disk and none of the memory outside the
-- buffer changes, and the size has grown by 24.
pub sync_dir_entry-Inserted :
    (dir : Dir) (b i p_de io_buf : ℕ)
    → dir.vol.sb.dir_entry_size ≡ dir_entry_bytes
    → dir.inode.i_size % dir_entry_bytes ≡ 0
    → dir.inode.i_size + dir_entry_bytes < 2 ^ 32
    → FirstFree dir b i
    → HasBuffers p_de io_buf
    → (dir' : Dir) × (sync_dir_entry p_de io_buf dir ≡ ok (true, dir'))
      × Inserted dir b i p_de io_buf dir'
unfolding sync_dir_entry
sync_dir_entry-Inserted dir b i p_de io_buf size whole fits first bufs =
    let (dir', run, result) =
      insert_from dir b i p_de io_buf size fits first bufs b 140 0 dir.memory (omega arith)
        (omega (arith, first.direct)) (λ a off. refl) in
    let divides : (dir.inode.i_size % dir.vol.sb.dir_entry_size == 0) ≡ true =
      (==_iff _ _).1 (ap (λ n. dir.inode.i_size % n) size ∙ whole) in
    (dir', rw divides run, result)
