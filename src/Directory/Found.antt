-- ===== src/Directory/Found.antt =====
-- An entry that `sync_dir_entry` put into a directory, looked for by `search_dir_entry`:
-- ch15/fs/dir.c.
use mathlib.Core.Path.{subst}
use os_elephant.Base.{
  ℕ, ◌+◌, ◌-◌, ◌*◌, ◌/◌, ◌%◌, ◌^◌, ◌<◌, ◌≤◌, ◌≡◌, ◌≢◌, inl, inr, refl, sym, ap, ◌∙◌, Bool, true,
  false, ◌&&◌, ◌||◌, List, length, ltb, leb, ◌==◌, if◌then◌else◌, ok, arith, Bool-cases, ==_iff,
}
use os_elephant.CString.{Memory}
use os_elephant.CString.Text.{CStr, CStr-frame}
use os_elephant.CString.Copy.{within}
use os_elephant.Inode.{Inode}
use os_elephant.Format.{dir_entry_bytes}
use os_elephant.FileIo.{Volume, word_at}
use os_elephant.Directory.{Dir, dir_blocks, search_dir_entry}
use os_elephant.Directory.Insert.{sync_dir_entry}
use os_elephant.Directory.Search.{Names}
use os_elephant.Directory.Lookup.{search_dir_entry-first}
use os_elephant.Directory.Texts.{HasNames, HasArgs, BlockResult, CStr-shift}
use os_elephant.Directory.Inserted.{HasBuffers, Inserted, sync_dir_entry-Inserted}
use os_elephant.Directory.FreeEntry.{FirstFree, entry_at}

-- The names of a directory with one more.
abbrev with_name : (ℕ → Names) → ℕ → ℕ → List ℕ → ℕ → Names
with_name text b i t c j = if (c == b) && (j == i) then t else text c j

-- A directory whose blocks are different, without the name; each name ends in its entry.
pub record IsWithout (fuel : ℕ) (dir : Dir) (text : ℕ → Names) (b : ℕ) (t : List ℕ) : Type 0 where
  pub names : HasNames fuel dir text
  pub short : (c j : ℕ) → c < 140 → j < 21 → length (text c j) < dir_entry_bytes
  pub absent : (c j : ℕ) → c < 140 → dir_blocks dir c ≢ 0 → j < 21 → text c j ≢ t
  pub other_block :
      (c : ℕ) → c < 140 → c ≢ b → dir_blocks dir c ≢ 0 → dir_blocks dir c ≢ dir.inode.i_sectors b
  pub other_table : dir.inode.i_sectors 12 ≢ dir.inode.i_sectors b

with_name_here : (text : ℕ → Names) (b i : ℕ) (t : List ℕ) → with_name text b i t b i ≡ t
with_name_here text b i t =
    let e : (b == b) ≡ true = (==_iff b b).1 refl in
    let e' : (i == i) ≡ true = (==_iff i i).1 refl in rw (e, e') refl

with_name_other :
    (text : ℕ → Names) (b i : ℕ) (t : List ℕ) (c j : ℕ)
    → ((c == b) && (j == i)) ≡ false
    → with_name text b i t c j ≡ text c j
with_name_other text b i t c j e = rw e refl

both_equal : (c b j i : ℕ) → ((c == b) && (j == i)) ≡ true → (c ≡ b) × (j ≡ i)
both_equal c b j i e = (ground arith, ground arith)

second_false : (x y : Bool) → x ≡ true → (x && y) ≡ false → y ≡ false
second_false true y e h = h
second_false false y e h = absurd (cc e)

not_there : (l i q : ℕ) → q / 512 ≢ l → i < 21 → within (l * 512 + i * 24) 24 q ≡ false
not_there l i q far lt = ground arith

other_slot :
    (base i j q : ℕ)
    → (j == i) ≡ false
    → base + j * 24 ≤ q
    → q < base + j * 24 + 24
    → within (base + i * 24) 24 q ≡ false
other_slot base i j q ne lo up = ground arith

module _ (fuel : ℕ) (dir dir' : Dir) (b i p_de io_buf : ℕ) (text : ℕ → Names) (t : List ℕ)
    (m : Memory) (free : FirstFree dir b i) (new : Inserted dir b i p_de io_buf dir')
    (without : IsWithout fuel dir text b t) (named : CStr dir.memory p_de t) (short : length t < 16)
    (enough : length t < fuel) where
  abbrev after : Dir
  after = record dir' { memory = m }

  untouched : (q : ℕ) → q / 512 ≢ dir.inode.i_sectors b → dir'.vol.disk q ≡ dir.vol.disk q
  untouched q far =
      let outside : within (dir.inode.i_sectors b * 512 + i * 24) 24 q ≡ false =
        not_there (dir.inode.i_sectors b) i q far free.inside in
      new.disk q ∙ rw outside refl

  sectors : dir'.inode.i_sectors ≡ dir.inode.i_sectors
  sectors = ap (λ (x : Inode). x.i_sectors) new.inode

  table_kept :
      (c : ℕ)
      → 12 ≤ c
      → c < 140
      → word_at dir'.vol.disk (dir.inode.i_sectors 12 * 512 + (c - 12) * 4)
        ≡ word_at dir.vol.disk (dir.inode.i_sectors 12 * 512 + (c - 12) * 4)
  table_kept c lo hi =
      let base : ℕ = dir.inode.i_sectors 12 * 512 + (c - 12) * 4 in
      let byte : (k : ℕ) → k < 4 → dir'.vol.disk (base + k) ≡ dir.vol.disk (base + k) =
        λ k h. untouched (base + k) (λ z. without.other_table (omega (arith, z))) in
      let byte_0 : dir'.vol.disk base ≡ dir.vol.disk base =
        untouched base (λ z. without.other_table (omega (arith, z))) in
      omega (arith, byte_0, byte 1 (omega arith), byte 2 (omega arith), byte 3 (omega arith))

  blocks_kept : (c : ℕ) → c < 140 → dir_blocks after c ≡ dir_blocks dir c
  unfolding dir_blocks
  blocks_kept c hi = elim (Bool-cases (ltb c 12)) [
    | inl e ↦ rw e (ap (λ s. s c) sectors)
    | inr e ↦
        let table : dir'.inode.i_sectors 12 ≡ dir.inode.i_sectors 12 = ap (λ s. s 12) sectors in
        let kept = table_kept c (ground arith) hi in
        rw (e, table) (ap (λ w. if (dir.inode.i_sectors 12 == 0) || leb 140 c then 0 else w) kept)
  ]

  this_block : dir_blocks dir b ≡ dir.inode.i_sectors b
  unfolding dir_blocks
  this_block = let e : ltb b 12 ≡ true = ground (arith, free.direct) in rw e refl

  new_name : CStr dir'.vol.disk (entry_at dir b i) t
  new_name =
      CStr-shift dir.memory dir'.vol.disk p_de (entry_at dir b i) t
        (λ o le.
          let inside : within (entry_at dir b i) 24 (entry_at dir b i + o) ≡ true =
            ground (arith, short) in
          let from : entry_at dir b i + o - entry_at dir b i ≡ o = omega arith in
          new.disk (entry_at dir b i + o) ∙ rw (inside, from) refl)
        named

  old_name :
      (c j : ℕ)
      → c < 140
      → dir_blocks dir c ≢ 0
      → j < 21
      → ((c == b) && (j == i)) ≡ false
      → CStr dir'.vol.disk (dir_blocks dir c * 512 + j * 24) (text c j)
  old_name c j hi there lt other =
      CStr-frame dir.vol.disk dir'.vol.disk (dir_blocks dir c * 512 + j * 24) (text c j)
        (λ q lo up. kept q lo (omega (arith, without.short c j hi lt)))
        (without.names.named c j hi there lt)
    where
      kept :
          (q : ℕ)
          → dir_blocks dir c * 512 + j * 24 ≤ q
          → q < dir_blocks dir c * 512 + j * 24 + 24
          → dir'.vol.disk q ≡ dir.vol.disk q
      kept q lo up = elim (Bool-cases (c == b)) [
        | inl e ↦
            let base : dir_blocks dir c ≡ dir.inode.i_sectors b =
              ap (dir_blocks dir) ((==_iff _ _).0 e) ∙ this_block in
            let ne : (j == i) ≡ false = second_false (c == b) (j == i) e other in
            let outside : within (dir.inode.i_sectors b * 512 + i * 24) 24 q ≡ false =
              other_slot (dir.inode.i_sectors b * 512) i j q ne (omega (arith, base))
                (omega (arith, base)) in
            new.disk q ∙ rw outside refl
        | inr e ↦ untouched q (λ z.
            without.other_block c hi (λ eq. absurd (cc ((==_iff _ _).1 eq, e))) there
              (omega (arith, z)))
      ]

  names' : HasNames fuel after (with_name text b i t)
  names' = record {
    size = ap (λ (v : Volume). v.sb.dir_entry_size) new.volume ∙ without.names.size;
    named = λ c j hi there lt. named_at c j hi there lt;
    short = λ c j hi lt. elim (Bool-cases ((c == b) && (j == i))) [
      | inl e ↦ rw e (omega arith, omega arith)
      | inr e ↦ rw e (without.names.short c j hi lt)
    ];
  }
    where
      named_at :
          (c j : ℕ)
          → c < 140
          → dir_blocks after c ≢ 0
          → j < 21
          → CStr dir'.vol.disk (dir_blocks after c * 512 + j * 24) (with_name text b i t c j)
      named_at c j hi there lt = elim (Bool-cases ((c == b) && (j == i))) [
        | inl e ↦
            let (at_b, at_i) = both_equal c b j i e in
            let spot : entry_at dir b i ≡ dir_blocks after c * 512 + j * 24 =
              omega (arith, blocks_kept c hi, ap (dir_blocks dir) at_b, this_block, at_i) in
            rw e (subst (λ p. CStr dir'.vol.disk p t) spot new_name)
        | inr e ↦ rw e (
            subst (λ l. CStr dir'.vol.disk (l * 512 + j * 24) (text c j)) (sym (blocks_kept c hi))
              (old_name c j hi (λ z. there (blocks_kept c hi ∙ z)) lt e))
      ]

  abbrev FoundIt : Bool → Memory → ℕ → Type 0
  FoundIt found m' dir_e =
      (found ≡ true) × ((k : ℕ) → k < dir_entry_bytes → m' (dir_e + k) ≡ dir.memory (p_de + k))

  written : (k : ℕ) → k < 24 → dir'.vol.disk (entry_at dir b i + k) ≡ dir.memory (p_de + k)
  written k h =
      let inside : within (entry_at dir b i) 24 (entry_at dir b i + k) ≡ true = ground arith in
      let from : entry_at dir b i + k - entry_at dir b i ≡ k = omega arith in
      new.disk (entry_at dir b i + k) ∙ rw (inside, from) refl

  -- The search finds it, since no other entry has the name.
  finds :
      (found : Bool) (m' : Memory) (dir_e : ℕ)
      → BlockResult after (with_name text b i t) t dir_e 0 found m'
      → FoundIt found m' dir_e
  finds false m' dir_e missing = absurd (
      missing b i (omega arith) (omega (arith, free.direct))
        (λ z.
          free.there b (omega arith)
            (sym this_block ∙ sym (blocks_kept b (omega (arith, free.direct))) ∙ z))
        free.inside (with_name_here text b i t))
  finds true m' dir_e (c, j, lo, hi, there, lt, eq, firsts, copy) =
      elim (Bool-cases ((c == b) && (j == i))) [
        | inl e ↦
            let (at_b, at_i) = both_equal c b j i e in
            let spot : dir_blocks after c * 512 + j * 24 ≡ entry_at dir b i =
              omega (arith, blocks_kept c hi, ap (dir_blocks dir) at_b, this_block, at_i) in
            (refl, λ k h. copy k h ∙ ap (λ p. dir'.vol.disk (p + k)) spot ∙ written k h)
        | inr e ↦ absurd (
            without.absent c j hi (λ z. there (blocks_kept c hi ∙ z)) lt
              (sym (with_name_other text b i t c j e) ∙ eq))
      ]

-- A directory of entries of 24 bytes, with a size that divides by 24 and stays below 2 ^ 32, whose
-- first free entry stands in a direct block with no missing block before it; its blocks and the
-- indirect table are apart from that block, each name ends in its entry, and no entry has the new
-- name. For an entry with that name, of less than 16 bytes and less than the fuel, and buffers that
-- are apart and not `NULL`: `sync_dir_entry` returns true, and `search_dir_entry` for the name, in
-- any memory that holds it, then returns true and gives the 24 bytes of that entry.
pub sync_dir_entry-search_dir_entry :
    (fuel : ℕ) (dir : Dir) (b i p_de io_buf : ℕ) (text : ℕ → Names) (t : List ℕ)
    (buf name dir_e : ℕ) (m : Memory)
    → dir.inode.i_size % dir_entry_bytes ≡ 0
    → dir.inode.i_size + dir_entry_bytes < 2 ^ 32
    → FirstFree dir b i
    → HasBuffers p_de io_buf
    → IsWithout fuel dir text b t
    → CStr dir.memory p_de t
    → length t < 16
    → length t < fuel
    → HasArgs buf name dir_e t m
    → (dir' : Dir) × (m' : Memory) × (sync_dir_entry p_de io_buf dir ≡ ok (true, dir'))
      × (search_dir_entry fuel true buf name dir_e (record dir' { memory = m }) ≡ ok (true, m'))
      × ((k : ℕ) → k < dir_entry_bytes → m' (dir_e + k) ≡ dir.memory (p_de + k))
sync_dir_entry-search_dir_entry fuel dir b i p_de io_buf text t buf name dir_e m whole fits free
      bufs without named short enough args =
    let (dir', put_in, new) =
      sync_dir_entry-Inserted dir b i p_de io_buf without.names.size whole fits free bufs in
    let (found, m', run, result) =
      search_dir_entry-first fuel buf name dir_e t (record dir' { memory = m })
        (with_name text b i t)
        (names' fuel dir dir' b i p_de io_buf text t m free new without named short enough) args in
    let (is_found, bytes) =
      finds fuel dir dir' b i p_de io_buf text t m free new without named short enough found m'
        dir_e result in
    (dir', m', put_in, run ∙ ap (λ f. ok (f, m')) is_found, bytes)
