-- ===== src/Directory/Lookup.antt =====
-- `search_dir_entry` of ch15/fs/dir.c as a whole: the first entry with the name, in the order of
-- the blocks.
use mathlib.Core.Path.{ap₂}
use os_elephant.Base.{
  neq_false, ℕ, zero, suc, ◌+◌, ◌-◌, ◌*◌, ◌<◌, ◌≡◌, ◌≢◌, inl, inr, refl, sym, ap, ◌∙◌, Bool, true,
  false, List, Option, none, some, ◌==◌, ok, arith, Bool-cases, ==_iff,
}
use os_elephant.CString.{Memory, memcpy, memset}
use os_elephant.CString.Copy.{memcpy_lem, memset_lem}
use os_elephant.FileIo.{block_size}
use os_elephant.Directory.{
  Dir, load_sector, dir_blocks, dir_entrys_per_sec, search_entries, search_blocks, search_dir_entry,
}
use os_elephant.Directory.Search.{Names, EntryResult, search_entries_lem}
use os_elephant.Directory.Texts.{
  CStr-shift, load_in, load-Off, HasNames, HasArgs, HasArgs-kept, within_at, within-Off,
  BlockResult,
}

module _ (fuel : ℕ) (buf name dir_e : ℕ) (t : List ℕ) (dir : Dir) (text : ℕ → Names)
    (names : HasNames fuel dir text) where
  entry_cnt : dir_entrys_per_sec dir ≡ 21
  entry_cnt = rw (names.size) refl

  abbrev loaded : ℕ → Memory → Memory
  loaded b m = load_sector dir.vol.disk (dir_blocks dir b) buf m

  -- One block.
  searched :
      (b : ℕ) (m : Memory)
      → b < 140
      → dir_blocks dir b ≢ 0
      → HasArgs buf name dir_e t m
      → (r : Option ℕ) × (search_entries fuel (dir_entrys_per_sec dir) buf name (loaded b m) ≡ ok r)
        × EntryResult buf 0 21 (text b) t r
  searched b m lt there args =
      let args' : HasArgs buf name dir_e t (loaded b m) =
        HasArgs-kept buf name dir_e t m (loaded b m)
          (λ a off. load-Off dir.vol.disk (dir_blocks dir b) buf a m off) args in
      let (r, run, result) =
        search_entries_lem fuel 21 0 21 buf name (text b) t (loaded b m) refl args.buf_ok
          args.name_ok args'.named
          (λ i h.
            CStr-shift dir.vol.disk (loaded b m) (dir_blocks dir b * 512 + i * 24) (buf + i * 24)
              (text b i)
              (λ o le.
                ap (loaded b m) (omega arith)
                ∙ load_in dir.vol.disk (dir_blocks dir b) buf (i * 24 + o) m
                    (omega (arith, (names.short b i lt h).1))
                ∙ ap dir.vol.disk (omega arith))
              (names.named b i lt there h))
          (λ i h. (names.short b i lt h).0) in
      (
        r,
        ap₂ (λ n p. search_entries fuel n p name (loaded b m)) entry_cnt (omega arith) ∙ run,
        result,
      )

  search_skip :
      (left b : ℕ) (m : Memory)
      → (dir_blocks dir b == 0) ≡ true
      → search_blocks fuel (suc left) b (dir_blocks dir) buf name dir_e dir m
        ≡ search_blocks fuel left (b + 1) (dir_blocks dir) buf name dir_e dir m
  unfolding search_blocks
  search_skip left b m e = rw e refl

  search_on :
      (left b : ℕ) (m m' : Memory)
      → (dir_blocks dir b == 0) ≡ false
      → search_entries fuel (dir_entrys_per_sec dir) buf name (loaded b m) ≡ ok none
      → memset buf 0 block_size (loaded b m) ≡ ok m'
      → search_blocks fuel (suc left) b (dir_blocks dir) buf name dir_e dir m
        ≡ search_blocks fuel left (b + 1) (dir_blocks dir) buf name dir_e dir m'
  unfolding search_blocks
  search_on left b m m' e run clear = rw (e, run, clear) refl

  search_hit :
      (left b p : ℕ) (m m' : Memory)
      → (dir_blocks dir b == 0) ≡ false
      → search_entries fuel (dir_entrys_per_sec dir) buf name (loaded b m) ≡ ok (some p)
      → memcpy dir_e p dir.vol.sb.dir_entry_size (loaded b m) ≡ ok m'
      → search_blocks fuel (suc left) b (dir_blocks dir) buf name dir_e dir m ≡ ok (true, m')
  unfolding search_blocks
  search_hit left b p m m' e run copy = rw (e, run, copy) refl

  -- Nothing is in block `b`, and the rest is searched.
  later :
      (b : ℕ) (found : Bool) (m' : Memory)
      → (dir_blocks dir b ≢ 0 → (i : ℕ) → i < 21 → text b i ≢ t)
      → BlockResult dir text t dir_e (b + 1) found m'
      → BlockResult dir text t dir_e b found m'
  later b false m' none_here rest = λ c i lo hi there h. elim (Bool-cases (c == b)) [
    | inl e ↦
        let eq : c ≡ b = (==_iff _ _).0 e in
        λ z.
          none_here (λ zero_b. there (ap (dir_blocks dir) eq ∙ zero_b)) i h
            (sym (ap (λ x. text x i) eq) ∙ z)
    | inr e ↦ rest c i (ground arith) hi there h
  ]
  later b true m' none_here (c, i, lo, hi, there, h, eq_t, firsts, copy) = (
    c,
    i,
    omega arith,
    hi,
    there,
    h,
    eq_t,
    λ c' j lo' hi' there' h' earlier. elim (Bool-cases (c' == b)) [
      | inl e ↦
          let eq : c' ≡ b = (==_iff _ _).0 e in
          λ z.
            none_here (λ zero_b. there' (ap (dir_blocks dir) eq ∙ zero_b)) j h'
              (sym (ap (λ x. text x j) eq) ∙ z)
      | inr e ↦ firsts c' j (ground arith) hi' there' h' earlier
    ],
    copy,
  )

  abbrev FoundResult : ℕ → ℕ → Memory → Type 0
  FoundResult left b m =
      (found : Bool) × (m' : Memory) × (search_blocks fuel left b (dir_blocks dir) buf name dir_e
          dir m
        ≡ ok (found, m'))
      × BlockResult dir text t dir_e b found m'

  hit :
      (left b : ℕ) (m : Memory) (p : ℕ)
      → b < 140
      → dir_blocks dir b ≢ 0
      → HasArgs buf name dir_e t m
      → search_entries fuel (dir_entrys_per_sec dir) buf name (loaded b m) ≡ ok (some p)
      → EntryResult buf 0 21 (text b) t (some p)
      → FoundResult (suc left) b m
  hit left b m p lt there args run (i, lo, hi, at_p, eq, firsts) =
      let (m', copy, bytes) =
        memcpy_lem dir_e p 24 (loaded b m) args.dir_e_ok
          (λ z. absurd (args.buf_ok (omega (arith, z))))
          (elim args.dir_e_off [
            | inl h ↦ inl (omega (arith, at_p, h))
            | inr h ↦ inr (omega (arith, at_p, h))
          ]) in
      (
        true,
        m',
        search_hit left b p m m' (neq_false (dir_blocks dir b) 0 there) run
            (ap (λ n. memcpy dir_e p n (loaded b m)) names.size ∙ copy),
        (
          b,
          i,
          omega arith,
          lt,
          there,
          hi,
          eq,
          λ c' j lo' hi' there' h earlier.
              let same_block : c' ≡ b = omega arith in
              λ z. firsts j (omega arith) (omega arith) (sym (ap (λ x. text x j) same_block) ∙ z),
          λ j h.
              let spot : dir_e + j - dir_e ≡ j = omega arith in
              let copied : m' (dir_e + j) ≡ loaded b m (p + j) =
                bytes (dir_e + j) ∙ rw (within_at dir_e 24 j h, spot) refl in
              copied
              ∙ ap (loaded b m) (omega (arith, at_p))
              ∙ load_in dir.vol.disk (dir_blocks dir b) buf (i * 24 + j) m (omega arith)
              ∙ ap dir.vol.disk (omega arith),
        ),
      )

  -- Nothing was in the block: the buffer is cleared and the search goes on.
  on :
      (left b : ℕ) (m : Memory) (r : Option ℕ)
      → b < 140
      → dir_blocks dir b ≢ 0
      → HasArgs buf name dir_e t m
      → search_entries fuel (dir_entrys_per_sec dir) buf name (loaded b m) ≡ ok r
      → EntryResult buf 0 21 (text b) t r
      → ((m' : Memory) → HasArgs buf name dir_e t m' → FoundResult left (b + 1) m')
      → FoundResult (suc left) b m
  on left b m (some p) lt there args run result next = hit left b m p lt there args run result
  on left b m none lt there args run result next =
      let (m₁, clear, bytes) = memset_lem buf 0 512 (loaded b m) args.buf_ok in
      let args₁ : HasArgs buf name dir_e t m₁ =
        HasArgs-kept buf name dir_e t m m₁
          (λ a off.
            bytes a
            ∙ rw (within-Off buf a off) refl
            ∙ load-Off dir.vol.disk (dir_blocks dir b) buf a m off)
          args in
      let (found, m', rest, result') = next m₁ args₁ in
      (
        found,
        m',
        search_on left b m m₁ (neq_false (dir_blocks dir b) 0 there) run clear ∙ rest,
        later b found m' (λ _ i h. result i (omega arith) h) result',
      )

  search_blocks_lem :
      (left b : ℕ) (m : Memory) → b + left ≡ 140 → HasArgs buf name dir_e t m → FoundResult left b m
  unfolding search_blocks
  search_blocks_lem zero b m total args =
      (false, m, refl, λ c i lo hi there h. absurd (omega arith))
  search_blocks_lem (suc left) b m total args = elim (Bool-cases (dir_blocks dir b == 0)) [
    | inl e ↦
        let (found, m', run, result) = search_blocks_lem left (b + 1) m (omega arith) args in
        (
          found,
          m',
          search_skip left b m e ∙ run,
          later b found m' (λ there. absurd (there ((==_iff _ _).0 e))) result,
        )
    | inr e ↦
        let there : dir_blocks dir b ≢ 0 = λ z. absurd (cc ((==_iff _ _).1 z, e)) in
        let (r, run, result) = searched b m (omega arith) there args in
        on left b m r (omega arith) there args run result
          (λ m' args'. search_blocks_lem left (b + 1) m' (omega arith) args')
  ]

-- A directory of entries of 24 bytes whose blocks hold the given names, each shorter than the fuel
-- and with its end inside its block, and a name, a buffer and a place for the result apart from
-- each other: `search_dir_entry` returns. It returns true exactly at the first entry with the name,
-- in the order of the blocks, and then the place holds the 24 bytes of that entry; it returns false
-- when no entry of an allocated block has the name.
pub search_dir_entry-first :
    (fuel buf name dir_e : ℕ) (t : List ℕ) (dir : Dir) (text : ℕ → Names)
    → HasNames fuel dir text
    → HasArgs buf name dir_e t dir.memory
    → (found : Bool) × (m' : Memory) × (search_dir_entry fuel true buf name dir_e dir
        ≡ ok (found, m'))
      × BlockResult dir text t dir_e 0 found m'
unfolding search_dir_entry
search_dir_entry-first fuel buf name dir_e t dir text names args =
    search_blocks_lem fuel buf name dir_e t dir text names 140 0 dir.memory refl args
