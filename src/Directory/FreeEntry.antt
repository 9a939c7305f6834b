-- ===== src/Directory/FreeEntry.antt =====
-- The first free entry of a directory, as ch15/fs/dir.c finds it.
use os_elephant.Base.{
  neq_false, ℕ, zero, suc, ◌+◌, ◌*◌, ◌<◌, ◌≤◌, ◌≡◌, ◌≢◌, inl, inr, refl, ap, ◌∙◌, true, false, none,
  some, ◌==◌, arith, Bool-cases, ==_iff,
}
use os_elephant.CString.{Memory}
use os_elephant.Inode.{Bytes}
use os_elephant.Format.{dir_entry_bytes}
use os_elephant.FileIo.{block_size, word_at}
use os_elephant.Directory.{Dir, load_sector, f_type}
use os_elephant.Directory.Insert.{free_entry}
use os_elephant.Directory.Texts.{load_in}

-- The type of an entry on the disk.
abbrev pub type_on_disk : Bytes → ℕ → ℕ → ℕ
type_on_disk disk lba i = word_at disk (lba * block_size + i * dir_entry_bytes + 20)

pub f_type-load_sector :
    (disk : Bytes) (lba buf i : ℕ) (m : Memory)
    → i < 21
    → f_type (load_sector disk lba buf m) (buf + i * 24) ≡ type_on_disk disk lba i
f_type-load_sector disk lba buf i m h =
    let byte : (k : ℕ)
        → k < 4
        → load_sector disk lba buf m (buf + i * 24 + 20 + k) ≡ disk (lba * 512 + i * 24 + 20 + k) =
      λ k lt.
        ap (load_sector disk lba buf m) (omega arith)
        ∙ load_in disk lba buf (i * 24 + 20 + k) m (omega arith)
        ∙ ap disk (omega arith) in
    let byte_0 : load_sector disk lba buf m (buf + i * 24 + 20) ≡ disk (lba * 512 + i * 24 + 20) =
      ap (load_sector disk lba buf m) (omega arith)
      ∙ load_in disk lba buf (i * 24 + 20) m (omega arith)
      ∙ ap disk (omega arith) in
    omega (arith, byte_0, byte 1 (omega arith), byte 2 (omega arith), byte 3 (omega arith))

pub free_entry-some :
    (left k j buf : ℕ) (m : Memory)
    → k ≤ j
    → j < k + left
    → ((i : ℕ) → k ≤ i → i < j → f_type m (buf + i * 24) ≢ 0)
    → f_type m (buf + j * 24) ≡ 0
    → free_entry left (buf + k * 24) m ≡ some (buf + j * 24)
unfolding free_entry
free_entry-some zero k j buf m lo hi taken free = absurd (omega arith)
free_entry-some (suc left) k j buf m lo hi taken free = elim (Bool-cases (k == j)) [
  | inl e ↦
      let eq : k ≡ j = (==_iff _ _).0 e in
      let here : (f_type m (buf + k * 24) == 0) ≡ true =
        (==_iff _ _).1 (ap (λ x. f_type m (buf + x * 24)) eq ∙ free) in
      rw here (ap (λ x. some (buf + x * 24)) eq)
  | inr e ↦
      let lt : k < j = ground arith in
      let used_up : (f_type m (buf + k * 24) == 0) ≡ false =
        neq_false _ 0 (taken k (omega arith) lt) in
      rw used_up (
        ap (λ p. free_entry left p m) (omega arith)
        ∙ free_entry-some left (k + 1) j buf m (omega arith) (omega arith)
            (λ i lo' hi'. taken i (omega arith) hi') free)
]

pub free_entry-none :
    (left k buf : ℕ) (m : Memory)
    → ((i : ℕ) → k ≤ i → i < k + left → f_type m (buf + i * 24) ≢ 0)
    → free_entry left (buf + k * 24) m ≡ none
unfolding free_entry
free_entry-none zero k buf m taken = refl
free_entry-none (suc left) k buf m taken =
    let used_up : (f_type m (buf + k * 24) == 0) ≡ false =
      neq_false _ 0 (taken k (omega arith) (omega arith)) in
    rw used_up (
      ap (λ p. free_entry left p m) (omega arith)
      ∙ free_entry-none left (k + 1) buf m (λ i lo hi. taken i (omega arith) (omega arith)))

-- The first free entry is entry `i` of block `b`.
pub record FirstFree (dir : Dir) (b i : ℕ) : Type 0 where
  pub direct : b < 12
  pub inside : i < 21
  pub there : (c : ℕ) → c ≤ b → dir.inode.i_sectors c ≢ 0
  pub full : (c j : ℕ) → c < b → j < 21 → type_on_disk dir.vol.disk (dir.inode.i_sectors c) j ≢ 0
  pub taken : (j : ℕ) → j < i → type_on_disk dir.vol.disk (dir.inode.i_sectors b) j ≢ 0
  pub free : type_on_disk dir.vol.disk (dir.inode.i_sectors b) i ≡ 0

-- The place of the entry on the disk.
abbrev pub entry_at : Dir → ℕ → ℕ → ℕ
entry_at dir b i = dir.inode.i_sectors b * block_size + i * dir_entry_bytes
