-- ===== src/Directory/Tests.antt =====
-- A directory with the entry "a" and room behind it, and the theorems at the entry "b".
use mathlib.Core.Path.{subst}
use os_elephant.Base.{
  ℕ, ◌+◌, ◌*◌, ◌<◌, ◌≤◌, ◌≡◌, ◌≢◌, inl, inr, refl, sym, ap, Bool, true, false, ◌&&◌, List, [], ◌∷◌,
  length, ◌==◌, if◌then◌else◌, ok, out_of_fuel, arith, Bool-cases, ==_iff,
}
use os_elephant.CString.{Memory}
use os_elephant.CString.Text.{CStr}
use os_elephant.Format.{dir_entry_bytes}
use os_elephant.FileIo.{Volume}
use os_elephant.Directory.{Dir, dir_blocks, search_dir_entry}
use os_elephant.Directory.Insert.{sync_dir_entry}
use os_elephant.Directory.Delete.{drop_block, drop_block_stuck}
use os_elephant.Directory.Search.{Names}
use os_elephant.Directory.Lookup.{search_dir_entry-first}
use os_elephant.Directory.Texts.{HasNames, HasArgs, BlockResult}
use os_elephant.Directory.Inserted.{HasBuffers, Inserted, sync_dir_entry-Inserted}
use os_elephant.Directory.FreeEntry.{FirstFree}
use os_elephant.Directory.Found.{IsWithout, sync_dir_entry-search_dir_entry}

abbrev vol : Volume
vol = record {
  sb = record {
    magic = 0x19590318;
    sec_cnt = 2000;
    inode_cnt = 4096;
    part_lba_base = 64;
    block_bitmap_lba = 66;
    block_bitmap_sects = 1;
    inode_bitmap_lba = 67;
    inode_bitmap_sects = 1;
    inode_table_lba = 68;
    inode_table_sects = 608;
    data_start_lba = 676;
    root_inode_no = 0;
    dir_entry_size = 24;
  };
  part = record { start_lba = 64; sec_cnt = 2000; inode_table_lba = 68 };
  block_bitmap = record { btmp_bytes_len = 2; bits = λ i. 3 };
  disk = λ q. if q == 346624 then 97 else if q == 346644 then 2 else 0;
}

-- The name of the new entry is at 1000.
abbrev dir : Dir
dir = record {
  vol = vol;
  inode = record {
    i_no = 0;
    i_size = 24;
    i_open_cnts = 1;
    write_deny = false;
    i_sectors = λ i. if i == 0 then 677 else 0;
  };
  dir_pos = 0;
  memory = λ a. if a == 1000 then 98 else if a == 1020 then 1 else 0;
}

abbrev text : ℕ → Names
text c j = if (c == 0) && (j == 0) then 97 ∷ [] else []

abbrev caller : Memory
caller a = if a == 100 then 98 else 0

dir-FirstFree : FirstFree dir 0 1
dir-FirstFree = record {
  direct = omega arith;
  inside = omega arith;
  there = λ c h. ground arith;
  full = λ c j h lt. absurd (omega arith);
  taken = λ j h. ground arith;
  free = refl;
}

dir-HasBuffers : HasBuffers 1000 2000
dir-HasBuffers = record {
  entry_ok = λ e. omega arith;
  buf_ok = λ e. omega arith;
  entry_off = inl (omega arith);
}

only_block : (c : ℕ) → dir_blocks dir c ≢ 0 → c ≡ 0
unfolding dir_blocks
only_block c there = elim (Bool-cases (c == 0)) [
  | inl e ↦ (==_iff _ _).0 e
  | inr e ↦ absurd (there (ground arith))
]

names : (j : ℕ) → j < 21 → CStr vol.disk (677 * 512 + j * 24) (text 0 j)
names j h = elim (Bool-cases (j == 0)) [
  | inl e ↦
      let first : j ≡ 0 = (==_iff _ _).0 e in
      rw e (ground (arith, first), λ z. omega (arith, z), omega arith, ground (arith, first))
  | inr e ↦ rw e (ground arith)
]

text_length : (c j : ℕ) → length (text c j) ≤ 1
text_length c j = elim (Bool-cases ((c == 0) && (j == 0))) [
  | inl e ↦ rw e (omega arith)
  | inr e ↦ rw e (omega arith)
]

abbrev head : List ℕ → ℕ
head [] = 0
head (x ∷ xs) = x

text_not_new : (c j : ℕ) → text c j ≢ 98 ∷ []
text_not_new c j = elim (Bool-cases ((c == 0) && (j == 0))) [
  | inl e ↦ rw e (λ z. omega (arith, ap head z))
  | inr e ↦ rw e (λ z. omega (arith, ap head z))
]

first_block : dir_blocks dir 0 ≡ 677
unfolding dir_blocks
first_block = refl

dir-HasNames : HasNames 17 dir text
dir-HasNames = record {
  size = refl;
  named = λ c j hi there lt.
      subst (λ x. CStr vol.disk (dir_blocks dir x * 512 + j * 24) (text x j))
        (sym (only_block c there))
        (subst (λ l. CStr vol.disk (l * 512 + j * 24) (text 0 j)) (sym first_block) (names j lt));
  short = λ c j hi lt. (omega (arith, text_length c j), omega (arith, text_length c j));
}

caller-HasArgs : HasArgs 3000 100 200 (98 ∷ []) caller
caller-HasArgs = record {
  named = (refl, λ z. omega (arith, z), omega arith, refl);
  buf_ok = λ e. omega (arith, e);
  name_ok = λ e. omega (arith, e);
  dir_e_ok = λ e. omega (arith, e);
  name_off = inl (omega arith);
  dir_e_off = inl (omega arith);
}

dir-IsWithout : IsWithout 17 dir text 0 (98 ∷ [])
dir-IsWithout = record {
  names = dir-HasNames;
  short = λ c j hi lt. omega (arith, text_length c j);
  absent = λ c j hi there lt. text_not_new c j;
  other_block = λ c hi ne there. absurd (ne (only_block c there));
  other_table = λ e. omega (arith, e);
}

sync_dir_entry-search_dir_entry_example :
    (dir' : Dir) × (m' : Memory) × (sync_dir_entry 1000 2000 dir ≡ ok (true, dir'))
    × (search_dir_entry 17 true 3000 100 200 (record dir' { memory = caller }) ≡ ok (true, m'))
    × ((k : ℕ) → k < dir_entry_bytes → m' (200 + k) ≡ dir.memory (1000 + k))
sync_dir_entry-search_dir_entry_example =
    sync_dir_entry-search_dir_entry 17 dir 0 1 1000 2000 text (98 ∷ []) 3000 100 200 caller refl
      (omega arith) dir-FirstFree dir-HasBuffers dir-IsWithout
      (refl, λ z. omega (arith, z), omega arith, refl) (omega arith) (omega arith) caller-HasArgs

sync_dir_entry-Inserted_example :
    (dir' : Dir) × (sync_dir_entry 1000 2000 dir ≡ ok (true, dir'))
    × Inserted dir 0 1 1000 2000 dir'
sync_dir_entry-Inserted_example =
    sync_dir_entry-Inserted dir 0 1 1000 2000 refl refl (omega arith) dir-FirstFree dir-HasBuffers

own-HasArgs : HasArgs 3000 1000 200 (98 ∷ []) dir.memory
own-HasArgs = record {
  named = (refl, λ z. omega (arith, z), omega arith, refl);
  buf_ok = λ e. omega (arith, e);
  name_ok = λ e. omega (arith, e);
  dir_e_ok = λ e. omega (arith, e);
  name_off = inl (omega arith);
  dir_e_off = inl (omega arith);
}

search_dir_entry-first_example :
    (found : Bool) × (m' : Memory) × (search_dir_entry 17 true 3000 1000 200 dir ≡ ok (found, m'))
    × BlockResult dir text (98 ∷ []) 200 0 found m'
search_dir_entry-first_example =
    search_dir_entry-first 17 3000 1000 200 (98 ∷ []) dir text dir-HasNames own-HasArgs

drop_block_stuck_example : drop_block 100 12 (λ i. 690) dir ≡ out_of_fuel
drop_block_stuck_example = drop_block_stuck 100 12 (λ i. 690) dir (omega arith)
