-- ===== src/FileTable/Slots.antt =====
-- Slots of the two file tables: taking, finding and closing them, in ch15/fs/file.c and
-- ch15/fs/fs.c.
use os_elephant.Base.{
  ℕ, zero, suc, ◌+◌, ◌-◌, ◌%◌, ◌^◌, ◌<◌, ◌≤◌, ◌≡◌, refl, ap, true, false, ◌&&◌, Option, none, some,
  ◌∷◌, ltb, ◌==◌, if◌then◌else◌, ok, ◌>>=◌, out_of_fuel, arith, Bool-cases, inl, inr,
}
use os_elephant.KernelList.{list_remove}
use os_elephant.FileTable.{
  File, Files, max_file_open, max_files_open_per_proc, is_free, slot_loop, get_free_slot_in_global,
  install_loop, pcb_fd_install, set_fd, set_file, set_inode, inode_close, close_file, sys_close,
}

-- The walk stops at the first free slot, or behind the table.
pub record Stops (table : ℕ → File) (from end stop : ℕ) : Type 0 where
  pub low : from ≤ stop
  pub high : stop ≤ end
  pub before : (m : ℕ) → from ≤ m → m < stop → is_free (table m).fd_inode ≡ false
  pub free : stop < end → is_free (table stop).fd_inode ≡ true

slot_loop-Stops :
    (left idx : ℕ) (table : ℕ → File) → Stops table idx (idx + left) (slot_loop left idx table)
unfolding slot_loop
slot_loop-Stops zero idx table = record {
  low = omega arith;
  high = omega arith;
  before = λ m a b. absurd (omega arith);
  free = λ a. absurd (omega arith);
}
slot_loop-Stops (suc left) idx table = elim (Bool-cases (is_free (table idx).fd_inode)) [
  | inl e ↦ rw e (record {
    low = omega arith;
    high = omega arith;
    before = λ m a b. absurd (omega arith);
    free = λ a. e;
  })
  | inr e ↦
      let r = slot_loop-Stops left (idx + 1) table in
      let low : idx + 1 ≤ slot_loop left (idx + 1) table = r.low in
      let high : slot_loop left (idx + 1) table ≤ idx + 1 + left = r.high in
      rw e (record {
        low = omega arith;
        high = omega arith;
        before = λ m a b. elim (Bool-cases (m == idx)) [
          | inl same ↦ ground (arith, e)
          | inr apart ↦ r.before m (ground arith) b
        ];
        free = λ a. r.free (omega arith);
      })
]

-- What the search for a free slot comes to.
abbrev pub Found : Files → Option ℕ → Type 0
Found s none = (m : ℕ) → 3 ≤ m → m < max_file_open → is_free (s.file_table m).fd_inode ≡ false
Found s (some k) =
    (3 ≤ k)
    × (k < max_file_open)
    × (is_free (s.file_table k).fd_inode ≡ true)
    × ((m : ℕ) → 3 ≤ m → m < k → is_free (s.file_table m).fd_inode ≡ false)

-- `get_free_slot_in_global` returns the first free slot from 3 on, and -1 exactly when there is
-- none.
pub get_free_slot_in_global-Found : (s : Files) → Found s (get_free_slot_in_global s)
unfolding get_free_slot_in_global
get_free_slot_in_global-Found s =
    go (slot_loop 29 3 s.file_table) (slot_loop-Stops 29 3 s.file_table)
  where
    go : (k : ℕ) → Stops s.file_table 3 32 k → Found s (if k == max_file_open then none else some k)
    go k stops = elim (Bool-cases (k == 32)) [
      | inl e ↦ rw e (λ m a b. stops.before m a (ground arith))
      | inr e ↦
          let high : k ≤ 32 = stops.high in
          rw e (stops.low, ground arith, stops.free (ground arith), stops.before)
    ]

install_stuck :
    (fuel g : ℕ) (s : Files)
    → is_free (s.fd_table 3) ≡ false
    → install_loop fuel 3 g s ≡ out_of_fuel
unfolding install_loop
install_stuck zero g s taken = refl
install_stuck (suc fuel) g s taken = rw (taken, install_stuck fuel g s taken) refl

-- With slot 3 free `pcb_fd_install` takes it.
pub pcb_fd_install_first :
    (fuel g : ℕ) (s : Files)
    → is_free (s.fd_table 3) ≡ true
    → pcb_fd_install (suc fuel) g s ≡ ok (some 3, set_fd 3 (some g) s)
unfolding pcb_fd_install
pcb_fd_install_first fuel g s free = rw free refl

-- With slot 3 taken `pcb_fd_install` never returns, whatever the other slots hold: no number of
-- rounds is enough.
pub pcb_fd_install_stuck :
    (fuel g : ℕ) (s : Files)
    → is_free (s.fd_table 3) ≡ false
    → pcb_fd_install fuel g s ≡ out_of_fuel
unfolding pcb_fd_install
pcb_fd_install_stuck fuel g s taken = rw (install_stuck fuel g s taken) refl

-- The state after the close of `fd`, which stood for the file `g` on the inode at `a`.
pub record Closed (fd g a : ℕ) (s s' : Files) : Type 0 where
  pub fd_gone : s'.fd_table fd ≡ none
  pub fd_same : (i : ℕ) → (fd == i) ≡ false → s'.fd_table i ≡ s.fd_table i
  pub file_gone : (s'.file_table g).fd_inode ≡ none
  pub file_same : (i : ℕ) → (g == i) ≡ false → s'.file_table i ≡ s.file_table i
  pub counted : (s'.inodes a).i_open_cnts ≡ (s.inodes a).i_open_cnts - 1
  pub allowed : (s'.inodes a).write_deny ≡ false
  pub inode_same : (b : ℕ) → (a == b) ≡ false → s'.inodes b ≡ s.inodes b
  pub freed : s'.freed ≡ (if (s.inodes a).i_open_cnts == 1 then a ∷ s.freed else s.freed)
  pub links : s'.links ≡ (if (s.inodes a).i_open_cnts == 1 then list_remove a s.links else s.links)

closed : ℕ → ℕ → ℕ → Files → Files
closed fd g a s = set_fd fd none (
    set_file g (record (s.file_table g) { fd_inode = none })
      (inode_close a (set_inode a (record (s.inodes a) { write_deny = false }) s)))

closed-Closed :
    (fd g a : ℕ) (s : Files)
    → 0 < (s.inodes a).i_open_cnts
    → (s.inodes a).i_open_cnts < 2 ^ 32
    → Closed fd g a s (closed fd g a s)
unfolding closed inode_close
closed-Closed fd g a s opened small = elim (Bool-cases ((s.inodes a).i_open_cnts == 1)) [
  | inl e ↦
      let self : (a == a) ≡ true = ground arith in
      let last : (((s.inodes a).i_open_cnts + 2 ^ 32 - 1) % 2 ^ 32 == 0) ≡ true = ground arith in
      rw (self, last)
        (record {
          fd_gone = ground arith;
          fd_same = λ i ne. rw ne refl;
          file_gone = ground arith;
          file_same = λ i ne. rw ne refl;
          counted = ground arith;
          allowed = ground arith;
          inode_same = λ b ne. rw ne refl;
          freed = rw e refl;
          links = rw e refl;
        })
  | inr e ↦
      let self : (a == a) ≡ true = ground arith in
      let more : (((s.inodes a).i_open_cnts + 2 ^ 32 - 1) % 2 ^ 32 == 0) ≡ false = ground arith in
      rw (self, more)
        (record {
          fd_gone = ground arith;
          fd_same = λ i ne. rw ne refl;
          file_gone = ground arith;
          file_same = λ i ne. rw ne refl;
          counted = ground arith;
          allowed = ground arith;
          inode_same = λ b ne. rw ne refl;
          freed = rw e refl;
          links = rw e refl;
        })
]

-- `sys_close` of an open descriptor from 3 on returns 0, frees the two slots and counts the inode
-- down; the last close takes the inode off the list and frees it. The inode's open count is a
-- positive `uint32_t`.
pub sys_close-Closed :
    (fd g a : ℕ) (s : Files)
    → 2 < fd
    → fd < max_files_open_per_proc
    → s.fd_table fd ≡ some g
    → g < max_file_open
    → (s.file_table g).fd_inode ≡ some a
    → 0 < (s.inodes a).i_open_cnts
    → (s.inodes a).i_open_cnts < 2 ^ 32
    → (s' : Files) × (sys_close fd s ≡ ok (some 0, s')) × Closed fd g a s s'
unfolding sys_close closed
sys_close-Closed fd g a s low high e hg ei opened small =
    let t1 : (ltb 2 fd && ltb fd (2 ^ 31)) ≡ true = ground arith in
    let t2 : ltb fd max_files_open_per_proc ≡ true = ground arith in
    let t3 : ltb g max_file_open ≡ true = ground arith in
    (
      closed fd g a s,
      rw (t1, t2, e, t3) (ap (λ o. close_file g s o >>= λ s'. ok (some 0, set_fd fd none s')) ei),
      closed-Closed fd g a s opened small,
    )
