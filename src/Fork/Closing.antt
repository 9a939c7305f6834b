-- ===== src/Fork/Closing.antt =====
-- A file that a process and its copy have open: `sys_fork` of ch15/userprog/fork.c and `sys_close`
-- of ch15/fs/fs.c.
use os_elephant.Base.{
  ℕ, ◌+◌, ◌^◌, ◌<◌, ◌≤◌, ◌≡◌, ap, ◌∙◌, true, false, ◌&&◌, none, some, ltb, ok, fault, u16, arith,
  ◌>>=◌,
}
use os_elephant.Base.Members.{has}
use os_elephant.FileTable.{
  Files, File, max_file_open, max_files_open_per_proc, sys_close, close_file, set_fd,
}
use os_elephant.FileTable.Slots.{sys_close-Closed}
use os_elephant.Inode.{Inode}
use os_elephant.Fork.{Task, Space, Shared, sys_fork}
use os_elephant.Fork.Counts.{refs, refs_few}
use os_elephant.Fork.Child.{Whole, all_granted, page_count, child_of, fork_lem}

-- The table of open files as a process sees it.
abbrev pub seen_by : Task → Files → Files
seen_by t s = record s { fd_table = t.fd_table }

-- A close through a file without an inode.
close_gone :
    (fd g : ℕ) (s : Files)
    → 2 < fd
    → fd < 8
    → s.fd_table fd ≡ some g
    → g < max_file_open
    → (s.file_table g).fd_inode ≡ none
    → sys_close fd s ≡ fault
unfolding sys_close
close_gone fd g s low high e hg gone =
    let t1 : (ltb 2 fd && ltb fd (2 ^ 31)) ≡ true = ground arith in
    let t2 : ltb fd max_files_open_per_proc ≡ true = ground arith in
    let t3 : ltb g max_file_open ≡ true = ground arith in
    rw (t1, t2, e, t3) (ap (λ o. close_file g s o >>= λ s'. ok (some 0, set_fd fd none s')) gone)

-- A process under the conditions of the theorem on `sys_fork`, whatever the last number given, and
-- a descriptor of it from 3 on that leads to an open inode: `sys_fork` returns, the copy's
-- `sys_close` of that descriptor returns 0, and then the process's own `sys_close` of it follows a
-- null pointer.
pub sys_close-sys_fork :
    (t : Task) (first child_addr fd g a : ℕ) (m : Space) (s : Shared)
    → Whole t first m s
    → page_count t ≤ s.user_pages
    → page_count t ≤ s.kernel_pages
    → has child_addr s.thread_ready_list ≡ false
    → has child_addr s.thread_all_list ≡ false
    → 2 < fd
    → fd < 8
    → t.fd_table fd ≡ some g
    → g < max_file_open
    → (s.files.file_table g).fd_inode ≡ some a
    → 0 < (s.files.inodes a).i_open_cnts
    → (child : Task) × (m' : Space) × (s' : Shared) × (f : Files) × (sys_fork false
          (some child_addr)
          all_granted
          t
          m
          s
        ≡ ok (some (child.pid, child, m'), s'))
      × (sys_close fd (seen_by child s'.files) ≡ ok (some 0, f))
      × (sys_close fd (seen_by t f) ≡ fault)
sys_close-sys_fork t first child_addr fd g a m s w room spare r al low high e hg ei opened =
    let (m', s', run, forked) = fork_lem t first child_addr m s w room spare r al in
    let child = child_of t (u16 (s.next_pid + 1)) in
    let file : (s'.files.file_table g).fd_inode ≡ some a =
      ap (λ (x : ℕ → File). (x g).fd_inode) forked.files.file_table ∙ ei in
    let more : (s'.files.inodes a).i_open_cnts
        ≡ (s.files.inodes a).i_open_cnts + refs 5 3 t.fd_table s.files.file_table a =
      ap (λ (x : Inode). x.i_open_cnts) (forked.files.inodes a) in
    let few = refs_few 5 3 t.fd_table s.files.file_table a in
    let (f, closed, c) =
      sys_close-Closed fd g a (seen_by child s'.files) low high e hg file
        (omega (arith, more, opened)) (omega (arith, more, few, w.few a)) in
    (child, m', s', f, run, closed, close_gone fd g (seen_by t f) low high e hg c.file_gone)
