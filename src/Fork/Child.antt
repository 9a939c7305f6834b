-- ===== src/Fork/Child.antt =====
-- A process and its copy: `sys_fork` of ch15/userprog/fork.c.
use mathlib.Core.Path.{subst}
use os_elephant.Base.{
  ℕ, ◌+◌, ◌-◌, ◌*◌, ◌^◌, ◌<◌, ◌≤◌, ◌≡◌, refl, true, false, [], ◌∷◌, List, zero, suc, leb, ◌++◌,
  length, some, ok, u16, arith,
}
use os_elephant.Base.Members.{has}
use os_elephant.Bitmap.Bits.{used}
use os_elephant.Memory.{pg_size}
use os_elephant.Memory.Init.{block_desc_init}
use os_elephant.Thread.{task_ready}
use os_elephant.FileTable.{Files}
use os_elephant.Fork.{
  Task, Space, Shared, Grants, kernel_only, fork_suffix, put_letters, append_name,
  build_child_stack, copy_pcb_vaddrbitmap_stack0, copy_body_stack3, update_inode_open_cnts,
  copy_process, sys_fork,
}
use os_elephant.Fork.Pages.{Copied, set_bits, copy_body_stack3_lem}
use os_elephant.Fork.Counts.{Counted, Leads, refs, update_inode_open_cnts_lem}

-- The process that `fork` makes of a process.
abbrev pub child_of : Task → ℕ → Task
child_of t pid = record {
  pid = pid;
  parent_pid = t.pid;
  status = task_ready;
  name = t.name ++ fork_suffix;
  priority = t.priority;
  ticks = t.priority;
  elapsed_ticks = 0;
  fd_table = t.fd_table;
  has_pgdir = true;
  vaddr_bitmap = t.vaddr_bitmap;
  vaddr_start = t.vaddr_start;
  u_block_desc = block_desc_init;
  eax = 0;
  to_intr_exit = true;
}

-- A process that can be copied: its bitmap stands for pages below the kernel's that it has, its
-- name leaves room, its descriptors lead to inodes.
pub record Whole (t : Task) (first : ℕ) (m : Space) (s : Shared) : Type 0 where
  pub pgdir : t.has_pgdir ≡ true
  pub start : t.vaddr_start ≡ first * pg_size
  pub inside : t.vaddr_bitmap.btmp_bytes_len * 32768 + t.vaddr_start ≤ 0xc0000000
  pub there :
      (j : ℕ)
      → j < t.vaddr_bitmap.btmp_bytes_len * 8
      → used t.vaddr_bitmap j ≡ true
      → m.mapped (first + j) ≡ true
  pub short : length t.name < 11
  pub opened : (i : ℕ) → 3 ≤ i → i < 8 → Leads (t.fd_table i) s.files.file_table
  pub few : (a : ℕ) → (s.files.inodes a).i_open_cnts + 5 < 2 ^ 32

-- How many pages of the process are in use.
abbrev pub page_count : Task → ℕ
page_count t = set_bits (t.vaddr_bitmap.btmp_bytes_len * 8) t.vaddr_bitmap 0

-- What a `fork` leaves: the memory of the copy and the state that the processes share.
pub record Forked (t : Task) (first child_addr : ℕ) (m m' : Space) (s s' : Shared) : Type 0 where
  pub memory : Copied t.vaddr_bitmap first 0 (t.vaddr_bitmap.btmp_bytes_len * 8) m kernel_only m'
  pub files : Counted (refs 5 3 t.fd_table s.files.file_table) s.files s'.files
  pub pages : s'.user_pages ≡ s.user_pages - page_count t
  pub tables_least : s'.kernel_pages ≤ s.kernel_pages
  pub tables_most : s.kernel_pages ≤ s'.kernel_pages + page_count t
  pub next : s'.next_pid ≡ u16 (s.next_pid + 1)
  pub ready : s'.thread_ready_list ≡ s.thread_ready_list ++ (child_addr ∷ [])
  pub all : s'.thread_all_list ≡ s.thread_all_list ++ (child_addr ∷ [])

abbrev pub all_granted : Grants
all_granted = record { buf_page = true; bitmap = true; page_dir = true }

fork_run :
    (t : Task) (child_addr pages spare : ℕ) (m m' : Space) (s : Shared) (files : Files)
    → t.has_pgdir ≡ true
    → append_name 16 t.name fork_suffix ≡ ok (t.name ++ fork_suffix)
    → copy_body_stack3 t m (kernel_only, s.user_pages, s.kernel_pages) ≡ ok (m', pages, spare)
    → update_inode_open_cnts (child_of t (u16 (s.next_pid + 1))) s.files ≡ ok files
    → has child_addr s.thread_ready_list ≡ false
    → has child_addr s.thread_all_list ≡ false
    → sys_fork false (some child_addr) all_granted t m s
      ≡ ok (
        some (u16 (s.next_pid + 1), child_of t (u16 (s.next_pid + 1)), m'),
        record {
          next_pid = u16 (s.next_pid + 1);
          thread_ready_list = s.thread_ready_list ++ (child_addr ∷ []);
          thread_all_list = s.thread_all_list ++ (child_addr ∷ []);
          files = files;
          user_pages = pages;
          kernel_pages = spare;
        },
      )
unfolding sys_fork copy_process copy_pcb_vaddrbitmap_stack0 build_child_stack
fork_run t child_addr pages spare m m' s files pgdir fits run₁ run₂ r a =
    rw (pgdir, fits, run₁, run₂, r, a) refl

put_letters_lem : (room : ℕ) (cs : List ℕ) → length cs < room → put_letters room cs ≡ ok cs
unfolding put_letters
put_letters_lem zero cs h = absurd (omega (arith, h))
put_letters_lem (suc room) [] h = refl
put_letters_lem (suc room) (c ∷ cs) h = rw (put_letters_lem room cs (omega (arith, h))) refl

append_name_lem :
    (room : ℕ) (cs src : List ℕ)
    → length cs + length src < room
    → append_name room cs src ≡ ok (cs ++ src)
unfolding append_name
append_name_lem room [] src h = put_letters_lem room src (omega (arith, h))
append_name_lem zero (c ∷ cs) src h = absurd (omega (arith, h))
append_name_lem (suc room) (c ∷ cs) src h = rw (append_name_lem room cs src (omega (arith, h))) refl

-- `sys_fork` with interrupts off and all pages granted, by a process whose marked pages lie below 4
-- GB and are mapped, whose name has at most ten letters and whose descriptors 3 to 7 are free or
-- lead to inodes, when the user pool has a page for each mark and the new process is in neither
-- list of threads: it returns the next number; the copy is ready with a full time slice, its
-- parent's number, the name with `_fork` and the same descriptors, and will find 0 in eax; its
-- memory is the parent's in each marked page, the counts of the inodes have grown by its
-- descriptors, the pool has a page less for each mark, and both lists end with it.
pub fork_lem :
    (t : Task) (first child_addr : ℕ) (m : Space) (s : Shared)
    → Whole t first m s
    → page_count t ≤ s.user_pages
    → page_count t ≤ s.kernel_pages
    → has child_addr s.thread_ready_list ≡ false
    → has child_addr s.thread_all_list ≡ false
    → (m' : Space) × (s' : Shared) × (sys_fork false (some child_addr) all_granted t m s
        ≡ ok (some (u16 (s.next_pid + 1), child_of t (u16 (s.next_pid + 1)), m'), s'))
      × Forked t first child_addr m m' s s'
fork_lem t first child_addr m s w room spare r a =
    let pid = u16 (s.next_pid + 1) in
    let named : append_name 16 t.name fork_suffix ≡ ok (t.name ++ fork_suffix) =
      append_name_lem 16 t.name fork_suffix (omega (arith, w.short)) in
    let (m', left, run₁, copied, less, most) =
      copy_body_stack3_lem t first s.user_pages s.kernel_pages m kernel_only w.start
        (omega (arith, w.inside)) (λ j lt u. (w.there j lt u, below j lt)) room spare in
    let (files, run₂, counted) =
      update_inode_open_cnts_lem (child_of t pid) s.files w.opened w.few in
    (
      m',
      record {
        next_pid = pid;
        thread_ready_list = s.thread_ready_list ++ (child_addr ∷ []);
        thread_all_list = s.thread_all_list ++ (child_addr ∷ []);
        files = files;
        user_pages = s.user_pages - page_count t;
        kernel_pages = left;
      },
      fork_run t child_addr (s.user_pages - page_count t) left m m' s files w.pgdir named run₁ run₂
          r a,
      record {
        memory = copied;
        files = counted;
        pages = refl;
        tables_least = less;
        tables_most = most;
        next = refl;
        ready = refl;
        all = refl;
      },
    )
  where
    below : (j : ℕ) → j < t.vaddr_bitmap.btmp_bytes_len * 8 → leb 0xc0000 (first + j) ≡ false
    below j lt = ground (arith, w.inside, w.start)

-- `sys_fork` with interrupts off and all pages of `Grants` granted, by a process whose marked pages
-- lie below 0xc0000000 and are mapped, whose name has at most ten letters and whose descriptors 3
-- to 7 are free or lead to inodes, when both pools have a page for each mark, the last number given
-- is below 32767 and the new process is in neither list of threads: it returns the next number; the
-- copy is ready with a full time slice, its parent's number, the name with `_fork` and the same
-- descriptors, and will find 0 in eax; its memory is the parent's in each marked page, with a page
-- table for it, the counts of the inodes have grown by its descriptors, the user pool has a page
-- less for each mark and the kernel pool at most as many, and both lists end with it.
pub sys_fork_lem :
    (t : Task) (first child_addr : ℕ) (m : Space) (s : Shared)
    → Whole t first m s
    → page_count t ≤ s.user_pages
    → page_count t ≤ s.kernel_pages
    → s.next_pid < 32767
    → has child_addr s.thread_ready_list ≡ false
    → has child_addr s.thread_all_list ≡ false
    → (m' : Space) × (s' : Shared) × (sys_fork false (some child_addr) all_granted t m s
        ≡ ok (some (s.next_pid + 1, child_of t (s.next_pid + 1), m'), s'))
      × Forked t first child_addr m m' s s'
sys_fork_lem t first child_addr m s w room spare small r a =
    let e : u16 (s.next_pid + 1) ≡ s.next_pid + 1 = omega (arith, small) in
    let (m', s', run, forked) = fork_lem t first child_addr m s w room spare r a in
    (
      m',
      s',
      subst
          (λ n.
            sys_fork false (some child_addr) all_granted t m s
            ≡ ok (some (n, child_of t n, m'), s'))
          e run,
      forked,
    )
