-- ===== src/Fork/Tests.antt =====
-- A process with two pages and one open file, and the theorems at it.
use os_elephant.Base.{
  ℕ, ◌≤◌, ◌≡◌, inl, inr, refl, Bool-cases, true, false, [], ◌∷◌, none, some, ◌==◌, if◌then◌else◌,
  ok, fault, arith,
}
use os_elephant.Base.Members.{has}
use os_elephant.Bitmap.{Bitmap, bitmap_scan_test}
use os_elephant.Thread.{task_running}
use os_elephant.FileTable.{Files, sys_close}
use os_elephant.Fork.{Task, Space, Shared, sys_fork}
use os_elephant.Fork.Pages.{set_bits}
use os_elephant.Fork.Counts.{Leads}
use os_elephant.Fork.Child.{Whole, Forked, all_granted, child_of, page_count, sys_fork_lem}
use os_elephant.Fork.Closing.{seen_by, sys_close-sys_fork}

abbrev two_pages : Bitmap
two_pages = record { btmp_bytes_len = 1; bits = λ i. if i == 0 then 3 else 0 }

-- The descriptor 3 stands for the file 4, and that for the inode at 50.
abbrev task : Task
task = record {
  pid = 1;
  parent_pid = 0;
  status = task_running;
  name = 105 ∷ (110 ∷ (105 ∷ (116 ∷ [])));
  priority = 31;
  ticks = 7;
  elapsed_ticks = 90;
  fd_table = λ i. if i == 3 then some 4 else none;
  has_pgdir = true;
  vaddr_bitmap = two_pages;
  vaddr_start = 0x8048000;
  u_block_desc = [];
  eax = 2;
  to_intr_exit = false;
}

abbrev memory : Space
memory = record { mapped = λ p. true; tables = λ i. true; bytes = λ q. q }

abbrev shared : Shared
shared = record {
  next_pid = 2;
  thread_ready_list = 500 ∷ [];
  thread_all_list = 500 ∷ (600 ∷ []);
  files = record {
    file_table =
        λ g. record { fd_pos = 0; fd_flag = 0; fd_inode = (if g == 4 then some 50 else none) };
    fd_table = task.fd_table;
    inodes = λ a. record {
      i_no = 1;
      i_size = 100;
      i_open_cnts = 1;
      write_deny = false;
      i_sectors = λ k. 0;
    };
    links = record { prev = λ i. 0; next = λ i. 0; intr = true };
    freed = [];
  };
  user_pages = 5;
  kernel_pages = 5;
}

opened_Leads : (i : ℕ) → Leads (task.fd_table i) shared.files.file_table
opened_Leads i = elim (Bool-cases (i == 3)) [
  | inl e ↦ rw e (inr (4, 50, refl, omega arith, refl))
  | inr e ↦ rw e (inl refl)
]

task-Whole : Whole task 32840 memory shared
task-Whole = record {
  pgdir = refl;
  start = refl;
  inside = omega arith;
  there = λ j lt u. refl;
  short = omega arith;
  opened = λ i le lt. opened_Leads i;
  few = λ a. omega arith;
}

enough_pages : page_count task ≤ 5
unfolding set_bits bitmap_scan_test
enough_pages = omega arith

absent : has 700 (500 ∷ (600 ∷ [])) ≡ false
unfolding has
absent = refl

absent_ready : has 700 (500 ∷ []) ≡ false
unfolding has
absent_ready = refl

sys_fork_lem_example :
    (m' : Space) × (s' : Shared) × (sys_fork false (some 700) all_granted task memory shared
      ≡ ok (some (3, child_of task 3, m'), s'))
    × Forked task 32840 700 memory m' shared s'
sys_fork_lem_example =
    sys_fork_lem task 32840 700 memory shared task-Whole enough_pages enough_pages (omega arith)
      absent_ready absent

sys_close-sys_fork_example :
    (child : Task) × (m' : Space) × (s' : Shared) × (f : Files) × (sys_fork false
        (some 700)
        all_granted
        task
        memory
        shared
      ≡ ok (some (child.pid, child, m'), s'))
    × (sys_close 3 (seen_by child s'.files) ≡ ok (some 0, f))
    × (sys_close 3 (seen_by task f) ≡ fault)
sys_close-sys_fork_example =
    sys_close-sys_fork task 32840 700 3 4 50 memory shared task-Whole enough_pages enough_pages
      absent_ready absent (omega arith) (omega arith) refl (omega arith) refl (omega arith)
