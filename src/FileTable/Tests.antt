-- ===== src/FileTable/Tests.antt =====
-- A process with one open file, and the theorems at it.
use os_elephant.Base.{◌≡◌, refl, false, none, some, [], ltb, ◌==◌, if◌then◌else◌, ok, arith}
use os_elephant.FileTable.{Files, get_free_slot_in_global, sys_close}
use os_elephant.FileTable.Slots.{Closed, sys_close-Closed}

-- Descriptor 3 stands for file 4, whose inode is at 1000, is 50 bytes long and opened once.
abbrev s : Files
s = record {
  file_table = λ g.
      if g == 4
      then record { fd_pos = 10; fd_flag = 2; fd_inode = some 1000 }
      else record { fd_pos = 0; fd_flag = 0; fd_inode = none };
  fd_table = λ fd. if ltb fd 4 then (if fd == 3 then some 4 else some fd) else none;
  inodes = λ a. record {
    i_no = 9;
    i_size = 50;
    i_open_cnts = 1;
    write_deny = false;
    i_sectors = λ i. 0;
  };
  links = record { prev = λ p. p; next = λ p. p; intr = false };
  freed = [];
}

third_is_first : get_free_slot_in_global s ≡ some 3
unfolding get_free_slot_in_global
third_is_first = refl

sys_close-Closed_example : (s' : Files) × (sys_close 3 s ≡ ok (some 0, s')) × Closed 3 4 1000 s s'
sys_close-Closed_example =
    sys_close-Closed 3 4 1000 s (omega arith) (omega arith) refl (omega arith) refl (omega arith)
      (omega arith)
