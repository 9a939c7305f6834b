-- ===== src/Fork.antt =====
-- The copy of a process: ch15/userprog/fork.c. The two address spaces stand side by side; the page
-- table that `page_dir_activate` switches to says which one an access goes to.
pub mod Bits
pub mod Pages
pub mod Counts
pub mod Child
pub mod Closing
mod Tests
use os_elephant.Base.{
  ℕ, zero, suc, ◌+◌, ◌-◌, ◌*◌, ◌/◌, ◌%◌, ◌^◌, Bool, true, false, not, ◌&&◌, Option, none, some,
  List, [], ◌∷◌, ◌++◌, length, ltb, leb, ◌==◌, neb, if◌then◌else◌, Outcome, ok, fault, assert,
  ◌>>=◌, ◌>>◌, add32, mul32, u16,
}
use os_elephant.Base.Bytes.{bit_on}
use os_elephant.Base.Members.{has}
use os_elephant.Bitmap.{Bitmap}
use os_elephant.Thread.{Status, task_ready}
use os_elephant.Memory.{pg_size}
use os_elephant.Memory.Init.{MemBlockDesc, block_desc_init}
use os_elephant.FileTable.{Files, File, max_file_open, max_files_open_per_proc}
use os_elephant.Inode.{Inode}

-- `struct task_struct` with what `fork` reads and writes of it and of the stacks behind it: the
-- `eax` that the process will find, and whether the thread's stack returns to `intr_exit`. -1 in
-- the table is `none`.
pub record Task : Type 0 where
  pub pid : ℕ
  pub parent_pid : ℕ
  pub status : Status
  pub name : List ℕ
  pub priority : ℕ
  pub ticks : ℕ
  pub elapsed_ticks : ℕ
  pub fd_table : ℕ → Option ℕ
  pub has_pgdir : Bool
  pub vaddr_bitmap : Bitmap
  pub vaddr_start : ℕ
  pub u_block_desc : List MemBlockDesc
  pub eax : ℕ
  pub to_intr_exit : Bool

-- The pages of a process that are mapped, by number, the page tables that are there, by their
-- places in the page directory, and the bytes at its addresses.
pub record Space : Type 0 where
  pub mapped : ℕ → Bool
  pub tables : ℕ → Bool
  pub bytes : ℕ → ℕ

-- What the processes share: the last number given to one, the two lists of threads, the open files,
-- how many pages the user pool has left, and how many the kernel pool has besides those of
-- `Grants`.
pub record Shared : Type 0 where
  pub next_pid : ℕ
  pub thread_ready_list : List ℕ
  pub thread_all_list : List ℕ
  pub files : Files
  pub user_pages : ℕ
  pub kernel_pages : ℕ

-- The answers of `get_kernel_pages`: for the buffer, the bitmap and the page directory.
pub record Grants : Type 0 where
  pub buf_page : Bool
  pub bitmap : Bool
  pub page_dir : Bool

abbrev pub task_name_len : ℕ
task_name_len = 16

-- `_fork`
abbrev pub fork_suffix : List ℕ
fork_suffix = 95 ∷ (102 ∷ (111 ∷ (114 ∷ (107 ∷ []))))

-- The second loop of `strcat`, with the end of the string, into an array that has `room` bytes
-- left: what is written behind the array is a fault.
unfoldable pub put_letters : ℕ → List ℕ → Outcome (List ℕ)
put_letters zero cs = fault
put_letters (suc room) [] = ok []
put_letters (suc room) (c ∷ cs) = do rest ← put_letters room cs; ok (c ∷ rest)

-- `strcat`: the first loop goes to the end of the string in the array.
unfoldable pub append_name : ℕ → List ℕ → List ℕ → Outcome (List ℕ)
unfolding put_letters
append_name room [] src = put_letters room src
append_name zero (c ∷ cs) src = fault
append_name (suc room) (c ∷ cs) src = do rest ← append_name room cs src; ok (c ∷ rest)

unfoldable pub copy_pcb_vaddrbitmap_stack0 : Grants → Task → Shared → Outcome (Option Task × Shared)
unfolding append_name
copy_pcb_vaddrbitmap_stack0 grants parent_thread s =
    let pid = u16 (s.next_pid + 1) in
    let s' : Shared = record s { next_pid = pid } in
    let child : Task = record parent_thread {
      pid = pid;
      elapsed_ticks = 0;
      status = task_ready;
      ticks = parent_thread.priority;
      parent_pid = parent_thread.pid;
      u_block_desc = block_desc_init;
    } in
    let named = append_name task_name_len child.name fork_suffix >>= λ name.
    ok (some (record child { name = name }), s') in
    if grants.bitmap then named else ok (none, s')

abbrev pub page_of : ℕ → ℕ
page_of q = q / pg_size

-- The place of a page's table in the page directory.
abbrev pub table_of : ℕ → ℕ
table_of p = p / 1024

-- One page through the buffer. `get_a_page_without_opvaddrbitmap` may get no page; its answer is
-- not looked at, and then the page is written without being mapped. A missing page table takes a
-- page of the kernel pool; if there is none, the entry stands for no page. A page that the child
-- has already, as the kernel's are, fails the `ASSERT` of `page_table_add`. The numbers are those
-- of the pages that the user pool and the kernel pool have left.
unfoldable pub copy_page : ℕ → Space → Space × ℕ × ℕ → Outcome (Space × ℕ × ℕ)
copy_page prog_vaddr parent (child, user_pages, kernel_pages) =
    let page = page_of prog_vaddr in
    let copied : Space = record {
      mapped = λ p. if p == page then true else child.mapped p;
      tables = λ i. if i == table_of page then true else child.tables i;
      bytes = λ q. if page_of q == page then parent.bytes q else child.bytes q;
    } in
    let into_table =
      assert (not (child.mapped page)) >> ok (copied, user_pages - 1, kernel_pages) in
    let new_table =
      if ltb 0 kernel_pages then ok (copied, user_pages - 1, kernel_pages - 1) else fault in
    let added = if child.tables (table_of page) then into_table else new_table in
    let unadded = if child.mapped page then ok (copied, user_pages, kernel_pages) else fault in
    if parent.mapped page then (if ltb 0 user_pages then added else unadded) else fault

unfoldable pub copy_bits : ℕ → ℕ → ℕ → ℕ → ℕ → Space → Space × ℕ × ℕ → Outcome (Space × ℕ × ℕ)
copy_bits zero byte idx_byte idx_bit vaddr_start parent c = ok c
copy_bits (suc left) byte idx_byte idx_bit vaddr_start parent c =
    let prog_vaddr = add32 (mul32 (idx_byte * 8 + idx_bit) pg_size) vaddr_start in
    (if bit_on byte idx_bit then copy_page prog_vaddr parent c else ok c)
    >>= copy_bits left byte idx_byte (idx_bit + 1) vaddr_start parent

unfoldable pub copy_bytes : ℕ → Bitmap → ℕ → ℕ → Space → Space × ℕ × ℕ → Outcome (Space × ℕ × ℕ)
copy_bytes zero vaddr_btmp idx_byte vaddr_start parent c = ok c
copy_bytes (suc left) vaddr_btmp idx_byte vaddr_start parent c =
    let byte = vaddr_btmp.bits idx_byte in
    (if byte == 0 then ok c else copy_bits 8 byte idx_byte 0 vaddr_start parent c)
    >>= copy_bytes left vaddr_btmp (idx_byte + 1) vaddr_start parent

unfoldable pub copy_body_stack3 : Task → Space → Space × ℕ × ℕ → Outcome (Space × ℕ × ℕ)
copy_body_stack3 parent_thread parent c =
    copy_bytes parent_thread.vaddr_bitmap.btmp_bytes_len parent_thread.vaddr_bitmap 0
      parent_thread.vaddr_start parent c

unfoldable pub build_child_stack : Task → Task
build_child_stack child_thread = record child_thread { eax = 0; to_intr_exit = true }

-- One more opening of the inode of a file.
abbrev pub open_again : ℕ → Files → Files
open_again a s = record s {
  inodes = λ b.
      if b == a
      then record (s.inodes b) { i_open_cnts = add32 (s.inodes b).i_open_cnts 1 }
      else s.inodes b;
}

-- A file of the table without an inode makes the code follow `NULL`.
unfoldable pub count_loop : ℕ → ℕ → Task → Files → Outcome Files
count_loop zero local_fd thread s = ok s
count_loop (suc left) local_fd thread s =
    let counted : Outcome Files = elim (thread.fd_table local_fd) [
      | none ↦ ok s
      | some global_fd ↦
          assert (ltb global_fd max_file_open)
          >> elim (s.file_table global_fd).fd_inode [ none ↦ fault | some a ↦ ok (open_again a s) ]
    ] in
    counted >>= count_loop left (local_fd + 1) thread

unfoldable pub update_inode_open_cnts : Task → Files → Outcome Files
update_inode_open_cnts thread s = count_loop (max_files_open_per_proc - 3) 3 thread s

-- A fresh page directory holds the kernel's part only, from 0xc0000000 on. What the bytes of that
-- part are is not followed.
abbrev pub kernel_only : Space
kernel_only = record { mapped = λ p. leb 0xc0000 p; tables = λ i. leb 768 i; bytes = λ q. 0 }

-- `none` is -1. The buffer goes back in the end, and otherwise stays taken.
unfoldable pub copy_process :
    Grants → Task → Space → Shared → Outcome (Option (Task × Space) × Shared)
copy_process grants parent_thread parent s =
    let copied = copy_pcb_vaddrbitmap_stack0 grants parent_thread s >>= λ r. elim r.0 [
      | none ↦ ok (none, r.1)
      | some child_thread ↦
          if grants.page_dir
          then (copy_body_stack3 parent_thread parent
                (kernel_only, r.1.user_pages, r.1.kernel_pages)
              >>= λ c.
                  (let child = build_child_stack (record child_thread { has_pgdir = true }) in
                    update_inode_open_cnts child r.1.files >>= λ files. ok (
                      some (child, c.0),
                      record (r.1) { files = files; user_pages = c.1; kernel_pages = c.2 },
                    )))
          else ok (none, r.1)
    ] in
    if grants.buf_page then copied else ok (none, s)

-- `child_addr` is the page that `get_kernel_pages` gives for the new process, if it gives one;
-- `intr` is the interrupt flag. `none` is a return of -1 without a new process; else the number is
-- the 16 bits of a `pid_t`, of which the caller reads 2 ^ 15 and more as negative.
unfoldable pub sys_fork :
    Bool → Option ℕ → Grants → Task → Space → Shared → Outcome (Option (ℕ × Task × Space) × Shared)
sys_fork intr none grants parent_thread parent s = ok (none, s)
sys_fork intr (some child_addr) grants parent_thread parent s =
    assert (not intr && parent_thread.has_pgdir)
    >> (copy_process grants parent_thread parent s >>= λ r. elim r.0 [
      | none ↦ ok (none, r.1)
      | some child ↦
          assert (not (has child_addr r.1.thread_ready_list))
          >> (assert (not (has child_addr r.1.thread_all_list))
              >> ok (
                some (child.0.pid, child.0, child.1),
                record (r.1) {
                  thread_ready_list = r.1.thread_ready_list ++ (child_addr ∷ []);
                  thread_all_list = r.1.thread_all_list ++ (child_addr ∷ []);
                },
              ))
    ])
