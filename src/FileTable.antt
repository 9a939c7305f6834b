-- ===== src/FileTable.antt =====
-- Open files: the table of the system and that of a process, in ch15/fs/file.c, ch15/fs/fs.c and
-- `inode_close` of ch15/fs/inode.c.
pub mod Slots
pub mod Seek
mod Tests
use os_elephant.Base.{
  ℕ, zero, suc, ◌+◌, ◌-◌, ◌%◌, ◌^◌, Bool, true, false, ◌&&◌, ◌||◌, Option, none, some, List, [],
  ◌∷◌, ltb, leb, ◌==◌, if◌then◌else◌, Outcome, ok, fault, out_of_fuel, assert, ◌>>=◌, ◌>>◌, add32,
  sub32,
}
use os_elephant.KernelList.{Links, list_remove}
use os_elephant.Inode.{Inode}

abbrev pub max_file_open : ℕ
max_file_open = 32

abbrev pub max_files_open_per_proc : ℕ
max_files_open_per_proc = 8

-- `fd_inode` is an address, or `NULL`.
pub record File : Type 0 where
  pub fd_pos : ℕ
  pub fd_flag : ℕ
  pub fd_inode : Option ℕ

-- `fd_table` is the running thread's, where -1 is `none`. `inodes` and `links` are the inodes in
-- memory and their list links, by address; `freed` holds the addresses given to `sys_free`.
pub record Files : Type 0 where
  pub file_table : ℕ → File
  pub fd_table : ℕ → Option ℕ
  pub inodes : ℕ → Inode
  pub links : Links
  pub freed : List ℕ

abbrev pub is_free : Option ℕ → Bool
is_free none = true
is_free (some a) = false

-- `while (fd_idx < MAX_FILE_OPEN)`
unfoldable pub slot_loop : ℕ → ℕ → (ℕ → File) → ℕ
slot_loop zero fd_idx table = fd_idx
slot_loop (suc left) fd_idx table =
    let rest = slot_loop left (fd_idx + 1) table in
    if is_free (table fd_idx).fd_inode then fd_idx else rest

unfoldable pub get_free_slot_in_global : Files → Option ℕ
unfolding slot_loop
get_free_slot_in_global s =
    let fd_idx = slot_loop (max_file_open - 3) 3 s.file_table in
    if fd_idx == max_file_open then none else some fd_idx

abbrev pub set_fd : ℕ → Option ℕ → Files → Files
set_fd fd v s = record s { fd_table = λ i. if fd == i then v else s.fd_table i }

-- The loop does not advance its index.
unfoldable pub install_loop : ℕ → ℕ → ℕ → Files → Outcome (ℕ × Files)
install_loop zero local_fd_idx global_fd_idx s = out_of_fuel
install_loop (suc fuel) local_fd_idx global_fd_idx s =
    let rest = install_loop fuel local_fd_idx global_fd_idx s in
    if ltb local_fd_idx max_files_open_per_proc
    then (if is_free (s.fd_table local_fd_idx)
        then ok (local_fd_idx, set_fd local_fd_idx (some global_fd_idx) s)
        else rest)
    else ok (local_fd_idx, s)

unfoldable pub pcb_fd_install : ℕ → ℕ → Files → Outcome (Option ℕ × Files)
unfolding install_loop
pcb_fd_install fuel global_fd_idx s = do
  (local_fd_idx, s') ← install_loop fuel 3 global_fd_idx s
  ok (if local_fd_idx == max_files_open_per_proc then none else some local_fd_idx, s')

-- A descriptor outside the process's table is read from the memory behind it.
unfoldable pub fd_local2global : ℕ → Files → Outcome ℕ
fd_local2global local_fd s =
    let entry : Outcome ℕ = elim (s.fd_table local_fd) [
      | none ↦ Outcome.panic
      | some global_fd ↦ assert (ltb global_fd max_file_open) >> ok global_fd
    ] in
    if ltb local_fd max_files_open_per_proc then entry else fault

abbrev pub set_inode : ℕ → Inode → Files → Files
set_inode a i s = record s { inodes = λ b. if a == b then i else s.inodes b }

-- The last close takes the inode off the list of open inodes and frees it.
unfoldable pub inode_close : ℕ → Files → Files
inode_close a s =
    let i = s.inodes a in
    let left = sub32 i.i_open_cnts 1 in
    let counted = set_inode a (record i { i_open_cnts = left }) s in
    if left == 0
    then record counted { links = list_remove a s.links; freed = a ∷ s.freed }
    else counted

abbrev pub set_file : ℕ → File → Files → Files
set_file g f s = record s { file_table = λ i. if g == i then f else s.file_table i }

unfoldable pub close_file : ℕ → Files → Option ℕ → Outcome Files
unfolding inode_close
close_file g s none = fault
close_file g s (some a) =
    let s' = inode_close a (set_inode a (record (s.inodes a) { write_deny = false }) s) in
    ok (set_file g (record (s.file_table g) { fd_inode = none }) s')

unfoldable pub file_close : ℕ → Files → Outcome Files
unfolding close_file
file_close g s = close_file g s (s.file_table g).fd_inode

-- `none` is -1: a standard descriptor, or a negative one, which is at least 2 ^ 31 here.
unfoldable pub sys_close : ℕ → Files → Outcome (Option ℕ × Files)
unfolding fd_local2global file_close
sys_close fd s =
    let closed = fd_local2global fd s >>= λ global_fd.
    file_close global_fd s >>= λ s'. ok (some 0, set_fd fd none s') in
    if ltb 2 fd && ltb fd (2 ^ 31) then closed else ok (none, s)

pub data Whence : Type 0 where
  seek_set : Whence
  seek_cur : Whence
  seek_end : Whence

-- The place of an `int32_t` in its order.
abbrev pub signed : ℕ → ℕ
signed x = (x + 2 ^ 31) % 2 ^ 32

-- Below `fd_local2global` in `sys_lseek`.
unfoldable pub seek_file : ℕ → ℕ → Whence → Files → Option ℕ → Outcome (Option ℕ × Files)
seek_file g offset whence s none = fault
seek_file g offset whence s (some a) =
    let pf = s.file_table g in
    let file_size = (s.inodes a).i_size in
    let new_pos : ℕ = elim whence [
      | seek_set ↦ offset
      | seek_cur ↦ add32 pf.fd_pos offset
      | seek_end ↦ add32 file_size offset
    ] in
    ok (
      if leb (2 ^ 31) new_pos || ltb (signed (sub32 file_size 1)) (signed new_pos)
      then (none, s)
      else (some new_pos, set_file g (record pf { fd_pos = new_pos }) s))

-- `offset` is an `int32_t`; the `ASSERT` on `whence` is its type here.
unfoldable pub sys_lseek : ℕ → ℕ → Whence → Files → Outcome (Option ℕ × Files)
unfolding fd_local2global seek_file
sys_lseek fd offset whence s =
    let seek : Outcome (Option ℕ × Files) = fd_local2global fd s >>= λ global_fd.
    seek_file global_fd offset whence s (s.file_table global_fd).fd_inode in
    if ltb fd (2 ^ 31) then seek else ok (none, s)
