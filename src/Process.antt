-- ===== src/Process.antt =====
-- The page directory of a new process: `create_page_dir` of ch15/userprog/process.c.
pub mod Directory
mod Tests
use os_elephant.Base.{
  ℕ, zero, suc, ◌+◌, ◌-◌, ◌*◌, ◌/◌, ◌%◌, ◌^◌, Bool, true, false, Option, none, some, ltb, leb, ◌==◌,
  if◌then◌else◌, Outcome, ok, ◌>>=◌, add32, bit_or,
}
use os_elephant.Memory.{Pages, put_word, pg_size}
use os_elephant.Memory.Alloc.{get_kernel_pages, addr_v2p}

-- The place where a page directory shows itself, by its last entry.
abbrev pub current_dir : ℕ
current_dir = 0xfffff000

-- `memcpy` of a number of words, from the lowest on.
unfoldable pub copy_words : ℕ → ℕ → ℕ → Pages → Pages
copy_words zero dst src s = s
copy_words (suc left) dst src s = copy_words left (dst + 4) (src + 4) (put_word dst (s.words src) s)

-- PG_US_U, PG_RW_W and PG_P_1.
abbrev pub user_page : ℕ
user_page = 7

-- The address of the directory, or 0 for `NULL`.
unfoldable pub create_page_dir : Pages → Outcome (ℕ × Pages)
create_page_dir s = do
  (page_dir_vaddr, s₁) ← get_kernel_pages 1 s
  let shared = copy_words 256 (page_dir_vaddr + 0x300 * 4) (current_dir + 0x300 * 4) s₁
  let new_page_dir_phy_addr = addr_v2p page_dir_vaddr shared
  ok (
      if page_dir_vaddr == 0 then (0, s₁) else (
        page_dir_vaddr,
        put_word (page_dir_vaddr + 4 * 1023) (bit_or new_page_dir_phy_addr user_page) shared,
      ))
