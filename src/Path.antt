-- ===== src/Path.antt =====
-- Path names: `path_parse` and `path_depth_cnt` of ch15/fs/fs.c, over one memory of bytes.
pub mod Parse
mod Tests
use os_elephant.Base.{
  ℕ, zero, suc, ◌+◌, Bool, true, false, ◌&&◌, Option, none, some, ◌==◌, neb, if◌then◌else◌, Outcome,
  ok, out_of_fuel, assert, ◌>>=◌, ◌>>◌,
}
use os_elephant.CString.{Memory, write, memset, null}

abbrev pub slash : ℕ
slash = 47

abbrev pub max_file_name_len : ℕ
max_file_name_len = 16

-- `while (*pathname == '/') pathname++`
unfoldable pub skip_slashes : ℕ → ℕ → Memory → Outcome ℕ
skip_slashes zero pathname m = out_of_fuel
skip_slashes (suc fuel) pathname m =
    let rest = skip_slashes fuel (pathname + 1) m in
    if m pathname == slash then rest else ok pathname

-- The name is copied up to the next slash or the end; nothing bounds its length.
unfoldable pub copy_name : ℕ → ℕ → ℕ → Memory → Outcome (ℕ × Memory)
copy_name zero pathname name_store m = out_of_fuel
copy_name (suc fuel) pathname name_store m =
    let rest = copy_name fuel (pathname + 1) (name_store + 1) (write m name_store (m pathname)) in
    if neb (m pathname) slash && neb (m pathname) 0 then rest else ok (pathname, m)

-- The rest of the path, or `none` for `NULL`, and the memory.
unfoldable pub path_parse : ℕ → ℕ → ℕ → Memory → Outcome (Option ℕ × Memory)
unfolding skip_slashes copy_name
path_parse fuel pathname name_store m = do
  pathname ← skip_slashes fuel pathname m
  (pathname, m) ← copy_name fuel pathname name_store m
  ok (if m pathname == 0 then none else some pathname, m)

abbrev pub parse_on : ℕ → Option ℕ → ℕ → Memory → Outcome (Option ℕ × Memory)
parse_on fuel none name m = ok (none, m)
parse_on fuel (some p) name m = path_parse fuel p name m

-- `rounds` bounds the loop over the components, and `fuel` the loops of each `path_parse`.
unfoldable pub depth_loop : ℕ → ℕ → Option ℕ → ℕ → ℕ → Memory → Outcome (ℕ × Memory)
unfolding path_parse
depth_loop zero fuel p name depth m = out_of_fuel
depth_loop (suc rounds) fuel p name depth m =
    let rest = memset name 0 max_file_name_len m >>= λ m.
    parse_on fuel p name m >>= λ r. depth_loop rounds fuel r.0 name (depth + 1) r.1 in
    if neb (m name) 0 then rest else ok (depth, m)

-- `name` is the array on the stack, which is not cleared before the first `path_parse`.
unfoldable pub path_depth_cnt : ℕ → ℕ → ℕ → ℕ → Memory → Outcome (ℕ × Memory)
unfolding depth_loop path_parse
path_depth_cnt rounds fuel pathname name m = do
  assert (neb pathname null)
  (p, m) ← path_parse fuel pathname name m
  depth_loop rounds fuel p name 0 m
