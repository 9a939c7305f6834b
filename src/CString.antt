-- ===== src/CString.antt =====
-- Bytes and strings in memory: ch15/lib/string.c. Memory is a function from addresses to bytes, so
-- that a source and a destination may share bytes. A loop that ends at a NUL runs on fuel.
pub mod Copy
pub mod Text
pub mod Join
pub mod Search
mod Tests
use os_elephant.Base.{
  ℕ, zero, suc, ◌+◌, ◌-◌, Bool, true, false, ◌&&◌, Option, none, some, ◌==◌, neb, ltb, leb,
  if◌then◌else◌, Outcome, ok, out_of_fuel, assert, ◌>>=◌, ◌>>◌,
}

abbrev pub Memory : Type 0
Memory = ℕ → ℕ

abbrev pub write : Memory → ℕ → ℕ → Memory
write m p v q = if p == q then v else m q

abbrev pub null : ℕ
null = 0

abbrev pub not_null : ℕ → Outcome (Unit {0})
not_null p = assert (neb p null)

unfoldable pub set_loop : ℕ → ℕ → ℕ → Memory → Memory
set_loop zero dst value m = m
set_loop (suc size) dst value m = set_loop size (dst + 1) value (write m dst value)

unfoldable pub memset : ℕ → ℕ → ℕ → Memory → Outcome Memory
unfolding set_loop
memset dst value size m = not_null dst >> ok (set_loop size dst value m)

unfoldable pub copy_loop : ℕ → ℕ → ℕ → Memory → Memory
copy_loop zero dst src m = m
copy_loop (suc size) dst src m = copy_loop size (dst + 1) (src + 1) (write m dst (m src))

unfoldable pub memcpy : ℕ → ℕ → ℕ → Memory → Outcome Memory
unfolding copy_loop
memcpy dst src size m = not_null dst >> (not_null src >> ok (copy_loop size dst src m))

-- `char` is signed: 128 is added to compare two of them by their unsigned values.
abbrev pub signed_order : ℕ → ℕ
signed_order c = if ltb c 128 then c + 128 else c - 128

-- The result of a comparison, for -1, 0 and 1.
pub data Sign : Type 0 where
  minus same plus : Sign

unfoldable pub cmp_loop : ℕ → ℕ → ℕ → Memory → Sign
cmp_loop zero a b m = same
cmp_loop (suc size) a b m =
    let rest = cmp_loop size (a + 1) (b + 1) m in
    if m a == m b
    then rest
    else if ltb (signed_order (m b)) (signed_order (m a))
    then plus
    else minus

-- The test wants one of the two pointers only.
unfoldable pub memcmp : ℕ → ℕ → ℕ → Memory → Outcome Sign
unfolding cmp_loop
memcmp a b size m = assert (if neb a null then true else neb b null) >> ok (cmp_loop size a b m)

unfoldable pub strcpy_loop : ℕ → ℕ → ℕ → Memory → Outcome Memory
strcpy_loop zero dst src m = out_of_fuel
strcpy_loop (suc fuel) dst src m =
    let copied = write m dst (m src) in
    let rest = strcpy_loop fuel (dst + 1) (src + 1) copied in if m src == 0 then ok copied else rest

-- The pointer and the memory.
unfoldable pub strcpy : ℕ → ℕ → ℕ → Memory → Outcome (ℕ × Memory)
unfolding strcpy_loop
strcpy fuel dst src m = do not_null dst; not_null src; m' ← strcpy_loop fuel dst src m; ok (dst, m')

unfoldable pub strlen_loop : ℕ → ℕ → Memory → Outcome ℕ
strlen_loop zero p m = out_of_fuel
strlen_loop (suc fuel) p m =
    let rest = strlen_loop fuel (p + 1) m in if m p == 0 then ok (p + 1) else rest

unfoldable pub strlen : ℕ → ℕ → Memory → Outcome ℕ
unfolding strlen_loop
strlen fuel str m = do not_null str; p ← strlen_loop fuel str m; ok (p - str - 1)

-- `*a < *b ? -1 : *a > *b`
unfoldable pub order : ℕ → ℕ → Sign
order c d =
    if ltb (signed_order c) (signed_order d)
    then minus
    else if ltb (signed_order d) (signed_order c)
    then plus
    else same

unfoldable pub strcmp_loop : ℕ → ℕ → ℕ → Memory → Outcome Sign
unfolding order
strcmp_loop zero a b m = out_of_fuel
strcmp_loop (suc fuel) a b m =
    let rest = strcmp_loop fuel (a + 1) (b + 1) m in
    if neb (m a) 0 && (m a == m b) then rest else ok (order (m a) (m b))

unfoldable pub strcmp : ℕ → ℕ → ℕ → Memory → Outcome Sign
unfolding strcmp_loop
strcmp fuel a b m = not_null a >> (not_null b >> strcmp_loop fuel a b m)

-- A signed `char` equals the unsigned `ch` only below 128.
abbrev pub char_is : ℕ → ℕ → Bool
char_is c ch = ltb c 128 && (c == ch)

unfoldable pub strchr_loop : ℕ → ℕ → ℕ → Memory → Outcome (Option ℕ)
strchr_loop zero str ch m = out_of_fuel
strchr_loop (suc fuel) str ch m =
    let rest = strchr_loop fuel (str + 1) ch m in
    if m str == 0 then ok none else if char_is (m str) ch then ok (some str) else rest

unfoldable pub strchr : ℕ → ℕ → ℕ → Memory → Outcome (Option ℕ)
unfolding strchr_loop
strchr fuel str ch m = not_null str >> strchr_loop fuel str ch m

unfoldable pub strrchr_loop : ℕ → ℕ → ℕ → Option ℕ → Memory → Outcome (Option ℕ)
strrchr_loop zero str ch last_char m = out_of_fuel
strrchr_loop (suc fuel) str ch last_char m =
    let rest =
      strrchr_loop fuel (str + 1) ch (if char_is (m str) ch then some str else last_char) m in
    if m str == 0 then ok last_char else rest

unfoldable pub strrchr : ℕ → ℕ → ℕ → Memory → Outcome (Option ℕ)
unfolding strrchr_loop
strrchr fuel str ch m = not_null str >> strrchr_loop fuel str ch none m

-- The end of the destination is found as `strlen` finds it, one past the NUL and back.
unfoldable pub strcat : ℕ → ℕ → ℕ → Memory → Outcome (ℕ × Memory)
unfolding strlen_loop strcpy_loop
strcat fuel dst src m = do
  not_null dst
  not_null src
  str ← strlen_loop fuel dst m
  m' ← strcpy_loop fuel (str - 1) src m
  ok (dst, m')

unfoldable pub count_loop : ℕ → ℕ → ℕ → ℕ → Memory → Outcome ℕ
count_loop zero p ch ch_cnt m = out_of_fuel
count_loop (suc fuel) p ch ch_cnt m =
    let rest = count_loop fuel (p + 1) ch (if char_is (m p) ch then ch_cnt + 1 else ch_cnt) m in
    if m p == 0 then ok ch_cnt else rest

unfoldable pub strchrs : ℕ → ℕ → ℕ → Memory → Outcome ℕ
unfolding count_loop
strchrs fuel str ch m = not_null str >> count_loop fuel str ch 0 m
