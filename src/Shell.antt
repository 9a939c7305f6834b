-- ===== src/Shell.antt =====
-- The shell: `cmd_parse` of ch15/shell/shell.c.
pub mod Words
mod Tests
use os_elephant.Base.{
  ℕ, zero, suc, ◌+◌, Bool, true, false, ◌&&◌, Option, none, some, ◌==◌, neb, ltb, if◌then◌else◌,
  Outcome, ok, out_of_fuel, assert, ◌>>=◌, ◌>>◌,
}
use os_elephant.CString.{Memory, write, null}

abbrev pub max_arg_nr : ℕ
max_arg_nr = 16

-- `while (*next == token) next++`
unfoldable pub skip_token : ℕ → ℕ → ℕ → Memory → Outcome ℕ
skip_token zero next token m = out_of_fuel
skip_token (suc fuel) next token m =
    let rest = skip_token fuel (next + 1) token m in if m next == token then rest else ok next

-- `while (*next && &next != token) next++`: what is compared with the token is the address of the
-- variable.
unfoldable pub skip_word : ℕ → ℕ → ℕ → ℕ → Memory → Outcome ℕ
skip_word zero next next_addr token m = out_of_fuel
skip_word (suc fuel) next next_addr token m =
    let rest = skip_word fuel (next + 1) next_addr token m in
    if neb (m next) 0 && neb next_addr token then rest else ok next

abbrev pub Argv : Type 0
Argv = ℕ → Option ℕ

abbrev pub put_arg : ℕ → ℕ → Argv → Argv
put_arg argc next argv i = if i == argc then some next else argv i

-- The number of arguments, or `none` for -1, the array and the memory. `rounds` bounds the loop
-- over the words, `fuel` those in a word.
unfoldable pub parse_words :
    ℕ → ℕ → ℕ → ℕ → ℕ → ℕ → Argv → Memory → Outcome (Option ℕ × Argv × Memory)
unfolding skip_token skip_word
parse_words zero fuel next next_addr token argc argv m = out_of_fuel
parse_words (suc rounds) fuel next next_addr token argc argv m =
    let word = skip_token fuel next token m >>= λ start.
    (let argv' = put_arg argc start argv in
      let cut = skip_word fuel start next_addr token m >>= λ end.
      (let ended = parse_words rounds fuel end next_addr token (argc + 1) argv' m in
        let cut_off =
          parse_words rounds fuel (end + 1) next_addr token (argc + 1) argv' (write m end 0) in
        let m' = if m end == 0 then m else write m end 0 in
        if ltb max_arg_nr argc
        then ok (none, argv', m')
        else if m end == 0
        then ended
        else cut_off) in
      if m start == 0 then ok (some argc, argv, m) else cut) in
    if m next == 0 then ok (some argc, argv, m) else word

unfoldable pub cmd_parse : ℕ → ℕ → ℕ → ℕ → ℕ → Memory → Outcome (Option ℕ × Argv × Memory)
unfolding parse_words
cmd_parse rounds fuel cmd_str next_addr token m =
    assert (neb cmd_str null) >> parse_words rounds fuel cmd_str next_addr token 0 (λ i. none) m
