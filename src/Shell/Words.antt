-- ===== src/Shell/Words.antt =====
-- What `cmd_parse` of ch15/shell/shell.c makes of a line.
use os_elephant.Base.{
  neq_false, ℕ, zero, suc, ◌+◌, ◌<◌, ◌≤◌, ◌≡◌, ◌≢◌, inl, inr, refl, sym, ◌∙◌, true, false, ◌&&◌,
  List, [], ◌∷◌, length, none, some, ◌==◌, neb, ok, arith, Bool-cases, ==_iff,
}
use os_elephant.CString.{Memory}
use os_elephant.CString.Text.{CStr}
use os_elephant.Shell.{skip_token, skip_word, Argv, put_arg, parse_words, cmd_parse}

-- Behind the tokens a rest of the text stands.
skip_token_lem :
    (fuel p token : ℕ) (m : Memory) (s : List ℕ)
    → token ≢ 0
    → CStr m p s
    → length s < fuel
    → (p' : ℕ) × (s' : List ℕ) × (skip_token fuel p token m ≡ ok p')
      × CStr m p' s'
      × (length s' ≤ length s)
unfolding skip_token
skip_token_lem zero p token m s nt c h = absurd (omega arith)
skip_token_lem (suc fuel) p token m [] nt c h =
    let e : (m p == token) ≡ false = neq_false (m p) token (λ z. nt (sym z ∙ c)) in
    (p, [], rw e refl, c, omega arith)
skip_token_lem (suc fuel) p token m (x ∷ s) nt c h = elim (Bool-cases (m p == token)) [
  | inl e ↦
      let (p', s', run, c', le) = skip_token_lem fuel (p + 1) token m s nt c.3 (omega arith) in
      (p', s', rw e run, c', omega (arith, le))
  | inr e ↦ (p, x ∷ s, rw e refl, c, omega arith)
]

-- A word goes on to the end of the text.
skip_word_lem :
    (fuel p next_addr token : ℕ) (m : Memory) (s : List ℕ)
    → next_addr ≢ token
    → CStr m p s
    → length s < fuel
    → (end : ℕ) × (skip_word fuel p next_addr token m ≡ ok end) × (m end ≡ 0)
unfolding skip_word
skip_word_lem zero p next_addr token m s ne c h = absurd (omega arith)
skip_word_lem (suc fuel) p next_addr token m [] ne c h =
    let e : (neb (m p) 0 && neb next_addr token) ≡ false = ground (arith, c) in (p, rw e refl, c)
skip_word_lem (suc fuel) p next_addr token m (x ∷ s) ne c h =
    let e : (neb (m p) 0 && neb next_addr token) ≡ true = ground (arith, c.0, c.1) in
    let (end, run, stop) = skip_word_lem fuel (p + 1) next_addr token m s ne c.3 (omega arith) in
    (end, rw e run, stop)

parse_end :
    (rounds fuel next next_addr token argc : ℕ) (argv : Argv) (m : Memory)
    → m next ≡ 0
    → parse_words (suc rounds) fuel next next_addr token argc argv m ≡ ok (some argc, argv, m)
unfolding parse_words
parse_end rounds fuel next next_addr token argc argv m e =
    let stop : (m next == 0) ≡ true = (==_iff _ _).1 e in rw stop refl

parse_blank :
    (rounds fuel next next_addr token argc start : ℕ) (argv : Argv) (m : Memory)
    → (m next == 0) ≡ false
    → skip_token fuel next token m ≡ ok start
    → m start ≡ 0
    → parse_words (suc rounds) fuel next next_addr token argc argv m ≡ ok (some argc, argv, m)
unfolding parse_words
parse_blank rounds fuel next next_addr token argc start argv m e skip blank =
    let stop : (m start == 0) ≡ true = (==_iff _ _).1 blank in rw (e, skip, stop) refl

parse_word :
    (rounds fuel next next_addr token start end : ℕ) (argv : Argv) (m : Memory)
    → (m next == 0) ≡ false
    → skip_token fuel next token m ≡ ok start
    → (m start == 0) ≡ false
    → skip_word fuel start next_addr token m ≡ ok end
    → m end ≡ 0
    → parse_words (suc rounds) fuel next next_addr token 0 argv m
      ≡ parse_words rounds fuel end next_addr token 1 (put_arg 0 start argv) m
unfolding parse_words
parse_word rounds fuel next next_addr token start end argv m e skip there word stop =
    let ended : (m end == 0) ≡ true = (==_iff _ _).1 stop in rw (e, skip, there, word, ended) refl

-- A line that is a text at an address other than `NULL`, a token other than NUL that is not by
-- chance the address of the variable, fuel above the length and two rounds: `cmd_parse` returns, it
-- leaves the line as it is, and it finds one argument at most, whatever tokens stand in the line.
pub cmd_parse_one :
    (rounds fuel cmd_str next_addr token : ℕ) (m : Memory) (s : List ℕ)
    → 1 < rounds
    → cmd_str ≢ 0
    → token ≢ 0
    → next_addr ≢ token
    → CStr m cmd_str s
    → length s < fuel
    → (argc : ℕ) × (argv : Argv) × (cmd_parse rounds fuel cmd_str next_addr token m
        ≡ ok (some argc, argv, m))
      × (argc ≤ 1)
unfolding cmd_parse
cmd_parse_one zero fuel cmd_str next_addr token m s two nc nt ne c h = absurd (omega arith)
cmd_parse_one (suc zero) fuel cmd_str next_addr token m s two nc nt ne c h = absurd (omega arith)
cmd_parse_one (suc (suc rounds)) fuel cmd_str next_addr token m s two nc nt ne c h =
    let there : neb cmd_str 0 ≡ true = ground arith in
    let (start, s', skip, c', le) = skip_token_lem fuel cmd_str token m s nt c h in
    let (end, word, stop) =
      skip_word_lem fuel start next_addr token m s' ne c' (omega (arith, le)) in
    let none_yet : Argv = λ i. none in
    elim (Bool-cases (m cmd_str == 0)) [
      | inl e ↦ (
        0,
        none_yet,
        rw there
            (parse_end (suc rounds) fuel cmd_str next_addr token 0 none_yet m ((==_iff _ _).0 e)),
        omega arith,
      )
      | inr e ↦ elim (Bool-cases (m start == 0)) [
        | inl blank ↦ (
          0,
          none_yet,
          rw there (
              parse_blank (suc rounds) fuel cmd_str next_addr token 0 start none_yet m e skip
                ((==_iff _ _).0 blank)),
          omega arith,
        )
        | inr some_word ↦ (
          1,
          put_arg 0 start none_yet,
          rw there (
              parse_word (suc rounds) fuel cmd_str next_addr token start end none_yet m e skip
                some_word word stop
              ∙ parse_end rounds fuel end next_addr token 1 (put_arg 0 start none_yet) m stop),
          omega arith,
        )
      ]
    ]
