-- ===== src/Stdio.antt =====
-- Formatted output into memory: `itoa` and `vsprintf` of ch15/lib/stdio.c.
pub mod Digits
mod Tests
use os_elephant.Base.{
  ℕ, zero, suc, ◌+◌, ◌-◌, ◌/◌, ◌%◌, ◌^◌, ◌*◌, Bool, ◌||◌, List, [], ◌∷◌, ltb, leb, ◌==◌,
  if◌then◌else◌, Outcome, ok, fault, out_of_fuel, ◌>>=◌, ◌>>◌, u8,
}
use os_elephant.CString.{Memory, write, strcpy, strlen}

-- 0 to 9, then A to F.
unfoldable pub digit : ℕ → ℕ
digit m = if ltb m 10 then m + 48 else m - 10 + 65

-- The place behind the digits, and the memory.
unfoldable pub itoa : ℕ → ℕ → ℕ → ℕ → Memory → Outcome (ℕ × Memory)
unfolding digit
itoa zero value buf_ptr base mem = out_of_fuel
itoa (suc fuel) value buf_ptr base mem =
    let m = value % base in
    let i = value / base in
    let higher = itoa fuel i buf_ptr base mem in
    (if i == 0 then ok (buf_ptr, mem) else higher) >>= λ r. ok (r.0 + 1, write r.1 r.0 (digit m))

-- `%d`: the sign goes first, and the absolute value is taken in 32 bits.
unfoldable pub put_signed : ℕ → ℕ → ℕ → Memory → Outcome (ℕ × Memory)
unfolding itoa
put_signed fuel arg_int buf_ptr mem =
    let negative = itoa fuel (2 ^ 32 - arg_int) (buf_ptr + 1) 10 (write mem buf_ptr 45) in
    let positive = itoa fuel arg_int buf_ptr 10 mem in
    if leb (2 ^ 31) arg_int then negative else positive

unfoldable pub put_text : ℕ → ℕ → ℕ → Memory → Outcome (ℕ × Memory)
put_text fuel arg_str buf_ptr mem = do
  (_, mem) ← strcpy fuel buf_ptr arg_str mem
  len ← strlen fuel arg_str mem
  ok (buf_ptr + len, mem)

-- What a directive writes for its argument.
unfoldable pub directive : ℕ → ℕ → ℕ → ℕ → Memory → Outcome (ℕ × Memory)
unfolding itoa put_signed put_text
directive fuel kind arg buf_ptr mem =
    let hexadecimal = itoa fuel arg buf_ptr 16 mem in
    let text = put_text fuel arg buf_ptr mem in
    let decimal = put_signed fuel arg buf_ptr mem in
    if kind == 120
    then hexadecimal
    else if kind == 115
    then text
    else if kind == 99
    then ok (buf_ptr + 1, write mem buf_ptr (u8 arg))
    else decimal

-- The letters x, s, c and d.
abbrev pub is_directive : ℕ → Bool
is_directive c = (c == 120) || ((c == 115) || ((c == 99) || (c == 100)))

-- The arguments are the 32-bit words behind `format` on the stack; reading beyond them is a fault.
-- A percent sign before another letter is dropped.
unfoldable pub format_loop : ℕ → ℕ → ℕ → ℕ → List ℕ → Memory → Outcome Memory
unfolding directive
format_loop zero index_ptr index_char buf_ptr ap mem = out_of_fuel
format_loop (suc fuel) index_ptr index_char buf_ptr ap mem =
    let copied = write mem buf_ptr index_char in
    let plain = format_loop fuel (index_ptr + 1) (copied (index_ptr + 1)) (buf_ptr + 1) ap copied in
    let kind = mem (index_ptr + 1) in
    let dropped = format_loop fuel (index_ptr + 1) kind buf_ptr ap mem in
    let converted : Outcome Memory = elim ap [
      | [] ↦ fault
      | arg ∷ ap' ↦ directive fuel kind arg buf_ptr mem >>= λ r.
          format_loop fuel (index_ptr + 2) (r.1 (index_ptr + 2)) r.0 ap' r.1
    ] in
    if index_char == 0
    then ok mem
    else if index_char == 37
    then (if is_directive kind then converted else dropped)
    else plain

unfoldable pub vsprintf : ℕ → ℕ → ℕ → List ℕ → Memory → Outcome (ℕ × Memory)
unfolding format_loop
vsprintf fuel str format ap mem = do
  mem ← format_loop fuel format (mem format) str ap mem
  len ← strlen fuel str mem
  ok (len, mem)
