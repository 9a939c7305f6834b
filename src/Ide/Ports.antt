-- ===== src/Ide/Ports.antt =====
-- What a drive makes of the log of its ports: the registers of ch15/device/ide.c as a drive reads
-- them.
use os_elephant.Base.{
  ℕ, zero, suc, ◌+◌, ◌*◌, ◌%◌, ◌^◌, ◌≡◌, refl, ap, Bool, ◌&&◌, List, [], ◌∷◌, ◌++◌, ◌==◌,
  if◌then◌else◌, arith,
}
use os_elephant.Base.Bytes.{bit_on}
use os_elephant.Ide.{Event, outb, insw, outsw, sleep, Driver, put_event}
use os_elephant.Ide.Wait.{slept}

-- The value that was last written to a port.
unfoldable pub last_out : ℕ → List Event → ℕ
last_out p [] = 0
last_out p (outb q v ∷ older) = if p == q then v else last_out p older
last_out p (insw q a n ∷ older) = last_out p older
last_out p (outsw q a n ∷ older) = last_out p older
last_out p (sleep t ∷ older) = last_out p older

-- One sector that a command moves: from or to the drive, which drive, its number there, its address
-- in memory.
pub record Sector : Type 0 where
  pub cmd : ℕ
  pub slave : Bool
  pub lba : ℕ
  pub buf : ℕ

-- Sectors one behind the other, on the drive and in memory.
unfoldable pub run : ℕ → Bool → ℕ → ℕ → ℕ → List Sector
run cmd slave lba buf zero = []
run cmd slave lba buf (suc n) =
    record { cmd = cmd; slave = slave; lba = lba; buf = buf }
    ∷ run cmd slave (lba + 1) (buf + 512) n

pub run-add :
    (cmd : ℕ) (slave : Bool) (lba buf m n : ℕ)
    → run cmd slave lba buf m ++ run cmd slave (lba + m) (buf + m * 512) n
      ≡ run cmd slave lba buf (m + n)
unfolding run
run-add cmd slave lba buf zero n =
    let e1 : lba + 0 ≡ lba = omega arith in
    let e2 : buf + 0 ≡ buf = omega arith in let e3 : 0 + n ≡ n = omega arith in rw (e1, e2, e3) refl
run-add cmd slave lba buf (suc m) n =
    let e1 : lba + suc m ≡ lba + 1 + m = omega arith in
    let e2 : buf + suc m * 512 ≡ buf + 512 + m * 512 = omega arith in
    let e3 : suc m + n ≡ suc (m + n) = omega arith in
    rw (e1, e2, e3)
      (ap (λ r. record { cmd = cmd; slave = slave; lba = lba; buf = buf } ∷ r)
        (run-add cmd slave (lba + 1) (buf + 512) m n))

-- The 28 bits of the sector's number: three registers, and the low half of the device register.
abbrev pub first_lba : ℕ → List Event → ℕ
first_lba base log =
    last_out (base + 3) log
    + (2 ^ 8 * last_out (base + 4) log
        + (2 ^ 16 * last_out (base + 5) log + 2 ^ 24 * (last_out (base + 6) log % 16)))

-- 0 stands for 256.
abbrev pub sector_count : ℕ → List Event → ℕ
sector_count base log = if last_out (base + 2) log == 0 then 256 else last_out (base + 2) log

-- The log as it stood when the last command was written, the command on top. What is written to the
-- other registers after it is not in it, and a transfer ends the command.
unfoldable pub at_command : ℕ → List Event → List Event
at_command base [] = []
at_command base (outb q v ∷ older) =
    if q == base + 7 then outb q v ∷ older else at_command base older
at_command base (insw q a n ∷ older) = []
at_command base (outsw q a n ∷ older) = []
at_command base (sleep t ∷ older) = at_command base older

-- The sectors of the command on top of a log, if the transfer has its direction and its words.
unfoldable pub carried : ℕ → ℕ → ℕ → ℕ → ℕ → List Event → List Sector
carried base cmd port buf words log =
    if port == base && (last_out (base + 7) log == cmd && words == 256 * sector_count base log)
    then run cmd (bit_on (last_out (base + 6) log) 4) (first_lba base log) buf
        (sector_count base log)
    else []

-- What a transfer of words at the data port moves: all sectors of the command that was given, with
-- the registers as they stood when it was written, if the command is the one for this direction and
-- the words are as many as it wants, else nothing.
unfoldable pub answered : ℕ → ℕ → ℕ → ℕ → ℕ → List Event → List Sector
answered base cmd port buf words log = carried base cmd port buf words (at_command base log)

-- All sectors that were moved, in order.
unfoldable pub moved : ℕ → List Event → List Sector
moved base [] = []
moved base (insw port buf words ∷ older) = moved base older ++ answered base 32 port buf words older
moved base (outsw port buf words ∷ older) =
    moved base older ++ answered base 48 port buf words older
moved base (outb port v ∷ older) = moved base older
moved base (sleep t ∷ older) = moved base older

-- Sleeping neither gives a command nor ends one.
at_command-slept :
    (base tries : ℕ) (s : Driver) → at_command base (slept tries s).log ≡ at_command base s.log
unfolding slept at_command
at_command-slept base zero s = refl
at_command-slept base (suc tries) s =
    at_command-slept base tries (put_event (sleep 10) (record s { readings = s.readings + 1 }))

pub moved-slept : (base tries : ℕ) (s : Driver) → moved base (slept tries s).log ≡ moved base s.log
unfolding slept moved
moved-slept base zero s = refl
moved-slept base (suc tries) s =
    moved-slept base tries (put_event (sleep 10) (record s { readings = s.readings + 1 }))

pub answered-slept :
    (base cmd port buf words tries : ℕ) (s : Driver)
    → answered base cmd port buf words (slept tries s).log ≡ answered base cmd port buf words s.log
unfolding answered
answered-slept base cmd port buf words tries s =
    ap (carried base cmd port buf words) (at_command-slept base tries s)
