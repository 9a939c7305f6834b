-- ===== src/Ide/Command.antt =====
-- The registers of one command: `select_sector` and `cmd_out` of ch15/device/ide.c.
use os_elephant.Base.{
  ℕ, ◌+◌, ◌*◌, ◌/◌, ◌%◌, ◌^◌, ◌<◌, ◌≤◌, ◌≡◌, ◌⊎◌, inl, inr, refl, true, List, ◌∷◌, leb, ◌==◌,
  ==_iff, if◌then◌else◌, arith, Bool-cases, ok, u8, bit_or,
}
use os_elephant.Base.Bytes.{bit_on}
use os_elephant.Ide.{
  Event, outb, Driver, max_lba, out_reg, device_bits, select_sector, size_in_byte,
}
use os_elephant.Ide.Ports.{last_out, run, at_command, carried, answered}

abbrev pub selected : ℕ → ℕ → ℕ → Driver → Driver
selected dev_no lba count s =
    out_reg 6 (bit_or (device_bits dev_no) (lba / 2 ^ 24))
      (out_reg 5 (lba / 2 ^ 16) (out_reg 4 (lba / 2 ^ 8) (out_reg 3 lba (out_reg 2 count s))))

pub select_steps :
    (dev_no lba count : ℕ) (s : Driver)
    → lba ≤ max_lba
    → select_sector dev_no lba count s ≡ ok (selected dev_no lba count s)
unfolding select_sector
select_steps dev_no lba count s h = let t : leb lba max_lba ≡ true = ground arith in rw t refl

abbrev pub commanded : ℕ → ℕ → ℕ → ℕ → Driver → List Event
commanded dev_no lba count cmd s =
    outb (s.channel.port_base + 7) (u8 cmd) ∷ (selected dev_no lba count s).log

-- The registers of a command
module _ (dev_no lba count cmd : ℕ) (s : Driver) where
  reg_cnt : last_out (s.channel.port_base + 2) (commanded dev_no lba count cmd s) ≡ u8 count
  unfolding last_out
  reg_cnt = ground arith

  reg_l : last_out (s.channel.port_base + 3) (commanded dev_no lba count cmd s) ≡ u8 lba
  unfolding last_out
  reg_l = ground arith

  reg_m : last_out (s.channel.port_base + 4) (commanded dev_no lba count cmd s) ≡ u8 (lba / 2 ^ 8)
  unfolding last_out
  reg_m = ground arith

  reg_h : last_out (s.channel.port_base + 5) (commanded dev_no lba count cmd s) ≡ u8 (lba / 2 ^ 16)
  unfolding last_out
  reg_h = ground arith

  reg_dev :
      last_out (s.channel.port_base + 6) (commanded dev_no lba count cmd s)
      ≡ u8 (bit_or (device_bits dev_no) (lba / 2 ^ 24))
  unfolding last_out
  reg_dev = ground arith

  reg_cmd : last_out (s.channel.port_base + 7) (commanded dev_no lba count cmd s) ≡ u8 cmd
  unfolding last_out
  reg_cmd = ground arith

device_master :
    (dev_no : ℕ)
    → (u8 (bit_or (device_bits dev_no) 0) % 16 ≡ 0)
      × (bit_on (u8 (bit_or (device_bits dev_no) 0)) 4 ≡ (dev_no == 1))
unfolding bit_on
device_master dev_no = elim (Bool-cases (dev_no == 1)) [
  | inl e ↦ rw e (refl, refl)
  | inr e ↦ rw e (refl, refl)
]

-- The registers that count are those in front of the command.
at_command-commanded :
    (dev_no lba count cmd : ℕ) (s : Driver)
    → at_command s.channel.port_base (commanded dev_no lba count cmd s)
      ≡ commanded dev_no lba count cmd s
unfolding at_command
at_command-commanded dev_no lba count cmd s =
    let here : (s.channel.port_base + 7 == s.channel.port_base + 7) ≡ true = (==_iff _ _).1 refl in
    rw here refl

-- The words of a command's sectors answer it.
pub answered-commanded :
    (dev_no lba count cmd buf : ℕ) (s : Driver)
    → lba ≤ max_lba
    → 0 < count
    → count ≤ 256
    → (cmd ≡ 32) ⊎ (cmd ≡ 48)
    → answered s.channel.port_base cmd s.channel.port_base buf
        (size_in_byte (u8 count) / 2)
        (commanded dev_no lba count cmd s)
      ≡ run cmd (dev_no == 1) lba buf count
unfolding answered carried
answered-commanded dev_no lba count cmd buf s small pos most which =
    let high : lba / 2 ^ 24 ≡ 0 = omega arith in
    let (low, slave) = device_master dev_no in
    let here : (s.channel.port_base == s.channel.port_base) ≡ true = (==_iff _ _).1 refl in
    let c : (u8 cmd == cmd) ≡ true = ground arith in
    let n : (if u8 count == 0 then 256 else u8 count) ≡ count = ground arith in
    let w : (size_in_byte (u8 count) / 2 == 256 * count) ≡ true = ground arith in
    let sector : u8 lba + (2 ^ 8 * u8 (lba / 2 ^ 8) + (2 ^ 16 * u8 (lba / 2 ^ 16) + 2 ^ 24 * 0))
        ≡ lba =
      omega arith in
    rw
      (
        at_command-commanded dev_no lba count cmd s,
        reg_cnt dev_no lba count cmd s,
        reg_l dev_no lba count cmd s,
        reg_m dev_no lba count cmd s,
        reg_h dev_no lba count cmd s,
        reg_dev dev_no lba count cmd s,
        reg_cmd dev_no lba count cmd s,
        here,
        high,
        low,
        slave,
        c,
        n,
        w,
        sector,
      )
      refl
