-- ===== src/Ide.antt =====
-- The disk driver: ch15/device/ide.c. What the driver does to the ports of a channel is a log,
-- newest first, and `status` gives what the status port answers to each reading of it.
pub mod Wait
pub mod Ports
pub mod Command
pub mod Chunk
pub mod Transfer
pub mod Swap
pub mod Partition
pub mod Chain
mod Tests
use os_elephant.Base.{
  ℕ, zero, suc, ◌+◌, ◌-◌, ◌*◌, ◌/◌, ◌^◌, ◌<◌, ◌≡◌, Bool, true, false, not, ◌||◌, List, [], ◌∷◌, ltb,
  leb, ◌==◌, if◌then◌else◌, Outcome, ok, panic, out_of_fuel, assert, ◌>>=◌, ◌>>◌, add32, sub32,
  mul32, u8, bit_or,
}
use os_elephant.Base.Bytes.{bit_on}

-- Bytes out, words in and out between a port and an address, and the milliseconds of a sleep.
pub data Event : Type 0 where
  outb : ℕ → ℕ → Event
  insw : ℕ → ℕ → ℕ → Event
  outsw : ℕ → ℕ → ℕ → Event
  sleep : ℕ → Event

-- `struct ide_channel`, with the depth of its lock and the value of its semaphore.
pub record Channel : Type 0 where
  pub port_base : ℕ
  pub irq_no : ℕ
  pub lock_depth : ℕ
  pub expecting_intr : Bool
  pub disk_done : ℕ

pub record Driver : Type 0 where
  pub channel : Channel
  pub log : List Event
  pub readings : ℕ

abbrev pub max_lba : ℕ
max_lba = 163839

abbrev pub cmd_read_sector : ℕ
cmd_read_sector = 32

abbrev pub cmd_write_sector : ℕ
cmd_write_sector = 48

abbrev pub put_event : Event → Driver → Driver
put_event e s = record s { log = e ∷ s.log }

-- `outb` to the register at an offset of the channel.
abbrev pub out_reg : ℕ → ℕ → Driver → Driver
out_reg offset value s = put_event (outb (s.channel.port_base + offset) (u8 value)) s

-- BIT_DEV_MBS, BIT_DEV_LBA and, for the slave, BIT_DEV_DEV.
abbrev pub device_bits : ℕ → ℕ
device_bits dev_no = bit_or (bit_or 0xa0 0x40) (if dev_no == 1 then 0x10 else 0)

unfoldable pub select_disk : ℕ → Driver → Driver
select_disk dev_no s = out_reg 6 (device_bits dev_no) s

unfoldable pub select_sector : ℕ → ℕ → ℕ → Driver → Outcome Driver
select_sector dev_no lba sec_cnt s =
    assert (leb lba max_lba)
    >> ok (
        out_reg 6 (bit_or (device_bits dev_no) (lba / 2 ^ 24)) (
          out_reg 5 (lba / 2 ^ 16) (out_reg 4 (lba / 2 ^ 8) (out_reg 3 lba (out_reg 2 sec_cnt s)))))

unfoldable pub cmd_out : ℕ → Driver → Driver
cmd_out cmd s = out_reg 7 cmd (record s { channel = record (s.channel) { expecting_intr = true } })

-- The count is a byte, and 0 of it stands for 256 sectors.
abbrev pub size_in_byte : ℕ → ℕ
size_in_byte sec_cnt = if sec_cnt == 0 then 256 * 512 else sec_cnt * 512

unfoldable pub read_from_sector : ℕ → ℕ → Driver → Driver
read_from_sector buf sec_cnt s =
    put_event (insw s.channel.port_base buf (size_in_byte (u8 sec_cnt) / 2)) s

unfoldable pub write2sector : ℕ → ℕ → Driver → Driver
write2sector buf sec_cnt s =
    put_event (outsw s.channel.port_base buf (size_in_byte (u8 sec_cnt) / 2)) s

-- The loop of `busy_wait`, by the time limit after the decrement in its test.
unfoldable pub busy_loop : (ℕ → ℕ) → ℕ → Driver → Bool × Driver
busy_loop status zero s = (false, s)
busy_loop status (suc time_limit) s =
    let later =
      busy_loop status time_limit (put_event (sleep 10) (record s { readings = s.readings + 1 })) in
    if bit_on (status s.readings) 7
    then later
    else (bit_on (status (s.readings + 1)) 3, record s { readings = s.readings + 2 })

-- The test `time_limit -= 10 >= 0` takes away the value of `10 >= 0`, which is 1. A call of
-- `mtime_sleep(10)` is an event: how long it takes is not modelled.
unfoldable pub busy_wait : (ℕ → ℕ) → Driver → Bool × Driver
busy_wait status s = busy_loop status (30 * 1000 - 1) s

-- The interrupt of the disk, at the channel whose number it is.
unfoldable pub intr_hd_handler : ℕ → Driver → Outcome Driver
intr_hd_handler irq_no s =
    assert ((irq_no == 0x2e) || (irq_no == 0x2f))
    >> (assert (s.channel.irq_no == irq_no)
        >> ok (
            if s.channel.expecting_intr
            then record {
              channel = record (s.channel) {
                expecting_intr = false;
                disk_done = s.channel.disk_done + 1;
              };
              log = s.log;
              readings = s.readings + 1;
            }
            else s))

-- `sema_down(&disk_done)`: a thread that finds 0 blocks until the interrupt of the disk; if the
-- handler then does nothing, it stays blocked.
unfoldable pub disk_wait : Driver → Outcome Driver
disk_wait s = do
  s ← (if s.channel.disk_done == 0 then intr_hd_handler s.channel.irq_no s else ok s)
  if s.channel.disk_done == 0
      then out_of_fuel
      else ok (record s { channel = record (s.channel) { disk_done = s.channel.disk_done - 1 } })

-- `lock_acquire` and `lock_release` by a thread that the lock does not make wait.
abbrev pub lock_acquire : Driver → Driver
lock_acquire s = record s { channel = record (s.channel) { lock_depth = s.channel.lock_depth + 1 } }

abbrev pub lock_release : Driver → Outcome Driver
lock_release s =
    assert (ltb 0 s.channel.lock_depth)
    >> ok (record s { channel = record (s.channel) { lock_depth = s.channel.lock_depth - 1 } })

-- At most 256 sectors in one command.
abbrev pub secs_op : ℕ → ℕ → ℕ
secs_op secs_done sec_cnt =
    if leb (add32 secs_done 256) sec_cnt then 256 else sub32 sec_cnt secs_done

-- The body of the loop of `ide_read`
unfoldable pub read_sectors : (ℕ → ℕ) → ℕ → ℕ → ℕ → ℕ → Driver → Outcome Driver
read_sectors status dev_no lba buf count s = do
  s ← select_sector dev_no lba count s
  s ← disk_wait (cmd_out cmd_read_sector s)
  let (ready, s) = busy_wait status s
  if ready then ok (read_from_sector buf count s) else panic

-- The body of the loop of `ide_write`
unfoldable pub write_sectors : (ℕ → ℕ) → ℕ → ℕ → ℕ → ℕ → Driver → Outcome Driver
write_sectors status dev_no lba buf count s = do
  s ← select_sector dev_no lba count s
  let (ready, s) = busy_wait status (cmd_out cmd_write_sector s)
  if ready then disk_wait (write2sector buf count s) else panic

-- The loop of both, with the body for one command.
unfoldable pub sector_loop :
    (ℕ → ℕ → ℕ → Driver → Outcome Driver) → ℕ → ℕ → ℕ → ℕ → ℕ → Driver → Outcome Driver
sector_loop chunk zero lba buf secs_done sec_cnt s = out_of_fuel
sector_loop chunk (suc fuel) lba buf secs_done sec_cnt s =
    let count = secs_op secs_done sec_cnt in
    let further =
      chunk (add32 lba secs_done) (add32 buf (mul32 secs_done 512)) count s
      >>= sector_loop chunk fuel lba buf (add32 secs_done count) sec_cnt in
    if ltb secs_done sec_cnt then further else ok s

abbrev pub ide_move :
    (ℕ → ℕ → ℕ → Driver → Outcome Driver) → ℕ → ℕ → ℕ → ℕ → ℕ → Driver → Outcome Driver
ide_move chunk fuel dev_no lba buf sec_cnt s =
    assert (leb lba max_lba)
    >> (assert (ltb 0 sec_cnt)
        >> (sector_loop chunk fuel lba buf 0 sec_cnt (select_disk dev_no (lock_acquire s))
            >>= lock_release))

unfoldable pub ide_read : (ℕ → ℕ) → ℕ → ℕ → ℕ → ℕ → ℕ → Driver → Outcome Driver
ide_read status fuel dev_no lba buf sec_cnt s =
    ide_move (read_sectors status dev_no) fuel dev_no lba buf sec_cnt s

unfoldable pub ide_write : (ℕ → ℕ) → ℕ → ℕ → ℕ → ℕ → ℕ → Driver → Outcome Driver
ide_write status fuel dev_no lba buf sec_cnt s =
    ide_move (write_sectors status dev_no) fuel dev_no lba buf sec_cnt s
