-- ===== src/Ide/Chunk.antt =====
-- One command: the bodies of the loops of `ide_read` and `ide_write` of ch15/device/ide.c.
use os_elephant.Base.{
  ℕ, ◌+◌, ◌/◌, ◌<◌, ◌≤◌, ◌≡◌, ◌⊎◌, inl, inr, refl, sym, ap, ◌∙◌, true, false, ◌||◌, ◌++◌, ◌==◌,
  ==_iff, arith, ok, u8,
}
use os_elephant.Ide.{
  Channel, Driver, max_lba, cmd_out, size_in_byte, read_from_sector, write2sector, intr_hd_handler,
  disk_wait, read_sectors, write_sectors,
}
use os_elephant.Ide.Wait.{Answer, busy_wait_lem}
use os_elephant.Ide.Ports.{run, moved, moved-slept, answered-slept}
use os_elephant.Ide.Command.{selected, select_steps, answered-commanded}

-- A channel of the machine that expects no interrupt, and whose drive answers.
pub record Idle (status : ℕ → ℕ) (c : Channel) : Type 0 where
  pub irq : (c.irq_no ≡ 0x2e) ⊎ (c.irq_no ≡ 0x2f)
  pub up : c.disk_done ≡ 0
  pub quiet : c.expecting_intr ≡ false
  pub answers : (n : ℕ) → Answer status n

-- Sectors were moved, and the channel is as before.
pub record Moved (cmd dev_no lba buf count : ℕ) (s s' : Driver) : Type 0 where
  pub sectors :
      moved s.channel.port_base s'.log
      ≡ moved s.channel.port_base s.log ++ run cmd (dev_no == 1) lba buf count
  pub channel : s'.channel ≡ s.channel

abbrev waited : Driver → Driver
waited s = record {
  channel = record (s.channel) { expecting_intr = false };
  log = s.log;
  readings = s.readings + 1;
}

disk_wait_lem :
    (s : Driver)
    → (s.channel.irq_no ≡ 0x2e) ⊎ (s.channel.irq_no ≡ 0x2f)
    → s.channel.disk_done ≡ 0
    → s.channel.expecting_intr ≡ true
    → disk_wait s ≡ ok (waited s)
unfolding disk_wait intr_hd_handler
disk_wait_lem s irq up expecting =
    let valid : ((s.channel.irq_no == 0x2e) || (s.channel.irq_no == 0x2f)) ≡ true = ground arith in
    let own : (s.channel.irq_no == s.channel.irq_no) ≡ true = (==_iff _ _).1 refl in
    rw (up, valid, own, expecting) refl

quiet_again : (c : Channel) → c.expecting_intr ≡ false → record c { expecting_intr = false } ≡ c
quiet_again c quiet = ap (λ e. record c { expecting_intr = e }) (sym quiet)

module _ (status : ℕ → ℕ) (dev_no lba buf count : ℕ) (s : Driver) (idle : Idle status s.channel)
    (small : lba ≤ max_lba) (pos : 0 < count) (most : count ≤ 256) where
  pub read_sectors_lem :
      (s' : Driver) × (read_sectors status dev_no lba buf count s ≡ ok s')
      × Moved 32 dev_no lba buf count s s'
  unfolding read_sectors read_from_sector cmd_out moved
  read_sectors_lem =
      let s₂ = cmd_out 32 (selected dev_no lba count s) in
      let s₃ = waited s₂ in
      let a = idle.answers s₃.readings in
      let (s₄, run₄, log₄, channel₄) = busy_wait_lem status s₃ a in
      let base : s₄.channel.port_base ≡ s.channel.port_base =
        ap (λ (c : Channel). c.port_base) channel₄ in
      (
        read_from_sector buf count s₄,
        rw (select_steps dev_no lba count s small, disk_wait_lem s₂ idle.irq idle.up refl, run₄)
            refl,
        record {
          sectors =
              rw
                (
                  base,
                  log₄,
                  moved-slept s.channel.port_base a.tries s₃,
                  answered-slept s.channel.port_base 32 s.channel.port_base buf
                      (size_in_byte (u8 count) / 2) a.tries s₃,
                )
                (ap (λ r. moved s.channel.port_base s.log ++ r)
                  (answered-commanded dev_no lba count 32 buf s small pos most (inl refl)));
          channel = channel₄ ∙ quiet_again s.channel idle.quiet;
        },
      )

  pub write_sectors_lem :
      (s' : Driver) × (write_sectors status dev_no lba buf count s ≡ ok s')
      × Moved 48 dev_no lba buf count s s'
  unfolding write_sectors write2sector cmd_out moved
  write_sectors_lem =
      let s₂ = cmd_out 48 (selected dev_no lba count s) in
      let a = idle.answers s₂.readings in
      let (s₄, run₄, log₄, channel₄) = busy_wait_lem status s₂ a in
      let base : s₄.channel.port_base ≡ s.channel.port_base =
        ap (λ (c : Channel). c.port_base) channel₄ in
      let wait =
        disk_wait_lem (write2sector buf count s₄)
          (let irq = ap (λ (c : Channel). c.irq_no) channel₄ in rw irq idle.irq)
          (ap (λ (c : Channel). c.disk_done) channel₄ ∙ idle.up)
          (ap (λ (c : Channel). c.expecting_intr) channel₄) in
      (
        waited (write2sector buf count s₄),
        rw (select_steps dev_no lba count s small, run₄, wait) refl,
        record {
          sectors =
              rw
                (
                  base,
                  log₄,
                  moved-slept s.channel.port_base a.tries s₂,
                  answered-slept s.channel.port_base 48 s.channel.port_base buf
                      (size_in_byte (u8 count) / 2) a.tries s₂,
                )
                (ap (λ r. moved s.channel.port_base s.log ++ r)
                  (answered-commanded dev_no lba count 48 buf s small pos most (inr refl)));
          channel =
              ap (λ (c : Channel). record c { expecting_intr = false }) channel₄
              ∙ quiet_again s.channel idle.quiet;
        },
      )
