-- ===== src/Interrupt.antt =====
-- The interrupt flag of the processor: ch15/kernel/interrupt.c. `true` is INTR_ON.
use os_elephant.Base.{Bool, true, false, if◌then◌else◌}

-- Bit 9 of EFLAGS, which `intr_get_status` reads, and `sti` and `cli` write.
unfoldable pub intr_get_status : Bool → Bool
intr_get_status flag = if flag then true else false

-- Each returns the status before, and the new flag.
unfoldable pub intr_enable : Bool → Bool × Bool
unfolding intr_get_status
intr_enable flag = if intr_get_status flag then (true, flag) else (false, true)

unfoldable pub intr_disable : Bool → Bool × Bool
unfolding intr_get_status
intr_disable flag = if intr_get_status flag then (true, false) else (false, flag)

unfoldable pub intr_set_status : Bool → Bool → Bool × Bool
unfolding intr_enable intr_disable
intr_set_status status flag = if status then intr_enable flag else intr_disable flag
