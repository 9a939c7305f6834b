-- ===== src/Thread.antt =====
-- Threads and the scheduler: ch15/thread/thread.c and thread.h, and the timer's interrupt handler
-- of ch15/device/timer.c. A thread is a number; the ready list is the list of its threads in order,
-- which `KernelList` implements.
pub mod Sched
pub mod Timer
pub mod Sync
pub mod Mutex
mod Tests
use os_elephant.Base.{
  ℕ, zero, suc, ◌+◌, ◌-◌, Bool, true, false, not, ◌||◌, List, [], ◌∷◌, ◌++◌, ◌==◌, if◌then◌else◌,
  Outcome, ok, fault, assert, ◌>>=◌, ◌>>◌, add32,
}
use os_elephant.Base.Members.{has}

-- `enum task_status`
pub data Status : Type 0 where
  task_running task_ready task_blocked task_waiting task_hanging task_died : Status

abbrev pub is_running : Status → Bool
is_running task_running = true
is_running _ = false

abbrev pub is_ready : Status → Bool
is_ready task_ready = true
is_ready _ = false

-- TASK_BLOCKED, TASK_WAITING or TASK_HANGING
abbrev pub is_suspended : Status → Bool
is_suspended task_blocked = true
is_suspended task_waiting = true
is_suspended task_hanging = true
is_suspended _ = false

-- What the scheduler keeps: the globals `thread_ready_list` and `idle_thread`, the running thread,
-- and the fields of each `struct task_struct` that it uses. `clock` is the global `ticks`.
pub record Kernel : Type 0 where
  pub ready : List ℕ
  pub cur : ℕ
  pub idle : ℕ
  pub status : ℕ → Status
  pub ticks : ℕ → ℕ
  pub priority : ℕ → ℕ
  pub elapsed : ℕ → ℕ
  pub clock : ℕ

abbrev pub update {ℓ} : {A : Type ℓ} → (ℕ → A) → ℕ → A → ℕ → A
update f p v q = if p == q then v else f q

abbrev pub is_empty : List ℕ → Bool
is_empty [] = true
is_empty (x ∷ xs) = false

abbrev pub set_status : ℕ → Status → Kernel → Kernel
set_status p v k = record k { status = update k.status p v }

-- The thread goes to the front of the ready list.
unfoldable pub thread_unblock : ℕ → Kernel → Outcome Kernel
thread_unblock p k = do
  assert (is_suspended (k.status p))
  let woken =
      assert (not (has p k.ready))
      >> ok (set_status p task_ready (record k { ready = p ∷ k.ready }))
  if is_ready (k.status p) then ok k else woken

-- The first part of `schedule`: a thread whose time is up goes to the end of the ready list.
unfoldable pub requeue : Kernel → Outcome Kernel
requeue k =
    let queued =
      assert (not (has k.cur k.ready))
      >> ok (record k {
        ready = k.ready ++ (k.cur ∷ []);
        ticks = update k.ticks k.cur (k.priority k.cur);
        status = update k.status k.cur task_ready;
      }) in
    if is_running (k.status k.cur) then queued else ok k

-- The second part: the idle thread is woken if nobody is ready.
unfoldable pub refill : List ℕ → Kernel → Outcome Kernel
unfolding thread_unblock
refill [] k = thread_unblock k.idle k
refill (x ∷ xs) k = ok k

-- The last part: the first thread of the ready list runs.
unfoldable pub dispatch : List ℕ → Kernel → Outcome Kernel
dispatch [] k = fault
dispatch (x ∷ xs) k = ok (set_status x task_running (record k { ready = xs; cur = x }))

-- `intr` is the interrupt flag.
unfoldable pub schedule : Bool → Kernel → Outcome Kernel
unfolding requeue refill dispatch
schedule intr k = do assert (not intr); k ← requeue k; k ← refill k.ready k; dispatch k.ready k

unfoldable pub thread_yield : Kernel → Outcome Kernel
unfolding schedule
thread_yield k = do
  assert (not (has k.cur k.ready))
  let queued = record k { ready = k.ready ++ (k.cur ∷ []) }
  schedule false (set_status k.cur task_ready queued)

unfoldable pub thread_block : Status → Kernel → Outcome Kernel
unfolding schedule
thread_block stat k = do assert (is_suspended stat); schedule false (set_status k.cur stat k)

-- The mark behind a thread's structure.
abbrev pub stack_mark : ℕ
stack_mark = 0x19870916

-- The timer's handler runs with interrupts off, as an interrupt gate leaves them. `stack_magic` is
-- that of the running thread.
unfoldable pub intr_timer_handler : ℕ → Kernel → Outcome Kernel
unfolding schedule
intr_timer_handler stack_magic k =
    assert (stack_magic == stack_mark)
    >> let cur = k.cur in
      let counted = record k {
        elapsed = update k.elapsed cur (add32 (k.elapsed cur) 1);
        clock = add32 k.clock 1;
      } in
      let rescheduled = schedule false counted in
      if k.ticks cur == 0
      then rescheduled
      else ok (record counted { ticks = update k.ticks cur (k.ticks cur - 1) })
