-- ===== src/Thread/Sync.antt =====
-- Semaphores and locks: ch15/thread/sync.c and sync.h. The functions of semaphores run with
-- interrupts off and are cut where they block. The functions of locks run with interrupts on, so
-- they are cut between any two accesses to different fields of the lock.
use os_elephant.Base.{
  ℕ, ◌+◌, ◌-◌, Bool, true, false, not, Option, none, some, List, [], ◌∷◌, ◌++◌, ◌==◌, ltb,
  if◌then◌else◌, Outcome, ok, assert, ◌>>=◌, ◌>>◌, add32,
}
use os_elephant.Base.Members.{has}
use os_elephant.Thread.{Kernel, task_blocked, thread_block, thread_unblock}

pub record Semaphore : Type 0 where
  pub value : ℕ
  pub waiters : List ℕ

-- `holder_repeat_nr` is `repeat_nr`; `NULL` is `none`.
pub record Lock : Type 0 where
  pub holder : Option ℕ
  pub semaphore : Semaphore
  pub repeat_nr : ℕ

unfoldable pub sema_init : ℕ → Semaphore
sema_init value = record { value = value; waiters = [] }

unfoldable pub lock_init : Lock
unfolding sema_init
lock_init = record { holder = none; semaphore = sema_init 1; repeat_nr = 0 }

-- One round of the loop of `sema_down`: the thread takes the semaphore, or waits and blocks; when
-- it runs again it makes another round. The flag says which.
unfoldable pub sema_down : Semaphore → Kernel → Outcome (Bool × Semaphore × Kernel)
sema_down s k =
    let wait = (do
      assert (not (has k.cur s.waiters))
      k' ← thread_block task_blocked k
      ok (false, record s { waiters = s.waiters ++ (k.cur ∷ []) }, k')) in
    let take = assert ((s.value - 1) == 0) >> ok (true, record s { value = s.value - 1 }, k) in
    if s.value == 0 then wait else take

-- `list_pop` and `thread_unblock` of the first waiter.
unfoldable pub wake_first : List ℕ → Kernel → Outcome (List ℕ × Kernel)
wake_first [] k = ok ([], k)
wake_first (x ∷ xs) k = thread_unblock x k >>= λ k'. ok (xs, k')

unfoldable pub sema_up : Semaphore → Kernel → Outcome (Semaphore × Kernel)
unfolding wake_first
sema_up s k = do
  assert (s.value == 0)
  (waiters, k') ← wake_first s.waiters k
  assert ((s.value + 1) == 1)
  ok (record { value = s.value + 1; waiters = waiters }, k')

abbrev pub held_by : Option ℕ → ℕ → Bool
held_by none p = false
held_by (some q) p = q == p

-- The test of `lock_acquire`: whether the running thread is the holder.
unfoldable pub acquire_test : Lock → ℕ → Bool
acquire_test l me = held_by l.holder me

-- A holder counts once more, in 32 bits.
unfoldable pub acquire_again : Lock → Lock
acquire_again l = record l { repeat_nr = add32 l.repeat_nr 1 }

-- Behind `sema_down`, two statements.
unfoldable pub acquire_name : Lock → ℕ → Lock
acquire_name l me = record l { holder = some me }

unfoldable pub acquire_count : Lock → Outcome Lock
acquire_count l = assert (l.repeat_nr == 0) >> ok (record l { repeat_nr = 1 })

-- The first `ASSERT` of `lock_release`
unfoldable pub release_check : Lock → ℕ → Outcome (Unit {0})
release_check l me = assert (held_by l.holder me)

-- The test of the count, and the second `ASSERT`: whether the lock is given up.
unfoldable pub release_test : Lock → Outcome Bool
release_test l = if ltb 1 l.repeat_nr then ok false else (assert (l.repeat_nr == 1) >> ok true)

unfoldable pub release_drop : Lock → Lock
release_drop l = record l { repeat_nr = l.repeat_nr - 1 }

unfoldable pub release_unname : Lock → Lock
release_unname l = record l { holder = none }

unfoldable pub release_uncount : Lock → Lock
release_uncount l = record l { repeat_nr = 0 }
