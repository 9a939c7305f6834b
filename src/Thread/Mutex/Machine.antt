-- ===== src/Thread/Mutex/Machine.antt =====
-- The steps of threads that use one lock of ch15/thread/sync.c, and of the timer.
use os_elephant.Base.{ℕ, ◌+◌, ◌^◌, ◌<◌, ◌≡◌, ◌≢◌, if◌then◌else◌, Outcome, ok, ◌>>=◌, ◌>>◌}
use os_elephant.Thread.{
  Kernel, task_blocked, thread_block, thread_yield, intr_timer_handler, stack_mark, update,
}
use os_elephant.Thread.Sync.{
  Lock, sema_down, sema_up, acquire_test, acquire_again, acquire_name, acquire_count, release_check,
  release_test, release_drop, release_unname, release_uncount,
}

-- Where a thread stands:
-- outside: not holding the lock and not in its functions;
-- wanting: in the loop of `sema_down`;
-- taken: behind it, before `holder` is set;
-- named: `holder` is set, `holder_repeat_nr` is not;
-- holding: `lock_acquire` has returned, and `lock_release` was not called for the last time;
-- again: in `lock_acquire`, before `holder_repeat_nr++`;
-- releasing: behind the first `ASSERT` of `lock_release`;
-- dropping: before `holder_repeat_nr--`;
-- clearing: before `holder = NULL`;
-- unnamed: before `holder_repeat_nr = 0`;
-- leaving: before `sema_up`.
pub data Place : Type 0 where
  outside wanting taken named holding again releasing dropping clearing unnamed leaving : Place

pub record Machine : Type 0 where
  pub kernel : Kernel
  pub lock : Lock
  pub place : ℕ → Place

abbrev pub cur : Machine → ℕ
cur m = m.kernel.cur

abbrev pub move : Machine → Place → Machine
move m p = record m { place = update m.place (cur m) p }

-- Each operation is one of the running thread.
unfoldable pub enter : Machine → Machine
enter m = move m (if acquire_test m.lock (cur m) then again else wanting)

unfoldable pub down : Machine → Outcome Machine
down m = do
  (took, s, k) ← sema_down m.lock.semaphore m.kernel
  let l = m.lock
  ok (record (move m (if took then taken else wanting)) {
    lock = record l { semaphore = s };
    kernel = k;
  })

-- A step that writes the lock: the new place and the new lock.
abbrev pub set_lock : Machine → Place → Lock → Machine
set_lock m p l = record (move m p) { lock = l }

unfoldable pub count_again : Machine → Machine
count_again m = set_lock m holding (acquire_again m.lock)

unfoldable pub name_holder : Machine → Machine
name_holder m = set_lock m named (acquire_name m.lock (cur m))

unfoldable pub count_first : Machine → Outcome Machine
count_first m = do l ← acquire_count m.lock; ok (set_lock m holding l)

unfoldable pub release : Machine → Outcome Machine
release m = release_check m.lock (cur m) >> ok (move m releasing)

unfoldable pub test_count : Machine → Outcome Machine
test_count m = do last ← release_test m.lock; ok (move m (if last then clearing else dropping))

unfoldable pub drop_one : Machine → Machine
drop_one m = set_lock m holding (release_drop m.lock)

unfoldable pub clear_holder : Machine → Machine
clear_holder m = set_lock m unnamed (release_unname m.lock)

unfoldable pub clear_count : Machine → Machine
clear_count m = set_lock m leaving (release_uncount m.lock)

unfoldable pub up : Machine → Outcome Machine
up m = do
  (s, k) ← sema_up m.lock.semaphore m.kernel
  let l = m.lock
  ok (record (move m outside) { lock = record l { semaphore = s }; kernel = k })

-- The mark behind the running thread's structure is whole.
unfoldable pub tick : Machine → Outcome Machine
tick m = do k ← intr_timer_handler stack_mark m.kernel; ok (record m { kernel = k })

-- `thread_yield` of the running thread, anywhere.
unfoldable pub yields : Machine → Outcome Machine
yields m = do k ← thread_yield m.kernel; ok (record m { kernel = k })

-- The idle thread does nothing but block.
unfoldable pub idles : Machine → Outcome Machine
idles m = do k ← thread_block task_blocked m.kernel; ok (record m { kernel = k })

-- A thread that is not the idle thread, at a place, makes its step.
abbrev pub At : Machine → Place → Type 0
At m p = (m.place (cur m) ≡ p) × (cur m ≢ m.kernel.idle)

-- A holder does not acquire the lock so often that the count wraps.
pub data Step (m : Machine) : Outcome Machine → Type 0 where
  enters : At m outside → Step m (ok (enter m))
  enters_again : At m holding → Step m (ok (enter m))
  counts_again : At m again → m.lock.repeat_nr + 1 < 2 ^ 32 → Step m (ok (count_again m))
  downs : At m wanting → Step m (down m)
  names : At m taken → Step m (ok (name_holder m))
  counts : At m named → Step m (count_first m)
  releases : At m holding → Step m (release m)
  tests : At m releasing → Step m (test_count m)
  drops : At m dropping → Step m (ok (drop_one m))
  unnames : At m clearing → Step m (ok (clear_holder m))
  uncounts : At m unnamed → Step m (ok (clear_count m))
  ups : At m leaving → Step m (up m)
  ticks : Step m (tick m)
  gives_way : Step m (yields m)
  idle_blocks : cur m ≡ m.kernel.idle → Step m (idles m)

pub data Reach (m : Machine) : Machine → Type 0 where
  here : Reach m m
  next :
      {n : Machine} {o : Outcome Machine} {n' : Machine}
      → Reach m n
      → Step n o
      → o ≡ ok n'
      → Reach m n'
