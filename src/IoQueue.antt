-- ===== src/IoQueue.antt =====
-- The keyboard's ring of characters: ch15/device/ioqueue.c and ioqueue.h. A call that finds the
-- queue full or empty leaves its thread as the waiter and blocks, and when the other side wakes it
-- releases the lock and makes another pass. Of the lock around a wait the holder is kept: a thread
-- that would wait while another holds it blocks there, and when it gets the lock it goes on with
-- `ioq_wait`, without another test of the queue.
pub mod Fifo
mod Tests
use os_elephant.Base.{
  ℕ, ◌+◌, ◌%◌, Bool, true, false, Option, none, some, ◌==◌, if◌then◌else◌, Outcome, ok, assert,
  ◌>>=◌, ◌>>◌,
}

abbrev pub bufsize : ℕ
bufsize = 64

-- A thread is a number; `NULL` is `none`. `holder` is that of `lock`.
pub record IoQueue : Type 0 where
  pub holder : Option ℕ
  pub producer : Option ℕ
  pub consumer : Option ℕ
  pub buf : ℕ → ℕ
  pub head : ℕ
  pub tail : ℕ

unfoldable pub ioqueue_init : IoQueue → IoQueue
ioqueue_init q = record q { holder = none; producer = none; consumer = none; head = 0; tail = 0 }

unfoldable pub next_pos : ℕ → ℕ
next_pos pos = (pos + 1) % bufsize

abbrev pub intr_off : Bool → Outcome (Unit {0})
intr_off intr = assert (if intr then false else true)

unfoldable pub full : IoQueue → Bool
unfolding next_pos
full q = next_pos q.head == q.tail

unfoldable pub empty : IoQueue → Bool
empty q = q.head == q.tail

-- `intr` is the interrupt flag, which both tests want off.
unfoldable pub ioq_full : Bool → IoQueue → Outcome Bool
unfolding full
ioq_full intr q = intr_off intr >> ok (full q)

unfoldable pub ioq_empty : Bool → IoQueue → Outcome Bool
unfolding empty
ioq_empty intr q = intr_off intr >> ok (empty q)

-- `ioq_wait(&waiter)` up to the block: the slot must be free.
unfoldable pub ioq_wait : ℕ → Option ℕ → Outcome (Option ℕ)
ioq_wait me none = ok (some me)
ioq_wait me (some other) = Outcome.panic

-- `wakeup(&waiter)`, behind the test of the slot: the thread that `thread_unblock` gets, which
-- blocked in `ioq_wait` and so passes the `ASSERT` there; the slot becomes `NULL`.
unfoldable pub wakeup : Option ℕ → Option ℕ × Option ℕ
wakeup waiter = (waiter, none)

-- `lock_acquire` would block: another thread holds the lock.
unfoldable pub is_locked : ℕ → Option ℕ → Bool
is_locked me none = false
is_locked me (some other) = if other == me then false else true

-- `holder == running_thread()`
unfoldable pub holds : ℕ → Option ℕ → Bool
holds me none = false
holds me (some p) = p == me

-- `lock_release` behind the wait, in the thread that was woken.
unfoldable pub end_wait : ℕ → IoQueue → Outcome IoQueue
unfolding holds
end_wait me q = do assert (holds me q.holder); ok (record q { holder = none })

-- One pass of a call: it blocks at the lock, it blocks as the waiter with the lock, or it is done,
-- with the thread that it wakes.
pub data Pass (A : Type 0) : Type 0 where
  locked : IoQueue → Pass A
  blocks : IoQueue → Pass A
  done : A → IoQueue → Option ℕ → Pass A

unfoldable pub ioq_getchar : ℕ → Bool → IoQueue → Outcome (Pass ℕ)
unfolding ioq_empty ioq_wait wakeup next_pos is_locked
ioq_getchar me intr q = do
  is_empty ← ioq_empty intr q
  let waits =
      ioq_wait me q.consumer >>= λ c. ok (blocks (record q { holder = some me; consumer = c }))
  let byte = q.buf q.tail
  let (woken, p) = wakeup q.producer
  if is_empty
      then (if is_locked me q.holder then ok (locked q) else waits)
      else ok (done byte (record q { tail = next_pos q.tail; producer = p }) woken)

unfoldable pub ioq_putchar : ℕ → Bool → ℕ → IoQueue → Outcome (Pass (Unit {0}))
unfolding ioq_full ioq_wait wakeup next_pos is_locked
ioq_putchar me intr byte q = do
  is_full ← ioq_full intr q
  let waits =
      ioq_wait me q.producer >>= λ p. ok (blocks (record q { holder = some me; producer = p }))
  let written = λ (i : ℕ). if q.head == i then byte else q.buf i
  let (woken, c) = wakeup q.consumer
  if is_full
      then (if is_locked me q.holder then ok (locked q) else waits)
      else ok (done tt (record q { buf = written; head = next_pos q.head; consumer = c }) woken)
