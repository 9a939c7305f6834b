-- ===== src/Thread/Tests.antt =====
-- Three threads and an idle one: the scheduler, the timer and the lock at that state.
use os_elephant.Base.{
  ℕ, ◌≡◌, refl, true, false, some, [], ◌∷◌, ◌==◌, if◌then◌else◌, Outcome, ok, ◌>>=◌, arith,
}
use os_elephant.Base.Members.{has}
use os_elephant.Thread.{
  Status, task_running, task_ready, task_blocked, Kernel, thread_block, thread_yield,
  intr_timer_handler, stack_mark, schedule,
}
use os_elephant.Thread.Sched.{IsValid, Keeps, schedule_lem, line_up}
use os_elephant.Thread.Timer.{Ticked, intr_timer_handler-IsValid}
use os_elephant.Thread.Sync.{lock_init, sema_down, acquire_test, acquire_name, acquire_count}
use os_elephant.Thread.Mutex.Machine.{
  Machine, Reach, here, next, outside, enter, down, name_holder, count_first, yields, enters, downs,
  names, counts, gives_way,
}
use os_elephant.Thread.Mutex.Invariant.{IsSound, Goes}
use os_elephant.Thread.Mutex.Safety.{owns, Step-Goes, mutual_exclusion}

abbrev statuses : ℕ → Status
statuses p =
    if p == 1
    then task_running
    else if p == 2
    then task_ready
    else if p == 3
    then task_ready
    else task_blocked

-- Thread 1 runs, 2 and 3 are ready, and 9 is the idle thread.
abbrev k : Kernel
k = record {
  ready = 2 ∷ 3 ∷ [];
  cur = 1;
  idle = 9;
  status = statuses;
  ticks = λ p. 0;
  priority = λ p. 31;
  elapsed = λ p. 0;
  clock = 0;
}

k-IsValid : IsValid k
unfolding has
k-IsValid = record {
  base = record {
    distinct = (refl, (refl, tt));
    queued = λ p h. ground arith;
    ready_in = λ p h. ground arith;
    alone = λ p h. ground arith;
    idle_lives = λ h. cc h;
  };
  runs = refl;
}

schedule_lem_example :
    (k' : Kernel) × (schedule false k ≡ ok k')
    × IsValid k'
    × (k'.cur ∷ k'.ready ≡ line_up k)
    × Keeps k k'
schedule_lem_example = schedule_lem k k-IsValid.base

intr_timer_handler-IsValid_example :
    (k' : Kernel) × (intr_timer_handler stack_mark k ≡ ok k')
    × IsValid k'
    × Ticked k k'
    × Keeps k k'
intr_timer_handler-IsValid_example = intr_timer_handler-IsValid k k-IsValid

-- Nobody uses the lock.
m : Machine
m = record { kernel = k; lock = lock_init; place = λ p. outside }

m-IsSound : IsSound m
unfolding m lock_init has
m-IsSound = record {
  valid = k-IsValid;
  binary = omega arith;
  free = λ e p. refl;
  unique = λ p q a b. absurd (cc a);
  distinct = tt;
  waits = λ p h. absurd (cc h);
  not_idle = refl;
  stands = λ p. refl;
  idle_lock = λ e. (refl, refl);
}

Step-Goes_example : Goes (ok (enter m))
unfolding m
Step-Goes_example = Step-Goes m-IsSound (enters (refl, omega arith))

-- Thread 1 takes the lock, gives way, and thread 2 comes to wait for it.
abbrev run : Machine → Outcome Machine
run m = do m ← down (enter m); m ← count_first (name_holder m); m ← yields m; down (enter m)

abbrev get : Outcome Machine → Machine
get (ok n) = n
get _ = m

n : Machine
n = get (run m)

m-Reach : Reach m n
unfolding m n lock_init down enter name_holder count_first yields sema_down acquire_test
    acquire_name acquire_count thread_yield has thread_block
m-Reach =
    next
      (next
        (next
          (next
            (next
              (next (next here (enters (refl, omega arith)) refl) (downs (refl, omega arith)) refl)
              (names (refl, omega arith)) refl)
            (counts (refl, omega arith)) refl)
          gives_way refl)
        (enters (refl, omega arith)) refl)
      (downs (refl, omega arith)) refl

n_waiter : (n.lock.semaphore.waiters ≡ 2 ∷ []) × (n.kernel.cur ≡ 3)
unfolding m n lock_init down enter name_holder count_first yields sema_down acquire_test
    acquire_name acquire_count thread_yield has thread_block
n_waiter = (refl, refl)

n_holding : owns (n.place 1) ≡ true
unfolding m n lock_init down enter name_holder count_first yields sema_down acquire_test
    acquire_name acquire_count thread_yield has thread_block
n_holding = refl

mutual_exclusion_example : ◌≡◌ {A = ℕ} 1 1 × (n.lock.holder ≡ some 1)
mutual_exclusion_example = mutual_exclusion 1 1 m-IsSound m-Reach n_holding n_holding
