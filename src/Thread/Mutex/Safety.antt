-- ===== src/Thread/Mutex/Safety.antt =====
-- Mutual exclusion, over every interleaving.
use mathlib.Core.Path.{subst}
use os_elephant.Base.{ℕ, ◌≡◌, refl, Bool, true, false, Option, some, Outcome, ok, arith, ◌∙◌, sym}
use os_elephant.Thread.{task_blocked}
use os_elephant.Thread.Sched.{thread_block-IsValid, thread_yield-IsValid}
use os_elephant.Thread.Timer.{intr_timer_handler-IsValid}
use os_elephant.Thread.Mutex.Machine.{
  Place, named, holding, again, releasing, dropping, clearing, Machine, cur, enter, count_again,
  name_holder, drop_one, clear_holder, clear_count, tick, yields, idles, Step, enters, enters_again,
  counts_again, downs, names, counts, releases, tests, drops, unnames, uncounts, ups, ticks,
  gives_way, idle_blocks, Reach, here, next,
}
use os_elephant.Thread.Mutex.Invariant.{
  IsSound, Goes, Stands, inside, kernel-IsSound, enter_outside,
}
use os_elephant.Thread.Mutex.Owner.{
  enter_holding, again_lem, name_holder_lem, count_first_lem, release_lem, test_count_lem,
  drop_one_lem, clear_holder_lem, clear_count_lem,
}
use os_elephant.Thread.Mutex.Semaphore.{down_lem, up_lem}

tick_lem : (m : Machine) → IsSound m → Goes (tick m)
unfolding tick
tick_lem m s =
    let (k, run, v, _, keeps) = intr_timer_handler-IsValid m.kernel s.valid in
    (record m { kernel = k }, rw run, kernel-IsSound m k s v keeps)

yield_lem : (m : Machine) → IsSound m → Goes (yields m)
unfolding yields
yield_lem m s =
    let (k, run, v, _, keeps) = thread_yield-IsValid m.kernel s.valid in
    (record m { kernel = k }, rw run, kernel-IsSound m k s v keeps)

idle_lem : (m : Machine) → IsSound m → cur m ≡ m.kernel.idle → Goes (idles m)
unfolding idles
idle_lem m s e =
    let (k, run, v, _, keeps) = thread_block-IsValid task_blocked m.kernel s.valid refl in
    (
      record m { kernel = k },
      rw run,
      kernel-IsSound m k s v (record {
        idle_same = keeps.idle_same;
        blocked_same = λ p ne b. keeps.blocked_same p ne (ground arith);
      }),
    )

ok_inj : {a b : Machine} → ok a ≡ ok b → a ≡ b
ok_inj h = cc

-- In a sound machine every step that a thread can make is made: no `ASSERT` of the scheduler, the
-- timer, the semaphore or the lock fails, and the machine is sound again. The marks behind the
-- threads' structures are whole, and the holder's count does not wrap.
pub Step-Goes : {m : Machine} {o : Outcome Machine} → IsSound m → Step m o → Goes o
Step-Goes {m} s (enters at) = (enter m, refl, enter_outside m s at)
Step-Goes {m} s (enters_again at) = (enter m, refl, enter_holding m s at)
Step-Goes {m} s (counts_again at small) = (count_again m, refl, again_lem m s at small)
Step-Goes {m} s (downs at) = down_lem m s at
Step-Goes {m} s (names at) = (name_holder m, refl, name_holder_lem m s at)
Step-Goes {m} s (counts at) = count_first_lem m s at
Step-Goes {m} s (releases at) = release_lem m s at
Step-Goes {m} s (tests at) = test_count_lem m s at
Step-Goes {m} s (drops at) = (drop_one m, refl, drop_one_lem m s at)
Step-Goes {m} s (unnames at) = (clear_holder m, refl, clear_holder_lem m s at)
Step-Goes {m} s (uncounts at) = (clear_count m, refl, clear_count_lem m s at)
Step-Goes {m} s (ups at) = up_lem m s at
Step-Goes {m} s ticks = tick_lem m s
Step-Goes {m} s gives_way = yield_lem m s
Step-Goes {m} s (idle_blocks e) = idle_lem m s e

pub Reach-IsSound : {m n : Machine} → IsSound m → Reach m n → IsSound n
Reach-IsSound s here = s
Reach-IsSound s (next r step e) =
    let (n, run, sound) = Step-Goes (Reach-IsSound s r) step in
    subst IsSound (ok_inj (sym run ∙ e)) sound

-- `holder` is set to the thread, and not yet reset.
abbrev pub owns : Place → Bool
owns named = true
owns holding = true
owns again = true
owns releasing = true
owns dropping = true
owns clearing = true
owns _ = false

owns_inside : (pl : Place) → owns pl ≡ true → inside pl ≡ true
owns_inside named e = refl
owns_inside holding e = refl
owns_inside again e = refl
owns_inside releasing e = refl
owns_inside dropping e = refl
owns_inside clearing e = refl
owns_inside _ e = absurd (cc e)

owns_named :
    (pl : Place) (p : ℕ) (h : Option ℕ) (r : ℕ) → owns pl ≡ true → Stands pl p h r → h ≡ some p
owns_named named p h r e s = s.0
owns_named holding p h r e s = s.0
owns_named again p h r e s = s.0
owns_named releasing p h r e s = s.0
owns_named dropping p h r e s = s.0
owns_named clearing p h r e s = s.0
owns_named _ p h r e s = absurd (cc e)

-- From a sound machine, after any steps of any threads, at most one thread stands between setting
-- `holder` in `lock_acquire` and resetting it in `lock_release`, and `holder` names it. A step
-- reads or writes one field of the lock, or is a semaphore's operation with interrupts off; the
-- marks behind the threads' structures are whole, and the holder's count does not wrap.
pub mutual_exclusion :
    {m n : Machine} (p q : ℕ)
    → IsSound m
    → Reach m n
    → owns (n.place p) ≡ true
    → owns (n.place q) ≡ true
    → (p ≡ q) × (n.lock.holder ≡ some p)
mutual_exclusion {n} p q s r hp hq =
    let sound = Reach-IsSound s r in
    (
      sound.unique p q (owns_inside (n.place p) hp) (owns_inside (n.place q) hq),
      owns_named (n.place p) p n.lock.holder n.lock.repeat_nr hp (sound.stands p),
    )
