-- ===== src/Thread/Mutex/Semaphore.antt =====
-- The two semaphore operations of a lock keep the invariant of the machine.
use os_elephant.Base.{
  ℕ, ◌+◌, ◌-◌, true, false, List, [], ◌∷◌, ◌++◌, ◌==◌, ◌≡◌, ◌≢◌, refl, ok, arith, Bool-cases, inl,
  inr, ap,
}
use os_elephant.Base.Members.{has, Distinct, Distinct-snoc, has-append, ne_of_has}
use os_elephant.Thread.{Kernel, task_blocked, task_ready, is_suspended, set_status, update}
use os_elephant.Thread.Sched.{IsValid, thread_block-IsValid, thread_unblock-IsQueued}
use os_elephant.Thread.Sync.{held_by, sema_down, sema_up, wake_first}
use os_elephant.Thread.Mutex.Machine.{
  outside, wanting, taken, leaving, Machine, cur, move, down, up, At,
}
use os_elephant.Thread.Mutex.Invariant.{IsSound, Goes, Stands-at, Stands-moved}

down_wait : (m : Machine) → IsSound m → At m wanting → m.lock.semaphore.value ≡ 0 → Goes (down m)
unfolding down sema_down has
down_wait m s at e =
    let (k, run, v, line, keeps) = thread_block-IsValid task_blocked m.kernel s.valid refl in
    let out : has (cur m) m.lock.semaphore.waiters ≡ false = not_waiting in
    (
      record (move m wanting) {
        lock = record {
          holder = m.lock.holder;
          semaphore = record {
            value = m.lock.semaphore.value;
            waiters = m.lock.semaphore.waiters ++ (cur m ∷ []);
          };
          repeat_nr = m.lock.repeat_nr;
        };
        kernel = k;
      },
      rw (zero_value, out, run),
      record {
        valid = v;
        binary = s.binary;
        free = λ z p. ground (arith, s.free z p, at.0);
        unique = λ p q a b. ground (arith, s.unique p q, at.0);
        distinct = Distinct-snoc m.lock.semaphore.waiters (cur m) s.distinct out;
        waits = λ p h. keeps.blocked_same p (apart p h) (blocked p h);
        not_idle =
            rw keeps.idle_same (
              ground (arith, has-append m.kernel.idle m.lock.semaphore.waiters (cur m ∷ []), at.1));
        stands =
            Stands-moved m wanting m.lock.holder m.lock.repeat_nr (Stands-at m wanting s at.0)
              (λ p ne. s.stands p);
        idle_lock = s.idle_lock;
      },
    )
  where
    zero_value : (m.lock.semaphore.value == 0) ≡ true
    zero_value = ground arith

    apart : (p : ℕ) → has p (m.lock.semaphore.waiters ++ (cur m ∷ [])) ≡ true → p ≢ m.kernel.idle
    apart p h i =
        ground (arith, has-append p m.lock.semaphore.waiters (cur m ∷ []), at.1, has_same i)
      where
        has_same :
            p ≡ m.kernel.idle
            → has p m.lock.semaphore.waiters ≡ has m.kernel.idle m.lock.semaphore.waiters
        has_same i = rw i

    blocked :
        (p : ℕ)
        → has p (m.lock.semaphore.waiters ++ (cur m ∷ [])) ≡ true
        → update m.kernel.status (cur m) task_blocked p ≡ task_blocked
    blocked p h = ground (arith, has-append p m.lock.semaphore.waiters (cur m ∷ []), s.waits p)

    not_waiting : has (cur m) m.lock.semaphore.waiters ≡ false
    not_waiting = elim (Bool-cases (has (cur m) m.lock.semaphore.waiters)) [
      | inl h ↦ absurd (ground (arith, s.waits (cur m) h, s.valid.runs))
      | inr h ↦ h
    ]

down_take : (m : Machine) → IsSound m → At m wanting → m.lock.semaphore.value ≡ 1 → Goes (down m)
unfolding down sema_down
down_take m s at e = (
  record (move m taken) {
    lock = record {
      holder = m.lock.holder;
      semaphore = record { value = m.lock.semaphore.value - 1; waiters = m.lock.semaphore.waiters };
      repeat_nr = m.lock.repeat_nr;
    };
  },
  rw (not_zero, then_zero),
  record {
    valid = s.valid;
    binary = omega (arith, s.binary);
    free = λ z p. absurd (omega arith);
    unique = λ p q a b. ground (arith, s.free e p, s.free e q);
    distinct = s.distinct;
    waits = s.waits;
    not_idle = s.not_idle;
    stands =
        Stands-moved m taken m.lock.holder m.lock.repeat_nr (s.idle_lock e) (λ p ne. s.stands p);
    idle_lock = λ z. absurd (omega arith);
  },
)
  where
    not_zero : (m.lock.semaphore.value == 0) ≡ false
    not_zero = ground arith

    then_zero : ((m.lock.semaphore.value - 1) == 0) ≡ true
    then_zero = ground arith

pub down_lem : (m : Machine) → IsSound m → At m wanting → Goes (down m)
down_lem m s at = elim (Bool-cases (m.lock.semaphore.value == 0)) [
  | inl e ↦ down_wait m s at (ground arith)
  | inr e ↦ down_take m s at (ground (arith, s.binary))
]

-- The waiters and the kernel that `sema_up` leaves.
record Woken (m : Machine) (ws : List ℕ) (k : Kernel) : Type 0 where
  valid : IsValid k
  distinct : Distinct ws
  waits : (p : ℕ) → has p ws ≡ true → k.status p ≡ task_blocked
  fewer : (p : ℕ) → has p ws ≡ true → has p m.lock.semaphore.waiters ≡ true
  idle_same : k.idle ≡ m.kernel.idle

wake_lem :
    (m : Machine) (ws : List ℕ)
    → IsSound m
    → m.lock.semaphore.waiters ≡ ws
    → (ws' : List ℕ) × (k : Kernel) × (wake_first ws m.kernel ≡ ok (ws', k)) × Woken m ws' k
unfolding wake_first has
wake_lem m [] s e = (
  [],
  m.kernel,
  refl,
  record {
    valid = s.valid;
    distinct = tt;
    waits = λ p h. absurd (cc h);
    fewer = λ p h. absurd (cc h);
    idle_same = refl;
  },
)
wake_lem m (x ∷ xs) s e =
    let asleep : is_suspended (m.kernel.status x) ≡ true =
      ground (arith, s.waits x (has_e x (ground arith))) in
    let (run, q) = thread_unblock-IsQueued x m.kernel s.valid.base asleep in
    (
      xs,
      set_status x task_ready (record m.kernel { ready = x ∷ m.kernel.ready }),
      rw run,
      record {
        valid = record { base = q; runs = ground (arith, s.valid.runs) };
        distinct = (rw e at s.distinct).1;
        waits = λ p h. ground (arith, s.waits p (has_e p (ground arith)), other p h);
        fewer = λ p h. has_e p (ground arith);
        idle_same = refl;
      },
    )
  where
    has_e : (p : ℕ) → has p (x ∷ xs) ≡ true → has p m.lock.semaphore.waiters ≡ true
    has_e p h = rw e h

    other : (p : ℕ) → has p xs ≡ true → (x == p) ≡ false
    other p h = ne_of_has p x xs h (rw e at s.distinct).0

pub up_lem : (m : Machine) → IsSound m → At m leaving → Goes (up m)
unfolding up sema_up
up_lem m s at =
    let (ws, k, run, w) = wake_lem m m.lock.semaphore.waiters s refl in
    (
      record (move m outside) {
        lock = record {
          holder = m.lock.holder;
          semaphore = record { value = m.lock.semaphore.value + 1; waiters = ws };
          repeat_nr = m.lock.repeat_nr;
        };
        kernel = k;
      },
      rw (zero_value, run, one_value),
      record {
        valid = w.valid;
        binary = ground (arith, zero_value);
        free = λ z p. ground (arith, s.unique p (cur m), at.0);
        unique = λ p q a b. ground (arith, s.unique p q);
        distinct = w.distinct;
        waits = w.waits;
        not_idle = ground (arith, w.fewer k.idle, s.not_idle, idle_e k w.idle_same);
        stands =
            Stands-moved m outside m.lock.holder m.lock.repeat_nr
              (ap (λ h. held_by h (cur m)) (Stands-at m leaving s at.0).0) (λ p ne. s.stands p);
        idle_lock = λ z. Stands-at m leaving s at.0;
      },
    )
  where
    zero_value : (m.lock.semaphore.value == 0) ≡ true
    zero_value = elim (Bool-cases (m.lock.semaphore.value == 0)) [
      | inl e ↦ e
      | inr e ↦
          let one : m.lock.semaphore.value ≡ 1 = ground (arith, s.binary) in
          absurd (ground (arith, s.free one (cur m), at.0))
    ]

    one_value : ((m.lock.semaphore.value + 1) == 1) ≡ true
    one_value = ground (arith, zero_value)

    idle_e :
        (k : Kernel)
        → k.idle ≡ m.kernel.idle
        → has k.idle m.lock.semaphore.waiters ≡ has m.kernel.idle m.lock.semaphore.waiters
    idle_e k e = rw e
