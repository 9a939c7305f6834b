-- ===== src/Thread/Mutex/Invariant.antt =====
-- The invariant of the machine.
use mathlib.Core.Path.{subst}
use os_elephant.Base.{
  ℕ, ◌≤◌, Bool, true, false, Option, none, some, ◌≡◌, ◌≢◌, ◌<◌, Outcome, ok, arith, Bool-cases, inl,
  inr, ap, ◌∙◌, ◌==◌,
}
use os_elephant.Base.Members.{has, Distinct}
use os_elephant.Thread.{Kernel, task_blocked, update}
use os_elephant.Thread.Sched.{IsValid, Keeps}
use os_elephant.Thread.Sync.{acquire_test, held_by}
use os_elephant.Thread.Mutex.Machine.{
  Place, outside, wanting, taken, named, holding, again, releasing, dropping, clearing, unnamed,
  leaving, Machine, cur, set_lock, enter, At,
}

-- Behind `sema_down` and before the end of `sema_up`.
abbrev pub inside : Place → Bool
inside outside = false
inside wanting = false
inside _ = true

-- What `holder` and `holder_repeat_nr` are for a thread at a place.
abbrev pub Stands : Place → ℕ → Option ℕ → ℕ → Type 0
Stands outside p h r = held_by h p ≡ false
Stands wanting p h r = held_by h p ≡ false
Stands taken p h r = (h ≡ none) × (r ≡ 0)
Stands named p h r = (h ≡ some p) × (r ≡ 0)
Stands holding p h r = (h ≡ some p) × (0 < r)
Stands again p h r = (h ≡ some p) × (0 < r)
Stands releasing p h r = (h ≡ some p) × (0 < r)
Stands dropping p h r = (h ≡ some p) × (1 < r)
Stands clearing p h r = (h ≡ some p) × (r ≡ 1)
Stands unnamed p h r = (h ≡ none) × (r ≡ 1)
Stands leaving p h r = (h ≡ none) × (r ≡ 0)

pub Stands-out :
    (pl : Place) (p : ℕ) (h : Option ℕ) (r : ℕ)
    → inside pl ≡ false
    → held_by h p ≡ false
    → Stands pl p h r
Stands-out outside p h r out free_of = free_of
Stands-out wanting p h r out free_of = free_of
Stands-out _ p h r out free_of = absurd (cc out)

pub record IsSound (m : Machine) : Type 0 where
  pub valid : IsValid m.kernel
  -- The semaphore is 1 or 0, and it is 0 exactly while a thread is inside, which is the only one.
  pub binary : m.lock.semaphore.value ≤ 1
  pub free : m.lock.semaphore.value ≡ 1 → (p : ℕ) → inside (m.place p) ≡ false
  pub unique : (p q : ℕ) → inside (m.place p) ≡ true → inside (m.place q) ≡ true → p ≡ q
  -- Waiters wait in the loop, blocked.
  pub distinct : Distinct m.lock.semaphore.waiters
  pub waits : (p : ℕ) → has p m.lock.semaphore.waiters ≡ true → m.kernel.status p ≡ task_blocked
  pub not_idle : has m.kernel.idle m.lock.semaphore.waiters ≡ false
  pub stands : (p : ℕ) → Stands (m.place p) p m.lock.holder m.lock.repeat_nr
  pub idle_lock : m.lock.semaphore.value ≡ 1 → (m.lock.holder ≡ none) × (m.lock.repeat_nr ≡ 0)

-- Every kernel step that keeps the scheduler's invariant keeps this one.
pub kernel-IsSound :
    (m : Machine) (k : Kernel)
    → IsSound m
    → IsValid k
    → Keeps m.kernel k
    → IsSound (record m { kernel = k })
kernel-IsSound m k s v keeps = record {
  valid = v;
  binary = s.binary;
  free = s.free;
  unique = s.unique;
  distinct = s.distinct;
  waits = λ p h. keeps.blocked_same p (λ e. apart p h e) (s.waits p h);
  not_idle = rw keeps.idle_same s.not_idle;
  stands = s.stands;
  idle_lock = s.idle_lock;
}
  where
    apart : (p : ℕ) → has p m.lock.semaphore.waiters ≡ true → p ≡ m.kernel.idle → ⊥
    apart p h e = cc (s.not_idle)

-- The step is made, and leaves a sound machine.
abbrev pub Goes : Outcome Machine → Type 0
Goes o = (n : Machine) × (o ≡ ok n) × IsSound n

-- The current thread's `Stands`, its place known.
pub Stands-at :
    (m : Machine) (pl : Place)
    → IsSound m
    → m.place (cur m) ≡ pl
    → Stands pl (cur m) m.lock.holder m.lock.repeat_nr
Stands-at m pl s e =
    subst (λ q. Stands q (cur m) m.lock.holder m.lock.repeat_nr) e (s.stands (cur m))

-- The places after the current thread's step.
pub Stands-moved :
    (m : Machine) (pl : Place) (h : Option ℕ) (r : ℕ)
    → Stands pl (cur m) h r
    → ((p : ℕ) → p ≢ cur m → Stands (m.place p) p h r)
    → (p : ℕ) → Stands (update m.place (cur m) pl p) p h r
Stands-moved m pl h r mine others p = elim (Bool-cases (cur m == p)) [
  | inl e ↦ let same : cur m ≡ p = ground arith in rw e (subst (λ q. Stands pl q h r) same mine)
  | inr e ↦ rw e (others p (ground arith))
]

-- The other threads stand outside, if one is inside.
pub others_out :
    (m : Machine) (h : Option ℕ) (r : ℕ)
    → IsSound m
    → inside (m.place (cur m)) ≡ true
    → ((p : ℕ) → p ≢ cur m → held_by h p ≡ false)
    → (p : ℕ) → p ≢ cur m
    → Stands (m.place p) p h r
others_out m h r s i free_of p ne = elim (Bool-cases (inside (m.place p))) [
  | inl e ↦ absurd (ne (s.unique p (cur m) e i))
  | inr e ↦ Stands-out (m.place p) p h r e (free_of p ne)
]

-- A thread inside that writes `holder` or `holder_repeat_nr` and stays inside.
pub set_lock-IsSound :
    (m : Machine) (from pl : Place) (h : Option ℕ) (r : ℕ)
    → IsSound m
    → m.place (cur m) ≡ from
    → inside from ≡ true
    → inside pl ≡ true
    → Stands pl (cur m) h r
    → ((p : ℕ) → p ≢ cur m → held_by h p ≡ false)
    → IsSound (set_lock m pl (record { holder = h; semaphore = m.lock.semaphore; repeat_nr = r }))
set_lock-IsSound m from pl h r s at i j stands free_of = record {
  valid = s.valid;
  binary = s.binary;
  free = λ e p. absurd (ground (arith, s.free e (cur m), here_in));
  unique = λ p q a b. ground (arith, s.unique p q, s.unique p (cur m), s.unique q (cur m), here_in);
  distinct = s.distinct;
  waits = s.waits;
  not_idle = s.not_idle;
  stands = Stands-moved m pl h r stands (others_out m h r s here_in free_of);
  idle_lock = λ e. absurd (ground (arith, s.free e (cur m), here_in));
}
  where
    here_in : inside (m.place (cur m)) ≡ true
    here_in = rw at i

pub enter_outside : (m : Machine) → IsSound m → At m outside → IsSound (enter m)
unfolding enter acquire_test
enter_outside m s at =
    let out : held_by m.lock.holder (cur m) ≡ false = Stands-at m outside s at.0 in
    rw out (record {
      valid = s.valid;
      binary = s.binary;
      free = λ e p. ground (arith, s.free e p, at.0);
      unique = λ p q a b. ground (arith, s.unique p q, at.0);
      distinct = s.distinct;
      waits = s.waits;
      not_idle = s.not_idle;
      stands = Stands-moved m wanting m.lock.holder m.lock.repeat_nr out (λ p ne. s.stands p);
      idle_lock = s.idle_lock;
    })

pub other_held : (q p : ℕ) → p ≢ q → held_by (some q) p ≡ false
other_held q p ne = ground arith

-- The thread that `holder` names writes the count and stays inside.
pub owner-IsSound :
    (m : Machine) (from pl : Place) (r : ℕ)
    → IsSound m
    → m.place (cur m) ≡ from
    → inside from ≡ true
    → inside pl ≡ true
    → m.lock.holder ≡ some (cur m)
    → Stands pl (cur m) m.lock.holder r
    → IsSound (
        set_lock m pl
          (record { holder = m.lock.holder; semaphore = m.lock.semaphore; repeat_nr = r }))
owner-IsSound m from pl r s at i j mine stands =
    set_lock-IsSound m from pl m.lock.holder r s at i j stands
      (λ p ne. ap (λ h. held_by h p) mine ∙ other_held (cur m) p ne)

pub holder_held :
    (m : Machine) → m.lock.holder ≡ some (cur m) → held_by m.lock.holder (cur m) ≡ true
holder_held m mine = rw mine (ground arith)
