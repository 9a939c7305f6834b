-- ===== src/Thread/Sched.antt =====
-- The scheduler's invariant: exactly one thread runs, and the ready list holds the ready ones, each
-- once. Every operation keeps it, and none of its tests stops the machine.
use os_elephant.Base.{
  ℕ, true, false, ◌||◌, List, [], ◌∷◌, ◌++◌, ◌==◌, ◌≡◌, ◌≢◌, refl, if◌then◌else◌, ok, arith, ap,
  ◌∙◌, Bool-cases, inl, inr, ◌>>=◌,
}
use os_elephant.Base.Members.{has, Distinct, Distinct-snoc, has-append}
use os_elephant.Thread.{
  Status, task_running, task_ready, task_blocked, task_waiting, task_hanging, task_died, Kernel,
  is_running, is_ready, is_suspended, update, is_empty, set_status, thread_unblock, requeue, refill,
  dispatch, schedule, thread_yield, thread_block,
}

-- What holds also while a thread gives up the processor.
pub record IsQueued (k : Kernel) : Type 0 where
  pub distinct : Distinct k.ready
  pub queued : (p : ℕ) → has p k.ready ≡ true → k.status p ≡ task_ready
  pub ready_in : (p : ℕ) → k.status p ≡ task_ready → has p k.ready ≡ true
  pub alone : (p : ℕ) → k.status p ≡ task_running → p ≡ k.cur
  pub idle_lives : k.status k.idle ≢ task_died

-- What holds while a thread runs.
pub record IsValid (k : Kernel) : Type 0 where
  pub base : IsQueued k
  pub runs : k.status k.cur ≡ task_running

not_in_ready :
    (k : Kernel) (p : ℕ) → IsQueued k → is_ready (k.status p) ≡ false → has p k.ready ≡ false
not_in_ready k p q h = elim (Bool-cases (has p k.ready)) [
  | inl e ↦ absurd (ground (arith, q.queued p))
  | inr e ↦ e
]

-- Waking a suspended thread.
pub thread_unblock-IsQueued :
    (p : ℕ) (k : Kernel)
    → IsQueued k
    → is_suspended (k.status p) ≡ true
    → let k' = set_status p task_ready (record k { ready = p ∷ k.ready }) in
      (thread_unblock p k ≡ ok k') × IsQueued k'
unfolding thread_unblock has
thread_unblock-IsQueued p k q h =
    let out : has p k.ready ≡ false = not_in_ready k p q (ground arith) in
    (
      ground arith,
      record {
        distinct = (out, q.distinct);
        queued = λ x i. ground (arith, q.queued x);
        ready_in = λ x i. ground (arith, q.ready_in x);
        alone = λ x i. ground (arith, q.alone x);
        idle_lives = ground (arith, q.idle_lives);
      },
    )

-- The first part of `schedule` leaves no thread running.
abbrev NoneRuns : Kernel → Type 0
NoneRuns k = (p : ℕ) → k.status p ≢ task_running

abbrev requeued : Kernel → Kernel
requeued k =
    if is_running (k.status k.cur)
    then record k {
      ready = k.ready ++ (k.cur ∷ []);
      ticks = update k.ticks k.cur (k.priority k.cur);
      status = update k.status k.cur task_ready;
    }
    else k

requeue-IsQueued :
    (k : Kernel)
    → IsQueued k
    → (requeue k ≡ ok (requeued k)) × IsQueued (requeued k) × NoneRuns (requeued k)
unfolding requeue has
requeue-IsQueued k q = elim (Bool-cases (is_running (k.status k.cur))) [
  | inl e ↦
      let out : has k.cur k.ready ≡ false = not_in_ready k k.cur q (ground arith) in
      rw (e, out)
        (
          refl,
          record {
            distinct = Distinct-snoc k.ready k.cur q.distinct out;
            queued = λ p i. ground (arith, q.queued p, has-append p k.ready (k.cur ∷ []));
            ready_in = λ p i. ground (arith, q.ready_in p, has-append p k.ready (k.cur ∷ []));
            alone = λ p i. ground (arith, q.alone p);
            idle_lives = ground (arith, q.idle_lives);
          },
          λ p i. ground (arith, q.alone p),
        )
  | inr e ↦ rw e (refl, q, λ p i. ground (arith, q.alone p))
]

-- The last part runs the first ready thread.
dispatch-IsValid :
    (k : Kernel) (x : ℕ) (xs : List ℕ)
    → IsQueued k
    → NoneRuns k
    → k.ready ≡ x ∷ xs
    → IsValid (set_status x task_running (record k { ready = xs; cur = x }))
unfolding has
dispatch-IsValid k x xs q none e = record {
  base = record {
    distinct = (rw e at q.distinct).1;
    queued = λ p i. ground (arith, q.queued p, has_e p, (rw e at q.distinct).0);
    ready_in = λ p i. ground (arith, q.ready_in p, has_e p);
    alone = λ p i. ground (arith, none p);
    idle_lives = ground (arith, q.idle_lives);
  };
  runs = ground arith;
}
  where
    has_e : (p : ℕ) → has p k.ready ≡ ((p == x) || has p xs)
    has_e p = rw e

-- The ready list from which `schedule` takes the next thread: the running thread joins its end, and
-- the idle thread steps in where nobody is ready.
abbrev pub line_up : Kernel → List ℕ
line_up k =
    let r = (if is_running (k.status k.cur) then k.ready ++ (k.cur ∷ []) else k.ready) in
    if is_empty r then k.idle ∷ [] else r

-- What a switch leaves alone: who is the idle thread, and who is blocked.
pub record Keeps (k k' : Kernel) : Type 0 where
  pub idle_same : k'.idle ≡ k.idle
  pub blocked_same : (p : ℕ) → p ≢ k.idle → k.status p ≡ task_blocked → k'.status p ≡ task_blocked

requeued-Keeps : (k : Kernel) → Keeps k (requeued k)
requeued-Keeps k = elim (Bool-cases (is_running (k.status k.cur))) [
  | inl e ↦ rw e (record { idle_same = refl; blocked_same = λ p ne b. ground arith })
  | inr e ↦ rw e (record { idle_same = refl; blocked_same = λ p ne b. b })
]

requeued_line :
    (k : Kernel)
    → (if is_empty (requeued k).ready then (requeued k).idle ∷ [] else (requeued k).ready)
      ≡ line_up k
requeued_line k = elim (Bool-cases (is_running (k.status k.cur))) [ inl e ↦ rw e | inr e ↦ rw e ]

suspended_of :
    (s : Status) → s ≢ task_running → s ≢ task_ready → s ≢ task_died → is_suspended s ≡ true
suspended_of task_running a b c = absurd (a refl)
suspended_of task_ready a b c = absurd (b refl)
suspended_of task_blocked a b c = refl
suspended_of task_waiting a b c = refl
suspended_of task_hanging a b c = refl
suspended_of task_died a b c = absurd (c refl)

finish :
    (k : Kernel) (r : List ℕ)
    → IsQueued k
    → NoneRuns k
    → k.ready ≡ r
    → (k' : Kernel) × ((refill r k >>= λ k2. dispatch k2.ready k2) ≡ ok k')
      × IsValid k'
      × (k'.cur ∷ k'.ready ≡ (if is_empty r then k.idle ∷ [] else r))
      × Keeps k k'
unfolding refill dispatch has
finish k [] q none e =
    let h : is_suspended (k.status k.idle) ≡ true =
      suspended_of (k.status k.idle) (none k.idle) (λ i. idle_out (q.ready_in k.idle i))
        q.idle_lives in
    let (run, q2) = thread_unblock-IsQueued k.idle k q h in
    (
      set_status k.idle task_running (set_status k.idle task_ready (record k { cur = k.idle })),
      rw run (rw e),
      dispatch-IsValid (set_status k.idle task_ready (record k { ready = k.idle ∷ k.ready })) k.idle
          k.ready q2 (λ p i. ground (arith, none p)) refl,
      ap (λ l. k.idle ∷ l) e,
      record { idle_same = refl; blocked_same = λ p ne b. ground arith },
    )
  where
    idle_out : has k.idle k.ready ≡ true → ⊥
    idle_out i = absurd (cc (rw e at i))
finish k (x ∷ xs) q none e = (
  set_status x task_running (record k { ready = xs; cur = x }),
  ap (λ l. dispatch l k) e,
  dispatch-IsValid k x xs q none e,
  refl,
  record { idle_same = refl; blocked_same = λ p ne b. ground (arith, q.queued x (head_has e)) },
)
  where
    head_has : k.ready ≡ x ∷ xs → has x k.ready ≡ true
    head_has e = rw e (ground arith)

-- With interrupts off and the queue in order, as `IsQueued` says, `schedule` never stops the
-- machine: the state after it is valid, the first thread of the line runs and the others stay in
-- it, in order.
pub schedule_lem :
    (k : Kernel)
    → IsQueued k
    → (k' : Kernel) × (schedule false k ≡ ok k')
      × IsValid k'
      × (k'.cur ∷ k'.ready ≡ line_up k)
      × Keeps k k'
unfolding schedule
schedule_lem k q =
    let (run, q1, none) = requeue-IsQueued k q in
    let (k', e, v, line, keeps) = finish (requeued k) (requeued k).ready q1 none refl in
    let first = requeued-Keeps k in
    (
      k',
      rw run e,
      v,
      line ∙ requeued_line k,
      record {
        idle_same = keeps.idle_same ∙ first.idle_same;
        blocked_same = λ p ne b.
            keeps.blocked_same p (λ z. ne (z ∙ first.idle_same)) (first.blocked_same p ne b);
      },
    )

-- A running thread that blocks leaves a queued kernel, in which it is not running.
block-IsQueued :
    (stat : Status) (k : Kernel)
    → IsValid k
    → is_suspended stat ≡ true
    → IsQueued (set_status k.cur stat k) × (is_running stat ≡ false)
unfolding has
block-IsQueued stat k v h = (
  record {
    distinct = v.base.distinct;
    queued = λ p i. ground (arith, v.base.queued p, v.runs);
    ready_in = λ p i. ground (arith, v.base.ready_in p);
    alone = λ p i. ground (arith, v.base.alone p);
    idle_lives = ground (arith, v.base.idle_lives);
  },
  ground arith,
)

-- In a valid state the running thread blocks in one of the three suspended states: the machine
-- goes on with the first ready thread, or the idle thread, and the state is valid again.
pub thread_block-IsValid :
    (stat : Status) (k : Kernel)
    → IsValid k
    → is_suspended stat ≡ true
    → (k' : Kernel) × (thread_block stat k ≡ ok k')
      × IsValid k'
      × (k'.cur ∷ k'.ready ≡ (if is_empty k.ready then k.idle ∷ [] else k.ready))
      × Keeps (set_status k.cur stat k) k'
unfolding thread_block
thread_block-IsValid stat k v h =
    let (q, out) = block-IsQueued stat k v h in
    let (k', run, v', line, keeps) = schedule_lem (set_status k.cur stat k) q in
    let still : is_running ((set_status k.cur stat k).status k.cur) ≡ false = ground arith in
    (k', rw h run, v', line ∙ rw still refl, keeps)

yield-IsQueued :
    (k : Kernel)
    → IsValid k
    → IsQueued (set_status k.cur task_ready (record k { ready = k.ready ++ (k.cur ∷ []) }))
      × (has k.cur k.ready ≡ false)
unfolding has
yield-IsQueued k v =
    let out : has k.cur k.ready ≡ false = not_in_ready k k.cur v.base (ground (arith, v.runs)) in
    (
      record {
        distinct = Distinct-snoc k.ready k.cur v.base.distinct out;
        queued = λ p i. ground (arith, v.base.queued p, has-append p k.ready (k.cur ∷ []));
        ready_in = λ p i. ground (arith, v.base.ready_in p, has-append p k.ready (k.cur ∷ []));
        alone = λ p i. ground (arith, v.base.alone p);
        idle_lives = ground (arith, v.base.idle_lives);
      },
      out,
    )

is_empty_snoc : (xs : List ℕ) (x : ℕ) → is_empty (xs ++ (x ∷ [])) ≡ false
is_empty_snoc [] x = refl
is_empty_snoc (y ∷ ys) x = refl

-- In a valid state `thread_yield` never stops the machine: the running thread goes to the end of
-- the line, and the state is valid again.
pub thread_yield-IsValid :
    (k : Kernel)
    → IsValid k
    → (k' : Kernel) × (thread_yield k ≡ ok k')
      × IsValid k'
      × (k'.cur ∷ k'.ready ≡ k.ready ++ (k.cur ∷ []))
      × Keeps k k'
unfolding thread_yield
thread_yield-IsValid k v =
    let (q, out) = yield-IsQueued k v in
    let (k', run, v', line, keeps) =
      schedule_lem (set_status k.cur task_ready (record k { ready = k.ready ++ (k.cur ∷ []) })) q in
    let still : is_running (update k.status k.cur task_ready k.cur) ≡ false = ground arith in
    (
      k',
      rw out run,
      v',
      line ∙ rw (still, is_empty_snoc k.ready k.cur) refl,
      record {
        idle_same = keeps.idle_same;
        blocked_same = λ p ne b. keeps.blocked_same p ne (ground (arith, v.runs));
      },
    )

-- Waking a suspended thread keeps the invariant: it becomes the first of the ready list.
pub thread_unblock-IsValid :
    (p : ℕ) (k : Kernel)
    → IsValid k
    → is_suspended (k.status p) ≡ true
    → (k' : Kernel) × (thread_unblock p k ≡ ok k')
      × IsValid k'
      × (k'.ready ≡ p ∷ k.ready)
      × (k'.cur ≡ k.cur)
thread_unblock-IsValid p k v h =
    let (run, q) = thread_unblock-IsQueued p k v.base h in
    (_, run, record { base = q; runs = ground (arith, v.runs) }, refl, refl)
