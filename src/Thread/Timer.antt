-- ===== src/Thread/Timer.antt =====
-- The timer: ch15/device/timer.c.
use os_elephant.Base.{
  ℕ, zero, suc, ◌+◌, ◌-◌, ◌*◌, ◌/◌, ◌%◌, ◌^◌, ◌<◌, ◌≤◌, true, false, List, [], ◌∷◌, ◌++◌, ◌==◌, ◌≡◌,
  refl, if◌then◌else◌, Outcome, ok, out_of_fuel, arith, Bool-cases, inl, inr, ◌>>◌, assert, ltb, u8,
  sub32, add32, bit_or, div_round_up, ◌∙◌, ap,
}
use os_elephant.Thread.{Kernel, update, is_empty, stack_mark, intr_timer_handler, is_running}
use os_elephant.Thread.Sched.{IsValid, schedule_lem, line_up, Keeps}

-- The bytes that `frequency_set` writes, each with its port.
unfoldable pub frequency_set : ℕ → ℕ → ℕ → ℕ → ℕ → List (ℕ × ℕ)
frequency_set counter_port counter_no rw1 counter_mode counter_value =
    (0x43, u8 (bit_or (bit_or (counter_no * 2 ^ 6) (rw1 * 2 ^ 4)) (counter_mode * 2)))
    ∷ (counter_port, u8 counter_value)
    ∷ (counter_port, u8 (u8 counter_value / 2 ^ 8))
    ∷ []

-- What the timer counts from: the second byte at the port is the high one.
abbrev pub loaded : ℕ → List (ℕ × ℕ) → ℕ
loaded port (_ ∷ (p, lo) ∷ (q, hi) ∷ rest) = lo + 2 ^ 8 * hi
loaded port _ = 0

-- The loop of `ticks_to_sleep`. Between two tests other threads run, and the clock moves on:
-- `clocks` gives its value at each test.
unfoldable pub ticks_to_sleep : ℕ → (ℕ → ℕ) → ℕ → ℕ → ℕ → Outcome ℕ
ticks_to_sleep zero clocks start_tick sleep_ticks round = out_of_fuel
ticks_to_sleep (suc fuel) clocks start_tick sleep_ticks round =
    let rest = ticks_to_sleep fuel clocks start_tick sleep_ticks (round + 1) in
    if ltb (sub32 (clocks round) start_tick) sleep_ticks then rest else ok round

-- `mtime_sleep`: at 100 interrupts a second, one tick is 10 milliseconds.
unfoldable pub mtime_sleep : ℕ → (ℕ → ℕ) → ℕ → Outcome ℕ
unfolding ticks_to_sleep
mtime_sleep fuel clocks m_seconds = do
  let sleep_ticks = div_round_up m_seconds 10
  assert (ltb 0 sleep_ticks)
  ticks_to_sleep fuel clocks (clocks 0) sleep_ticks 0

-- The counter is loaded with the low byte of the value alone: the high byte is shifted out after
-- the cast.
pub loaded-frequency_set :
    (port counter rw1 mode value : ℕ)
    → loaded port (frequency_set port counter rw1 mode value) ≡ value % 2 ^ 8
unfolding frequency_set
loaded-frequency_set port counter rw1 mode value = omega arith

-- What a tick does to the running thread: with ticks left it goes on, with one less; with none left
-- it goes to the end of the line, and the first of the line runs.
abbrev pub Ticked : Kernel → Kernel → Type 0
Ticked k k' =
    (k.ticks k.cur ≡ 0 → k'.cur ∷ k'.ready ≡ k.ready ++ (k.cur ∷ []))
    × (0 < k.ticks k.cur
        → (k'.cur ≡ k.cur) × (k'.ready ≡ k.ready) × (k'.ticks k.cur + 1 ≡ k.ticks k.cur))

is_empty_snoc : (xs : List ℕ) (x : ℕ) → is_empty (xs ++ (x ∷ [])) ≡ false
is_empty_snoc [] x = refl
is_empty_snoc (y ∷ ys) x = refl

line_up_running : (k : Kernel) → IsValid k → line_up k ≡ k.ready ++ (k.cur ∷ [])
line_up_running k v =
    let e : is_running (k.status k.cur) ≡ true = ground (arith, v.runs) in
    rw (e, is_empty_snoc k.ready k.cur)

-- The kernel of which the handler calls `schedule`.
abbrev counted : Kernel → Kernel
counted k = record k {
  elapsed = update k.elapsed k.cur (add32 (k.elapsed k.cur) 1);
  clock = add32 k.clock 1;
}

counted-IsValid : (k : Kernel) → IsValid k → IsValid (counted k)
counted-IsValid k v = record {
  base = record {
    distinct = v.base.distinct;
    queued = v.base.queued;
    ready_in = v.base.ready_in;
    alone = v.base.alone;
    idle_lives = v.base.idle_lives;
  };
  runs = v.runs;
}

running-IsValid : (k : Kernel) (f : ℕ → ℕ) → IsValid k → IsValid (record k { ticks = f })
running-IsValid k f v = record {
  base = record {
    distinct = v.base.distinct;
    queued = v.base.queued;
    ready_in = v.base.ready_in;
    alone = v.base.alone;
    idle_lives = v.base.idle_lives;
  };
  runs = v.runs;
}

-- In a valid state, the mark behind the running thread's structure being whole, a tick of the timer
-- does not stop the machine: the state is valid again, and the
-- running thread goes on with one tick less or gives way, as `Ticked` says.
pub intr_timer_handler-IsValid :
    (k : Kernel)
    → IsValid k
    → (k' : Kernel) × (intr_timer_handler stack_mark k ≡ ok k')
      × IsValid k'
      × Ticked k k'
      × Keeps k k'
unfolding intr_timer_handler
intr_timer_handler-IsValid k v = elim (Bool-cases (k.ticks k.cur == 0)) [
  | inl e ↦
      let v1 = counted-IsValid k v in
      let (k', run, v', line, keeps) = schedule_lem (counted k) v1.base in
      (
        k',
        rw e run,
        v',
        ((λ z. line ∙ line_up_running (counted k) v1), λ h. absurd (ground arith)),
        record { idle_same = keeps.idle_same; blocked_same = keeps.blocked_same },
      )
  | inr e ↦ (
    record (counted k) { ticks = update k.ticks k.cur (k.ticks k.cur - 1) },
    rw e,
    running-IsValid (counted k) _ (counted-IsValid k v),
    ((λ z. absurd (ground arith)), λ h. (refl, refl, ground arith)),
    record { idle_same = refl; blocked_same = λ p ne b. b },
  )
]

-- The clock at test `i`, as far ahead of the start as `ahead i`, wrapping at 2 ^ 32.
module _ (clocks ahead : ℕ → ℕ) (start sleep_ticks : ℕ)
    (reads : (i : ℕ) → clocks i ≡ (start + ahead i) % 2 ^ 32)
    (advances : (i : ℕ) → i ≤ sleep_ticks → (i ≤ ahead i) × (ahead i < 2 ^ 32))
    (start_in : start < 2 ^ 32) where
  sleep_loop :
      (fuel i : ℕ)
      → i ≤ sleep_ticks
      → sleep_ticks < fuel + i
      → (r : ℕ) × (ticks_to_sleep fuel clocks start sleep_ticks i ≡ ok r) × (sleep_ticks ≤ ahead r)
  unfolding ticks_to_sleep
  sleep_loop zero i le enough = absurd (omega arith)
  sleep_loop (suc fuel) i le enough =
      let passed : sub32 (clocks i) start ≡ ahead i = rw (reads i) (omega (arith, advances i le)) in
      elim (Bool-cases (ltb (ahead i) sleep_ticks)) [
        | inl e ↦
            let below : ahead i < sleep_ticks = ground arith in
            let (r, run, slept) =
              sleep_loop fuel (i + 1) (omega (arith, advances i le)) (omega arith) in
            (
              r,
              ap
                    (λ b.
                      if ltb b sleep_ticks
                      then ticks_to_sleep fuel clocks start sleep_ticks (i + 1)
                      else ok i)
                    passed
                  ∙ ap
                      (λ b.
                        if b then ticks_to_sleep fuel clocks start sleep_ticks (i + 1) else ok i)
                      e
                  ∙ run,
              slept,
            )
        | inr e ↦ (i, rw (passed, e), ground arith)
      ]

-- If each round lets the clock move on by a tick at least, `mtime_sleep` returns, and not before
-- the time is over: a tick is 10 milliseconds. The clock may wrap.
pub mtime_sleep_lem :
    (clocks ahead : ℕ → ℕ) (m_seconds : ℕ)
    → 0 < m_seconds
    → m_seconds < 2 ^ 31
    → clocks 0 < 2 ^ 32
    → ((i : ℕ) → clocks i ≡ (clocks 0 + ahead i) % 2 ^ 32)
    → ((i : ℕ) → i ≤ div_round_up m_seconds 10 → (i ≤ ahead i) × (ahead i < 2 ^ 32))
    → (r : ℕ) × (mtime_sleep (div_round_up m_seconds 10 + 1) clocks m_seconds ≡ ok r)
      × (m_seconds ≤ 10 * ahead r)
unfolding mtime_sleep
mtime_sleep_lem clocks ahead m pos small start_in reads advances =
    let ticks = div_round_up m 10 in
    let e : ltb 0 ticks ≡ true = ground (arith, enough) in
    let (r, run, slept) =
      sleep_loop clocks ahead (clocks 0) ticks reads advances start_in (ticks + 1) 0 (omega arith)
        (omega arith) in
    (r, rw e run, omega (arith, enough))
  where
    enough : m ≤ 10 * div_round_up m 10
    enough = unfold div_round_up in omega arith
