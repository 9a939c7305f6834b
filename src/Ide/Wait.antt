-- ===== src/Ide/Wait.antt =====
-- Waiting for the drive: `busy_wait` of ch15/device/ide.c.
use os_elephant.Base.{
  ℕ, zero, suc, ◌+◌, ◌-◌, ◌<◌, ◌≡◌, refl, ap, ◌∙◌, true, false, List, ◌∷◌, arith,
}
use os_elephant.Base.Bytes.{bit_on}
use os_elephant.Ide.{Event, sleep, Driver, busy_loop, busy_wait, put_event}

-- From its `n`-th reading on, the status port shows a busy drive for less than the time limit, and
-- then one that has or takes data.
pub record Answer (status : ℕ → ℕ) (n : ℕ) : Type 0 where
  pub tries : ℕ
  pub soon : tries < 29999
  pub busy : (i : ℕ) → i < tries → bit_on (status (n + i)) 7 ≡ true
  pub done : bit_on (status (n + tries)) 7 ≡ false
  pub drq : bit_on (status (n + tries + 1)) 3 ≡ true

-- The state after a number of sleeps.
unfoldable pub slept : ℕ → Driver → Driver
slept zero s = s
slept (suc tries) s = slept tries (put_event (sleep 10) (record s { readings = s.readings + 1 }))

slept_readings : (tries : ℕ) (s : Driver) → (slept tries s).readings ≡ s.readings + tries
unfolding slept
slept_readings zero s = omega arith
slept_readings (suc tries) s =
    slept_readings tries (put_event (sleep 10) (record s { readings = s.readings + 1 }))
    ∙ omega arith

pub slept_channel : (tries : ℕ) (s : Driver) → (slept tries s).channel ≡ s.channel
unfolding slept
slept_channel zero s = refl
slept_channel (suc tries) s =
    slept_channel tries (put_event (sleep 10) (record s { readings = s.readings + 1 }))

busy_rounds :
    (status : ℕ → ℕ) (tries left : ℕ) (s : Driver)
    → ((i : ℕ) → i < tries → bit_on (status (s.readings + i)) 7 ≡ true)
    → busy_loop status (tries + left) s ≡ busy_loop status left (slept tries s)
unfolding busy_loop slept
busy_rounds status zero left s busy = ap (λ n. busy_loop status n s) (omega arith)
busy_rounds status (suc tries) left s busy =
    let more : suc tries + left ≡ suc (tries + left) = omega arith in
    let first : bit_on (status s.readings) 7 ≡ true =
      ap (λ n. bit_on (status n) 7) (omega arith) ∙ busy 0 (omega arith) in
    rw (more, first)
      (busy_rounds status tries left (put_event (sleep 10) (record s { readings = s.readings + 1 }))
        λ i lt. ap (λ n. bit_on (status n) 7) (omega arith) ∙ busy (suc i) (omega arith))

-- An answer ends the wait.
pub busy_wait_lem :
    (status : ℕ → ℕ) (s : Driver) (a : Answer status s.readings)
    → (s' : Driver) × (busy_wait status s ≡ (true, s'))
      × (s'.log ≡ (slept a.tries s).log)
      × (s'.channel ≡ s.channel)
unfolding busy_wait
busy_wait_lem status s a =
    let limit : 29999 ≡ a.tries + suc (29998 - a.tries) = omega (arith, a.soon) in
    let end = slept a.tries s in
    let readings = slept_readings a.tries s in
    let done : bit_on (status end.readings) 7 ≡ false = rw readings a.done in
    let drq : bit_on (status (end.readings + 1)) 3 ≡ true = rw readings a.drq in
    (
      record end { readings = end.readings + 2 },
      ap (λ n. busy_loop status n s) limit
          ∙ (busy_rounds status a.tries (suc (29998 - a.tries)) s a.busy ∙ last end done drq),
      refl,
      slept_channel a.tries s,
    )
  where
    last :
        (end : Driver)
        → bit_on (status end.readings) 7 ≡ false
        → bit_on (status (end.readings + 1)) 3 ≡ true
        → busy_loop status (suc (29998 - a.tries)) end
          ≡ (true, record end { readings = end.readings + 2 })
    last end done drq = unfold busy_loop in rw (done, drq) refl

-- A log after a number of calls of `mtime_sleep(10)`.
unfoldable pub napped : ℕ → List Event → List Event
napped zero log = log
napped (suc n) log = napped n (sleep 10 ∷ log)

slept_log : (tries : ℕ) (s : Driver) → (slept tries s).log ≡ napped tries s.log
unfolding slept napped
slept_log zero s = refl
slept_log (suc tries) s =
    slept_log tries (put_event (sleep 10) (record s { readings = s.readings + 1 }))

-- While the drive stays busy for 29999 readings of the status port, `busy_wait` gives up only after
-- 29999 calls of `mtime_sleep(10)`, one behind each reading, and writes nothing to the ports.
pub busy_wait_slow :
    (status : ℕ → ℕ) (s : Driver)
    → ((i : ℕ) → i < 29999 → bit_on (status (s.readings + i)) 7 ≡ true)
    → ((busy_wait status s).0 ≡ false) × ((busy_wait status s).1.log ≡ napped 29999 s.log)
unfolding busy_wait
busy_wait_slow status s busy =
    let run : busy_loop status 29999 s ≡ (false, slept 29999 s) =
      busy_rounds status 29999 0 s busy ∙ (unfold busy_loop in refl) in
    rw run (refl, slept_log 29999 s)
