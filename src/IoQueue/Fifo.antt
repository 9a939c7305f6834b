-- ===== src/IoQueue/Fifo.antt =====
-- The queue as the list of the characters in it, oldest first: a FIFO of at most 63.
use mathlib.Core.Path.{ap₂}
use os_elephant.Base.{
  ℕ, zero, suc, ◌+◌, ◌-◌, ◌%◌, ◌<◌, ◌≡◌, ◌≢◌, ◌↔◌, refl, true, false, Option, none, some, List, [],
  ◌∷◌, ◌++◌, ◌==◌, if◌then◌else◌, Outcome, ok, ◌>>=◌, arith, length, ap, ◌∙◌, Bool-cases, inl, inr,
}
use os_elephant.IoQueue.{
  IoQueue, bufsize, full, empty, is_locked, ioq_wait, Pass, locked, blocks, done, ioq_getchar,
  ioq_putchar,
}

pub record IsValid (q : IoQueue) : Type 0 where
  pub head_in : q.head < bufsize
  pub tail_in : q.tail < bufsize

-- The `n` characters from index `t` on, going round.
unfoldable pub window : (ℕ → ℕ) → ℕ → ℕ → List ℕ
window buf t zero = []
window buf t (suc n) = buf (t % bufsize) ∷ window buf (t + 1) n

abbrev pub count : IoQueue → ℕ
count q = (q.head + bufsize - q.tail) % bufsize

abbrev pub contents : IoQueue → List ℕ
contents q = window q.buf q.tail (count q)

length-window : (buf : ℕ → ℕ) (t n : ℕ) → length (window buf t n) ≡ n
unfolding window
length-window buf t zero = refl
length-window buf t (suc n) = ap suc (length-window buf (t + 1) n)

pub length-contents : (q : IoQueue) → length (contents q) ≡ count q
length-contents q = length-window q.buf q.tail (count q)

-- Indices that differ by a whole turn show the same characters.
window_turn :
    (buf : ℕ → ℕ) (t u n : ℕ) → t % bufsize ≡ u % bufsize → window buf t n ≡ window buf u n
unfolding window
window_turn buf t u zero e = refl
window_turn buf t u (suc n) e = rw (e, window_turn buf (t + 1) (u + 1) n (omega arith))

-- Writing behind a window that does not fill the buffer extends it.
window_write :
    (buf : ℕ → ℕ) (byte h t n : ℕ)
    → n < bufsize
    → h ≡ (t + n) % bufsize
    → window (λ i. if h == i then byte else buf i) t (suc n) ≡ window buf t n ++ (byte ∷ [])
unfolding window
window_write buf byte h t zero small e = ground arith
window_write buf byte h t (suc n) small e =
    let ne : (h == t % bufsize) ≡ false = ground arith in
    rw ne (
      ap (λ l. buf (t % bufsize) ∷ l)
        (window_write buf byte h (t + 1) n (omega arith) (omega arith)))

-- The tests of the two sides: empty at no character, full at 63.
pub empty_iff : (q : IoQueue) → IsValid q → (empty q ≡ true) ↔ (length (contents q) ≡ 0)
unfolding empty
empty_iff q v =
    (λ h. omega (arith, length-contents q, same h), λ h. ground (arith, length-contents q))
  where
    same : (q.head == q.tail) ≡ true → q.head ≡ q.tail
    same h = ground arith

pub full_iff : (q : IoQueue) → IsValid q → (full q ≡ true) ↔ (length (contents q) ≡ 63)
unfolding full
full_iff q v =
    (λ h. omega (arith, length-contents q, same h), λ h. ground (arith, length-contents q))
  where
    same : ((q.head + 1) % bufsize == q.tail) ≡ true → (q.head + 1) % bufsize ≡ q.tail
    same h = ground arith

-- A thread that waits holds the lock.
pub record Waits (q : IoQueue) : Type 0 where
  pub producer_holds : (p : ℕ) → q.producer ≡ some p → q.holder ≡ some p
  pub consumer_holds : (p : ℕ) → q.consumer ≡ some p → q.holder ≡ some p

-- What a pass of `ioq_putchar` comes to.
abbrev pub Puts : ℕ → ℕ → IoQueue → Outcome (Pass (Unit {0})) → Type 0
Puts me byte q (ok (done _ q' woken)) =
    (length (contents q) < 63)
    × IsValid q'
    × Waits q'
    × (contents q' ≡ contents q ++ (byte ∷ []))
    × (woken ≡ q.consumer)
    × (q'.consumer ≡ none)
    × (q'.producer ≡ q.producer)
    × (q'.holder ≡ q.holder)
Puts me byte q (ok (blocks q')) =
    (length (contents q) ≡ 63)
    × (q.holder ≡ none)
    × (q' ≡ record q { holder = some me; producer = some me })
    × Waits q'
Puts me byte q (ok (locked q')) = (length (contents q) ≡ 63) × (q.holder ≢ none) × (q' ≡ q)
Puts me byte q _ = ⊥

-- Nobody waits while the lock is free.
nobody : (w h : Option ℕ) → ((p : ℕ) → w ≡ some p → h ≡ some p) → h ≡ none → w ≡ none
nobody none h holds free = refl
nobody (some p) h holds free = absurd (cc (holds p refl, free))

-- The next character goes behind the others.
put-contents :
    (q : IoQueue) (byte : ℕ) (c : Option ℕ)
    → IsValid q
    → full q ≡ false
    → contents (record q {
      buf = λ i. if q.head == i then byte else q.buf i;
      head = (q.head + 1) % bufsize;
      consumer = c;
    })
      ≡ contents q ++ (byte ∷ [])
unfolding full
put-contents q byte c v room =
    let more : ((q.head + 1) % bufsize + bufsize - q.tail) % bufsize ≡ suc (count q) =
      ground arith in
    rw more (window_write q.buf byte q.head q.tail (count q) (ground arith) (omega arith))

pub below : (q : IoQueue) → IsValid q → full q ≡ false → length (contents q) < 63
below q v e = elim (Bool-cases (length (contents q) == 63)) [
  | inl h ↦ absurd (cc ((full_iff q v).1 (ground arith)))
  | inr h ↦ ground (arith, length-contents q)
]

-- With room for the character a pass puts it there.
pub ioq_putchar-room :
    (me byte : ℕ) (q : IoQueue)
    → IsValid q
    → full q ≡ false
    → (q' : IoQueue) × (ioq_putchar me false byte q ≡ ok (done tt q' q.consumer))
      × (q' ≡ record q { buf = q'.buf; head = q'.head; consumer = none })
      × IsValid q'
      × (contents q' ≡ contents q ++ (byte ∷ []))
unfolding ioq_putchar
ioq_putchar-room me byte q v e = (
  record q {
    buf = λ i. if q.head == i then byte else q.buf i;
    head = (q.head + 1) % bufsize;
    consumer = none;
  },
  rw e refl,
  refl,
  record { head_in = omega arith; tail_in = v.tail_in },
  put-contents q byte none v e,
)

-- Interrupts off, the two indices in range, who waits holds the lock, and the caller does not: with
-- room for the character `ioq_putchar` puts it behind the others and wakes the consumer that waits;
-- in a full queue it takes the lock and waits as the producer, or blocks at the lock if another
-- thread holds it. It never stops the machine, and who waits still holds the lock.
pub ioq_putchar_lem :
    (me byte : ℕ) (q : IoQueue)
    → IsValid q
    → Waits q
    → q.holder ≢ some me
    → Puts me byte q (ioq_putchar me false byte q)
unfolding ioq_putchar is_locked ioq_wait
ioq_putchar_lem me byte q v w free = elim (Bool-cases (full q)) [
  | inl e ↦ rw e (wait q.holder refl ((full_iff q v).0 e))
  | inr e ↦ rw e (
    below q v e,
    record { head_in = omega arith; tail_in = v.tail_in },
    record { producer_holds = w.producer_holds; consumer_holds = λ p z. absurd (cc z) },
    put-contents q byte none v e,
    refl,
    refl,
    refl,
    refl,
  )
]
  where
    wait :
        (h : Option ℕ)
        → q.holder ≡ h
        → length (contents q) ≡ 63
        → Puts me byte q (
            if is_locked me h
            then ok (locked q)
            else (ioq_wait me q.producer >>= λ p.
                ok (blocks (record q { holder = some me; producer = p }))))
    wait none e l =
        let n = nobody q.producer q.holder w.producer_holds e in
        let n' = nobody q.consumer q.holder w.consumer_holds e in
        rw n (
          (
            l,
            e,
            refl,
            record { producer_holds = λ p z. z; consumer_holds = λ p z. absurd (cc (z, n')) },
          ))
    wait (some other) e l =
        let t : (other == me) ≡ false = ground (arith, free, e) in rw t (l, (λ z. cc (z, e)), refl)

-- What a pass of `ioq_getchar` comes to.
abbrev pub Gets : ℕ → IoQueue → Outcome (Pass ℕ) → Type 0
Gets me q (ok (done byte q' woken)) =
    IsValid q'
    × Waits q'
    × (contents q ≡ byte ∷ contents q')
    × (woken ≡ q.producer)
    × (q'.producer ≡ none)
    × (q'.consumer ≡ q.consumer)
    × (q'.holder ≡ q.holder)
Gets me q (ok (blocks q')) =
    (length (contents q) ≡ 0)
    × (q.holder ≡ none)
    × (q' ≡ record q { holder = some me; consumer = some me })
    × Waits q'
Gets me q (ok (locked q')) = (length (contents q) ≡ 0) × (q.holder ≢ none) × (q' ≡ q)
Gets me q _ = ⊥

window-suc :
    (buf : ℕ → ℕ) (t n : ℕ)
    → n ≢ 0
    → window buf t n ≡ buf (t % bufsize) ∷ window buf (t + 1) (n - 1)
unfolding window
window-suc buf t zero h = absurd (h refl)
window-suc buf t (suc n) h = ap (λ k. buf (t % bufsize) ∷ window buf (t + 1) k) (omega arith)

get-contents :
    (q : IoQueue) (p : Option ℕ)
    → IsValid q
    → empty q ≡ false
    → contents q
      ≡ q.buf q.tail ∷ contents (record q { tail = (q.tail + 1) % bufsize; producer = p })
unfolding empty
get-contents q p v held =
    let fewer : (q.head + bufsize - (q.tail + 1) % bufsize) % bufsize ≡ count q - 1 =
      ground arith in
    let at : q.tail % bufsize ≡ q.tail = omega arith in
    window-suc q.buf q.tail (count q) (ground arith)
    ∙ ap₂ (λ (x : ℕ) (l : List ℕ). q.buf x ∷ l) at
        (rw fewer
          (window_turn q.buf (q.tail + 1) ((q.tail + 1) % bufsize) (count q - 1) (omega arith)))

-- Interrupts off, the two indices in range, who waits holds the lock, and the caller does not:
-- `ioq_getchar` takes the oldest character and wakes the producer that waits; in an empty queue it
-- takes the lock and waits as the consumer, or blocks at the lock if another thread holds it. It
-- never stops the machine, and who waits still holds the lock.
pub ioq_getchar_lem :
    (me : ℕ) (q : IoQueue)
    → IsValid q
    → Waits q
    → q.holder ≢ some me
    → Gets me q (ioq_getchar me false q)
unfolding ioq_getchar is_locked ioq_wait
ioq_getchar_lem me q v w free = elim (Bool-cases (empty q)) [
  | inl e ↦ rw e (wait q.holder refl ((empty_iff q v).0 e))
  | inr e ↦ rw e (
    record { head_in = v.head_in; tail_in = omega arith },
    record { producer_holds = λ p z. absurd (cc z); consumer_holds = w.consumer_holds },
    get-contents q none v e,
    refl,
    refl,
    refl,
    refl,
  )
]
  where
    wait :
        (h : Option ℕ)
        → q.holder ≡ h
        → length (contents q) ≡ 0
        → Gets me q (
            if is_locked me h
            then ok (locked q)
            else (ioq_wait me q.consumer >>= λ c.
                ok (blocks (record q { holder = some me; consumer = c }))))
    wait none e l =
        let n = nobody q.consumer q.holder w.consumer_holds e in
        let n' = nobody q.producer q.holder w.producer_holds e in
        rw n (
          (
            l,
            e,
            refl,
            record { producer_holds = λ p z. absurd (cc (z, n')); consumer_holds = λ p z. z },
          ))
    wait (some other) e l =
        let t : (other == me) ≡ false = ground (arith, free, e) in rw t (l, (λ z. cc (z, e)), refl)
