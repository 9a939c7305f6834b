-- ===== src/IoQueue/Tests.antt =====
-- The queue at a few states.
use os_elephant.Base.{◌≡◌, refl, false, none, some, [], ◌∷◌, ok, arith, ◌==◌, if◌then◌else◌}
use os_elephant.IoQueue.{IoQueue, blocks, ioq_getchar, ioq_putchar}
use os_elephant.IoQueue.Fifo.{
  Puts, Gets, Waits, contents, window, IsValid, ioq_putchar_lem, ioq_getchar_lem,
}

-- One character, at the last index, with a consumer that waits.
abbrev one : IoQueue
one = record {
  holder = some 7;
  producer = none;
  consumer = some 7;
  buf = λ i. if i == 63 then 97 else 0;
  head = 0;
  tail = 63;
}

abbrev filled : IoQueue
filled = record {
  holder = none;
  producer = none;
  consumer = none;
  buf = λ i. i;
  head = 62;
  tail = 63;
}

contents-one : contents one ≡ 97 ∷ []
unfolding window
contents-one = refl

filled_blocks :
    ioq_putchar 5 false 1 filled
    ≡ ok (blocks (record filled { holder = some 5; producer = some 5 }))
unfolding ioq_putchar
filled_blocks = refl

one-IsValid : IsValid one
one-IsValid = omega arith

one-Waits : Waits one
one-Waits = record { producer_holds = λ p e. absurd (cc e); consumer_holds = λ p e. e }

ioq_putchar_lem_example : Puts 5 98 one (ioq_putchar 5 false 98 one)
ioq_putchar_lem_example = ioq_putchar_lem 5 98 one one-IsValid one-Waits (λ e. cc e)

ioq_getchar_lem_example : Gets 5 one (ioq_getchar 5 false one)
ioq_getchar_lem_example = ioq_getchar_lem 5 one one-IsValid one-Waits (λ e. cc e)
