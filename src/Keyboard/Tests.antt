-- ===== src/Keyboard/Tests.antt =====
-- The handler at a few bytes.
use os_elephant.Base.{ℕ, ◌≡◌, refl, true, false, Option, none, some, ok, arith}
use os_elephant.IoQueue.Fifo.{IsValid}
use os_elephant.Keyboard.{Keyboard, key_char, shift_for, is_symbol, keymap, intr_keyboard_handler}
use os_elephant.Keyboard.Keys.{Handled}
use os_elephant.Keyboard.Handler.{intr_keyboard_handler-Handled}

-- Shift is held, and a reader waits for a character.
abbrev k : Keyboard
k = record {
  ctrl_status = false;
  shift_status = true;
  alt_status = false;
  caps_lock_status = false;
  ext_scancode = false;
  kbd_buf = record {
    holder = none;
    producer = none;
    consumer = some 7;
    buf = λ i. 0;
    head = 63;
    tail = 63;
  };
}

k-IsValid : IsValid k.kbd_buf
k-IsValid = omega arith

capital_a : key_char 0x1e (shift_for 0x1e true false) ≡ some 65
unfolding key_char keymap shift_for is_symbol
capital_a = refl

intr_keyboard_handler-Handled_example :
    (k' : Keyboard) × (w : Option ℕ) × (intr_keyboard_handler 1 0x1e k ≡ ok (k', w))
    × Handled 0x1e k k'
intr_keyboard_handler-Handled_example =
    intr_keyboard_handler-Handled 1 0x1e k (omega arith) k-IsValid
