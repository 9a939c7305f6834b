-- ===== src/Keyboard/Keys.antt =====
-- What one interrupt of the keyboard comes to: ch15/device/keyboard.c.
use mathlib.Core.List.{append-nil}
use os_elephant.Base.{
  ℕ, ◌+◌, ◌%◌, ◌<◌, ◌≤◌, ◌≡◌, refl, Bool, true, false, not, ◌&&◌, ◌||◌, Option, none, some, List,
  [], ◌∷◌, ◌++◌, length, ltb, leb, neb, ◌==◌, if◌then◌else◌, Outcome, ok, ◌∙◌, sym, ap, lt→ltb,
  arith, Bool-cases, inl, inr, bit_and, bit_or, u8, u16,
}
use os_elephant.Base.Bytes.{every, every_below}
use os_elephant.IoQueue.{IoQueue, ioq_full, full}
use os_elephant.IoQueue.Fifo.{IsValid, contents, window, full_iff, below, ioq_putchar-room}
use os_elephant.Keyboard.{
  Keyboard, key_char, shift_for, put_char, press, break_key, make_key, type_key,
  intr_keyboard_handler,
}
use os_elephant.Keyboard.Layout.{typed_char, key_char-shift_for, key_char-none}

-- The character that a byte from the keyboard types: none if the key has none or the buffer is
-- full.
unfoldable pub typed : ℕ → Keyboard → List ℕ
typed inb k = elim (typed_char inb k.shift_status k.caps_lock_status) [
  | none ↦ []
  | some c ↦ if neb c 0 && ltb (length (contents k.kbd_buf)) 63 then c ∷ [] else []
]

abbrev pub held : ℕ → ℕ → ℕ → Bool → Bool
held inb left right before =
    if (inb == left) || (inb == right)
    then true
    else if (inb == left + 128) || (inb == right + 128)
    then false
    else before

-- The effect of the byte `inb`.
pub record Handled (inb : ℕ) (k k' : Keyboard) : Type 0 where
  pub valid : IsValid k'.kbd_buf
  pub shift : k'.shift_status ≡ held inb 0x2a 0x36 k.shift_status
  pub ctrl : k'.ctrl_status ≡ held inb 0x1d 0x1d k.ctrl_status
  pub alt : k'.alt_status ≡ held inb 0x38 0x38 k.alt_status
  pub caps :
      k'.caps_lock_status ≡ (if inb == 0x3a then not k.caps_lock_status else k.caps_lock_status)
  pub ext : k'.ext_scancode ≡ (inb == 0xe0)
  pub text : contents k'.kbd_buf ≡ contents k.kbd_buf ++ typed inb k

prefix_test : ℕ → Bool
prefix_test inb = u16 (bit_or 0xe0000 inb) == inb

mask_test : ℕ → Bool
mask_test inb =
    (bit_and inb 0x80 == (if leb 128 inb then 128 else 0))
    && ((bit_and inb 0xff7f == inb % 128) && (bit_and inb 0x00ff == inb))

prefix_table : every prefix_test 256 ≡ true
unfolding every prefix_test
prefix_table = refl

mask_table : every mask_test 256 ≡ true
unfolding every mask_test
mask_table = refl

-- The prefix 0xe0 does not reach the 16 bits.
prefix_lost : (inb : ℕ) → inb < 256 → u16 (bit_or 0xe0000 inb) ≡ inb
unfolding prefix_test
prefix_lost inb h = ground (arith, every_below prefix_test 256 prefix_table inb h)

pub masks :
    (inb : ℕ)
    → inb < 256
    → (bit_and inb 0x80 ≡ (if leb 128 inb then 128 else 0))
      × (bit_and inb 0xff7f ≡ inb % 128)
      × (bit_and inb 0x00ff ≡ inb)
unfolding mask_test
masks inb h =
    let t = every_below mask_test 256 mask_table inb h in
    (ground (arith, t), ground (arith, t), ground (arith, t))

unfoldable pub room_for : ℕ → IoQueue → List ℕ
room_for c q = if ltb (length (contents q)) 63 then c ∷ [] else []

-- The buffer takes the character if there is room.
pub put_char_lem :
    (me c : ℕ) (k : Keyboard)
    → IsValid k.kbd_buf
    → (q : IoQueue) × (w : Option ℕ) × (put_char me c k ≡ ok (record k { kbd_buf = q }, w))
      × IsValid q
      × (contents q ≡ contents k.kbd_buf ++ room_for c k.kbd_buf)
unfolding put_char ioq_full room_for
put_char_lem me c k v = elim (Bool-cases (full k.kbd_buf)) [
  | inl e ↦
      let filled : length (contents k.kbd_buf) ≡ 63 = (full_iff k.kbd_buf v).0 e in
      (k.kbd_buf, none, rw e refl, v, rw filled (sym (append-nil _)))
  | inr e ↦
      let (q, run, _, v', text) = ioq_putchar-room me c k.kbd_buf v e in
      let room : ltb (length (contents k.kbd_buf)) 63 ≡ true = lt→ltb _ _ (below k.kbd_buf v e) in
      (q, k.kbd_buf.consumer, rw (e, run) refl, v', text ∙ rw room refl)
]

-- The byte after the prefix is handled as it is without the prefix: the right control and alt keys
-- count as the left ones, and a key of the second block as the key of the first with its code.
pub ext_scancode_lost :
    (me inb : ℕ) (k : Keyboard)
    → inb < 256
    → (inb == 0xe0) ≡ false
    → intr_keyboard_handler me inb (record k { ext_scancode = true })
      ≡ intr_keyboard_handler me inb (record k { ext_scancode = false })
unfolding intr_keyboard_handler
ext_scancode_lost me inb k h other = rw (prefix_lost inb h) refl

pub typed_none : (inb : ℕ) (k : Keyboard) → 59 ≤ inb → typed inb k ≡ []
unfolding typed typed_char key_char
typed_none inb k h = rw (key_char-none inb false h)

abbrev pub shifted : ℕ → Keyboard → Bool
shifted inb k = shift_for inb k.shift_status k.caps_lock_status

pub typed-some :
    (inb c : ℕ) (k : Keyboard)
    → key_char inb (shifted inb k) ≡ some c
    → typed inb k ≡ (if neb c 0 then room_for c k.kbd_buf else [])
unfolding typed room_for typed_char window key_char
typed-some inb c k e =
    rw (sym (key_char-shift_for inb k.shift_status k.caps_lock_status), e) (ground arith)

scan_lem : (inb : ℕ) (b : Bool) → inb < 256 → (if b then u16 (bit_or 0xe0000 inb) else inb) ≡ inb
scan_lem inb true h = prefix_lost inb h
scan_lem inb false h = refl

-- The handler on the scan code without the prefix.
abbrev pub plain : ℕ → ℕ → Keyboard → Outcome (Keyboard × Option ℕ)
plain me inb k =
    if leb 128 inb
    then ok (break_key (inb % 128) (record k { ext_scancode = false }), none)
    else if ltb 0 inb && ltb inb 59
    then make_key me inb (record k { ext_scancode = false })
    else ok (record k { ext_scancode = false }, none)

pub handler_plain :
    (me inb : ℕ) (k : Keyboard)
    → inb < 256
    → intr_keyboard_handler me inb k
      ≡ (if inb == 0xe0 then ok (record k { ext_scancode = true }, none) else plain me inb k)
unfolding intr_keyboard_handler
handler_plain me inb k h =
    let (high, low, _) = masks inb h in rw (scan_lem inb k.ext_scancode h, high, low) (ground arith)

pub make_key_lem :
    (me inb c : ℕ) (k : Keyboard)
    → inb < 59
    → key_char inb (shifted inb k) ≡ some c
    → make_key me inb (record k { ext_scancode = false }) ≡ (
        if neb c 0
        then put_char me c (record k { ext_scancode = false })
        else ok (press inb (record k { ext_scancode = false }), none))
unfolding make_key type_key
make_key_lem me inb c k h row =
    let (_, _, mask) = masks inb (omega arith) in
    let same_index : u8 (bit_and inb 0x00ff) ≡ inb = omega (arith, mask) in
    let k0 : Keyboard = record k { ext_scancode = false } in
    ap (λ i. type_key me (bit_and inb 0x00ff) k0 (key_char i (shifted inb k))) same_index
    ∙ ap (λ i. type_key me i k0 (key_char inb (shifted inb k))) mask
    ∙ ap (type_key me inb k0) row
