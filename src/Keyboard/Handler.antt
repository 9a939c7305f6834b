-- ===== src/Keyboard/Handler.antt =====
-- The keyboard's handler on every byte: ch15/device/keyboard.c.
use mathlib.Core.List.{append-nil}
use os_elephant.Base.{
  ℕ, ◌%◌, ◌<◌, ◌≤◌, ◌≡◌, refl, Bool, true, false, ◌&&◌, Option, none, some, [], ◌++◌, ltb, leb, neb,
  ◌==◌, if◌then◌else◌, ok, ◌∙◌, sym, ap, leb→le, arith, Bool-cases, inl, inr,
}
use os_elephant.IoQueue.Fifo.{IsValid, contents}
use os_elephant.Keyboard.{
  Keyboard, keymap, key_char, put_char, press, break_key, make_key, intr_keyboard_handler,
}
use os_elephant.Keyboard.Layout.{key_char-is_silent, is_silent}
use os_elephant.Keyboard.Keys.{
  typed, held, Handled, typed_none, typed-some, put_char_lem, handler_plain, shifted, make_key_lem,
}

released :
    (inb : ℕ) (k : Keyboard)
    → 128 ≤ inb
    → inb < 256
    → (inb == 0xe0) ≡ false
    → IsValid k.kbd_buf
    → Handled inb k (break_key (inb % 128) (record k { ext_scancode = false }))
unfolding break_key
released inb k low h other v = record {
  valid = rw same_buf v;
  shift = ground arith;
  ctrl = ground arith;
  alt = ground arith;
  caps = ground arith;
  ext = ground arith;
  text =
      ap contents same_buf
      ∙ sym (ap (λ t. contents k.kbd_buf ++ t) (typed_none inb k (omega arith)) ∙ append-nil _);
}
  where
    same_buf : (break_key (inb % 128) (record k { ext_scancode = false })).kbd_buf ≡ k.kbd_buf
    same_buf = ground arith

pressed :
    (inb : ℕ) (k : Keyboard)
    → inb < 59
    → typed inb k ≡ []
    → IsValid k.kbd_buf
    → Handled inb k (press inb (record k { ext_scancode = false }))
unfolding press
pressed inb k h none_typed v = record {
  valid = rw same_buf v;
  shift = ground arith;
  ctrl = ground arith;
  alt = ground arith;
  caps = ground arith;
  ext = ground arith;
  text = ap contents same_buf ∙ sym (ap (λ t. contents k.kbd_buf ++ t) none_typed ∙ append-nil _);
}
  where
    same_buf : (press inb (record k { ext_scancode = false })).kbd_buf ≡ k.kbd_buf
    same_buf = ground arith

loud_of : (c : ℕ) → (c == 0) ≡ false → neb c 0 ≡ true
loud_of c e = ground arith

quiet_of : (c : ℕ) → (c == 0) ≡ true → neb c 0 ≡ false
quiet_of c e = ground arith

unmoved :
    (inb : ℕ) (b : Bool)
    → inb < 59
    → is_silent inb ≡ false
    → (b ≡ held inb 0x2a 0x36 b)
      × (b ≡ held inb 0x1d 0x1d b)
      × (b ≡ held inb 0x38 0x38 b)
      × ((inb == 0x3a) ≡ false)
      × (false ≡ (inb == 0xe0))
unmoved inb b h loud = (ground arith, ground arith, ground arith, ground arith, ground arith)

made :
    (me inb : ℕ) (k : Keyboard)
    → 0 < inb
    → inb < 59
    → IsValid k.kbd_buf
    → (k' : Keyboard) × (w : Option ℕ) × (make_key me inb (record k { ext_scancode = false })
        ≡ ok (k', w))
      × Handled inb k k'
made me inb k low h v =
    let (c, row, silent) = key_char-is_silent inb (shifted inb k) h in
    rw (make_key_lem me inb c k h row) (go c row silent)
  where
    go :
        (c : ℕ)
        → key_char inb (shifted inb k) ≡ some c
        → (c == 0) ≡ is_silent inb
        → (k' : Keyboard) × (w : Option ℕ) × ((if neb c 0
              then put_char me c (record k { ext_scancode = false })
              else ok (press inb (record k { ext_scancode = false }), none))
            ≡ ok (k', w))
          × Handled inb k k'
    go c row silent = elim (Bool-cases (c == 0)) [
      | inl e ↦ (
        press inb (record k { ext_scancode = false }),
        none,
        rw (quiet_of c e) refl,
        pressed inb k h (typed-some inb c k row ∙ rw (quiet_of c e) refl) v,
      )
      | inr e ↦
          let (q, w, run, v', text) = put_char_lem me c (record k { ext_scancode = false }) v in
          let loud : neb c 0 ≡ true = loud_of c e in
          let moved = λ (b : Bool). unmoved inb b h (sym silent ∙ e) in
          let caps_same : (inb == 0x3a) ≡ false = (moved true).3 in
          (
            record k { ext_scancode = false; kbd_buf = q },
            w,
            rw loud run,
            record {
              valid = v';
              shift = (moved k.shift_status).0;
              ctrl = (moved k.ctrl_status).1;
              alt = (moved k.alt_status).2;
              caps = rw caps_same refl;
              ext = (moved true).4;
              text =
                  text
                  ∙ ap (λ t. contents k.kbd_buf ++ t) (sym (typed-some inb c k row ∙ rw loud refl));
            },
          )
    ]

unknown :
    (inb : ℕ) (k : Keyboard)
    → leb 128 inb ≡ false
    → (ltb 0 inb && ltb inb 59) ≡ false
    → IsValid k.kbd_buf
    → Handled inb k (record k { ext_scancode = false })
unknown inb k low e v = record {
  valid = v;
  shift = ground arith;
  ctrl = ground arith;
  alt = ground arith;
  caps = ground arith;
  ext = ground arith;
  text = sym (ap (λ t. contents k.kbd_buf ++ t) nothing ∙ append-nil _);
}
  where
    key_zero : (shift : Bool) → key_char 0 shift ≡ some 0
    key_zero true = unfold key_char keymap in refl
    key_zero false = unfold key_char keymap in refl

    nothing : typed inb k ≡ []
    nothing = elim (Bool-cases (leb 59 inb)) [
      | inl high ↦ typed_none inb k (leb→le 59 inb high)
      | inr small ↦
          let zero_code : inb ≡ 0 = ground arith in
          rw zero_code (typed-some 0 0 k (key_zero (shifted 0 k)))
    ]

-- One byte of the keyboard is handled without a fault, if the indices of the buffer are in range:
-- it moves the modifiers, remembers the prefix, and types the character of the key if the buffer
-- has room.
pub intr_keyboard_handler-Handled :
    (me inb : ℕ) (k : Keyboard)
    → inb < 256
    → IsValid k.kbd_buf
    → (k' : Keyboard) × (w : Option ℕ) × (intr_keyboard_handler me inb k ≡ ok (k', w))
      × Handled inb k k'
intr_keyboard_handler-Handled me inb k h v = elim (Bool-cases (inb == 0xe0)) [
  | inl e ↦ (
    record k { ext_scancode = true },
    none,
    handler_plain me inb k h ∙ rw e refl,
    record {
      valid = v;
      shift = ground arith;
      ctrl = ground arith;
      alt = ground arith;
      caps = ground arith;
      ext = sym e;
      text =
          sym (ap (λ t. contents k.kbd_buf ++ t) (typed_none inb k (ground arith)) ∙ append-nil _);
    },
  )
  | inr other ↦
      rw (handler_plain me inb k h, other)
        (elim (Bool-cases (leb 128 inb)) [
          | inl high ↦ (
            break_key (inb % 128) (record k { ext_scancode = false }),
            none,
            rw high refl,
            released inb k (leb→le 128 inb high) h other v,
          )
          | inr low ↦ elim (Bool-cases (ltb 0 inb && ltb inb 59)) [
            | inl e ↦ rw (low, e) (made me inb k (ground arith) (ground arith) v)
            | inr e ↦
                (record k { ext_scancode = false }, none, rw (low, e) refl, unknown inb k low e v)
          ]
        ])
]
