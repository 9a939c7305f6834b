-- ===== src/Keyboard.antt =====
-- The keyboard's interrupt handler: ch15/device/keyboard.c.
pub mod Layout
pub mod Keys
pub mod Handler
mod Tests
use os_elephant.Base.{
  ℕ, ◌^◌, ◌%◌, Bool, true, false, not, ◌&&◌, ◌||◌, Option, none, some, List, [], ◌∷◌, get_elem?,
  ltb, ◌==◌, neb, if◌then◌else◌, Outcome, ok, fault, ◌>>=◌, bit_and, bit_or, u16, u8,
}
use os_elephant.IoQueue.{IoQueue, ioq_full, ioq_putchar, Pass, locked, blocks, done}

-- The characters of a key, plain and shifted, by the key's make code.
unfoldable pub keymap : List (ℕ × ℕ)
keymap =
    (0, 0)
    ∷ (27, 27)
    ∷ (49, 33)
    ∷ (50, 64)
    ∷ (51, 35)
    ∷ (52, 36)
    ∷ (53, 37)
    ∷ (54, 94)
    ∷ (55, 38)
    ∷ (56, 42)
    ∷ (57, 40)
    ∷ (48, 41)
    ∷ (45, 95)
    ∷ (61, 43)
    ∷ (8, 8)
    ∷ (9, 9)
    ∷ (113, 81)
    ∷ (119, 87)
    ∷ (101, 69)
    ∷ (114, 82)
    ∷ (116, 84)
    ∷ (121, 89)
    ∷ (117, 85)
    ∷ (105, 73)
    ∷ (111, 79)
    ∷ (112, 80)
    ∷ (91, 123)
    ∷ (93, 125)
    ∷ (13, 13)
    ∷ (0, 0)
    ∷ (97, 65)
    ∷ (115, 83)
    ∷ (100, 68)
    ∷ (102, 70)
    ∷ (103, 71)
    ∷ (104, 72)
    ∷ (106, 74)
    ∷ (107, 75)
    ∷ (108, 76)
    ∷ (59, 58)
    ∷ (39, 34)
    ∷ (96, 126)
    ∷ (0, 0)
    ∷ (92, 124)
    ∷ (122, 90)
    ∷ (120, 88)
    ∷ (99, 67)
    ∷ (118, 86)
    ∷ (98, 66)
    ∷ (110, 78)
    ∷ (109, 77)
    ∷ (44, 60)
    ∷ (46, 62)
    ∷ (47, 63)
    ∷ (0, 0)
    ∷ (42, 42)
    ∷ (0, 0)
    ∷ (32, 32)
    ∷ (0, 0)
    ∷ []

-- `enter` of the key codes is a character here; these are the make codes.
abbrev pub shift_l_make : ℕ
shift_l_make = 0x2a

abbrev pub shift_r_make : ℕ
shift_r_make = 0x36

abbrev pub alt_l_make : ℕ
alt_l_make = 0x38

abbrev pub alt_r_make : ℕ
alt_r_make = 0xe038

abbrev pub ctrl_l_make : ℕ
ctrl_l_make = 0x1d

abbrev pub ctrl_r_make : ℕ
ctrl_r_make = 0xe01d

abbrev pub caps_lock_make : ℕ
caps_lock_make = 0x3a

pub record Keyboard : Type 0 where
  pub ctrl_status : Bool
  pub shift_status : Bool
  pub alt_status : Bool
  pub caps_lock_status : Bool
  pub ext_scancode : Bool
  pub kbd_buf : IoQueue

abbrev pub is_ctrl : ℕ → Bool
is_ctrl code = (code == ctrl_l_make) || (code == ctrl_r_make)

abbrev pub is_shift : ℕ → Bool
is_shift code = (code == shift_l_make) || (code == shift_r_make)

abbrev pub is_alt : ℕ → Bool
is_alt code = (code == alt_l_make) || (code == alt_r_make)

-- A key that is let go.
unfoldable pub break_key : ℕ → Keyboard → Keyboard
break_key make_code k =
    if is_ctrl make_code
    then record k { ctrl_status = false }
    else if is_shift make_code
    then record k { shift_status = false }
    else if is_alt make_code
    then record k { alt_status = false }
    else k

-- Keys whose character does not depend on the caps lock.
unfoldable pub is_symbol : ℕ → Bool
is_symbol scancode =
    ltb scancode 0x0e
    || ((scancode == 0x29)
        || ((scancode == 0x1a)
            || ((scancode == 0x1b)
                || ((scancode == 0x2b)
                    || ((scancode == 0x27)
                        || ((scancode == 0x28)
                            || ((scancode == 0x33)
                                || ((scancode == 0x34) || (scancode == 0x35)))))))))

unfoldable pub shift_for : ℕ → Bool → Bool → Bool
unfolding is_symbol
shift_for scancode shift_down_last caps_lock_last =
    if is_symbol scancode
    then shift_down_last
    else if shift_down_last && caps_lock_last
    then false
    else shift_down_last || caps_lock_last

-- `keymap[index][shift]`; `none` is an index outside the table.
unfoldable pub key_char : ℕ → Bool → Option ℕ
unfolding keymap
key_char index shift = elim (get_elem? keymap index) [
  | none ↦ none
  | some row ↦ some (if shift then row.1 else row.0)
]

-- A modifier that is pressed.
unfoldable pub press : ℕ → Keyboard → Keyboard
press scancode k =
    if is_ctrl scancode
    then record k { ctrl_status = true }
    else if is_shift scancode
    then record k { shift_status = true }
    else if is_alt scancode
    then record k { alt_status = true }
    else if scancode == caps_lock_make
    then record k { caps_lock_status = not k.caps_lock_status }
    else k

abbrev pub with_pass : Keyboard → Pass (Unit {0}) → Outcome (Keyboard × Option ℕ)
with_pass k (locked q) = ok (record k { kbd_buf = q }, none)
with_pass k (blocks q) = ok (record k { kbd_buf = q }, none)
with_pass k (done _ q woken) = ok (record k { kbd_buf = q }, woken)

-- The character goes to the buffer if there is room; with it comes the thread that is woken.
unfoldable pub put_char : ℕ → ℕ → Keyboard → Outcome (Keyboard × Option ℕ)
put_char me c k = do
  is_full ← ioq_full false k.kbd_buf
  let put = ioq_putchar me false c k.kbd_buf >>= with_pass k
  if is_full then ok (k, none) else put

unfoldable pub type_key : ℕ → ℕ → Keyboard → Option ℕ → Outcome (Keyboard × Option ℕ)
type_key me scancode k none = fault
type_key me scancode k (some cur_char) =
    let put = put_char me cur_char k in if neb cur_char 0 then put else ok (press scancode k, none)

unfoldable pub make_key : ℕ → ℕ → Keyboard → Outcome (Keyboard × Option ℕ)
unfolding type_key
make_key me scancode k =
    let shift = shift_for scancode k.shift_status k.caps_lock_status in
    let index = bit_and scancode 0x00ff in type_key me index k (key_char (u8 index) shift)

-- Interrupts are off. `me` is the thread that the interrupt came to, and `inb` the byte that the
-- keyboard's port holds. A `uint16_t` cannot hold the prefix that is put before the second byte.
unfoldable pub intr_keyboard_handler : ℕ → ℕ → Keyboard → Outcome (Keyboard × Option ℕ)
unfolding break_key make_key
intr_keyboard_handler me inb k =
    let scancode = if k.ext_scancode then u16 (bit_or 0xe0000 inb) else inb in
    let k' = record k { ext_scancode = false } in
    let made = make_key me scancode k' in
    if inb == 0xe0
    then ok (record k { ext_scancode = true }, none)
    else if neb (bit_and scancode 0x0080) 0
    then ok (break_key (bit_and scancode 0xff7f) k', none)
    else if (ltb 0x00 scancode && ltb scancode 0x3b)
        || ((scancode == alt_r_make) || (scancode == ctrl_r_make))
    then made
    else ok (k', none)
