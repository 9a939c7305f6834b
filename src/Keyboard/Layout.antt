-- ===== src/Keyboard/Layout.antt =====
-- Which character a key types: the table and the rule for shift and caps lock of
-- ch15/device/keyboard.c.
use os_elephant.Base.{
  ℕ, zero, suc, ◌-◌, ◌<◌, ◌≤◌, ◌≡◌, ◌∙◌, refl, Bool, true, false, not, ◌&&◌, ◌||◌, Option, none,
  some, List, [], ◌∷◌, length, get_elem?, leb, ◌==◌, if◌then◌else◌, arith, Bool-cases, inl, inr,
}
use os_elephant.Base.Bytes.{every, every_below}
use os_elephant.Keyboard.{
  keymap, key_char, shift_for, is_symbol, is_ctrl, is_shift, is_alt, caps_lock_make,
}

abbrev pub differ : Bool → Bool → Bool
differ true b = not b
differ false b = b

abbrev pub is_letter : ℕ → Bool
is_letter c = leb 97 c && leb c 122

-- The capital of a letter when one of shift and caps lock is on; else what shift alone chooses.
unfoldable pub typed_char : ℕ → Bool → Bool → Option ℕ
typed_char code shift caps = elim (key_char code false) [
  | none ↦ none
  | some c ↦
      if is_letter c then some (if differ shift caps then c - 32 else c) else key_char code shift
]

same : Option ℕ → Option ℕ → Bool
same none none = true
same (some a) (some b) = a == b
same _ _ = false

same→eq : (a b : Option ℕ) → same a b ≡ true → a ≡ b
unfolding same
same→eq none none h = refl
same→eq (some a) (some b) h = ground arith
same→eq none (some b) h = absurd (cc h)
same→eq (some a) none h = absurd (cc h)

abbrev char_test : Bool → Bool → ℕ → Bool
char_test shift caps code =
    same (key_char code (shift_for code shift caps)) (typed_char code shift caps)

char_table : (shift caps : Bool) → every (char_test shift caps) 59 ≡ true
unfolding every same key_char keymap shift_for is_symbol typed_char
char_table true true = refl
char_table true false = refl
char_table false true = refl
char_table false false = refl

get_elem?-none : {A : Type 0} (xs : List A) (i : ℕ) → length xs ≤ i → get_elem? xs i ≡ none
get_elem?-none [] i h = refl
get_elem?-none (x ∷ xs) zero h = absurd (omega arith)
get_elem?-none (x ∷ xs) (suc i) h = get_elem?-none xs i (omega arith)

-- Outside the table there is no character.
pub key_char-none : (code : ℕ) (shift : Bool) → 59 ≤ code → key_char code shift ≡ none
unfolding key_char keymap
key_char-none code shift h = rw (get_elem?-none keymap code h) refl

-- The key's character follows caps lock for the letters and shift for every key.
pub key_char-shift_for :
    (code : ℕ) (shift caps : Bool)
    → key_char code (shift_for code shift caps) ≡ typed_char code shift caps
unfolding typed_char key_char
key_char-shift_for code shift caps = elim (Bool-cases (leb 59 code)) [
  | inl out ↦
      let none_of : (s : Bool) → key_char code s ≡ none =
        λ s. key_char-none code s (ground arith) in
      none_of (shift_for code shift caps) ∙ rw (none_of false) refl
  | inr within ↦
      same→eq _ _
        (every_below (char_test shift caps) 59 (char_table shift caps) code (ground arith))
]

-- The keys without a character are the modifiers.
abbrev pub is_silent : ℕ → Bool
is_silent code =
    (code == 0) || (is_ctrl code || (is_shift code || (is_alt code || (code == caps_lock_make))))

abbrev silent_test : Bool → ℕ → Bool
silent_test shift code = elim (key_char code shift) [
  | none ↦ false
  | some c ↦ not (differ (c == 0) (is_silent code))
]

silent_table : (shift : Bool) → every (silent_test shift) 59 ≡ true
unfolding every key_char keymap
silent_table true = refl
silent_table false = refl

not-differ : (a b : Bool) → not (differ a b) ≡ true → a ≡ b
not-differ true true h = refl
not-differ true false h = absurd (cc h)
not-differ false true h = absurd (cc h)
not-differ false false h = refl

silent_of :
    (o : Option ℕ) (b : Bool)
    → (elim o [ none ↦ false | some c ↦ not (differ (c == 0) b) ]) ≡ true
    → (c : ℕ) × (o ≡ some c) × ((c == 0) ≡ b)
silent_of none b h = absurd (cc h)
silent_of (some c) b h = (c, refl, not-differ (c == 0) b h)

pub key_char-is_silent :
    (code : ℕ) (shift : Bool)
    → code < 59
    → (c : ℕ) × (key_char code shift ≡ some c) × ((c == 0) ≡ is_silent code)
key_char-is_silent code shift h =
    silent_of (key_char code shift) (is_silent code)
      (every_below (silent_test shift) 59 (silent_table shift) code h)
