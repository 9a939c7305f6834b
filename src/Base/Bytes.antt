-- ===== src/Base/Bytes.antt =====
-- Single bits of a byte, checked over all bytes.
use Prim.Native.Nat.{ℕ, zero, suc, ◌-◌, ◌^◌, ◌<◌, bit_and, bit_or}
use mathlib.Core.Path.{◌≡◌, refl, sym}
use mathlib.Core.Bool.{Bool, true, false, ◌&&◌, ◌||◌}
use native.Mathlib.Omega.{arith}
use os_elephant.Base.Tests.{ltb, ◌==◌, neb, if◌then◌else◌}

unfoldable pub every : (ℕ → Bool) → ℕ → Bool
every test zero = true
every test (suc bound) = every test bound && test bound

pub every_below :
    (test : ℕ → Bool) (bound : ℕ) → every test bound ≡ true → (i : ℕ) → i < bound → test i ≡ true
unfolding every
every_below test zero all i below = absurd (omega arith)
every_below test (suc bound) all i below = ground (arith, every_below test bound _ i)

-- `(1 << k) & x`, as a truth value
unfoldable pub bit_on : ℕ → ℕ → Bool
bit_on x k = neb (bit_and x (2 ^ k)) 0

-- `x |= 1 << k`
unfoldable pub bit_raise : ℕ → ℕ → ℕ
bit_raise x k = bit_or x (2 ^ k)

-- `x &= ~(1 << k)` for `k` below 32: the complement is taken in an `int`
unfoldable pub bit_drop : ℕ → ℕ → ℕ
bit_drop x k = bit_and x (2 ^ 32 - 1 - 2 ^ k)

beq : Bool → Bool → Bool
beq true b = b
beq false true = false
beq false false = true

beq→eq : (a b : Bool) → beq a b ≡ true → a ≡ b
unfolding beq
beq→eq true b h = sym h
beq→eq false true h = h
beq→eq false false h = refl

abbrev eight : (ℕ → Bool) → Bool
eight test = every test 8

raise_test : ℕ → Bool
raise_test x = eight λ k.
    ltb (bit_raise x k) 256 && eight λ j. beq (bit_on (bit_raise x k) j) ((k == j) || bit_on x j)

drop_test : ℕ → Bool
drop_test x = eight λ k.
    ltb (bit_drop x k) 256
    && eight λ j. beq (bit_on (bit_drop x k) j) (if k == j then false else bit_on x j)

raise_table : every raise_test 256 ≡ true
unfolding every raise_test bit_raise bit_on beq
raise_table = refl

drop_table : every drop_test 256 ≡ true
unfolding every drop_test bit_drop bit_on beq
drop_table = refl

pub bit_raise-byte : (x k : ℕ) → x < 256 → k < 8 → bit_raise x k < 256
unfolding raise_test
bit_raise-byte x k hx hk =
    ground (arith, every_below _ 8 (every_below raise_test 256 raise_table x hx) k hk)

pub bit_drop-byte : (x k : ℕ) → x < 256 → k < 8 → bit_drop x k < 256
unfolding drop_test
bit_drop-byte x k hx hk =
    ground (arith, every_below _ 8 (every_below drop_test 256 drop_table x hx) k hk)

and_right : (a : Bool) {b : Bool} → (a && b) ≡ true → b ≡ true
and_right true h = h
and_right false h = absurd (cc h)

-- Raising bit `k` makes it 1 and leaves the others.
pub bit_on-bit_raise :
    (x k j : ℕ) → x < 256 → k < 8 → j < 8 → bit_on (bit_raise x k) j ≡ ((k == j) || bit_on x j)
unfolding raise_test
bit_on-bit_raise x k j hx hk hj =
    let at_byte : raise_test x ≡ true = every_below raise_test 256 raise_table x hx in
    beq→eq _ _ (every_below _ 8 (and_right _ (every_below _ 8 at_byte k hk)) j hj)

-- Dropping bit `k` makes it 0 and leaves the others.
pub bit_on-bit_drop :
    (x k j : ℕ)
    → x < 256
    → k < 8
    → j < 8
    → bit_on (bit_drop x k) j ≡ (if k == j then false else bit_on x j)
unfolding drop_test
bit_on-bit_drop x k j hx hk hj =
    let at_byte : drop_test x ≡ true = every_below drop_test 256 drop_table x hx in
    beq→eq _ _ (every_below _ 8 (and_right _ (every_below _ 8 at_byte k hk)) j hj)
