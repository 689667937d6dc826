-- ===== src/Word.antt =====
-- The C types of src/exp.c on a 64-bit host: a `long` is its bit pattern, a number below 2 ^ 64.
-- Signed overflow, which C leaves undefined, is two's complement wrap-around here.
pub mod Laws
use dasm.Base.{ℕ, ◌+◌, ◌-◌, ◌*◌, ◌/◌, ◌%◌, ◌^◌, Bool, true, false, ltb, leb, ◌==◌, if◌then◌else◌}
use dasm.Base.Int.{ℤ, pos, negsuc}

abbrev pub word_size : ℕ
word_size = 2 ^ 64

abbrev pub sign_bit : ℕ
sign_bit = 2 ^ 63

abbrev pub is_negative : ℕ → Bool
is_negative a = leb sign_bit a

-- The integer that a bit pattern stands for.
abbrev pub signed : ℕ → ℤ
signed a = if is_negative a then negsuc (word_size - a - 1) else pos a

unfoldable pub add : ℕ → ℕ → ℕ
add a b = (a + b) % word_size

unfoldable pub sub : ℕ → ℕ → ℕ
sub a b = (a + (word_size - b)) % word_size

unfoldable pub mul : ℕ → ℕ → ℕ
mul a b = (a * b) % word_size

unfoldable pub negate : ℕ → ℕ
negate a = (word_size - a) % word_size

unfoldable pub invert : ℕ → ℕ
invert a = word_size - 1 - a

abbrev pub magnitude : ℕ → ℕ
magnitude a = if is_negative a then word_size - a else a

-- `/` rounds towards zero.
unfoldable pub divide : ℕ → ℕ → ℕ
unfolding negate
divide a b =
    let q = magnitude a / magnitude b in
    if is_negative a
    then (if is_negative b then q else negate q)
    else (if is_negative b then negate q else q)

-- `%` takes the sign of the dividend.
unfoldable pub remainder : ℕ → ℕ → ℕ
unfolding negate
remainder a b = let r = magnitude a % magnitude b in if is_negative a then negate r else r

-- `>>` is arithmetic.
unfoldable pub shift_right : ℕ → ℕ → ℕ
unfolding invert
shift_right a k = if is_negative a then invert (invert a / 2 ^ k) else a / 2 ^ k

unfoldable pub shift_left : ℕ → ℕ → ℕ
shift_left a k = (a * 2 ^ k) % word_size

-- `a < b`, signed: negative numbers come first, and patterns of one sign compare as they are.
unfoldable pub less : ℕ → ℕ → Bool
less a b =
    if is_negative a
    then (if is_negative b then ltb a b else true)
    else (if is_negative b then false else ltb a b)
