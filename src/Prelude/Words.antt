-- ===== src/Prelude/Words.antt =====
-- 32-bit words read as unsigned numbers and in two's complement: the arithmetic that the target's manual
-- and the meaning of the intermediate representation share.
use sasc.Prelude.Tests.{ltb, if◌then◌else◌}
use Prim.Native.Nat.{ℕ, ◌+◌, ◌-◌, ◌*◌, ◌/◌, ◌%◌, ◌^◌}
use mathlib.Core.Bool.{Bool, true, false}

-- Sign extension of the low `2 * half` values to 32 bits.
abbrev pub sext : ℕ → ℕ → ℕ
sext half x = if ltb x half then x else x + 2 ^ 32 - 2 * half

abbrev pub two32 : ℕ
two32 = 2 ^ 32

abbrev pub bool_word : Bool → ℕ
bool_word b = if b then 1 else 0

-- Two's complement: the sign, the magnitude, and the negation of a word.
abbrev pub is_neg : ℕ → Bool
is_neg a = ltb (2 ^ 31 - 1) a

abbrev pub negate : ℕ → ℕ
negate a = (two32 - a) % two32

abbrev pub magnitude : ℕ → ℕ
magnitude a = if is_neg a then two32 - a else a

abbrev pub lt_signed : ℕ → ℕ → Bool
lt_signed a b = ltb ((a + 2 ^ 31) % two32) ((b + 2 ^ 31) % two32)

abbrev pub shift_right_arith : ℕ → ℕ → ℕ
shift_right_arith a s = if is_neg a then two32 - 1 - (two32 - 1 - a) / 2 ^ s else a / 2 ^ s

-- The sign of a product or a quotient of words whose signs are given.
abbrev pub with_sign : ℕ → Bool → Bool → ℕ → ℕ
with_sign modulus true true x = x
with_sign modulus false false x = x
with_sign modulus _ _ x = (modulus - x) % modulus
