-- ===== src/Frontend/Meaning.antt =====
-- What a typed expression of the source language means, as a 32-bit word: the specification of
-- `emit_ir`. Identifiers and calls have no meaning here, since no IR is emitted for them.
pub mod Typing
pub mod Rules
use sasc.Prelude.{
  ℕ, ◌+◌, ◌-◌, ◌*◌, ◌/◌, ◌%◌, ◌^◌, Bool, not, ltb, ◌==◌, if◌then◌else◌, bit_and, bit_or, bit_xor,
}
use sasc.Prelude.Words.{two32, bool_word, shift_right_arith}
use sasc.Error.{Result, ok, err}
use sasc.Ir.Value.{canonical, quotient, remainder, less_than}
use sasc.Frontend.FrontendType.{FrontendType, is_signed_integer}
use sasc.Frontend.FrontendType
use sasc.Frontend.Ast.{
  BinaryOperation, UnaryOperation, logical_not, bitwise_not, negation, Expression, integer_literal,
  boolean_literal, identifier, binary, unary, call, type_of,
}

-- A number cut to a type and held as a word.
unfoldable pub cut : FrontendType → ℕ → ℕ
unfolding FrontendType.resolve_type
cut t x = elim (FrontendType.resolve_type t) [ ok s ↦ canonical s x | err _ ↦ x ]

-- On operands of the type `t`; a comparison or a division follows the type's sign.
unfoldable pub binary_value : BinaryOperation → FrontendType → ℕ → ℕ → ℕ
unfolding is_signed_integer
binary_value BinaryOperation.logical_or t a b = 0
binary_value BinaryOperation.logical_and t a b = 0
binary_value BinaryOperation.equal t a b = bool_word (a == b)
binary_value BinaryOperation.not_equal t a b = bool_word (not (a == b))
binary_value BinaryOperation.less_than t a b = bool_word (less_than (is_signed_integer t) a b)
binary_value BinaryOperation.less_than_or_equal t a b =
    bool_word (not (less_than (is_signed_integer t) b a))
binary_value BinaryOperation.greater_than t a b = bool_word (less_than (is_signed_integer t) b a)
binary_value BinaryOperation.greater_than_or_equal t a b =
    bool_word (not (less_than (is_signed_integer t) a b))
binary_value BinaryOperation.bitwise_or t a b = bit_or a b
binary_value BinaryOperation.bitwise_xor t a b = bit_xor a b
binary_value BinaryOperation.bitwise_and t a b = bit_and a b
binary_value BinaryOperation.shift_left t a b = a * 2 ^ (b % 32)
binary_value BinaryOperation.shift_right t a b =
    if is_signed_integer t then shift_right_arith a (b % 32) else a / 2 ^ (b % 32)
binary_value BinaryOperation.add t a b = a + b
binary_value BinaryOperation.subtract t a b = a + two32 - b
binary_value BinaryOperation.multiply t a b = a * b
binary_value BinaryOperation.divide t a b = quotient (is_signed_integer t) a b
binary_value BinaryOperation.modulus t a b = remainder (is_signed_integer t) a b

-- `!` turns false into true and true into false.
unfoldable pub unary_value : UnaryOperation → ℕ → ℕ
unary_value logical_not a = bool_word (a == 0)
unary_value bitwise_not a = two32 - 1 - a
unary_value negation a = two32 - a

unfoldable pub eval : Expression → ℕ
unfolding cut binary_value unary_value type_of
eval (integer_literal t v) = cut t v
eval (boolean_literal v) = bool_word v
eval (identifier _ _ _) = 0
eval (binary t o l r) = cut t (binary_value o (type_of l) (eval l) (eval r))
eval (unary t o e) = cut t (unary_value o (eval e))
eval (call _ _) = 0
