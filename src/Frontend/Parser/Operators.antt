-- ===== src/Frontend/Parser/Operators.antt =====
-- The binary operators of each level in frontend/Parser.cpp, from the tightest level on: which token of
-- the level is which operation.
use sasc.Prelude.{Option, none, some}
use sasc.Frontend.Ast.{BinaryOperation}
use sasc.Frontend.Token.{TokenType}

unfoldable pub multiplicative_operators : TokenType → Option BinaryOperation
multiplicative_operators TokenType.asterisk = some BinaryOperation.multiply
multiplicative_operators TokenType.forward_slash = some BinaryOperation.divide
multiplicative_operators TokenType.percent = some BinaryOperation.modulus
multiplicative_operators _ = none

unfoldable pub additive_operators : TokenType → Option BinaryOperation
additive_operators TokenType.plus = some BinaryOperation.add
additive_operators TokenType.minus = some BinaryOperation.subtract
additive_operators _ = none

unfoldable pub bitshift_operators : TokenType → Option BinaryOperation
bitshift_operators TokenType.less_less = some BinaryOperation.shift_left
bitshift_operators TokenType.greater_greater = some BinaryOperation.shift_right
bitshift_operators _ = none

unfoldable pub bitwise_and_operators : TokenType → Option BinaryOperation
bitwise_and_operators TokenType.and = some BinaryOperation.bitwise_and
bitwise_and_operators _ = none

unfoldable pub bitwise_xor_operators : TokenType → Option BinaryOperation
bitwise_xor_operators TokenType.caret = some BinaryOperation.bitwise_xor
bitwise_xor_operators _ = none

unfoldable pub bitwise_or_operators : TokenType → Option BinaryOperation
bitwise_or_operators TokenType.or = some BinaryOperation.bitwise_or
bitwise_or_operators _ = none

unfoldable pub comparison_operators : TokenType → Option BinaryOperation
comparison_operators TokenType.less = some BinaryOperation.less_than
comparison_operators TokenType.less_equal = some BinaryOperation.less_than_or_equal
comparison_operators TokenType.greater = some BinaryOperation.greater_than
comparison_operators TokenType.greater_equal = some BinaryOperation.greater_than_or_equal
comparison_operators _ = none

unfoldable pub equality_operators : TokenType → Option BinaryOperation
equality_operators TokenType.equal_equal = some BinaryOperation.equal
equality_operators TokenType.exclamation_equal = some BinaryOperation.not_equal
equality_operators _ = none

unfoldable pub logical_and_operators : TokenType → Option BinaryOperation
logical_and_operators TokenType.and_and = some BinaryOperation.logical_and
logical_and_operators _ = none

unfoldable pub logical_or_operators : TokenType → Option BinaryOperation
logical_or_operators TokenType.or_or = some BinaryOperation.logical_or
logical_or_operators _ = none
