-- ===== src/Frontend/Parser/Print/Levels.antt =====
-- The levels of binary operators of frontend/Parser.cpp by number, and what each reads.
use sasc.Prelude.{
  ℕ, zero, suc, ◌≡◌, refl, Bool, true, false, ◌&&◌, not, Option, none, some, List, arith,
}
use sasc.Frontend.Outcome.{returns}
use sasc.Frontend.FrontendType.{unresolved}
use sasc.Frontend.Ast.{BinaryOperation, Expression, binary}
use sasc.Frontend.Token.{TokenType, same_type}
use sasc.Frontend.Parser.Stream.{Tokens, next, Parser, peek, take}
use sasc.Frontend.Parser.Operators.{
  multiplicative_operators, additive_operators, bitshift_operators, bitwise_and_operators,
  bitwise_xor_operators, bitwise_or_operators, comparison_operators, equality_operators,
  logical_and_operators, logical_or_operators,
}
use sasc.Frontend.Parser.Expr.{
  required, one_operator, operator_loop, operators_left, try_parse_primary, try_parse_postfix,
  try_parse_unary, try_parse_expr, try_parse_expr_with, try_parse_logical_or, try_parse_logical_and,
  try_parse_equality, try_parse_comparison, try_parse_bitwise_or, try_parse_bitwise_xor,
  try_parse_bitwise_and, try_parse_bitshift, try_parse_additive, try_parse_multiplicative,
}
use sasc.Frontend.Parser.Print.{operator_token, looseness}
use Prim.Native.Char.{Char}

-- The operators of a level, from multiplication up.
unfoldable pub operators : ℕ → TokenType → Option BinaryOperation
unfolding multiplicative_operators additive_operators bitshift_operators bitwise_and_operators
    bitwise_xor_operators bitwise_or_operators comparison_operators equality_operators
    logical_and_operators logical_or_operators
operators zero = multiplicative_operators
operators (suc zero) = additive_operators
operators (suc (suc zero)) = bitshift_operators
operators (suc (suc (suc zero))) = bitwise_and_operators
operators (suc (suc (suc (suc zero)))) = bitwise_xor_operators
operators (suc (suc (suc (suc (suc zero))))) = bitwise_or_operators
operators (suc (suc (suc (suc (suc (suc zero)))))) = comparison_operators
operators (suc (suc (suc (suc (suc (suc (suc zero))))))) = equality_operators
operators (suc (suc (suc (suc (suc (suc (suc (suc zero)))))))) = logical_and_operators
operators _ = logical_or_operators

unfoldable pub level : ℕ → ℕ → Parser Expression → Parser Expression
unfolding operators one_operator operators_left
level f zero = operators_left (operators 0) f
level f (suc zero) = operators_left (operators 1) f
level f (suc (suc d)) = one_operator (operators (suc (suc d)))

-- The rules by height: `try_parse_primary`, `try_parse_postfix`, `try_parse_unary` and the levels.
unfoldable pub rule : ℕ → ℕ → Parser Expression
unfolding level try_parse_primary try_parse_postfix try_parse_unary try_parse_expr
rule g zero = try_parse_primary (try_parse_expr g)
rule g (suc zero) = try_parse_postfix (try_parse_expr g)
rule g (suc (suc zero)) = try_parse_unary (suc g)
rule g (suc (suc (suc d))) = level (suc g) d (rule g (suc (suc d)))

pub rule-expr : (g : ℕ) (ts : Tokens) → rule g 12 ts ≡ try_parse_expr (suc g) ts
unfolding rule try_parse_expr try_parse_expr_with try_parse_logical_or try_parse_logical_and
    try_parse_equality try_parse_comparison try_parse_bitwise_or try_parse_bitwise_xor
    try_parse_bitwise_and try_parse_bitshift try_parse_additive try_parse_multiplicative
rule-expr g ts = refl

-- No operator of a level up to `h`, nor a call's parenthesis, begins with this token.
unfoldable pub stops : ℕ → TokenType → Bool
unfolding operators same_type
stops zero t = true
stops (suc zero) t = not (same_type t TokenType.l_paren)
stops (suc (suc zero)) t = not (same_type t TokenType.l_paren)
stops (suc (suc (suc d))) t =
    stops (suc (suc d)) t && elim (operators d t) [ none ↦ true | some _ ↦ false ]

pub operators-token : (o : BinaryOperation) → operators (looseness o) (operator_token o) ≡ some o
unfolding operators
operators-token BinaryOperation.multiply = refl
operators-token BinaryOperation.divide = refl
operators-token BinaryOperation.modulus = refl
operators-token BinaryOperation.add = refl
operators-token BinaryOperation.subtract = refl
operators-token BinaryOperation.shift_left = refl
operators-token BinaryOperation.shift_right = refl
operators-token BinaryOperation.bitwise_and = refl
operators-token BinaryOperation.bitwise_xor = refl
operators-token BinaryOperation.bitwise_or = refl
operators-token BinaryOperation.less_than = refl
operators-token BinaryOperation.less_than_or_equal = refl
operators-token BinaryOperation.greater_than = refl
operators-token BinaryOperation.greater_than_or_equal = refl
operators-token BinaryOperation.equal = refl
operators-token BinaryOperation.not_equal = refl
operators-token BinaryOperation.logical_and = refl
operators-token BinaryOperation.logical_or = refl

pub stops-token : (o : BinaryOperation) → stops (suc (suc (looseness o))) (operator_token o) ≡ true
unfolding stops
stops-token BinaryOperation.multiply = refl
stops-token BinaryOperation.divide = refl
stops-token BinaryOperation.modulus = refl
stops-token BinaryOperation.add = refl
stops-token BinaryOperation.subtract = refl
stops-token BinaryOperation.shift_left = refl
stops-token BinaryOperation.shift_right = refl
stops-token BinaryOperation.bitwise_and = refl
stops-token BinaryOperation.bitwise_xor = refl
stops-token BinaryOperation.bitwise_or = refl
stops-token BinaryOperation.less_than = refl
stops-token BinaryOperation.less_than_or_equal = refl
stops-token BinaryOperation.greater_than = refl
stops-token BinaryOperation.greater_than_or_equal = refl
stops-token BinaryOperation.equal = refl
stops-token BinaryOperation.not_equal = refl
stops-token BinaryOperation.logical_and = refl
stops-token BinaryOperation.logical_or = refl

pub level-one :
    (f d : ℕ) (operand : Parser Expression) (ts rest : Tokens) (l : Expression) (t : TokenType)
    → operand ts ≡ returns (some l, rest)
    → peek rest ≡ returns t
    → operators d t ≡ none
    → level (suc f) d operand ts ≡ returns (some l, rest)
unfolding level one_operator operators_left operator_loop
level-one f zero operand ts rest l t h p n = ground arith
level-one f (suc zero) operand ts rest l t h p n = ground arith
level-one f (suc (suc d)) operand ts rest l t h p n = ground arith

pub level-two :
    (f d : ℕ) (operand : Parser Expression) (ts ts1 rest : Tokens) (u t : TokenType)
    (str : List Char) (o : BinaryOperation) (l r : Expression)
    → operand ts ≡ returns (some l, next u str ts1)
    → operators d u ≡ some o
    → operand ts1 ≡ returns (some r, rest)
    → peek rest ≡ returns t
    → operators d t ≡ none
    → level (suc (suc f)) d operand ts ≡ returns (some (binary unresolved o l r), rest)
unfolding level one_operator operators_left operator_loop required peek take
level-two f zero operand ts ts1 rest u t str o l r h q k p n = ground arith
level-two f (suc zero) operand ts ts1 rest u t str o l r h q k p n = ground arith
level-two f (suc (suc d)) operand ts ts1 rest u t str o l r h q k p n = ground arith
