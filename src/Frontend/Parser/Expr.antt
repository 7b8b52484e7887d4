-- ===== src/Frontend/Parser/Expr.antt =====
-- The rules for expressions of frontend/Parser.cpp, a function for each. Those above `unary` take
-- `try_parse_unary` as an argument, since it is the one that they come back to.
use sasc.Prelude.{ℕ, zero, suc, Option, none, some, if◌then◌else◌}
use sasc.Error.{syntax_error}
use sasc.Frontend.Outcome.{Outcome, out_of_fuel, throws, returns, ◌>>=◌}
use sasc.Frontend.FrontendType.{unresolved}
use sasc.Frontend.Ast.{BinaryOperation, UnaryOperation, Expression, binary, unary, call}
use sasc.Frontend.Token.{TokenType, same_type}
use sasc.Frontend.Parser.Stream.{Tokens, Parser, peek, take, expect}
use sasc.Frontend.Parser.Operators.{
  multiplicative_operators, additive_operators, bitshift_operators, bitwise_and_operators,
  bitwise_xor_operators, bitwise_or_operators, comparison_operators, equality_operators,
  logical_and_operators, logical_or_operators,
}
use sasc.Frontend.Parser.Literal.{
  try_parse_integer_literal, try_parse_boolean_literal, try_parse_identifier,
}

-- `throw CompilerError::syntax_error("Expected expression …")` where a rule does not match.
unfoldable pub required : Parser Expression → Tokens → Outcome (Expression × Tokens)
required rule ts = do
  (e, ts1) ← rule ts
  elim e [ none ↦ throws syntax_error | some x ↦ returns (x, ts1) ]

-- A rule for a level of binary operators, between two operands of the next level.
unfoldable pub one_operator :
    (TokenType → Option BinaryOperation) → Parser Expression → Parser Expression
unfolding peek take required
one_operator operators operand ts = do
  (maybe_l, ts1) ← operand ts
  elim maybe_l [
    | none ↦ returns (none, ts1)
    | some l ↦ do
      t ← peek ts1
      elim (operators t) [
        | none ↦ returns (some l, ts1)
        | some operation ↦ do
          (_, ts2) ← take ts1
          (r, ts3) ← required operand ts2
          returns (some (binary unresolved operation l r), ts3)
      ]
  ]

-- The `while (true)` of `try_parse_additive` and `try_parse_multiplicative`, where `ret` is parsed.
unfoldable pub operator_loop :
    (TokenType → Option BinaryOperation) → Parser Expression → ℕ → Expression → Parser Expression
unfolding peek take required
operator_loop operators operand zero ret ts = out_of_fuel
operator_loop operators operand (suc f) ret ts = do
  t ← peek ts
  elim (operators t) [
    | none ↦ returns (some ret, ts)
    | some operation ↦ do
      (_, ts1) ← take ts
      (r, ts2) ← required operand ts1
      operator_loop operators operand f (binary unresolved operation ret r) ts2
  ]

unfoldable pub operators_left :
    (TokenType → Option BinaryOperation) → ℕ → Parser Expression → Parser Expression
unfolding operator_loop
operators_left operators f operand ts = do
  (maybe_l, ts1) ← operand ts
  elim maybe_l [ none ↦ returns (none, ts1) | some ret ↦ operator_loop operators operand f ret ts1 ]

unfoldable pub try_parse_multiplicative : ℕ → Parser Expression → Parser Expression
unfolding operators_left multiplicative_operators
try_parse_multiplicative f unary_rule = operators_left multiplicative_operators f unary_rule

unfoldable pub try_parse_additive : ℕ → Parser Expression → Parser Expression
unfolding operators_left additive_operators try_parse_multiplicative
try_parse_additive f unary_rule =
    operators_left additive_operators f (try_parse_multiplicative f unary_rule)

unfoldable pub try_parse_bitshift : ℕ → Parser Expression → Parser Expression
unfolding one_operator bitshift_operators try_parse_additive
try_parse_bitshift f unary_rule = one_operator bitshift_operators (try_parse_additive f unary_rule)

unfoldable pub try_parse_bitwise_and : ℕ → Parser Expression → Parser Expression
unfolding one_operator bitwise_and_operators try_parse_bitshift
try_parse_bitwise_and f unary_rule =
    one_operator bitwise_and_operators (try_parse_bitshift f unary_rule)

unfoldable pub try_parse_bitwise_xor : ℕ → Parser Expression → Parser Expression
unfolding one_operator bitwise_xor_operators try_parse_bitwise_and
try_parse_bitwise_xor f unary_rule =
    one_operator bitwise_xor_operators (try_parse_bitwise_and f unary_rule)

unfoldable pub try_parse_bitwise_or : ℕ → Parser Expression → Parser Expression
unfolding one_operator bitwise_or_operators try_parse_bitwise_xor
try_parse_bitwise_or f unary_rule =
    one_operator bitwise_or_operators (try_parse_bitwise_xor f unary_rule)

unfoldable pub try_parse_comparison : ℕ → Parser Expression → Parser Expression
unfolding one_operator comparison_operators try_parse_bitwise_or
try_parse_comparison f unary_rule =
    one_operator comparison_operators (try_parse_bitwise_or f unary_rule)

unfoldable pub try_parse_equality : ℕ → Parser Expression → Parser Expression
unfolding one_operator equality_operators try_parse_comparison
try_parse_equality f unary_rule =
    one_operator equality_operators (try_parse_comparison f unary_rule)

unfoldable pub try_parse_logical_and : ℕ → Parser Expression → Parser Expression
unfolding one_operator logical_and_operators try_parse_equality
try_parse_logical_and f unary_rule =
    one_operator logical_and_operators (try_parse_equality f unary_rule)

unfoldable pub try_parse_logical_or : ℕ → Parser Expression → Parser Expression
unfolding one_operator logical_or_operators try_parse_logical_and
try_parse_logical_or f unary_rule =
    one_operator logical_or_operators (try_parse_logical_and f unary_rule)

-- On fuel for the loops, with `try_parse_unary`.
unfoldable pub try_parse_expr_with : ℕ → Parser Expression → Parser Expression
unfolding try_parse_logical_or
try_parse_expr_with f unary_rule = try_parse_logical_or f unary_rule

abbrev pub or_else : Parser Expression → Parser Expression → Parser Expression
or_else first second ts = do
  (e, ts1) ← first ts
  elim e [ none ↦ second ts1 | some x ↦ returns (some x, ts1) ]

-- `(` expression `)`.
unfoldable pub parenthesized : Parser Expression → Parser Expression
unfolding peek take expect required same_type
parenthesized expr_rule ts = do
  t ← peek ts
  if same_type t TokenType.l_paren
      then (do
        (_, ts1) ← take ts
        (e, ts2) ← required expr_rule ts1
        (_, ts3) ← expect TokenType.r_paren ts2
        returns (some e, ts3))
      else returns (none, ts)

unfoldable pub try_parse_primary : Parser Expression → Parser Expression
unfolding parenthesized try_parse_identifier try_parse_boolean_literal try_parse_integer_literal
try_parse_primary expr_rule = or_else try_parse_identifier (
    or_else try_parse_boolean_literal (or_else try_parse_integer_literal (parenthesized expr_rule)))

unfoldable pub try_parse_postfix : Parser Expression → Parser Expression
unfolding try_parse_primary peek take expect same_type
try_parse_postfix expr_rule ts = do
  (subject, ts1) ← try_parse_primary expr_rule ts
  elim subject [
    | none ↦ returns (none, ts1)
    | some callee ↦ do
      t ← peek ts1
      if same_type t TokenType.l_paren
          then (do
            (_, ts2) ← take ts1
            (_, ts3) ← expect TokenType.r_paren ts2
            returns (some (call unresolved callee), ts3))
          else returns (some callee, ts1)
  ]

unfoldable pub unary_operators : TokenType → Option UnaryOperation
unary_operators TokenType.exclamation = some UnaryOperation.logical_not
unary_operators TokenType.tilde = some UnaryOperation.bitwise_not
unary_operators TokenType.minus = some UnaryOperation.negation
unary_operators _ = none

-- Where `again` is `try_parse_unary`, and `expr_rule` `try_parse_expr`.
unfoldable pub unary_step : Parser Expression → Parser Expression → Parser Expression
unfolding try_parse_postfix unary_operators peek take required
unary_step again expr_rule ts = do
  t ← peek ts
  elim (unary_operators t) [
    | none ↦ try_parse_postfix expr_rule ts
    | some operation ↦ do
      (_, ts1) ← take ts
      (e, ts2) ← required again ts1
      returns (some (unary unresolved operation e), ts2)
  ]

-- On fuel for its calls of itself and the loops in each.
unfoldable pub try_parse_unary : ℕ → Parser Expression
unfolding unary_step try_parse_expr_with
try_parse_unary zero ts = out_of_fuel
try_parse_unary (suc f) ts =
    unary_step (try_parse_unary f) (try_parse_expr_with f (try_parse_unary f)) ts

unfoldable pub try_parse_expr : ℕ → Parser Expression
unfolding try_parse_unary try_parse_expr_with
try_parse_expr f = try_parse_expr_with f (try_parse_unary f)
