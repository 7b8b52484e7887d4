-- ===== src/Frontend/Parser/Print.antt =====
-- Trees written as the tokens that the parser of frontend/Parser.cpp reads: the inverse of the parser.
pub mod Literal
pub mod Levels
pub mod Steps
pub mod RoundTrip
pub mod Climb
pub mod Loop
pub mod Function
mod Tests
use sasc.Prelude.{
  ℕ, zero, suc, ◌+◌, ◌/◌, ◌%◌, Bool, true, false, Option, none, some, List, [], ◌∷◌, ◌++◌, ltb,
  if◌then◌else◌, String,
}
use sasc.Frontend.FrontendType.{FrontendType}
use sasc.Frontend.FrontendType
use sasc.Frontend.Ast.{
  BinaryOperation, UnaryOperation, Expression, integer_literal, boolean_literal, identifier, binary,
  unary, call,
}
use sasc.Frontend.Token.{TokenType, chars}
use sasc.Frontend.Parser.Stream.{Tokens, next}
use Prim.Native.Char.{Char}

unfoldable pub digit : ℕ → Char
digit zero = "0"
digit (suc zero) = "1"
digit (suc (suc zero)) = "2"
digit (suc (suc (suc zero))) = "3"
digit (suc (suc (suc (suc zero)))) = "4"
digit (suc (suc (suc (suc (suc zero))))) = "5"
digit (suc (suc (suc (suc (suc (suc zero)))))) = "6"
digit (suc (suc (suc (suc (suc (suc (suc zero))))))) = "7"
digit (suc (suc (suc (suc (suc (suc (suc (suc zero)))))))) = "8"
digit _ = "9"

-- The decimal digits of a number in front of a text, at most as many as the fuel.
unfoldable pub digits : ℕ → ℕ → List Char → List Char
unfolding digit
digits zero n cs = cs
digits (suc f) n cs =
    let more = digits f (n / 10) (digit (n % 10) ∷ cs) in if ltb n 10 then digit n ∷ cs else more

abbrev pub suffix : FrontendType → List Char
suffix FrontendType.i8 = chars "i8"
suffix FrontendType.i16 = chars "i16"
suffix FrontendType.i32 = chars "i32"
suffix FrontendType.u8 = chars "u8"
suffix FrontendType.u16 = chars "u16"
suffix FrontendType.u32 = chars "u32"
suffix _ = []

unfoldable pub literal_text : FrontendType → ℕ → List Char
unfolding digits
literal_text t v = digits 10 v (suffix t)

abbrev pub operator_token : BinaryOperation → TokenType
operator_token BinaryOperation.multiply = TokenType.asterisk
operator_token BinaryOperation.divide = TokenType.forward_slash
operator_token BinaryOperation.modulus = TokenType.percent
operator_token BinaryOperation.add = TokenType.plus
operator_token BinaryOperation.subtract = TokenType.minus
operator_token BinaryOperation.shift_left = TokenType.less_less
operator_token BinaryOperation.shift_right = TokenType.greater_greater
operator_token BinaryOperation.bitwise_and = TokenType.and
operator_token BinaryOperation.bitwise_xor = TokenType.caret
operator_token BinaryOperation.bitwise_or = TokenType.or
operator_token BinaryOperation.less_than = TokenType.less
operator_token BinaryOperation.less_than_or_equal = TokenType.less_equal
operator_token BinaryOperation.greater_than = TokenType.greater
operator_token BinaryOperation.greater_than_or_equal = TokenType.greater_equal
operator_token BinaryOperation.equal = TokenType.equal_equal
operator_token BinaryOperation.not_equal = TokenType.exclamation_equal
operator_token BinaryOperation.logical_and = TokenType.and_and
operator_token BinaryOperation.logical_or = TokenType.or_or

-- How loosely an operator binds, from multiplication up.
abbrev pub looseness : BinaryOperation → ℕ
looseness BinaryOperation.multiply = 0
looseness BinaryOperation.divide = 0
looseness BinaryOperation.modulus = 0
looseness BinaryOperation.add = 1
looseness BinaryOperation.subtract = 1
looseness BinaryOperation.shift_left = 2
looseness BinaryOperation.shift_right = 2
looseness BinaryOperation.bitwise_and = 3
looseness BinaryOperation.bitwise_xor = 4
looseness BinaryOperation.bitwise_or = 5
looseness BinaryOperation.less_than = 6
looseness BinaryOperation.less_than_or_equal = 6
looseness BinaryOperation.greater_than = 6
looseness BinaryOperation.greater_than_or_equal = 6
looseness BinaryOperation.equal = 7
looseness BinaryOperation.not_equal = 7
looseness BinaryOperation.logical_and = 8
looseness BinaryOperation.logical_or = 9

abbrev pub unary_token : UnaryOperation → TokenType
unary_token UnaryOperation.logical_not = TokenType.exclamation
unary_token UnaryOperation.bitwise_not = TokenType.tilde
unary_token UnaryOperation.negation = TokenType.minus

-- The rule that reads a tree: 0 for a primary expression, 1 for a postfix expression, 2 for a unary one,
-- and from 3 on for the binary operators.
abbrev pub height : Expression → ℕ
height (integer_literal t v) = 0
height (boolean_literal b) = 0
height (identifier t n s) = 0
height (binary t o l r) = suc (suc (suc (looseness o)))
height (unary t o e) = 2
height (call t e) = 1

abbrev pub boolean_token : Bool → TokenType
boolean_token true = TokenType.keyword_true
boolean_token false = TokenType.keyword_false

-- The rule that reads the left operand of an operator of a level: the rule of the level itself for
-- multiplication and addition, which take any number of operators, and else the next lower one.
abbrev pub left_rule : ℕ → ℕ
left_rule zero = 3
left_rule (suc zero) = 4
left_rule d = suc (suc d)

abbrev pub left_height : BinaryOperation → ℕ
left_height o = left_rule (looseness o)

-- A tree of height `k` where the rule of height `h` reads: in parentheses if it is too high.
unfoldable pub wrap : ℕ → ℕ → (Tokens → Tokens) → Tokens → Tokens
wrap k h body rest =
    if ltb h k then next TokenType.l_paren [] (body (next TokenType.r_paren [] rest)) else body rest

-- A tree in front of other tokens, with parentheses round an operand only where the rule that reads
-- operands there does not read it without: sums and products group to the left, a unary expression stands
-- under a unary operator, and any other operand binds tighter than its operator or is in parentheses.
unfoldable pub bare : Expression → Tokens → Tokens
unfolding literal_text wrap
bare (integer_literal t v) rest = next TokenType.int_literal (literal_text t v) rest
bare (boolean_literal b) rest = next (boolean_token b) [] rest
bare (identifier t n s) rest = next TokenType.ident (chars n) rest
bare (binary t o l r) rest =
    let right = wrap (height r) (suc (suc (looseness o))) (bare r) rest in
    wrap (height l) (left_height o) (bare l) (next (operator_token o) [] right)
bare (unary t o e) rest = next (unary_token o) [] (wrap (height e) 2 (bare e) rest)
bare (call t e) rest =
    wrap (height e) 0 (bare e) (next TokenType.l_paren [] (next TokenType.r_paren [] rest))

unfoldable pub show : ℕ → Expression → Tokens → Tokens
unfolding bare wrap
show h e rest = wrap (height e) h (bare e) rest
