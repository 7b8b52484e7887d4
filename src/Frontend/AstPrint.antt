-- ===== src/Frontend/AstPrint.antt =====
-- The tree's text: frontend/AST_print.cpp and `AST::print` of frontend/AST.cpp. A line is given without
-- the source location in brackets at its end, which the tree of `Ast` does not carry, and without its
-- line break; what stands on the stream when a function throws is left out.
mod Tests
use sasc.Prelude.{ℕ, zero, suc, Bool, true, false, Option, none, some, List, [], ◌∷◌, ◌++◌, length}
use sasc.Error.{unimplemented, Result, ok, err, ◌>>=◌}
use sasc.Frontend.Token.{chars}
use sasc.Frontend.FrontendType.{FrontendType, void, to_string}
use sasc.Frontend.Ast.{
  BinaryOperation, UnaryOperation, Expression, integer_literal, boolean_literal, identifier, binary,
  unary, call, type_of, Statement, return_statement, ArgDefinition, FunctionDefinition,
}
use sasc.Frontend.Parser.Print.{digits}
use Prim.Native.Char.{Char}

abbrev Line : Type 0
Line = List Char

-- An unsigned number of up to 64 bits, as a stream writes it.
abbrev pub decimal : ℕ → List Char
decimal n = digits 20 n []

unfoldable pub indented : ℕ → Line → Line
indented zero line = line
indented (suc depth) line = chars "  " ++ indented depth line

unfoldable pub binary_operator_string : BinaryOperation → List Char
binary_operator_string BinaryOperation.logical_or = chars "||"
binary_operator_string BinaryOperation.logical_and = chars "&&"
binary_operator_string BinaryOperation.equal = chars "=="
binary_operator_string BinaryOperation.not_equal = chars "!="
binary_operator_string BinaryOperation.less_than = chars "<"
binary_operator_string BinaryOperation.less_than_or_equal = chars "<="
binary_operator_string BinaryOperation.greater_than = chars ">"
binary_operator_string BinaryOperation.greater_than_or_equal = chars ">="
binary_operator_string BinaryOperation.bitwise_or = chars "|"
binary_operator_string BinaryOperation.bitwise_xor = chars "^"
binary_operator_string BinaryOperation.bitwise_and = chars "&"
binary_operator_string BinaryOperation.shift_left = chars "<<"
binary_operator_string BinaryOperation.shift_right = chars ">>"
binary_operator_string BinaryOperation.add = chars "+"
binary_operator_string BinaryOperation.subtract = chars "-"
binary_operator_string BinaryOperation.multiply = chars "*"
binary_operator_string BinaryOperation.divide = chars "/"
binary_operator_string BinaryOperation.modulus = chars "%"

unfoldable pub unary_operator_string : UnaryOperation → List Char
unary_operator_string UnaryOperation.logical_not = chars "!"
unary_operator_string UnaryOperation.bitwise_not = chars "~"
unary_operator_string UnaryOperation.negation = chars "-"

abbrev bool_text : Bool → List Char
bool_text true = chars "true"
bool_text false = chars "false"

unfoldable pub print_expression : Expression → ℕ → Result (List Line)
unfolding indented to_string binary_operator_string unary_operator_string digits
print_expression (integer_literal t v) depth = do
  type ← to_string t
  let line =
      chars "Integer literal (value: "
      ++ (decimal v ++ (chars ", type: " ++ (chars type ++ chars ")")))
  ok (indented depth line ∷ [])
print_expression (boolean_literal v) depth =
    ok (indented depth (chars "Boolean literal (value: " ++ (bool_text v ++ chars ")")) ∷ [])
print_expression (identifier t name s) depth =
    ok (indented depth (chars "Identifier (name: " ++ (chars name ++ chars ")")) ∷ [])
print_expression (binary t o l r) depth = do
  let line = chars "Binary expression (operator: '" ++ (binary_operator_string o ++ chars "')")
  left ← print_expression l (suc depth)
  right ← print_expression r (suc depth)
  ok (indented depth line ∷ (left ++ right))
print_expression (unary t o e) depth = do
  let line = chars "Unary expression (operator: '" ++ (unary_operator_string o ++ chars "')")
  operand ← print_expression e (suc depth)
  ok (indented depth line ∷ operand)
print_expression (call t e) depth = do
  callee ← print_expression e (suc depth)
  ok (indented depth (chars "Function call") ∷ callee)

unfoldable pub print_optional : Option Expression → ℕ → Result (List Line)
unfolding print_expression
print_optional none depth = ok []
print_optional (some e) depth = print_expression e depth

unfoldable pub print_statement : Statement → ℕ → Result (List Line)
unfolding print_optional to_string indented type_of
print_statement (return_statement e) depth = do
  type ← to_string (elim e [ none ↦ void | some e ↦ type_of e ])
  value ← print_optional e (suc depth)
  let line = chars "Return statement (type: \"" ++ (chars type ++ chars "\")")
  ok (indented depth line ∷ value)

unfoldable pub print_statements : List Statement → ℕ → Result (List Line)
unfolding print_statement
print_statements [] depth = ok []
print_statements (s ∷ ss) depth = do
  line ← print_statement s depth
  lines ← print_statements ss depth
  ok (line ++ lines)

-- `ArgDefinition::print` throws.
unfoldable pub print_arg : ArgDefinition → ℕ → Result (List Line)
print_arg arg depth = err unimplemented

unfoldable pub print_args : List ArgDefinition → ℕ → Result (List Line)
unfolding print_arg
print_args [] depth = ok []
print_args (arg ∷ args) depth = do
  line ← print_arg arg depth
  lines ← print_args args depth
  ok (line ++ lines)

unfoldable pub print_function : FunctionDefinition → ℕ → Result (List Line)
unfolding print_args print_statements print_optional to_string indented digits
print_function f depth = do
  type ← to_string f.return_type
  args ← print_args f.args (suc depth)
  body ← print_statements f.body_statements (suc depth)
  value ← print_optional f.body_return_expr (suc depth)
  let head =
      chars "Function definition (name: \""
      ++ (chars f.name
          ++ (chars "\", args: "
              ++ (decimal (length f.args)
                  ++ (chars ", return type: " ++ (chars type ++ chars ")")))))
  ok (indented depth head ∷ (args ++ (body ++ value)))

-- `AST::print`.
unfoldable pub print : List FunctionDefinition → Result (List Line)
unfolding print_function
print [] = ok []
print (f ∷ fs) = do lines ← print_function f 0; others ← print fs; ok (lines ++ others)
