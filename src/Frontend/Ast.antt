-- ===== src/Frontend/Ast.antt =====
-- The syntax tree of frontend/AST.hpp, without source locations. An expression carries the `type` field
-- that the analysis fills in, and an identifier the symbol that it refers to.
use sasc.Prelude.{ℕ, Bool, Option, List, String}
use sasc.Frontend.FrontendType.{FrontendType, bool}

pub record Symbol : Type 0 where
  pub name : String
  pub type : FrontendType

pub data BinaryOperation : Type 0 where
  logical_or logical_and : BinaryOperation
  equal not_equal less_than less_than_or_equal greater_than greater_than_or_equal : BinaryOperation
  bitwise_or bitwise_xor bitwise_and shift_left shift_right : BinaryOperation
  add subtract multiply divide modulus : BinaryOperation

pub data UnaryOperation : Type 0 where
  logical_not bitwise_not negation : UnaryOperation

-- The first field of each is the node's `type`; that of a boolean literal is always `bool`.
pub data Expression : Type 0 where
  integer_literal : FrontendType → ℕ → Expression
  boolean_literal : Bool → Expression
  identifier : FrontendType → String → Option Symbol → Expression
  binary : FrontendType → BinaryOperation → Expression → Expression → Expression
  unary : FrontendType → UnaryOperation → Expression → Expression
  call : FrontendType → Expression → Expression

unfoldable pub type_of : Expression → FrontendType
type_of (integer_literal t _) = t
type_of (boolean_literal _) = bool
type_of (identifier t _ _) = t
type_of (binary t _ _ _) = t
type_of (unary t _ _) = t
type_of (call t _) = t

-- The only statement that the parser builds.
pub data Statement : Type 0 where
  return_statement : Option Expression → Statement

pub record ArgDefinition : Type 0 where
  pub name : String
  pub type : FrontendType

pub record FunctionDefinition : Type 0 where
  pub name : String
  pub args : List ArgDefinition
  pub return_type : FrontendType
  pub body_statements : List Statement
  pub body_return_expr : Option Expression
