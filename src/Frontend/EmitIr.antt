-- ===== src/Frontend/EmitIr.antt =====
-- `emit_ir` of frontend/AST_emitIr.cpp and frontend/AST.cpp: a tree is written to the IR writer, and an
-- expression gives the virtual register that holds its value.
pub mod Values
pub mod Emits
pub mod AtWork
pub mod Nodes
pub mod Not
pub mod Correct
pub mod Program
use sasc.Prelude.{ℕ, Option, none, some, List, [], ◌∷◌, if◌then◌else◌}
use sasc.Error.{unimplemented, Result, ok, err, ◌>>=◌}
use sasc.Ir.IrType.{IrType}
use sasc.Ir.Defs.{Op, no_vreg, Function}
use sasc.Ir.Writer.{
  IrWriter, fresh_writer, new_function, new_vreg, get_const_vreg, add_instr, add_return, get_obj,
}
use sasc.Frontend.FrontendType.{FrontendType}
use sasc.Frontend.FrontendType
use sasc.Frontend.Ast.{
  BinaryOperation, logical_or, logical_and, equal, not_equal, less_than, less_than_or_equal,
  greater_than, greater_than_or_equal, bitwise_or, bitwise_xor, bitwise_and, shift_left,
  shift_right, add, subtract, multiply, divide, modulus, UnaryOperation, logical_not, bitwise_not,
  negation, Expression, integer_literal, boolean_literal, identifier, binary, unary, call,
  Statement, return_statement, FunctionDefinition,
}

unfoldable pub op_code : BinaryOperation → Result Op
op_code logical_or = err unimplemented
op_code logical_and = err unimplemented
op_code equal = ok Op.cmp_eq
op_code not_equal = ok Op.cmp_ne
op_code less_than = ok Op.cmp_lt
op_code less_than_or_equal = ok Op.cmp_lte
op_code greater_than = ok Op.cmp_gt
op_code greater_than_or_equal = ok Op.cmp_gte
op_code bitwise_or = ok Op.bit_or
op_code bitwise_xor = ok Op.bit_xor
op_code bitwise_and = ok Op.bit_and
op_code shift_left = ok Op.bit_shl
op_code shift_right = ok Op.bit_shr
op_code add = ok Op.add
op_code subtract = ok Op.sub
op_code multiply = ok Op.mul
op_code divide = ok Op.div
op_code modulus = ok Op.rem

-- The instruction of a unary operation from `src_reg` to `dst_reg`.
unfoldable pub emit_unary : UnaryOperation → IrType → ℕ → ℕ → IrWriter → Result IrWriter
emit_unary negation t dst_reg src_reg w = add_instr Op.neg dst_reg src_reg no_vreg 0 w
emit_unary logical_not t dst_reg src_reg w = do
  (one_reg, w1) ← get_const_vreg t 1 w
  add_instr Op.bit_xor dst_reg src_reg one_reg 0 w1
emit_unary bitwise_not t dst_reg src_reg w = add_instr Op.bit_not dst_reg src_reg no_vreg 0 w

unfoldable pub emit_expression : Expression → IrWriter → Result (ℕ × IrWriter)
emit_expression (integer_literal t v) w = do
  ir_type ← FrontendType.resolve_type t
  (dst_reg, w1) ← new_vreg ir_type w
  w2 ← add_instr Op.load_imm dst_reg no_vreg no_vreg v w1
  ok (dst_reg, w2)
emit_expression (boolean_literal v) w = do
  (dst_reg, w1) ← new_vreg IrType.bool w
  w2 ← add_instr Op.load_imm dst_reg no_vreg no_vreg (if v then 1 else 0) w1
  ok (dst_reg, w2)
emit_expression (identifier _ _ _) w = err unimplemented
emit_expression (binary t o l r) w = do
  opcode ← op_code o
  ir_type ← FrontendType.resolve_type t
  (l_reg, w1) ← emit_expression l w
  (r_reg, w2) ← emit_expression r w1
  (dst_reg, w3) ← new_vreg ir_type w2
  w4 ← add_instr opcode dst_reg l_reg r_reg 0 w3
  ok (dst_reg, w4)
emit_expression (unary t o e) w = do
  ir_type ← FrontendType.resolve_type t
  (src_reg, w1) ← emit_expression e w
  (dst_reg, w2) ← new_vreg ir_type w1
  w3 ← emit_unary o ir_type dst_reg src_reg w2
  ok (dst_reg, w3)
emit_expression (call _ _) w = err unimplemented

unfoldable pub emit_return : Option Expression → IrWriter → Result IrWriter
unfolding emit_expression add_return
emit_return none w = add_return none w
emit_return (some e) w = do (return_reg, w1) ← emit_expression e w; add_return (some return_reg) w1

unfoldable pub emit_statements : List Statement → IrWriter → Result IrWriter
unfolding emit_return
emit_statements [] w = ok w
emit_statements (return_statement e ∷ stmts) w = do w1 ← emit_return e w; emit_statements stmts w1

-- The arguments emit nothing; a return expression is an implicit return.
unfoldable pub emit_function : FunctionDefinition → IrWriter → Result IrWriter
unfolding new_function emit_statements emit_return
emit_function f w = do
  w1 ← emit_statements f.body_statements (new_function f.name w)
  elim f.body_return_expr [ none ↦ ok w1 | some e ↦ emit_return (some e) w1 ]

unfoldable pub emit_functions : List FunctionDefinition → IrWriter → Result IrWriter
unfolding emit_function
emit_functions [] w = ok w
emit_functions (f ∷ fs) w = do w1 ← emit_function f w; emit_functions fs w1

unfoldable pub emit_object : List FunctionDefinition → Result (List Function)
unfolding emit_functions get_obj
emit_object tlds = do w ← emit_functions tlds fresh_writer; ok (get_obj w)
