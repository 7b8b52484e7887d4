-- ===== src/Frontend/EmitIr/Correct.antt =====
-- Every typed expression is emitted correctly.
use sasc.Prelude.{
  ℕ, ◌+◌, ◌*◌, ◌^◌, ◌<◌, ◌≡◌, refl, ap, ◌∙◌, Option-cases, inl, inr, some, List, ◌++◌, length,
  get_elem?, arith, String, if◌then◌else◌,
}
use sasc.Error.{ok}
use sasc.Ir.IrType.{IrType}
use sasc.Ir.Defs.{Op, load_imm, no_vreg, Instruction, BasicBlock, Function}
use sasc.Ir.Value.{op_value}
use sasc.Ir.Writer.{CachedConst, IrWriter, find_const}
use sasc.Ir.Writer.Laws.{Table, IsDense}
use sasc.Frontend.FrontendType.{FrontendType}
use sasc.Frontend.FrontendType
use sasc.Frontend.Ast.{
  logical_not, bitwise_not, negation, Expression, integer_literal, boolean_literal, identifier,
  binary, unary, call, type_of,
}
use sasc.Frontend.EmitIr.{emit_unary, emit_expression}
use sasc.Frontend.EmitIr.Values.{op_code-total, bool-resolve_type, cut-canonical}
use sasc.Frontend.EmitIr.Emits.{size, with_reg, Emits}
use sasc.Frontend.Meaning.{unary_value, eval}
use sasc.Frontend.Meaning.Typing.{
  Typed, Typed-HasIrType, eval-bool, logical_not-bool, unary_type-cases,
}
use sasc.Frontend.EmitIr.AtWork
use sasc.Frontend.EmitIr.Nodes
use sasc.Frontend.EmitIr.Not

module _ (depth : ℕ) (finished : List Function) (name : String) (entry count at_block : ℕ)
    (blocks : List BasicBlock) (start : BasicBlock)
    (here : get_elem? blocks at_block ≡ some start) where
  abbrev at : List CachedConst → Table → List Instruction → IrWriter
  at = AtWork.at depth finished name entry count at_block blocks start here

  -- A typed expression is emitted into a block that stands in the writer: where the table of registers is
  -- dense and has room for two registers a node, emission succeeds, the table only grows and stays dense,
  -- the instructions are appended, the result is in a register of the expression's type, and running the
  -- new instructions puts the expression's value there, from any values of the registers that agree with
  -- the cache of constants, and keeps the registers that there were.
  pub emit_expression-Emits :
      (e : Expression) (k : List CachedConst) (m : Table) (code : List Instruction)
      → Typed e
      → IsDense m
      → length m + 2 * size e < 2 ^ 32
      → Emits at e k m code
  unfolding emit_expression type_of eval size emit_unary op_value unary_value
  emit_expression-Emits (integer_literal t v) k m code h dense room =
      let (s, typed) = Typed-HasIrType (integer_literal t v) h in
      Nodes.Emits-literal depth finished name entry count at_block blocks start here
        (integer_literal t v) s v k m code
        (rw
          (
            typed,
            AtWork.new_vreg-at depth finished name entry count at_block blocks start here k m code s
                dense (omega arith),
            AtWork.add_instr-at depth finished name entry count at_block blocks start here k
                (with_reg m s) code load_imm (length m) no_vreg no_vreg v,
            emit_expression,
          )
          refl)
        typed (cut-canonical t v typed) (omega arith) dense
  emit_expression-Emits (boolean_literal v) k m code h dense room =
      let value : ℕ = if v then 1 else 0 in
      let s = IrType.bool in
      Nodes.Emits-literal depth finished name entry count at_block blocks start here
        (boolean_literal v) s value k m code
        (rw
          (
            AtWork.new_vreg-at depth finished name entry count at_block blocks start here k m code s
                dense (omega arith),
            AtWork.add_instr-at depth finished name entry count at_block blocks start here k
                (with_reg m s) code load_imm (length m) no_vreg no_vreg value,
            emit_expression,
          )
          refl)
        (unfold FrontendType.resolve_type in refl) (ground arith) (omega arith) dense
  emit_expression-Emits (identifier t n s) k m code h dense room = absurd h
  emit_expression-Emits (binary t o l r) k m code (hl, hr, h) dense room =
      let (s, typed) = Typed-HasIrType (binary t o l r) (hl, hr, h) in
      let (op, opcode) = op_code-total o (type_of l) (type_of r) h in
      let x = emit_expression-Emits l k m code hl dense (omega arith) in
      let y =
        emit_expression-Emits r x.cache x.table (code ++ x.added) hr x.dense
          (omega (arith, x.small)) in
      Nodes.Emits-binary depth finished name entry count at_block blocks start here t o l r k m code
        x y op s opcode typed (omega (arith, x.small, y.small))
  emit_expression-Emits (unary t negation e) k m code (he, h) dense room =
      let (s, typed) = Typed-HasIrType (unary t negation e) (he, h) in
      let x = emit_expression-Emits e k m code he dense (omega arith) in
      Nodes.Emits-unary depth finished name entry count at_block blocks start here t negation e k m
        code x Op.neg s (λ d src w. refl) (λ b. refl) typed (omega (arith, x.small))
  emit_expression-Emits (unary t bitwise_not e) k m code (he, h) dense room =
      let (s, typed) = Typed-HasIrType (unary t bitwise_not e) (he, h) in
      let x = emit_expression-Emits e k m code he dense (omega arith) in
      Nodes.Emits-unary depth finished name entry count at_block blocks start here t bitwise_not e k
        m code x Op.bit_not s (λ d src w. refl) (λ b. refl) typed (omega (arith, x.small))
  emit_expression-Emits (unary t logical_not e) k m code (he, h) dense room =
      let (s, typed) = Typed-HasIrType (unary t logical_not e) (he, h) in
      let is = logical_not-bool (type_of e) h in
      let same = (unary_type-cases logical_not (type_of e) h).0 in
      let bool_typed : FrontendType.resolve_type t ≡ ok IrType.bool =
        typed ∙ ap ok (bool-resolve_type t (rw same is) typed) in
      let x = emit_expression-Emits e k m code he dense (omega arith) in
      let truth = eval-bool e he is in
      elim (Option-cases (find_const x.cache IrType.bool 1)) [
        | inl miss ↦
            Not.Emits-not_fresh depth finished name entry count at_block blocks start here t e k m
              code x miss truth bool_typed (omega (arith, x.small))
        | inr (q, hit) ↦
            Not.Emits-not_cached depth finished name entry count at_block blocks start here t e k m
              code x q hit truth bool_typed (omega (arith, x.small))
      ]
  emit_expression-Emits (call t e) k m code h dense room = absurd h
