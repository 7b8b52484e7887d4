-- ===== src/Frontend/EmitIr/Nodes.antt =====
-- Literals, binary nodes, and unary nodes of one instruction are emitted correctly.
use sasc.Prelude.{
  ℕ, ◌^◌, ◌≤◌, ◌<◌, ◌≡◌, refl, sym, ◌∙◌, some, List, [], ◌∷◌, ◌++◌, append_assoc, length, get_elem?,
  arith, String,
}
use sasc.Error.{ok}
use sasc.Ir.IrType.{IrType}
use sasc.Ir.Defs.{Op, load_imm, no_vreg, Instruction, BasicBlock, Function}
use sasc.Ir.Value.{canonical, op_value}
use sasc.Ir.Value.Runs.{instruction, run_ir-append, run_ir-one, run_ir-load_imm}
use sasc.Ir.Writer.{CachedConst, IrWriter, add_instr}
use sasc.Ir.Writer.Laws.{Table, IsDense, IsDense-append, find_vreg-last}
use sasc.Frontend.FrontendType.{FrontendType}
use sasc.Frontend.FrontendType
use sasc.Frontend.Ast.{BinaryOperation, UnaryOperation, Expression, binary, unary, type_of}
use sasc.Frontend.EmitIr.{op_code, emit_unary, emit_expression}
use sasc.Frontend.EmitIr.Values.{op_value-op_code, cut-canonical}
use sasc.Frontend.EmitIr.Emits.{
  size, Extends, with_reg, Extends-with_reg, length-with_reg, Emits, Runs-last,
}
use sasc.Frontend.Meaning.{binary_value, unary_value, eval}
use sasc.Frontend.EmitIr.AtWork

module _ (depth : ℕ) (finished : List Function) (name : String) (entry count at_block : ℕ)
    (blocks : List BasicBlock) (start : BasicBlock)
    (here : get_elem? blocks at_block ≡ some start) where
  abbrev at : List CachedConst → Table → List Instruction → IrWriter
  at = AtWork.at depth finished name entry count at_block blocks start here

  -- A literal: one register, one constant.
  pub Emits-literal :
      (e : Expression) (s : IrType) (v : ℕ) (k : List CachedConst) (m : Table)
      (code : List Instruction)
      → emit_expression e (at k m code)
        ≡ ok (
          length m,
          at k (with_reg m s) (code ++ instruction load_imm (length m) no_vreg no_vreg v ∷ []),
        )
      → FrontendType.resolve_type (type_of e) ≡ ok s
      → eval e ≡ canonical s v
      → 1 ≤ size e
      → IsDense m
      → Emits at e k m code
  Emits-literal e s v k m code emitted typed value nonempty dense =
      let i = instruction load_imm (length m) no_vreg no_vreg v in
      let n = length-with_reg m s in
      record {
        reg = length m;
        cache = k;
        table = with_reg m s;
        added = i ∷ [];
        ir_type = s;
        emitted = emitted;
        typed = typed;
        found = find_vreg-last m s dense;
        extends = Extends-with_reg m s;
        grows = omega (arith, n);
        small = omega (arith, n);
        dense = IsDense-append m s dense;
        inside = omega (arith, n);
        runs = λ final env ext cached.
            Runs-last final (i ∷ []) env env k (length m) (length (with_reg m s)) (length m)
              (canonical s v) (eval e)
              (run_ir-load_imm final (length m) no_vreg no_vreg v env
                (ext (length m) s (find_vreg-last m s dense)))
              (sym value) (omega arith) (omega (arith, n)) (λ j small. refl) cached;
      }

  -- A binary node, behind its operands.
  pub Emits-binary :
      (t : FrontendType) (o : BinaryOperation) (l r : Expression) (k : List CachedConst) (m : Table)
      (code : List Instruction) (x : Emits at l k m code)
      (y : Emits at r x.cache x.table (code ++ x.added)) (op : Op) (s : IrType)
      → op_code o ≡ ok op
      → FrontendType.resolve_type t ≡ ok s
      → length y.table < 2 ^ 32
      → Emits at (binary t o l r) k m code
  unfolding emit_expression type_of eval size
  Emits-binary t o l r k m code x y op s opcode typed room =
      let d = length y.table in
      let i = instruction op d x.reg y.reg 0 in
      let n = length-with_reg y.table s in
      let v = binary_value o (type_of l) (eval l) (eval r) in
      let ext : Extends y.table (with_reg y.table s) = Extends-with_reg y.table s in
      record {
        reg = d;
        cache = y.cache;
        table = with_reg y.table s;
        added = x.added ++ (y.added ++ i ∷ []);
        ir_type = s;
        emitted =
            rw
              (
                opcode,
                typed,
                x.emitted,
                y.emitted,
                AtWork.new_vreg-at depth finished name entry count at_block blocks start here
                    y.cache y.table (code ++ x.added ++ y.added) s y.dense room,
                AtWork.add_instr-at depth finished name entry count at_block blocks start here
                    y.cache (with_reg y.table s) (code ++ x.added ++ y.added) op d x.reg y.reg 0,
                append_assoc code x.added y.added,
                append_assoc code (x.added ++ y.added) (i ∷ []),
                append_assoc x.added y.added (i ∷ []),
                emit_expression,
              )
              refl;
        typed = typed;
        found = find_vreg-last y.table s y.dense;
        extends = λ j u h. ext j u (y.extends j u (x.extends j u h));
        grows = omega (arith, n, x.grows, y.grows);
        small = omega (arith, n, x.small, y.small);
        dense = IsDense-append y.table s y.dense;
        inside = omega (arith, n);
        runs = λ final env final_ext cached.
            let from_y : Extends y.table final = λ j u h. final_ext j u (ext j u h) in
            let from_x : Extends x.table final = λ j u h. from_y j u (y.extends j u h) in
            let rx = x.runs final env from_x cached in
            let ry = y.runs final rx.after from_y rx.cached in
            let e1 = run_ir-append final x.added (y.added ++ i ∷ []) env rx.after rx.run in
            let e2 = run_ir-append final y.added (i ∷ []) rx.after ry.after ry.run in
            let e3 =
              run_ir-one final op d x.reg y.reg 0 ry.after (eval l) (eval r) v
                (from_x x.reg x.ir_type x.found) (final_ext d s (find_vreg-last y.table s y.dense))
                (ry.kept x.reg x.inside ∙ rx.result) ry.result
                (op_value-op_code o (type_of l) op x.ir_type (eval l) (eval r) 0 opcode x.typed) in
            Runs-last final (x.added ++ (y.added ++ i ∷ [])) env ry.after y.cache (length m)
              (length (with_reg y.table s)) d (canonical s v) (eval (binary t o l r)) (e1 ∙ e2 ∙ e3)
              (sym (cut-canonical t v typed)) (omega (arith, x.grows, y.grows)) (omega (arith, n))
              (λ j small. ry.kept j (omega (arith, x.grows)) ∙ rx.kept j small) ry.cached;
      }

  -- A unary node of one instruction.
  pub Emits-unary :
      (t : FrontendType) (o : UnaryOperation) (e : Expression) (k : List CachedConst) (m : Table)
      (code : List Instruction) (x : Emits at e k m code) (op : Op) (s : IrType)
      → ((d src : ℕ) (w : IrWriter) → emit_unary o s d src w ≡ add_instr op d src no_vreg 0 w)
      → ((b : ℕ) → op_value op x.ir_type (eval e) b 0 ≡ some (unary_value o (eval e)))
      → FrontendType.resolve_type t ≡ ok s
      → length x.table < 2 ^ 32
      → Emits at (unary t o e) k m code
  unfolding emit_expression type_of eval size
  Emits-unary t o e k m code x op s opcode value typed room =
      let d = length x.table in
      let i = instruction op d x.reg no_vreg 0 in
      let n = length-with_reg x.table s in
      let v = unary_value o (eval e) in
      let ext : Extends x.table (with_reg x.table s) = Extends-with_reg x.table s in
      let last = find_vreg-last x.table s x.dense in
      record {
        reg = d;
        cache = x.cache;
        table = with_reg x.table s;
        added = x.added ++ i ∷ [];
        ir_type = s;
        emitted =
            rw
              (
                typed,
                x.emitted,
                AtWork.new_vreg-at depth finished name entry count at_block blocks start here
                    x.cache x.table (code ++ x.added) s x.dense room,
                opcode d x.reg (at x.cache (with_reg x.table s) (code ++ x.added)),
                AtWork.add_instr-at depth finished name entry count at_block blocks start here
                    x.cache (with_reg x.table s) (code ++ x.added) op d x.reg no_vreg 0,
                append_assoc code x.added (i ∷ []),
                emit_expression,
              )
              refl;
        typed = typed;
        found = last;
        extends = λ j u h. ext j u (x.extends j u h);
        grows = omega (arith, n, x.grows);
        small = omega (arith, n, x.small);
        dense = IsDense-append x.table s x.dense;
        inside = omega (arith, n);
        runs = λ final env final_ext cached.
            let from_x : Extends x.table final = λ j u h. final_ext j u (ext j u h) in
            let rx = x.runs final env from_x cached in
            let e1 = run_ir-append final x.added (i ∷ []) env rx.after rx.run in
            let e2 =
              run_ir-one final op d x.reg no_vreg 0 rx.after (eval e) (rx.after no_vreg) v
                (from_x x.reg x.ir_type x.found) (final_ext d s last) rx.result refl
                (value (rx.after no_vreg)) in
            Runs-last final (x.added ++ i ∷ []) env rx.after x.cache (length m)
              (length (with_reg x.table s)) d (canonical s v) (eval (unary t o e)) (e1 ∙ e2)
              (sym (cut-canonical t v typed)) (omega (arith, x.grows)) (omega (arith, n)) rx.kept
              rx.cached;
      }
