-- ===== src/Frontend/EmitIr/Not.antt =====
-- The operator `!` is emitted correctly: it takes the constant 1 from the cache, or makes it.
use sasc.Prelude.{
  ℕ, ◌+◌, ◌^◌, ◌<◌, ◌≡◌, refl, sym, ap, ◌∙◌, some, none, List, [], ◌∷◌, ◌++◌, append_assoc, length,
  get_elem?, arith, String,
}
use sasc.Error.{ok}
use sasc.Ir.IrType.{IrType}
use sasc.Ir.Defs.{Op, load_imm, no_vreg, Instruction, BasicBlock, Function}
use sasc.Ir.Value.{canonical, op_value, set_value}
use sasc.Ir.Value.Runs.{
  instruction, run_ir-append, run_ir-one, run_ir-load_imm, find_const-Cached, set_value-same,
  set_value-other, Cached-append, Cached-mono,
}
use sasc.Ir.Writer.{CachedConst, IrWriter, find_const}
use sasc.Ir.Writer.Laws.{Table, IsDense-append, find_vreg-last, constant}
use sasc.Frontend.FrontendType.{FrontendType}
use sasc.Frontend.FrontendType
use sasc.Frontend.Ast.{logical_not, Expression, unary, type_of}
use sasc.Frontend.EmitIr.{emit_unary, emit_expression}
use sasc.Frontend.EmitIr.Values.{bit_xor-one, cut-canonical}
use sasc.Frontend.EmitIr.Emits.{
  size, Extends, with_reg, Extends-with_reg, length-with_reg, Emits, Runs-last,
}
use sasc.Frontend.Meaning.{unary_value, eval}
use sasc.Frontend.EmitIr.AtWork

module _ (depth : ℕ) (finished : List Function) (name : String) (entry count at_block : ℕ)
    (blocks : List BasicBlock) (start : BasicBlock)
    (here : get_elem? blocks at_block ≡ some start) where
  abbrev at : List CachedConst → Table → List Instruction → IrWriter
  at = AtWork.at depth finished name entry count at_block blocks start here

  -- `!` with the constant 1 in the cache.
  pub Emits-not_cached :
      (t : FrontendType) (e : Expression) (k : List CachedConst) (m : Table)
      (code : List Instruction) (x : Emits at e k m code) (q : ℕ)
      → find_const x.cache IrType.bool 1 ≡ some q
      → eval e < 2
      → FrontendType.resolve_type t ≡ ok IrType.bool
      → length x.table < 2 ^ 32
      → Emits at (unary t logical_not e) k m code
  unfolding emit_expression emit_unary type_of eval size op_value unary_value
  Emits-not_cached t e k m code x q hit truth typed room =
      let s = IrType.bool in
      let d = length x.table in
      let i = instruction Op.bit_xor d x.reg q 0 in
      let n = length-with_reg x.table s in
      let v = unary_value logical_not (eval e) in
      let ext : Extends x.table (with_reg x.table s) = Extends-with_reg x.table s in
      let last = find_vreg-last x.table s x.dense in
      record {
        reg = d;
        cache = x.cache;
        table = with_reg x.table s;
        added = x.added ++ i ∷ [];
        ir_type = s;
        emitted =
            rw
              (
                typed,
                x.emitted,
                AtWork.new_vreg-at depth finished name entry count at_block blocks start here
                    x.cache x.table (code ++ x.added) s x.dense room,
                AtWork.get_const_vreg-at_cached depth finished name entry count at_block blocks
                    start here x.cache (with_reg x.table s) (code ++ x.added) s 1 hit,
                AtWork.add_instr-at depth finished name entry count at_block blocks start here
                    x.cache (with_reg x.table s) (code ++ x.added) Op.bit_xor d x.reg q 0,
                append_assoc code x.added (i ∷ []),
                emit_expression,
              )
              refl;
        typed = typed;
        found = last;
        extends = λ j u h. ext j u (x.extends j u h);
        grows = omega (arith, n, x.grows);
        small = omega (arith, n, x.small);
        dense = IsDense-append x.table s x.dense;
        inside = omega (arith, n);
        runs = λ final env final_ext cached.
            let from_x : Extends x.table final = λ j u h. final_ext j u (ext j u h) in
            let rx = x.runs final env from_x cached in
            let one = (find_const-Cached x.cache d rx.after s 1 rx.cached hit).1 in
            let e1 = run_ir-append final x.added (i ∷ []) env rx.after rx.run in
            let e2 =
              run_ir-one final Op.bit_xor d x.reg q 0 rx.after (eval e) 1 v
                (from_x x.reg x.ir_type x.found) (final_ext d s last) rx.result one
                (ap some (bit_xor-one (eval e) truth)) in
            Runs-last final (x.added ++ i ∷ []) env rx.after x.cache (length m)
              (length (with_reg x.table s)) d (canonical s v) (eval (unary t logical_not e))
              (e1 ∙ e2) (sym (cut-canonical t v typed)) (omega (arith, x.grows)) (omega (arith, n))
              rx.kept rx.cached;
      }

  -- `!` where the constant 1 is made for it.
  pub Emits-not_fresh :
      (t : FrontendType) (e : Expression) (k : List CachedConst) (m : Table)
      (code : List Instruction) (x : Emits at e k m code)
      → find_const x.cache IrType.bool 1 ≡ none
      → eval e < 2
      → FrontendType.resolve_type t ≡ ok IrType.bool
      → length x.table + 1 < 2 ^ 32
      → Emits at (unary t logical_not e) k m code
  unfolding emit_expression emit_unary type_of eval size op_value unary_value
  Emits-not_fresh t e k m code x miss truth typed room =
      let s = IrType.bool in
      let m1 = with_reg x.table s in
      let m2 = with_reg m1 s in
      let d = length x.table in
      let q = length m1 in
      let n1 = length-with_reg x.table s in
      let n2 = length-with_reg m1 s in
      let load = instruction load_imm q no_vreg no_vreg 1 in
      let i = instruction Op.bit_xor d x.reg q 0 in
      let k1 = x.cache ++ constant s 1 q ∷ [] in
      let v = unary_value logical_not (eval e) in
      let dense1 = IsDense-append x.table s x.dense in
      let ext1 : Extends x.table m1 = Extends-with_reg x.table s in
      let ext2 : Extends m1 m2 = Extends-with_reg m1 s in
      let found1 = ext2 d s (find_vreg-last x.table s x.dense) in
      let found2 = find_vreg-last m1 s dense1 in
      record {
        reg = d;
        cache = k1;
        table = m2;
        added = x.added ++ (load ∷ i ∷ []);
        ir_type = s;
        emitted =
            rw
              (
                typed,
                x.emitted,
                AtWork.new_vreg-at depth finished name entry count at_block blocks start here
                    x.cache x.table (code ++ x.added) s x.dense (omega arith),
                AtWork.get_const_vreg-at_fresh depth finished name entry count at_block blocks start
                    here x.cache m1 (code ++ x.added) s 1 miss dense1 (omega (arith, n1)),
                AtWork.add_instr-at depth finished name entry count at_block blocks start here k1 m2
                    (code ++ x.added ++ load ∷ []) Op.bit_xor d x.reg q 0,
                append_assoc (code ++ x.added) (load ∷ []) (i ∷ []),
                append_assoc code x.added (load ∷ i ∷ []),
                emit_expression,
              )
              refl;
        typed = typed;
        found = found1;
        extends = λ j u h. ext2 j u (ext1 j u (x.extends j u h));
        grows = omega (arith, n1, n2, x.grows);
        small = omega (arith, n1, n2, x.small);
        dense = IsDense-append m1 s dense1;
        inside = omega (arith, n1, n2);
        runs = λ final env final_ext cached.
            let from_x : Extends x.table final = λ j u h. final_ext j u (ext2 j u (ext1 j u h)) in
            let rx = x.runs final env from_x cached in
            let env1 = set_value rx.after q (canonical s 1) in
            let env2 = set_value env1 d (canonical s v) in
            let same1 = set_value-other rx.after q (canonical s 1) in
            let same2 = set_value-other env1 d (canonical s v) in
            let one = set_value-same rx.after q (canonical s 1) in
            let e1 = run_ir-append final x.added (load ∷ i ∷ []) env rx.after rx.run in
            let e2 =
              run_ir-append final (load ∷ []) (i ∷ []) rx.after env1
                (run_ir-load_imm final q no_vreg no_vreg 1 rx.after (final_ext q s found2)) in
            let e3 =
              run_ir-one final Op.bit_xor d x.reg q 0 env1 (eval e) 1 v
                (from_x x.reg x.ir_type x.found) (final_ext d s found1)
                (same1 x.reg (omega (arith, n1, x.inside)) ∙ rx.result) one
                (ap some (bit_xor-one (eval e) truth)) in
            record {
              after = env2;
              run = e1 ∙ e2 ∙ e3;
              result = set_value-same env1 d (canonical s v) ∙ sym (cut-canonical t v typed);
              kept = λ j small.
                  same2 j (omega (arith, x.grows))
                  ∙ same1 j (omega (arith, n1, x.grows))
                  ∙ rx.kept j small;
              cached =
                  Cached-append x.cache (length m2) env2 (constant s 1 q)
                    (Cached-mono x.cache d (length m2) rx.after env2 (omega (arith, n1, n2))
                      (λ j small. same2 j (omega arith) ∙ same1 j (omega (arith, n1))) rx.cached)
                    (omega (arith, n2)) (same2 q (omega (arith, n1)) ∙ one);
            };
      }
