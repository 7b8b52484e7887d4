-- ===== src/Frontend/EmitIr/Program.antt =====
-- The IR of a program that is one function without parameters, which returns an expression.
use sasc.Prelude.{ℕ, ◌^◌, ◌<◌, ◌≡◌, refl, none, some, List, [], ◌∷◌, get_elem?, String, arith}
use sasc.Error.{ok}
use sasc.Ir.IrType.{IrType}
use sasc.Ir.Defs.{return_kind, Instruction, BasicBlock, Function, fresh_block}
use sasc.Ir.Value.{Env, run_ir}
use sasc.Ir.Writer.{CachedConst, IrWriter, edit_block}
use sasc.Ir.Writer.Laws.{Table}
use sasc.Frontend.FrontendType.{FrontendType}
use sasc.Frontend.Ast.{Expression, return_statement, FunctionDefinition}
use sasc.Frontend.EmitIr.{emit_object}
use sasc.Frontend.EmitIr.Emits.{size, Emits}
use sasc.Frontend.EmitIr.Correct
use sasc.Frontend.EmitIr.AtWork
use sasc.Frontend.Meaning.{eval}
use sasc.Frontend.Meaning.Typing.{Typed}

-- `fn name() -> t { return e; }`.
abbrev pub returns : String → FrontendType → Expression → FunctionDefinition
returns name t e = record {
  name = name;
  args = [];
  return_type = t;
  body_statements = return_statement (some e) ∷ [];
  body_return_expr = none;
}

-- The function's entry block ends in a return of a register, and running the block from any values of
-- the registers puts `value` there.
pub record Computes (fn : Function) (value : ℕ) : Type 0 where
  pub block : BasicBlock
  pub reg : ℕ
  pub entered : get_elem? fn.blocks fn.entry ≡ some block
  pub terminated : block.terminator ≡ record { kind = some return_kind; ret_reg = some reg }
  pub computed :
      (env : Env)
      → (after : Env) × (run_ir fn.vregs block.instructions env ≡ some after) × (after reg ≡ value)

abbrev entry_writer : String → List CachedConst → Table → List Instruction → IrWriter
entry_writer name = AtWork.at 1 [] name 0 1 0 (fresh_block 0 ∷ []) (fresh_block 0) refl

-- The entry block, and the one that `add_return` opens behind it.
abbrev returned_block : List Instruction → ℕ → BasicBlock
returned_block code reg = record {
  id = 0;
  instructions = code;
  terminator = record { kind = some return_kind; ret_reg = some reg };
}

abbrev returned : String → List (ℕ × IrType) → List Instruction → ℕ → Function
returned name table code reg = record {
  name = name;
  entry = 0;
  vregs = table;
  bb_count = 2;
  blocks = returned_block code reg ∷ fresh_block 1 ∷ [];
}

emit_object-returns :
    (name : String) (t : FrontendType) (e : Expression) (x : Emits (entry_writer name) e [] [] [])
    → emit_object (returns name t e ∷ []) ≡ ok (returned name x.table x.added x.reg ∷ [])
unfolding emit_object edit_block
emit_object-returns name t e x = rw (x.emitted, emit_object) refl

-- A typed expression of less than 2 ^ 31 nodes, as the body of the only function: emission succeeds and
-- gives that function alone, whose entry block returns the value of the expression.
pub emit_object-Computes :
    (name : String) (t : FrontendType) (e : Expression)
    → Typed e
    → size e < 2 ^ 31
    → (fn : Function) × (emit_object (returns name t e ∷ []) ≡ ok (fn ∷ []))
      × (fn.name ≡ name)
      × Computes fn (eval e)
emit_object-Computes name t e h room =
    let x =
      Correct.emit_expression-Emits 1 [] name 0 1 0 (fresh_block 0 ∷ []) (fresh_block 0) refl e []
        [] [] h tt (omega arith) in
    let fn = returned name x.table x.added x.reg in
    (
      fn,
      emit_object-returns name t e x,
      refl,
      record {
        block = returned_block x.added x.reg;
        reg = x.reg;
        entered = refl;
        terminated = refl;
        computed = λ env. let r = x.runs x.table env (λ v s f. f) tt in (r.after, r.run, r.result);
      },
    )
