-- ===== src/Frontend/Tests.antt =====
-- Runs of the front end's theorems and definitions at concrete inputs, from the tree to the program's
-- bytes.
use sasc.Prelude.{◌↔◌, arith, ◌≡◌, ◌≢◌, refl, true, none, some, List, [], ◌∷◌, length}
use sasc.Error.{Result, ok, ◌>>=◌, ◌>>◌}
use sasc.Frontend.FrontendType.{
  FrontendType, i32, unresolved, is_integer, type_eq, is_function, from_string, to_string,
}
use sasc.Frontend.FrontendType
use sasc.Frontend.Ast.{
  add, less_than, Expression, integer_literal, binary, type_of, return_statement,
  FunctionDefinition,
}
use sasc.Frontend.Resolve.{resolve_type, check}
use sasc.Ir.Defs.{fresh_block, Function}
use sasc.Frontend.EmitIr.AtWork
use sasc.Frontend.EmitIr.Correct
use sasc.Frontend.EmitIr.Emits.{size, Emits}
use sasc.Frontend.EmitIr.Program.{returns, Computes}
use sasc.Frontend.ImplicitReturn.{analyse-unresolved}
use sasc.Frontend.Accepted.{analyse-returns, analyse-Computes}
use sasc.Frontend.Meaning.{eval}
use sasc.Frontend.Check.{analyse}
use sasc.Frontend.EmitIr.{op_code, emit_object}
use sasc.Frontend.Meaning.Typing.{Typed, IsClosed, resolve_type-Typed}
use sasc.Frontend.Meaning.Rules.{Types}
use sasc.Frontend.Meaning.Rules.Complete.{resolve_type-Types_iff}
use sasc.Ir.Writer.{edit_block, new_vreg, add_instr}
use sasc.Riscv32.Code.{write_srai, write_slli, write_add}
use sasc.Riscv32.Alloc.{find_slot, home_of}
use sasc.Riscv32.Function.{Object, lower_ir, link}

i32_resolved : i32 ≢ FrontendType.unresolved_int
i32_resolved = λ e. cc

-- `1i32 + 2i32 < 5i32` as it is parsed, and resolved.
abbrev parsed : Expression
parsed =
    binary unresolved less_than
      (binary unresolved add (integer_literal i32 1) (integer_literal i32 2))
      (integer_literal i32 5)

abbrev resolved : Expression
resolved =
    binary FrontendType.bool less_than
      (binary i32 add (integer_literal i32 1) (integer_literal i32 2)) (integer_literal i32 5)

resolves : resolve_type parsed ≡ ok resolved
unfolding resolve_type
resolves = refl

resolved-Typed : Typed resolved
unfolding is_integer
resolved-Typed =
    resolve_type-Typed parsed (((refl, i32_resolved), (refl, i32_resolved)), (refl, i32_resolved))
      resolves

resolve_type-Types_iff_example : (resolve_type parsed ≡ ok resolved) ↔ Types parsed resolved
unfolding is_integer
resolve_type-Types_iff_example =
    resolve_type-Types_iff parsed resolved
      (((refl, i32_resolved), (refl, i32_resolved)), (refl, i32_resolved))

-- In the entry block of a new function.
emit_expression-Emits_example :
    Emits (AtWork.at 1 [] "main" 0 1 0 (fresh_block 0 ∷ []) (fresh_block 0) refl) resolved [] [] []
emit_expression-Emits_example =
    Correct.emit_expression-Emits 1 [] "main" 0 1 0 (fresh_block 0 ∷ []) (fresh_block 0) refl
      resolved [] [] [] resolved-Typed tt (unfold size in omega arith)

parsed-IsClosed : IsClosed parsed
unfolding is_integer
parsed-IsClosed = (((refl, i32_resolved), (refl, i32_resolved)), (refl, i32_resolved))

analyse-returns_example : analyse (returns "main" FrontendType.bool parsed ∷ []) ≡ (do
  e ← resolve_type parsed
  check (type_eq (type_of e) FrontendType.bool) (FrontendType.bool ∷ type_of e ∷ [])
  ok (returns "main" FrontendType.bool e ∷ []))
analyse-returns_example = analyse-returns "main" FrontendType.bool parsed parsed-IsClosed

parsed_accepted :
    analyse (returns "main" FrontendType.bool parsed ∷ [])
    ≡ ok (returns "main" FrontendType.bool resolved ∷ [])
unfolding analyse
parsed_accepted = refl

analyse-Computes_example :
    (r : Expression) × (fn : Function) × (resolve_type parsed ≡ ok r)
    × (type_eq (type_of r) FrontendType.bool ≡ true)
    × (emit_object (returns "main" FrontendType.bool resolved ∷ []) ≡ ok (fn ∷ []))
    × (fn.name ≡ "main")
    × Computes fn (eval r)
analyse-Computes_example =
    analyse-Computes "main" FrontendType.bool parsed parsed-IsClosed (unfold size in omega arith)
      parsed_accepted

-- `fn main() -> i32 { return 1i32 + 2i32; }`.
abbrev main_fn : FunctionDefinition
main_fn = record {
  name = "main";
  args = [];
  return_type = i32;
  body_statements =
      return_statement
        (some (binary unresolved add (integer_literal i32 1) (integer_literal i32 2)))
      ∷ [];
  body_return_expr = none;
}

abbrev compiled : List FunctionDefinition → Result Object
compiled tlds = do
  checked ← analyse tlds
  obj ← emit_object checked
  code ← lower_ir obj
  link true code

-- Four words in front, four of prologue, ten of the body with its nops, four of epilogue.
compiled-main : (compiled (main_fn ∷ []) >>= λ o. ok (length o.code)) ≡ ok 112
unfolding analyse emit_object lower_ir link FrontendType.resolve_type edit_block write_srai
    write_slli write_add op_code new_vreg add_instr find_slot home_of
compiled-main = refl

-- `fn main() -> i32 { 1i32 + 2i32 }`.
abbrev implicit_fn : FunctionDefinition
implicit_fn = record main_fn {
  body_statements = [];
  body_return_expr = some (binary unresolved add (integer_literal i32 1) (integer_literal i32 2));
}

analyse-unresolved_example : analyse (implicit_fn ∷ []) ≢ ok (implicit_fn ∷ [])
analyse-unresolved_example =
    analyse-unresolved implicit_fn []
      (binary unresolved add (integer_literal i32 1) (integer_literal i32 2)) refl
      (unfold type_of in refl) (λ e. cc) (implicit_fn ∷ [])
