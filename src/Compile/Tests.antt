-- ===== src/Compile/Tests.antt =====
-- Runs of the whole compiler.
use sasc.Prelude.{ℕ, ◌<◌, ◌^◌, ◌≡◌, ◌≢◌, refl, arith, List, [], ◌∷◌, length}
use sasc.Error.{ok}
use sasc.Frontend.Outcome.{Outcome, out_of_fuel, returns, ◌>>=◌}
use sasc.Frontend.Token.{chars}
use sasc.Frontend.Lexer.Reads.{WholeLines}
use sasc.Frontend.FrontendType
use sasc.Elf.{Target, rv32g, ilp32d, linux, elf32}
use sasc.Elf.Load.{load}
use sasc.Frontend.Parser.{build_source}
use sasc.Frontend.EmitIr.{op_code, emit_object}
use sasc.Ir.Writer.{edit_block, new_vreg, add_instr}
use sasc.Riscv32.Alloc.{find_slot, home_of}
use sasc.Riscv32.Code.{write_srai, write_slli}
use sasc.Frontend.Ast.{FunctionDefinition}
use sasc.Ir.Defs.{Function}
use sasc.Riscv32.Function.{Object, lower_ir, link}
use sasc.Compile.{is_linux, compile}
use sasc.Compile.Loads.{compile-terminates, compile-loads}
use Prim.Native.Char.{Char}

abbrev riscv : Target
riscv = record { isa = rv32g; abi = ilp32d; os = linux; format = elf32 }

abbrev main_source : List Char
main_source = chars "fn main() -> i32 { return 7i32; }\n"

main_source-WholeLines : WholeLines main_source
main_source-WholeLines = omega arith

main_size : (compile main_source riscv >>= λ file. returns (length file)) ≡ returns 4192
unfolding compile FrontendType.resolve_type edit_block op_code new_vreg add_instr find_slot home_of
    write_srai write_slli
main_size = refl

compile-terminates_example : compile main_source riscv ≢ out_of_fuel
compile-terminates_example = compile-terminates main_source riscv main_source-WholeLines

abbrev written : Outcome (List ℕ) → List ℕ
written (returns file) = file
written _ = []

main_compiled : compile main_source riscv ≡ returns (written (compile main_source riscv))
unfolding compile FrontendType.resolve_type edit_block op_code new_vreg add_instr find_slot home_of
    write_srai write_slli
main_compiled = refl

main_small : length (written (compile main_source riscv)) < 2 ^ 32
unfolding compile FrontendType.resolve_type edit_block op_code new_vreg add_instr find_slot home_of
    write_srai write_slli
main_small = omega arith

compile-loads_example :
    (ast : List FunctionDefinition) × (ir : List Function) × (obj : Object) × (linked : Object)
    × (build_source main_source ≡ returns ast)
    × (emit_object ast ≡ ok ir)
    × (lower_ir ir ≡ ok obj)
    × (link (is_linux riscv) obj ≡ ok linked)
    × (load (written (compile main_source riscv))
        ≡ (0x7f ∷ 0x45 ∷ 0x4c ∷ 0x46 ∷ 1 ∷ 1 ∷ 1 ∷ [], 0x10000, (0x10000, linked.code) ∷ []))
compile-loads_example =
    compile-loads main_source riscv (written (compile main_source riscv)) main_source-WholeLines
      main_compiled main_small
