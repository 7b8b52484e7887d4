-- ===== src/Compile.antt =====
-- The pipeline of `compile` in compile.cpp, where an executable is the only artifact asked for: from the
-- text of the input file to the bytes of the output file. Opening and closing the two files is left out.
mod Tests
pub mod Loads
pub mod Settings
pub mod Order
pub mod Artifacts
pub mod Stages
use sasc.Prelude.{ℕ, Bool, true, List}
use sasc.Error.{Result, ok}
use sasc.Frontend.Outcome.{Outcome, returns, ◌>>=◌, lift}
use sasc.Frontend.EmitIr.{emit_object}
use sasc.Frontend.Parser.{build_source}
use sasc.Riscv32.Function.{Object, lower_ir, link}
use sasc.Elf.{Target, Os, linux, emit}
use Prim.Native.Char.{Char}

abbrev pub is_linux : Target → Bool
is_linux target = elim target.os [ linux ↦ true ]

unfoldable pub compile : List Char → Target → Outcome (List ℕ)
unfolding build_source emit_object lower_ir link emit
compile source target = do
  ast ← build_source source
  ir ← lift (emit_object ast)
  obj ← lift (lower_ir ir)
  linked ← lift (link (is_linux target) obj)
  returns (emit linked target)
