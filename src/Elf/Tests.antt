-- ===== src/Elf/Tests.antt =====
-- The ELF writer and the loader at concrete inputs.
use sasc.Prelude.{◌≡◌, refl, arith, some, [], ◌∷◌, length}
use sasc.Riscv32.Function.{Object}
use sasc.Elf.{Target, rv32g, ilp32d, linux, elf32, supported_targets, emit}
use sasc.Elf.Load.{load, load-emit}

abbrev riscv : Target
riscv = record { isa = rv32g; abi = ilp32d; os = linux; format = elf32 }

supported : supported_targets "linux-riscv32g" ≡ some riscv
unfolding supported_targets
supported = refl

-- `ecall`.
abbrev object : Object
object = record { functions = []; code = 0x73 ∷ 0 ∷ 0 ∷ 0 ∷ [] }

file_size : length (emit object riscv) ≡ 0x1004
unfolding emit
file_size = refl

load-emit_example :
    load (emit object riscv)
    ≡ (0x7f ∷ 0x45 ∷ 0x4c ∷ 0x46 ∷ 1 ∷ 1 ∷ 1 ∷ [], 0x10000, (0x10000, 0x73 ∷ 0 ∷ 0 ∷ 0 ∷ []) ∷ [])
load-emit_example = load-emit object riscv (omega arith)
