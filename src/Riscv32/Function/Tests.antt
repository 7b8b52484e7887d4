-- ===== src/Riscv32/Function/Tests.antt =====
-- A call's frame at concrete registers.
use sasc.Prelude.{◌-◌, ◌*◌, ◌≡◌, refl, arith}
use sasc.Riscv32.Code.{empty_buffer}
use sasc.Riscv32.Isa.Exec.{Hart, word_at}
use sasc.Riscv32.Isa.Run.{Executes}
use sasc.Riscv32.Function.{build_prologue, build_epilogue}
use sasc.Riscv32.Function.Enter.{build_prologue-saves}
use sasc.Riscv32.Function.Return.{build_epilogue-restores}

-- Register n holds 1000 n, and every byte of the memory is 2.
abbrev hart : Hart
hart = record { pc = 0x10000; regs = λ n. 1000 * n; mem = λ a. 2 }

build_prologue-saves_example :
    (h' : Hart) × Executes empty_buffer (build_prologue 16) hart h'
    × (h'.regs 2 ≡ hart.regs 2 - 16)
    × (h'.regs 8 ≡ hart.regs 2)
    × (h'.regs 1 ≡ hart.regs 1)
    × (word_at h'.mem (hart.regs 2 - 4) ≡ hart.regs 1)
    × (word_at h'.mem (hart.regs 2 - 8) ≡ hart.regs 8)
build_prologue-saves_example =
    build_prologue-saves hart 16 (omega arith) (omega arith) (omega arith) (omega arith)
      (omega arith) (omega arith)

build_epilogue-restores_example :
    (h' : Hart) × Executes empty_buffer build_epilogue hart h'
    × (h'.pc ≡ 0x02020202)
    × (h'.regs 1 ≡ 0x02020202)
    × (h'.regs 2 ≡ 8000)
    × (h'.regs 8 ≡ 0x02020202)
    × (h'.mem ≡ hart.mem)
build_epilogue-restores_example =
    build_epilogue-restores hart 8000 0x02020202 0x02020202 refl (omega arith) (omega arith) refl
      refl (omega arith) refl
