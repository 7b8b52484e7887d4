-- ===== src/Riscv32/Runtime.antt =====
-- The call of `main` in the start-up code that `build_runtime_code` of CodeGenerator_riscv32.cpp
-- makes.
use sasc.Prelude.{ℕ, ◌+◌, ◌-◌, ◌*◌, ◌/◌, ◌%◌, ◌^◌, ◌<◌, ◌≡◌, ◌≢◌, refl, arith}
use sasc.Prelude.Words.{two32}
use sasc.Riscv32.Register.{ra, reg_number}
use sasc.Riscv32.Code.{empty_buffer, write_auipc}
use sasc.Riscv32.Decode.{imm12}
use sasc.Riscv32.Decode.Jumps.{imm_upper, control_writers}
use sasc.Riscv32.Isa.Exec.{Hart, exec, write_reg}
use sasc.Riscv32.Isa.Run.{Executes, Executes-one, Executes-trans}
use sasc.Riscv32.Steps.{set_reg, step_auipc}
use sasc.Riscv32.Function.{shift_main_offset, call_main}

-- After `auipc` and `jalr` with one offset.
abbrev arrives : Hart → ℕ → Hart
arrives h s =
    let h1 = set_reg h 1 ((h.pc + imm_upper s) % two32) in
    record h1 {
      pc = (h1.regs 1 + imm12 s) % two32 / 2 * 2;
      regs = write_reg h1.regs 1 ((h1.pc + 4) % two32);
    }

call_main-arrives : (h : Hart) (s : ℕ) → Executes empty_buffer (call_main s) h (arrives h s)
unfolding call_main reg_number
call_main-arrives h s = Executes-trans (step_auipc empty_buffer ra ra ra s h) (
    Executes-one _ (control_writers (write_auipc empty_buffer ra s).0 ra ra s).1
      (unfold exec in refl))

module _ (h : Hart) (main_offset : ℕ) (fits : main_offset + 16 < 2 ^ 32)
    (aligned : (h.pc % 4 ≡ 0) × (main_offset % 4 ≡ 0)) where
  -- With an offset below 2 ^ 32 - 16, and the code and the offset at multiples of 4: where bit 11
  -- of the offset from the start-up code to `main` is clear, the call arrives at `main`, which
  -- stands behind the 16 bytes of the start-up code, and the return address is behind the call.
  pub call_main-reaches :
      (main_offset + 16) / 2048 % 2 ≡ 0
      → (h' : Hart) × Executes empty_buffer (call_main (shift_main_offset main_offset)) h h'
        × (h'.pc ≡ (h.pc + 16 + main_offset) % 2 ^ 32)
        × (h'.regs 1 ≡ (h.pc + 8) % 2 ^ 32)
  unfolding shift_main_offset
  call_main-reaches clear = (
    arrives h (shift_main_offset main_offset),
    call_main-arrives h (shift_main_offset main_offset),
    ground arith,
    ground arith,
  )

  -- Under the same conditions, where it is set, the call arrives 4096 bytes in front of `main`: the
  -- lower part is added with its sign and the upper part does not make up for it.
  pub call_main-misses :
      (main_offset + 16) / 2048 % 2 ≡ 1
      → (h' : Hart) × Executes empty_buffer (call_main (shift_main_offset main_offset)) h h'
        × (h'.pc ≡ (h.pc + 16 + main_offset + 2 ^ 32 - 4096) % 2 ^ 32)
        × (h'.pc ≢ (h.pc + 16 + main_offset) % 2 ^ 32)
  unfolding shift_main_offset
  call_main-misses set_bit =
      let h' = arrives h (shift_main_offset main_offset) in
      let e : h'.pc ≡ (h.pc + 16 + main_offset + 2 ^ 32 - 4096) % 2 ^ 32 = ground arith in
      (h', call_main-arrives h (shift_main_offset main_offset), e, rw e (omega arith))
