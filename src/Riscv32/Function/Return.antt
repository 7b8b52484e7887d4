-- ===== src/Riscv32/Function/Return.antt =====
-- The epilogue that `lower_function` of CodeGenerator_riscv32.cpp makes, on the hart.
use sasc.Prelude.{ℕ, ◌+◌, ◌-◌, ◌*◌, ◌/◌, ◌%◌, ◌^◌, ◌≤◌, ◌<◌, ◌≡◌, refl, arith}
use sasc.Prelude.Words.{two32}
use sasc.Riscv32.Register.{x_zero, ra, sp, fp, reg_number}
use sasc.Riscv32.Code.{empty_buffer, write_addi, write_lw}
use sasc.Riscv32.Decode.{imm12}
use sasc.Riscv32.Decode.Jumps.{control_writers}
use sasc.Riscv32.Isa.{IOp, Load}
use sasc.Riscv32.Isa.Exec.{Hart, exec, exec_imm, exec_load, word_at}
use sasc.Riscv32.Isa.Run.{Executes, Executes-one, Executes-trans}
use sasc.Riscv32.Steps.{set_reg, step_imm, step_load}
use sasc.Riscv32.Decode.Writers.{write_i_type, write_load}
use sasc.Riscv32.Function.{build_epilogue, negated}

abbrev returned : Hart → Hart
returned h =
    let h1 = set_reg h 2 ((h.regs 8 + imm12 0) % two32) in
    let h2 = set_reg h1 8 (word_at h1.mem ((h1.regs 2 + imm12 (negated 8)) % two32)) in
    let h3 = set_reg h2 1 (word_at h2.mem ((h2.regs 2 + imm12 (negated 4)) % two32)) in
    record h3 { pc = (h3.regs 1 + imm12 0) % two32 / 2 * 2 }

build_epilogue-returned : (h : Hart) → Executes empty_buffer build_epilogue h (returned h)
unfolding build_epilogue reg_number exec_imm exec_load write_i_type write_load
build_epilogue-returned h =
    let h1 = set_reg h 2 ((h.regs 8 + imm12 0) % two32) in
    let h2 = set_reg h1 8 (word_at h1.mem ((h1.regs 2 + imm12 (negated 8)) % two32)) in
    let h3 = set_reg h2 1 (word_at h2.mem ((h2.regs 2 + imm12 (negated 4)) % two32)) in
    let c1 = (write_addi empty_buffer sp fp 0).0 in
    let c2 = (write_lw c1 fp sp (negated 8)).0 in
    let c3 = (write_lw c2 ra sp (negated 4)).0 in
    Executes-trans (step_imm empty_buffer sp fp fp 0 h IOp.addi) (
      Executes-trans (step_load c1 fp sp sp (negated 8) h1 Load.lw) (
        Executes-trans (step_load c2 ra sp sp (negated 4) h2 Load.lw)
          (Executes-one _ (control_writers c3 x_zero ra 0).1 (unfold exec in refl))))

-- Where the registers hold 32-bit words, the frame pointer is what the stack pointer was at the
-- call, which is at least 8, and the words below it hold the caller's frame pointer and an even
-- return address, the epilogue restores the three registers, continues at the return address, and
-- leaves the memory.
pub build_epilogue-restores :
    (h : Hart) (old_sp old_fp old_ra : ℕ)
    → h.regs 8 ≡ old_sp
    → 8 ≤ old_sp
    → old_sp < 2 ^ 32
    → word_at h.mem (old_sp - 8) ≡ old_fp
    → word_at h.mem (old_sp - 4) ≡ old_ra
    → old_ra < 2 ^ 32
    → old_ra % 2 ≡ 0
    → (h' : Hart) × Executes empty_buffer build_epilogue h h'
      × (h'.pc ≡ old_ra)
      × (h'.regs 1 ≡ old_ra)
      × (h'.regs 2 ≡ old_sp)
      × (h'.regs 8 ≡ old_fp)
      × (h'.mem ≡ h.mem)
build_epilogue-restores h old_sp old_fp old_ra f ge lt sfp sra ralt even =
    let a1 : (h.regs 8 + imm12 0) % two32 ≡ old_sp = omega arith in
    let a2 : (old_sp + imm12 (negated 8)) % two32 ≡ old_sp - 8 = omega arith in
    let a3 : (old_sp + imm12 (negated 4)) % two32 ≡ old_sp - 4 = omega arith in
    (
      returned h,
      build_epilogue-returned h,
      rw (a1, a3, sra) (omega arith),
      rw (a1, a3) sra,
      a1,
      rw (a1, a2) sfp,
      refl,
    )
