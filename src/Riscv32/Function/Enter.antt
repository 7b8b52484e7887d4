-- ===== src/Riscv32/Function/Enter.antt =====
-- The prologue that `lower_function` of CodeGenerator_riscv32.cpp makes, on the hart.
use sasc.Prelude.{ℕ, ◌+◌, ◌-◌, ◌%◌, ◌^◌, ◌≤◌, ◌<◌, ◌≡◌, refl, ◌∙◌, arith}
use sasc.Prelude.Words.{two32}
use sasc.Riscv32.Register.{ra, sp, fp, reg_number}
use sasc.Riscv32.Code.{empty_buffer, write_addi, write_sw}
use sasc.Riscv32.Decode.{imm12}
use sasc.Riscv32.Isa.{IOp, Store}
use sasc.Riscv32.Isa.Exec.{Hart, exec_imm, exec_store, word_at, store_word}
use sasc.Riscv32.Isa.Memory.{word_at-store_word, word_at-store_word_below}
use sasc.Riscv32.Isa.Run.{Executes, Executes-trans}
use sasc.Riscv32.Steps.{set_reg, step_imm, step_store}
use sasc.Riscv32.Decode.Writers.{write_i_type, write_store}
use sasc.Riscv32.Function.{build_prologue, negated}

abbrev stored : Hart → ℕ → ℕ → Hart
stored h imm r = record h {
  pc = (h.pc + 4) % two32;
  mem = store_word h.mem ((h.regs 2 + imm12 imm) % two32) (h.regs r);
}

abbrev entered : Hart → ℕ → Hart
entered h p =
    let h1 = set_reg h 2 ((h.regs 2 + imm12 (negated p)) % two32) in
    let h3 = stored (stored h1 (p - 4) 1) (p - 8) 8 in set_reg h3 8 ((h3.regs 2 + imm12 p) % two32)

build_prologue-entered :
    (h : Hart) (p : ℕ) → Executes empty_buffer (build_prologue p) h (entered h p)
unfolding build_prologue reg_number exec_imm exec_store write_i_type write_store
build_prologue-entered h p =
    let h1 = set_reg h 2 ((h.regs 2 + imm12 (negated p)) % two32) in
    let h2 = stored h1 (p - 4) 1 in
    let h3 = stored h2 (p - 8) 8 in
    let c1 = (write_addi empty_buffer sp sp (negated p)).0 in
    let c2 = (write_sw c1 sp ra (p - 4)).0 in
    let c3 = (write_sw c2 sp fp (p - 8)).0 in
    Executes-trans (step_imm empty_buffer sp sp sp (negated p) h IOp.addi) (
      Executes-trans (step_store c1 sp sp ra (p - 4) h1 Store.sw) (
        Executes-trans (step_store c2 sp sp fp (p - 8) h2 Store.sw)
          (step_imm c3 fp sp sp p h3 IOp.addi)))

-- Where the registers hold 32-bit words: with a frame of 16 to 2047 bytes that fits below the stack
-- pointer, the prologue lowers the stack pointer by the frame, leaves its old value in the frame
-- pointer, and saves the return address and the caller's frame pointer in the two words below the
-- old stack pointer.
pub build_prologue-saves :
    (h : Hart) (p : ℕ)
    → 16 ≤ p
    → p < 2048
    → p ≤ h.regs 2
    → h.regs 2 < 2 ^ 32
    → h.regs 1 < 2 ^ 32
    → h.regs 8 < 2 ^ 32
    → (h' : Hart) × Executes empty_buffer (build_prologue p) h h'
      × (h'.regs 2 ≡ h.regs 2 - p)
      × (h'.regs 8 ≡ h.regs 2)
      × (h'.regs 1 ≡ h.regs 1)
      × (word_at h'.mem (h.regs 2 - 4) ≡ h.regs 1)
      × (word_at h'.mem (h.regs 2 - 8) ≡ h.regs 8)
build_prologue-saves h p ge lt fits word_sp word_ra word_fp =
    let s = h.regs 2 in
    let a1 : (s + imm12 (negated p)) % two32 ≡ s - p = ground arith in
    let a2 : (s - p + imm12 (p - 4)) % two32 ≡ s - 4 = ground arith in
    let a3 : (s - p + imm12 (p - 8)) % two32 ≡ s - 8 = ground arith in
    let a4 : (s - p + imm12 p) % two32 ≡ s = ground arith in
    let up : s - 4 ≡ s - 8 + 4 = omega arith in
    (
      entered h p,
      build_prologue-entered h p,
      a1,
      rw (a1, a4) refl,
      refl,
      rw (a1, a2, a3)
          (rw (up) (
            word_at-store_word_below (store_word h.mem (s - 8 + 4) (h.regs 1)) (s - 8) (h.regs 8)
              (omega arith)
            ∙ word_at-store_word h.mem (s - 8 + 4) (h.regs 1) (omega arith) word_ra)),
      rw (a1, a2, a3)
          (word_at-store_word (store_word h.mem (s - 4) (h.regs 1)) (s - 8) (h.regs 8) (omega arith)
            word_fp),
    )
