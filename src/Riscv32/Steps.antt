-- ===== src/Riscv32/Steps.antt =====
-- Single instructions of the buffer's writers, on the hart.
use sasc.Prelude.{ℕ, subst, ◌+◌, ◌%◌, ◌≡◌, ◌≢◌, refl, ◌∙◌, arith}
use sasc.Prelude.Words.{two32}
use sasc.Riscv32.Register.{Register, reg_number}
use sasc.Riscv32.Code.{CodeBuffer, write_lui, write_auipc}
use sasc.Riscv32.Decode.{imm12}
use sasc.Riscv32.Decode.Writers.{
  write_r_type, r_type_writers, write_i_type, i_type_writers, imm_operand, write_load, load_writers,
  write_store, store_writers,
}
use sasc.Riscv32.Decode.Jumps.{control_writers, imm_upper}
use sasc.Riscv32.Isa.{ROp, IOp, Load, Store}
use sasc.Riscv32.Isa.Exec.{Hart, exec, exec_op, exec_imm, exec_load, exec_store, write_reg}
use sasc.Riscv32.Isa.Run.{Executes, Executes-one, Sets}

-- The hart one instruction on, with a register written.
abbrev pub set_reg : Hart → ℕ → ℕ → Hart
set_reg h r v = record h { pc = (h.pc + 4) % two32; regs = write_reg h.regs r v }

module _ (h : Hart) (r : ℕ) (nz : r ≢ 0) where
  pub set_reg-read : (v : ℕ) → (set_reg h r v).regs r ≡ v
  set_reg-read v = ground arith

  pub set_reg-other : (v j : ℕ) → j ≢ r → (set_reg h r v).regs j ≡ h.regs j
  set_reg-other v j ne = ground arith

pub set_reg-Sets : (h : Hart) (r v : ℕ) → r ≢ 0 → Sets h (set_reg h r v) r v
set_reg-Sets h r v nz = record {
  value = set_reg-read h r nz v;
  others = set_reg-other h r nz v;
  memory = refl;
}

pub Sets-again :
    {h h1 : Hart} {r v : ℕ} (w : ℕ) → r ≢ 0 → Sets h h1 r v → Sets h (set_reg h1 r w) r w
Sets-again {h} {h1} {r} w nz s = record {
  value = set_reg-read h1 r nz w;
  others = λ j ne. set_reg-other h1 r nz w j ne ∙ s.others j ne;
  memory = s.memory;
}

module _ (c : CodeBuffer) (d a b : Register) (imm : ℕ) (h : Hart) where
  pub step_op :
      (o : ROp)
      → Executes c
          (write_r_type o c d a b).0
          h
          (set_reg h (reg_number d) (exec_op o (h.regs (reg_number a)) (h.regs (reg_number b))))
  step_op o = Executes-one _ (r_type_writers c d a b o) (unfold exec in refl)

  pub step_imm :
      (o : IOp)
      → Executes c
          (write_i_type o c d a imm).0
          h
          (set_reg h (reg_number d) (exec_imm o (h.regs (reg_number a)) (imm_operand o imm)))
  step_imm o = Executes-one _ (i_type_writers c d a imm o) (unfold exec in refl)

  pub step_lui : Executes c (write_lui c d imm).0 h (set_reg h (reg_number d) (imm_upper imm))
  step_lui = Executes-one _ (control_writers c d a imm).2 (unfold exec in refl)

  pub step_auipc :
      Executes c
        (write_auipc c d imm).0
        h
        (set_reg h (reg_number d) ((h.pc + imm_upper imm) % two32))
  step_auipc = Executes-one _ (control_writers c d a imm).3 (unfold exec in refl)

  pub step_load :
      (o : Load)
      → Executes c (write_load o c d a imm).0 h (
          set_reg h
            (reg_number d)
            (exec_load o h.mem ((h.regs (reg_number a) + imm12 imm) % two32)))
  step_load o = Executes-one _ (load_writers c d a imm o) (unfold exec in refl)

  pub step_store :
      (o : Store)
      → Executes c (write_store o c a b imm).0 h (record h {
        pc = (h.pc + 4) % two32;
        mem =
            exec_store o h.mem
              ((h.regs (reg_number a) + imm12 imm) % two32)
              (h.regs (reg_number b));
      })
  step_store o = Executes-one _ (store_writers c a b imm o) (unfold exec in refl)

-- The same, with the value written given by an equation.
pub Executes-value :
    {c c' : CodeBuffer} (h : Hart) (r v w : ℕ)
    → Executes c c' h (set_reg h r v)
    → v ≡ w
    → Executes c c' h (set_reg h r w)
Executes-value {c} {c'} h r v w x e = subst (λ u. Executes c c' h (set_reg h r u)) e x
