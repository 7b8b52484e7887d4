-- ===== src/Riscv32/Truncate.antt =====
-- `truncate_reg` of CodeGenerator_riscv32.cpp on the hart.
use sasc.Prelude.{ℕ, ◌*◌, ◌/◌, ◌%◌, ◌^◌, ◌<◌, ◌≡◌, ◌≢◌, arith, if◌then◌else◌}
use sasc.Ir.IrType.{IrType, bool, u8, u16, u32, i8, i16, i32, is_signed}
use sasc.Prelude.Words.{shift_right_arith, two32}
use sasc.Ir.Value.{canonical}
use sasc.Riscv32.Register.{Register, reg_number}
use sasc.Riscv32.Code.{CodeBuffer}
use sasc.Riscv32.Decode.Writers.{write_i_type, imm_operand}
use sasc.Riscv32.Isa.{IOp}
use sasc.Riscv32.Isa.Exec.{Hart, exec_imm}
use sasc.Riscv32.Isa.Run.{Executes, Executes-trans, Sets}
use sasc.Riscv32.Steps.{set_reg, set_reg-read, set_reg-Sets, Sets-again, step_imm, Executes-value}
use sasc.Riscv32.Alloc.{truncate_shift, write_truncate}

-- Left and then right by the amount that the shift instructions take from `truncate_shift`.
abbrev shifted : IrType → ℕ → ℕ
shifted t x =
    let s = truncate_shift t % 32 in
    if is_signed t then shift_right_arith (x * 2 ^ s % two32) s else x * 2 ^ s % two32 / 2 ^ s

shifted-canonical : (t : IrType) (x : ℕ) → x < 2 ^ 32 → shifted t x ≡ canonical t x
unfolding truncate_shift is_signed
shifted-canonical bool x h = omega arith
shifted-canonical u8 x h = omega arith
shifted-canonical u16 x h = omega arith
shifted-canonical u32 x h = omega arith
shifted-canonical i8 x h = ground arith
shifted-canonical i16 x h = ground arith
shifted-canonical i32 x h = ground arith

module _ (c : CodeBuffer) (r : Register) (h : Hart) (nz : reg_number r ≢ 0) where
  -- A left shift of a register and another shift of it.
  shift_pair :
      (o : IOp) (s v : ℕ)
      → exec_imm o (exec_imm IOp.slli (h.regs (reg_number r)) (s % 32)) (imm_operand o s) ≡ v
      → (h' : Hart) × Executes c (write_i_type o (write_i_type IOp.slli c r r s).0 r r s).0 h h'
        × Sets h h' (reg_number r) v
  shift_pair o s v e =
      let n = reg_number r in
      let x = exec_imm IOp.slli (h.regs n) (s % 32) in
      let h1 = set_reg h n x in
      let read : h1.regs n ≡ x = set_reg-read h n nz x in
      let y : exec_imm o (h1.regs n) (imm_operand o s) ≡ v = rw read e in
      (
        set_reg h1 n v,
        Executes-trans (step_imm c r r r s h IOp.slli)
            (Executes-value h1 n _ v (step_imm (write_i_type IOp.slli c r r s).0 r r r s h1 o) y),
        Sets-again v nz (set_reg-Sets h n x nz),
      )

  -- For a register other than x0: the code that `truncate_reg` appends for the type `t` puts the
  -- canonical form of its low bits into the register, whatever word stood there, and changes no
  -- other register and no memory.
  pub write_truncate-canonical :
      (t : IrType)
      → h.regs (reg_number r) < 2 ^ 32
      → (h' : Hart) × Executes c (write_truncate t r (truncate_shift t) c) h h'
        × Sets h h' (reg_number r) (canonical t (h.regs (reg_number r)))
  unfolding write_truncate write_i_type exec_imm truncate_shift is_signed
  write_truncate-canonical bool word = shift_pair IOp.srli 24 _ (shifted-canonical bool _ word)
  write_truncate-canonical u8 word = shift_pair IOp.srli 24 _ (shifted-canonical u8 _ word)
  write_truncate-canonical u16 word = shift_pair IOp.srli 48 _ (shifted-canonical u16 _ word)
  write_truncate-canonical u32 word = shift_pair IOp.srli 96 _ (shifted-canonical u32 _ word)
  write_truncate-canonical i8 word = shift_pair IOp.srai 24 _ (shifted-canonical i8 _ word)
  write_truncate-canonical i16 word = shift_pair IOp.srai 48 _ (shifted-canonical i16 _ word)
  write_truncate-canonical i32 word = shift_pair IOp.srai 96 _ (shifted-canonical i32 _ word)
