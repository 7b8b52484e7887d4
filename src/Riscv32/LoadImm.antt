-- ===== src/Riscv32/LoadImm.antt =====
-- The code for `LoadImm` in `lower_function` of CodeGenerator_riscv32.cpp, on the hart.
use sasc.Prelude.{
  ℕ, ◌+◌, ◌*◌, ◌/◌, ◌%◌, ◌^◌, ◌<◌, ◌≡◌, ◌≢◌, arith, bit_and, ltb, Bool-cases, inl, inr,
}
use sasc.Prelude.Bits.{bit_and-ones_above}
use sasc.Prelude.Words.{two32}
use sasc.Riscv32.Register.{Register, x_zero, reg_number}
use sasc.Riscv32.Code.{CodeBuffer, write_addi, write_lui}
use sasc.Riscv32.Decode.{imm12}
use sasc.Riscv32.Decode.Jumps.{imm_upper}
use sasc.Riscv32.Decode.Writers.{write_i_type}
use sasc.Riscv32.Isa.{IOp}
use sasc.Riscv32.Isa.Exec.{Hart, exec_imm}
use sasc.Riscv32.Isa.Run.{Executes, Executes-trans, Sets}
use sasc.Riscv32.Steps.{
  set_reg, set_reg-read, set_reg-Sets, Sets-again, step_imm, step_lui, Executes-value,
}
use sasc.Riscv32.Lower.{cancel_sign, write_load_imm}

-- Bit 11 as arithmetic.
bit_eleven : (x : ℕ) → bit_and x 2048 ≡ x / 2048 % 2 * 2048
bit_eleven x = bit_and-ones_above 11 1 x

-- What `lui` leaves for `addi` to add is the word itself.
upper_plus_lower :
    (x : ℕ) → x < 2 ^ 32 → (imm_upper (cancel_sign x) + imm12 (cancel_sign x)) % two32 ≡ x
unfolding cancel_sign
upper_plus_lower x h = ground (arith, bit_eleven x)

-- Without the `lui`, the sign extension of the low 12 bits is the word.
lower_alone : (x : ℕ) → x < 2 ^ 32 → cancel_sign x < 4096 → imm12 (cancel_sign x) ≡ x
unfolding cancel_sign
lower_alone x h small = ground (arith, bit_eleven x)

module _ (c : CodeBuffer) (r : Register) (h : Hart) (nz : reg_number r ≢ 0) where
  -- `lui` and `addi` of one immediate.
  wide_pair :
      (imm v : ℕ)
      → (imm_upper imm + imm12 imm) % two32 ≡ v
      → (h' : Hart) × Executes c (write_addi (write_lui c r imm).0 r r imm).0 h h'
        × Sets h h' (reg_number r) v
  unfolding exec_imm write_i_type
  wide_pair imm v e =
      let n = reg_number r in
      let h1 = set_reg h n (imm_upper imm) in
      let read : h1.regs n ≡ imm_upper imm = set_reg-read h n nz (imm_upper imm) in
      let y : (h1.regs n + imm12 imm) % two32 ≡ v = rw read e in
      (
        set_reg h1 n v,
        Executes-trans (step_lui c r r r imm h)
            (Executes-value h1 n _ v (step_imm (write_lui c r imm).0 r r r imm h1 IOp.addi) y),
        Sets-again v nz (set_reg-Sets h n (imm_upper imm) nz),
      )

  single_addi :
      (imm v : ℕ)
      → (h.regs 0 + imm12 imm) % two32 ≡ v
      → (h' : Hart) × Executes c (write_addi c r x_zero imm).0 h h' × Sets h h' (reg_number r) v
  unfolding exec_imm write_i_type reg_number
  single_addi imm v e = (
    set_reg h (reg_number r) v,
    Executes-value h (reg_number r) _ v (step_imm c r x_zero x_zero imm h IOp.addi) e,
    set_reg-Sets h (reg_number r) v nz,
  )

  -- Into a register other than x0, where x0 reads 0: the code for a `LoadImm` puts the low 32 bits
  -- of the constant into the register, for every constant, and changes no other register and no
  -- memory.
  pub write_load_imm-value :
      (value : ℕ)
      → h.regs 0 ≡ 0
      → (h' : Hart) × Executes c (write_load_imm r value c) h h'
        × Sets h h' (reg_number r) (value % 2 ^ 32)
  unfolding write_load_imm
  write_load_imm-value value zero_reg =
      let x = value % 2 ^ 32 in
      let fits : x < 2 ^ 32 = omega arith in
      elim (Bool-cases (ltb 4095 (cancel_sign x))) [
        | inl wide ↦ rw wide (wide_pair (cancel_sign x) x (upper_plus_lower x fits))
        | inr narrow ↦ rw narrow (
            single_addi (cancel_sign x) x
              (rw (zero_reg, lower_alone x fits (ground arith)) (omega arith)))
      ]
