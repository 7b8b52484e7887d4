-- ===== src/Riscv32/Isa/Exec.antt =====
-- One step of a hart: what each instruction does to the registers, the memory and the program
-- counter.
use sasc.Prelude.{
  ℕ, ◌+◌, ◌-◌, ◌*◌, ◌/◌, ◌%◌, ◌^◌, false, Option, none, some, ltb, ◌==◌, if◌then◌else◌, bit_and,
  bit_or, bit_xor,
}
use sasc.Prelude.Words.{
  two32, bool_word, is_neg, magnitude, lt_signed, shift_right_arith, with_sign, sext,
}
use sasc.Riscv32.Isa.{ROp, IOp, Load, Store, Instr}

unfoldable pub exec_op : ROp → ℕ → ℕ → ℕ
exec_op ROp.add a b = (a + b) % two32
exec_op ROp.sub a b = (a + two32 - b) % two32
exec_op ROp.xor a b = bit_xor a b
exec_op ROp.or a b = bit_or a b
exec_op ROp.and a b = bit_and a b
exec_op ROp.sll a b = a * 2 ^ (b % 32) % two32
exec_op ROp.srl a b = a / 2 ^ (b % 32)
exec_op ROp.sra a b = shift_right_arith a (b % 32)
exec_op ROp.slt a b = bool_word (lt_signed a b)
exec_op ROp.sltu a b = bool_word (ltb a b)
exec_op ROp.mul a b = a * b % two32
exec_op ROp.mulh a b = with_sign (2 ^ 64) (is_neg a) (is_neg b) (magnitude a * magnitude b) / two32
exec_op ROp.mulhsu a b = with_sign (2 ^ 64) (is_neg a) false (magnitude a * b) / two32
exec_op ROp.mulhu a b = a * b / two32
exec_op ROp.div a b =
    if b == 0 then two32 - 1 else with_sign two32 (is_neg a) (is_neg b) (magnitude a / magnitude b)
exec_op ROp.divu a b = if b == 0 then two32 - 1 else a / b
exec_op ROp.rem a b =
    if b == 0 then a else with_sign two32 (is_neg a) false (magnitude a % magnitude b)
exec_op ROp.remu a b = if b == 0 then a else a % b

unfoldable pub exec_imm : IOp → ℕ → ℕ → ℕ
exec_imm IOp.addi a i = (a + i) % two32
exec_imm IOp.slti a i = bool_word (lt_signed a i)
exec_imm IOp.sltiu a i = bool_word (ltb a i)
exec_imm IOp.xori a i = bit_xor a i
exec_imm IOp.ori a i = bit_or a i
exec_imm IOp.andi a i = bit_and a i
exec_imm IOp.slli a i = a * 2 ^ i % two32
exec_imm IOp.srli a i = a / 2 ^ i
exec_imm IOp.srai a i = shift_right_arith a i

-- Registers and memory bytes by number; x0 is never written.
pub record Hart : Type 0 where
  pub pc : ℕ
  pub regs : ℕ → ℕ
  pub mem : ℕ → ℕ

abbrev pub update : (ℕ → ℕ) → ℕ → ℕ → ℕ → ℕ
update f i v j = if i == j then v else f j

abbrev pub write_reg : (ℕ → ℕ) → ℕ → ℕ → ℕ → ℕ
write_reg regs rd v = if rd == 0 then regs else update regs rd v

abbrev pub byte_at : (ℕ → ℕ) → ℕ → ℕ → ℕ
byte_at mem a i = mem ((a + i) % two32)

abbrev pub half_at : (ℕ → ℕ) → ℕ → ℕ
half_at mem a = byte_at mem a 0 + byte_at mem a 1 * 2 ^ 8

abbrev pub word_at : (ℕ → ℕ) → ℕ → ℕ
word_at mem a = half_at mem a + byte_at mem a 2 * 2 ^ 16 + byte_at mem a 3 * 2 ^ 24

abbrev pub store_byte : (ℕ → ℕ) → ℕ → ℕ → ℕ → ℕ
store_byte mem a v = update mem (a % two32) (v % 2 ^ 8)

abbrev pub store_half : (ℕ → ℕ) → ℕ → ℕ → ℕ → ℕ
store_half mem a v = store_byte (store_byte mem a v) (a + 1) (v / 2 ^ 8)

abbrev pub store_word : (ℕ → ℕ) → ℕ → ℕ → ℕ → ℕ
store_word mem a v = store_half (store_half mem a v) (a + 2) (v / 2 ^ 16)

unfoldable pub exec_load : Load → (ℕ → ℕ) → ℕ → ℕ
exec_load Load.lb mem a = sext (2 ^ 7) (byte_at mem a 0)
exec_load Load.lh mem a = sext (2 ^ 15) (half_at mem a)
exec_load Load.lw mem a = word_at mem a
exec_load Load.lbu mem a = byte_at mem a 0
exec_load Load.lhu mem a = half_at mem a

unfoldable pub exec_store : Store → (ℕ → ℕ) → ℕ → ℕ → ℕ → ℕ
exec_store Store.sb = store_byte
exec_store Store.sh = store_half
exec_store Store.sw = store_word

-- `ecall` and `ebreak` leave the program: they have no next state here.
unfoldable pub exec : Instr → Hart → Option Hart
unfolding exec_op exec_imm exec_load exec_store
exec (Instr.op o rd rs1 rs2) h = some (record h {
  pc = (h.pc + 4) % two32;
  regs = write_reg h.regs rd (exec_op o (h.regs rs1) (h.regs rs2));
})
exec (Instr.op_imm o rd rs1 i) h =
    some
      (record h { pc = (h.pc + 4) % two32; regs = write_reg h.regs rd (exec_imm o (h.regs rs1) i) })
exec (Instr.load o rd rs1 i) h = some (record h {
  pc = (h.pc + 4) % two32;
  regs = write_reg h.regs rd (exec_load o h.mem ((h.regs rs1 + i) % two32));
})
exec (Instr.store o rs1 rs2 i) h = some (record h {
  pc = (h.pc + 4) % two32;
  mem = exec_store o h.mem ((h.regs rs1 + i) % two32) (h.regs rs2);
})
exec (Instr.jal rd off) h =
    some (record h { pc = (h.pc + off) % two32; regs = write_reg h.regs rd ((h.pc + 4) % two32) })
exec (Instr.jalr rd rs1 i) h = some (record h {
  pc = (h.regs rs1 + i) % two32 / 2 * 2;
  regs = write_reg h.regs rd ((h.pc + 4) % two32);
})
exec (Instr.lui rd i) h = some (record h { pc = (h.pc + 4) % two32; regs = write_reg h.regs rd i })
exec (Instr.auipc rd i) h =
    some (record h { pc = (h.pc + 4) % two32; regs = write_reg h.regs rd ((h.pc + i) % two32) })
exec Instr.ecall h = none
exec Instr.ebreak h = none
