-- ===== src/Riscv32/Decode/Writers.antt =====
-- What the writers of arithmetic, loads and stores append decodes to the instruction that each is
-- named after.
use sasc.Prelude.{ℕ, ◌%◌, arith, bit_and}
use sasc.Prelude.Bits.{bit_and-ones, bit_or-add}
use sasc.Riscv32.Register.{Register, reg_number}
use sasc.Riscv32.Encode.{lower_bitmask}
use sasc.Riscv32.Code.{
  CodeBuffer, write_add, write_sub, write_xor, write_or, write_and, write_sll, write_srl, write_sra,
  write_slt, write_sltu, write_mul, write_mulh, write_mulhsu, write_mulhu, write_div, write_divu,
  write_rem, write_remu, write_addi, write_xori, write_ori, write_andi, write_slti, write_sltiu,
  write_slli, write_srli, write_srai, write_lb, write_lh, write_lw, write_lbu, write_lhu, write_sb,
  write_sh, write_sw,
}
use sasc.Riscv32.Isa.{Instr, ROp, IOp, Load, Store, decode_fields}
use sasc.Riscv32.Decode.{
  Appends, emplace-Appends, join_imm, imm12, decode-encode_r_type, decode-encode_i_type,
  decode-encode_i_type_split, decode-encode_s_type,
}

-- The writers by mnemonic.
unfoldable pub write_r_type : ROp → CodeBuffer → Register → Register → Register → CodeBuffer × ℕ
unfolding write_add write_sub write_xor write_or write_and write_sll write_srl write_sra write_slt
    write_sltu write_mul write_mulh write_mulhsu write_mulhu write_div write_divu write_rem
    write_remu
write_r_type ROp.add = write_add
write_r_type ROp.sub = write_sub
write_r_type ROp.xor = write_xor
write_r_type ROp.or = write_or
write_r_type ROp.and = write_and
write_r_type ROp.sll = write_sll
write_r_type ROp.srl = write_srl
write_r_type ROp.sra = write_sra
write_r_type ROp.slt = write_slt
write_r_type ROp.sltu = write_sltu
write_r_type ROp.mul = write_mul
write_r_type ROp.mulh = write_mulh
write_r_type ROp.mulhsu = write_mulhsu
write_r_type ROp.mulhu = write_mulhu
write_r_type ROp.div = write_div
write_r_type ROp.divu = write_divu
write_r_type ROp.rem = write_rem
write_r_type ROp.remu = write_remu

unfoldable pub write_i_type : IOp → CodeBuffer → Register → Register → ℕ → CodeBuffer × ℕ
unfolding write_addi write_xori write_ori write_andi write_slti write_sltiu write_slli write_srli
    write_srai
write_i_type IOp.addi = write_addi
write_i_type IOp.xori = write_xori
write_i_type IOp.ori = write_ori
write_i_type IOp.andi = write_andi
write_i_type IOp.slti = write_slti
write_i_type IOp.sltiu = write_sltiu
write_i_type IOp.slli = write_slli
write_i_type IOp.srli = write_srli
write_i_type IOp.srai = write_srai

unfoldable pub write_load : Load → CodeBuffer → Register → Register → ℕ → CodeBuffer × ℕ
unfolding write_lb write_lh write_lw write_lbu write_lhu
write_load Load.lb = write_lb
write_load Load.lh = write_lh
write_load Load.lw = write_lw
write_load Load.lbu = write_lbu
write_load Load.lhu = write_lhu

unfoldable pub write_store : Store → CodeBuffer → Register → Register → ℕ → CodeBuffer × ℕ
unfolding write_sb write_sh write_sw
write_store Store.sb = write_sb
write_store Store.sh = write_sh
write_store Store.sw = write_sw

-- What the hart takes a writer's immediate for: five bits for a shift, else twelve bits with a sign.
abbrev pub imm_operand : IOp → ℕ → ℕ
imm_operand IOp.slli imm = imm % 32
imm_operand IOp.srli imm = imm % 32
imm_operand IOp.srai imm = imm % 32
imm_operand _ imm = imm12 imm

-- Each writer of a register-register instruction appends the instruction that it is named after, on
-- the registers given, and returns its position.
pub r_type_writers :
    (c : CodeBuffer) (d a b : Register)
    → (o : ROp)
    → Appends (write_r_type o c d a b) c (Instr.op o (reg_number d) (reg_number a) (reg_number b))
unfolding write_r_type decode_fields
r_type_writers c d a b ROp.add =
    emplace-Appends c _ _
      (decode-encode_r_type 0x33 (omega arith) d 0 a b 0 (omega arith) (omega arith))
r_type_writers c d a b ROp.sub =
    emplace-Appends c _ _
      (decode-encode_r_type 0x33 (omega arith) d 0 a b 32 (omega arith) (omega arith))
r_type_writers c d a b ROp.xor =
    emplace-Appends c _ _
      (decode-encode_r_type 0x33 (omega arith) d 4 a b 0 (omega arith) (omega arith))
r_type_writers c d a b ROp.or =
    emplace-Appends c _ _
      (decode-encode_r_type 0x33 (omega arith) d 6 a b 0 (omega arith) (omega arith))
r_type_writers c d a b ROp.and =
    emplace-Appends c _ _
      (decode-encode_r_type 0x33 (omega arith) d 7 a b 0 (omega arith) (omega arith))
r_type_writers c d a b ROp.sll =
    emplace-Appends c _ _
      (decode-encode_r_type 0x33 (omega arith) d 1 a b 0 (omega arith) (omega arith))
r_type_writers c d a b ROp.srl =
    emplace-Appends c _ _
      (decode-encode_r_type 0x33 (omega arith) d 5 a b 0 (omega arith) (omega arith))
r_type_writers c d a b ROp.sra =
    emplace-Appends c _ _
      (decode-encode_r_type 0x33 (omega arith) d 5 a b 32 (omega arith) (omega arith))
r_type_writers c d a b ROp.slt =
    emplace-Appends c _ _
      (decode-encode_r_type 0x33 (omega arith) d 2 a b 0 (omega arith) (omega arith))
r_type_writers c d a b ROp.sltu =
    emplace-Appends c _ _
      (decode-encode_r_type 0x33 (omega arith) d 3 a b 0 (omega arith) (omega arith))
r_type_writers c d a b ROp.mul =
    emplace-Appends c _ _
      (decode-encode_r_type 0x33 (omega arith) d 0 a b 1 (omega arith) (omega arith))
r_type_writers c d a b ROp.mulh =
    emplace-Appends c _ _
      (decode-encode_r_type 0x33 (omega arith) d 1 a b 1 (omega arith) (omega arith))
r_type_writers c d a b ROp.mulhsu =
    emplace-Appends c _ _
      (decode-encode_r_type 0x33 (omega arith) d 2 a b 1 (omega arith) (omega arith))
r_type_writers c d a b ROp.mulhu =
    emplace-Appends c _ _
      (decode-encode_r_type 0x33 (omega arith) d 3 a b 1 (omega arith) (omega arith))
r_type_writers c d a b ROp.div =
    emplace-Appends c _ _
      (decode-encode_r_type 0x33 (omega arith) d 4 a b 1 (omega arith) (omega arith))
r_type_writers c d a b ROp.divu =
    emplace-Appends c _ _
      (decode-encode_r_type 0x33 (omega arith) d 5 a b 1 (omega arith) (omega arith))
r_type_writers c d a b ROp.rem =
    emplace-Appends c _ _
      (decode-encode_r_type 0x33 (omega arith) d 6 a b 1 (omega arith) (omega arith))
r_type_writers c d a b ROp.remu =
    emplace-Appends c _ _
      (decode-encode_r_type 0x33 (omega arith) d 7 a b 1 (omega arith) (omega arith))

pub i_type_writers :
    (c : CodeBuffer) (d a : Register) (imm : ℕ)
    → (o : IOp)
    → Appends
        (write_i_type o c d a imm)
        c
        (Instr.op_imm o (reg_number d) (reg_number a) (imm_operand o imm))
unfolding write_i_type decode_fields lower_bitmask
i_type_writers c d a imm IOp.addi =
    emplace-Appends c _ _
      (rw (decode-encode_i_type 0x13 (omega arith) d 0 a imm (omega arith), join_imm imm))
i_type_writers c d a imm IOp.xori =
    emplace-Appends c _ _
      (rw (decode-encode_i_type 0x13 (omega arith) d 4 a imm (omega arith), join_imm imm))
i_type_writers c d a imm IOp.ori =
    emplace-Appends c _ _
      (rw (decode-encode_i_type 0x13 (omega arith) d 6 a imm (omega arith), join_imm imm))
i_type_writers c d a imm IOp.andi =
    emplace-Appends c _ _
      (rw (decode-encode_i_type 0x13 (omega arith) d 7 a imm (omega arith), join_imm imm))
i_type_writers c d a imm IOp.slti =
    emplace-Appends c _ _
      (rw (decode-encode_i_type 0x13 (omega arith) d 2 a imm (omega arith), join_imm imm))
i_type_writers c d a imm IOp.sltiu =
    emplace-Appends c _ _
      (rw (decode-encode_i_type 0x13 (omega arith) d 3 a imm (omega arith), join_imm imm))
i_type_writers c d a imm IOp.slli = emplace-Appends c _ _ (
    decode-encode_i_type_split 0x13 (omega arith) d 1 a _ (imm % 32) 0 (omega arith) (omega arith)
      (omega (arith, bit_and-ones 5 imm)))
i_type_writers c d a imm IOp.srli = emplace-Appends c _ _ (
    decode-encode_i_type_split 0x13 (omega arith) d 5 a _ (imm % 32) 0 (omega arith) (omega arith)
      (omega (arith, bit_and-ones 5 imm)))
i_type_writers c d a imm IOp.srai = emplace-Appends c _ _ (
    decode-encode_i_type_split 0x13 (omega arith) d 5 a _ (imm % 32) 32 (omega arith) (omega arith)
      (omega (arith, bit_and-ones 5 imm, bit_or-add 10 (bit_and imm 31) 1)))

pub load_writers :
    (c : CodeBuffer) (d a : Register) (imm : ℕ)
    → (o : Load)
    → Appends (write_load o c d a imm) c (Instr.load o (reg_number d) (reg_number a) (imm12 imm))
unfolding write_load decode_fields
load_writers c d a imm Load.lb =
    emplace-Appends c _ _
      (rw (decode-encode_i_type 0x03 (omega arith) d 0 a imm (omega arith), join_imm imm))
load_writers c d a imm Load.lh =
    emplace-Appends c _ _
      (rw (decode-encode_i_type 0x03 (omega arith) d 1 a imm (omega arith), join_imm imm))
load_writers c d a imm Load.lw =
    emplace-Appends c _ _
      (rw (decode-encode_i_type 0x03 (omega arith) d 2 a imm (omega arith), join_imm imm))
load_writers c d a imm Load.lbu =
    emplace-Appends c _ _
      (rw (decode-encode_i_type 0x03 (omega arith) d 4 a imm (omega arith), join_imm imm))
load_writers c d a imm Load.lhu =
    emplace-Appends c _ _
      (rw (decode-encode_i_type 0x03 (omega arith) d 5 a imm (omega arith), join_imm imm))

pub store_writers :
    (c : CodeBuffer) (a s : Register) (imm : ℕ)
    → (o : Store)
    → Appends (write_store o c a s imm) c (Instr.store o (reg_number a) (reg_number s) (imm12 imm))
unfolding write_store decode_fields
store_writers c a s imm Store.sb =
    emplace-Appends c _ _
      (rw (decode-encode_s_type 0x23 (omega arith) 0 a s imm (omega arith), join_imm imm))
store_writers c a s imm Store.sh =
    emplace-Appends c _ _
      (rw (decode-encode_s_type 0x23 (omega arith) 1 a s imm (omega arith), join_imm imm))
store_writers c a s imm Store.sw =
    emplace-Appends c _ _
      (rw (decode-encode_s_type 0x23 (omega arith) 2 a s imm (omega arith), join_imm imm))
