-- ===== src/Riscv32/Code/IType.antt =====
-- The writers of register-immediate instructions in CodeGenerator_riscv32.cpp.
use sasc.Prelude.{ℕ, bit_and, bit_or}
use sasc.Riscv32.Register.{Register}
use sasc.Riscv32.Encode.{lower_bitmask, encode_i_type}
use sasc.Riscv32.Code.Buffer.{InstructionFormat, CodeBuffer, emplace}

unfoldable pub write_addi : CodeBuffer → Register → Register → ℕ → CodeBuffer × ℕ
unfolding emplace
write_addi c dest src imm =
    emplace c (encode_i_type 0b0010011 dest 0 src imm) InstructionFormat.i_type

unfoldable pub write_xori : CodeBuffer → Register → Register → ℕ → CodeBuffer × ℕ
unfolding emplace
write_xori c dest src imm =
    emplace c (encode_i_type 0b0010011 dest 4 src imm) InstructionFormat.i_type

unfoldable pub write_ori : CodeBuffer → Register → Register → ℕ → CodeBuffer × ℕ
unfolding emplace
write_ori c dest src imm =
    emplace c (encode_i_type 0b0010011 dest 6 src imm) InstructionFormat.i_type

unfoldable pub write_andi : CodeBuffer → Register → Register → ℕ → CodeBuffer × ℕ
unfolding emplace
write_andi c dest src imm =
    emplace c (encode_i_type 0b0010011 dest 7 src imm) InstructionFormat.i_type

unfoldable pub write_slti : CodeBuffer → Register → Register → ℕ → CodeBuffer × ℕ
unfolding emplace
write_slti c dest src imm =
    emplace c (encode_i_type 0b0010011 dest 2 src imm) InstructionFormat.i_type

unfoldable pub write_sltiu : CodeBuffer → Register → Register → ℕ → CodeBuffer × ℕ
unfolding emplace
write_sltiu c dest src imm =
    emplace c (encode_i_type 0b0010011 dest 3 src imm) InstructionFormat.i_type

unfoldable pub write_slli : CodeBuffer → Register → Register → ℕ → CodeBuffer × ℕ
unfolding emplace
write_slli c dest src imm =
    emplace c (encode_i_type 0b0010011 dest 1 src (bit_and imm (lower_bitmask 5)))
      InstructionFormat.i_type

unfoldable pub write_srli : CodeBuffer → Register → Register → ℕ → CodeBuffer × ℕ
unfolding emplace
write_srli c dest src imm =
    emplace c (encode_i_type 0b0010011 dest 5 src (bit_and imm (lower_bitmask 5)))
      InstructionFormat.i_type

unfoldable pub write_srai : CodeBuffer → Register → Register → ℕ → CodeBuffer × ℕ
unfolding emplace
write_srai c dest src imm =
    emplace c (encode_i_type 0b0010011 dest 5 src (bit_or (bit_and imm (lower_bitmask 5)) 0x400))
      InstructionFormat.i_type
