-- ===== src/Riscv32/Code/RType.antt =====
-- The writers of register-register instructions in CodeGenerator_riscv32.cpp.
use sasc.Prelude.{ℕ}
use sasc.Riscv32.Register.{Register}
use sasc.Riscv32.Encode.{encode_r_type}
use sasc.Riscv32.Code.Buffer.{InstructionFormat, CodeBuffer, emplace}

unfoldable pub write_add : CodeBuffer → Register → Register → Register → CodeBuffer × ℕ
unfolding emplace
write_add c dest op1 op2 =
    emplace c (encode_r_type 0b0110011 dest 0 op1 op2 0x00) InstructionFormat.r_type

unfoldable pub write_sub : CodeBuffer → Register → Register → Register → CodeBuffer × ℕ
unfolding emplace
write_sub c dest op1 op2 =
    emplace c (encode_r_type 0b0110011 dest 0 op1 op2 0x20) InstructionFormat.r_type

unfoldable pub write_xor : CodeBuffer → Register → Register → Register → CodeBuffer × ℕ
unfolding emplace
write_xor c dest op1 op2 =
    emplace c (encode_r_type 0b0110011 dest 4 op1 op2 0x00) InstructionFormat.r_type

unfoldable pub write_or : CodeBuffer → Register → Register → Register → CodeBuffer × ℕ
unfolding emplace
write_or c dest op1 op2 =
    emplace c (encode_r_type 0b0110011 dest 6 op1 op2 0x00) InstructionFormat.r_type

unfoldable pub write_and : CodeBuffer → Register → Register → Register → CodeBuffer × ℕ
unfolding emplace
write_and c dest op1 op2 =
    emplace c (encode_r_type 0b0110011 dest 7 op1 op2 0x00) InstructionFormat.r_type

unfoldable pub write_sll : CodeBuffer → Register → Register → Register → CodeBuffer × ℕ
unfolding emplace
write_sll c dest op1 op2 =
    emplace c (encode_r_type 0b0110011 dest 1 op1 op2 0x00) InstructionFormat.r_type

unfoldable pub write_srl : CodeBuffer → Register → Register → Register → CodeBuffer × ℕ
unfolding emplace
write_srl c dest op1 op2 =
    emplace c (encode_r_type 0b0110011 dest 5 op1 op2 0x00) InstructionFormat.r_type

unfoldable pub write_sra : CodeBuffer → Register → Register → Register → CodeBuffer × ℕ
unfolding emplace
write_sra c dest op1 op2 =
    emplace c (encode_r_type 0b0110011 dest 5 op1 op2 0x20) InstructionFormat.r_type

unfoldable pub write_slt : CodeBuffer → Register → Register → Register → CodeBuffer × ℕ
unfolding emplace
write_slt c dest op1 op2 =
    emplace c (encode_r_type 0b0110011 dest 2 op1 op2 0x00) InstructionFormat.r_type

unfoldable pub write_sltu : CodeBuffer → Register → Register → Register → CodeBuffer × ℕ
unfolding emplace
write_sltu c dest op1 op2 =
    emplace c (encode_r_type 0b0110011 dest 3 op1 op2 0x00) InstructionFormat.r_type

unfoldable pub write_mul : CodeBuffer → Register → Register → Register → CodeBuffer × ℕ
unfolding emplace
write_mul c dest op1 op2 =
    emplace c (encode_r_type 0b0110011 dest 0 op1 op2 0x01) InstructionFormat.r_type

unfoldable pub write_mulh : CodeBuffer → Register → Register → Register → CodeBuffer × ℕ
unfolding emplace
write_mulh c dest op1 op2 =
    emplace c (encode_r_type 0b0110011 dest 1 op1 op2 0x01) InstructionFormat.r_type

unfoldable pub write_mulhsu : CodeBuffer → Register → Register → Register → CodeBuffer × ℕ
unfolding emplace
write_mulhsu c dest op1 op2 =
    emplace c (encode_r_type 0b0110011 dest 2 op1 op2 0x01) InstructionFormat.r_type

unfoldable pub write_mulhu : CodeBuffer → Register → Register → Register → CodeBuffer × ℕ
unfolding emplace
write_mulhu c dest op1 op2 =
    emplace c (encode_r_type 0b0110011 dest 3 op1 op2 0x01) InstructionFormat.r_type

unfoldable pub write_div : CodeBuffer → Register → Register → Register → CodeBuffer × ℕ
unfolding emplace
write_div c dest op1 op2 =
    emplace c (encode_r_type 0b0110011 dest 4 op1 op2 0x01) InstructionFormat.r_type

unfoldable pub write_divu : CodeBuffer → Register → Register → Register → CodeBuffer × ℕ
unfolding emplace
write_divu c dest op1 op2 =
    emplace c (encode_r_type 0b0110011 dest 5 op1 op2 0x01) InstructionFormat.r_type

unfoldable pub write_rem : CodeBuffer → Register → Register → Register → CodeBuffer × ℕ
unfolding emplace
write_rem c dest op1 op2 =
    emplace c (encode_r_type 0b0110011 dest 6 op1 op2 0x01) InstructionFormat.r_type

unfoldable pub write_remu : CodeBuffer → Register → Register → Register → CodeBuffer × ℕ
unfolding emplace
write_remu c dest op1 op2 =
    emplace c (encode_r_type 0b0110011 dest 7 op1 op2 0x01) InstructionFormat.r_type
