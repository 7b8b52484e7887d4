-- ===== src/Riscv32/Code/Control.antt =====
-- The writers of jumps, upper immediates and environment calls in CodeGenerator_riscv32.cpp.
use sasc.Prelude.{ℕ}
use sasc.Riscv32.Register.{Register, x_zero}
use sasc.Riscv32.Encode.{encode_i_type, encode_j_type, encode_u_type}
use sasc.Riscv32.Code.IType.{write_addi}
use sasc.Riscv32.Code.Buffer.{InstructionFormat, CodeBuffer, emplace}

unfoldable pub write_jal : CodeBuffer → Register → ℕ → CodeBuffer × ℕ
unfolding emplace
write_jal c dest imm = emplace c (encode_j_type 0b1101111 dest imm) InstructionFormat.j_type

unfoldable pub write_jalr : CodeBuffer → Register → Register → ℕ → CodeBuffer × ℕ
unfolding emplace
write_jalr c dest addr addr_offset =
    emplace c (encode_i_type 0b1100111 dest 0 addr addr_offset) InstructionFormat.i_type

unfoldable pub write_lui : CodeBuffer → Register → ℕ → CodeBuffer × ℕ
unfolding emplace
write_lui c dest imm = emplace c (encode_u_type 0b0110111 dest imm) InstructionFormat.u_type

unfoldable pub write_auipc : CodeBuffer → Register → ℕ → CodeBuffer × ℕ
unfolding emplace
write_auipc c dest imm = emplace c (encode_u_type 0b0010111 dest imm) InstructionFormat.u_type

unfoldable pub write_ecall : CodeBuffer → CodeBuffer × ℕ
unfolding emplace
write_ecall c = emplace c (encode_i_type 0b1110011 x_zero 0 x_zero 0) InstructionFormat.i_type

unfoldable pub write_ebreak : CodeBuffer → CodeBuffer × ℕ
unfolding emplace
write_ebreak c = emplace c (encode_i_type 0b1110011 x_zero 0 x_zero 1) InstructionFormat.i_type

unfoldable pub write_nop : CodeBuffer → CodeBuffer × ℕ
unfolding write_addi
write_nop c = write_addi c x_zero x_zero 0
