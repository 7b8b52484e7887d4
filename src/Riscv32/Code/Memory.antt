-- ===== src/Riscv32/Code/Memory.antt =====
-- The writers of loads and stores in CodeGenerator_riscv32.cpp.
use sasc.Prelude.{ℕ}
use sasc.Riscv32.Register.{Register}
use sasc.Riscv32.Encode.{encode_i_type, encode_s_type}
use sasc.Riscv32.Code.Buffer.{InstructionFormat, CodeBuffer, emplace}

unfoldable pub write_lb : CodeBuffer → Register → Register → ℕ → CodeBuffer × ℕ
unfolding emplace
write_lb c dest addr addr_offset =
    emplace c (encode_i_type 0b0000011 dest 0 addr addr_offset) InstructionFormat.i_type

unfoldable pub write_lh : CodeBuffer → Register → Register → ℕ → CodeBuffer × ℕ
unfolding emplace
write_lh c dest addr addr_offset =
    emplace c (encode_i_type 0b0000011 dest 1 addr addr_offset) InstructionFormat.i_type

unfoldable pub write_lw : CodeBuffer → Register → Register → ℕ → CodeBuffer × ℕ
unfolding emplace
write_lw c dest addr addr_offset =
    emplace c (encode_i_type 0b0000011 dest 2 addr addr_offset) InstructionFormat.i_type

unfoldable pub write_lbu : CodeBuffer → Register → Register → ℕ → CodeBuffer × ℕ
unfolding emplace
write_lbu c dest addr addr_offset =
    emplace c (encode_i_type 0b0000011 dest 4 addr addr_offset) InstructionFormat.i_type

unfoldable pub write_lhu : CodeBuffer → Register → Register → ℕ → CodeBuffer × ℕ
unfolding emplace
write_lhu c dest addr addr_offset =
    emplace c (encode_i_type 0b0000011 dest 5 addr addr_offset) InstructionFormat.i_type

unfoldable pub write_sb : CodeBuffer → Register → Register → ℕ → CodeBuffer × ℕ
unfolding emplace
write_sb c dest_addr src addr_offset =
    emplace c (encode_s_type 0b0100011 0 dest_addr src addr_offset) InstructionFormat.s_type

unfoldable pub write_sh : CodeBuffer → Register → Register → ℕ → CodeBuffer × ℕ
unfolding emplace
write_sh c dest_addr src addr_offset =
    emplace c (encode_s_type 0b0100011 1 dest_addr src addr_offset) InstructionFormat.s_type

unfoldable pub write_sw : CodeBuffer → Register → Register → ℕ → CodeBuffer × ℕ
unfolding emplace
write_sw c dest_addr src addr_offset =
    emplace c (encode_s_type 0b0100011 2 dest_addr src addr_offset) InstructionFormat.s_type
