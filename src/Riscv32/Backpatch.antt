-- ===== src/Riscv32/Backpatch.antt =====
-- The backpatching in `lower_function` of CodeGenerator_riscv32.cpp: the distance to the epilogue is
-- put into the instructions that jump there.
pub mod Reach
use sasc.Prelude.{
  ℕ, ◌+◌, ◌-◌, ◌*◌, ◌%◌, ◌^◌, Option, none, some, List, [], ◌∷◌, length, get_elem?, set, bit_and,
  bit_or,
}
use sasc.Prelude.Bits.{shl, shr}
use sasc.Error.{Error, Result, ok, err, ◌>>=◌}
use sasc.Riscv32.Encode.{lower_bitmask}
use sasc.Riscv32.Code.{InstructionFormat, MachineInstruction, CodeBuffer}

unfoldable pub patch_i_type : ℕ → ℕ → ℕ
unfolding lower_bitmask
patch_i_type word rel_offset =
    let imm_11_0 = bit_and rel_offset (lower_bitmask 12) in
    bit_or (bit_and word (lower_bitmask 20)) (shl imm_11_0 20)

unfoldable pub patch_s_type : ℕ → ℕ → ℕ
unfolding lower_bitmask
patch_s_type word rel_offset =
    let imm_11_5 = bit_and (shr rel_offset 5) (lower_bitmask 7) in
    let imm_4_0 = bit_and rel_offset (lower_bitmask 5) in
    let w1 = bit_and word 0b00000001111111111111000001111111 in
    bit_or (bit_or w1 (shl imm_11_5 25)) (shl imm_4_0 7)

unfoldable pub patch_j_type : ℕ → ℕ → ℕ
unfolding lower_bitmask
patch_j_type word rel_offset =
    let imm_20 = bit_and (shr rel_offset 20) 1 in
    let imm_19_12 = bit_and (shr rel_offset 12) (lower_bitmask 8) in
    let imm_11 = bit_and (shr rel_offset 11) 1 in
    let imm_10_1 = bit_and (shr rel_offset 1) (lower_bitmask 10) in
    let w1 = bit_and word (lower_bitmask 12) in
    let w2 = bit_or w1 (shl imm_19_12 12) in
    let w3 = bit_or w2 (shl imm_11 20) in
    let w4 = bit_or w3 (shl imm_10_1 21) in bit_or w4 (shl imm_20 31)

unfoldable pub patch : InstructionFormat → ℕ → ℕ → Result ℕ
unfolding patch_i_type patch_s_type patch_j_type
patch InstructionFormat.i_type word rel_offset = ok (patch_i_type word rel_offset)
patch InstructionFormat.s_type word rel_offset = ok (patch_s_type word rel_offset)
patch InstructionFormat.b_type word rel_offset = err Error.unimplemented
patch InstructionFormat.u_type word rel_offset = err Error.unimplemented
patch InstructionFormat.j_type word rel_offset = ok (patch_j_type word rel_offset)
patch InstructionFormat.r_type word rel_offset = err Error.internal

-- `buf.at` throws outside the buffer; the offset is a `uint32_t`.
unfoldable pub backpatch : List ℕ → ℕ → CodeBuffer → Result CodeBuffer
unfolding patch
backpatch [] epilogue_offset body = ok body
backpatch (instr_pos ∷ tasks) epilogue_offset body = elim (get_elem? body.buf instr_pos) [
  | none ↦ err Error.uncaught
  | some instr ↦ do
    word ← patch instr.fmt instr.encoded (4 * (epilogue_offset - instr_pos) % 2 ^ 32)
    backpatch tasks epilogue_offset
        (record { buf = set body.buf instr_pos (record instr { encoded = word }) })
]
