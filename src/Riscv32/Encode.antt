-- ===== src/Riscv32/Encode.antt =====
-- The `encode_*_type` functions of CodeGenerator_riscv32.cpp and `lower_bitmask` of
-- utils/common.hpp, on `uint32_t` words. `|` and `&` are the native operations.
pub mod Fields
use sasc.Prelude.{ℕ, ◌+◌, ◌-◌, ◌*◌, ◌^◌, ◌/◌, bit_and, bit_or, leb, ◌==◌, if◌then◌else◌}
use sasc.Prelude.Bits.{shl, shr}
use sasc.Riscv32.Register.{Register, reg_number}

-- `lower_bitmask<uint32_t>(n)`: the `n` least-significant bits set.
unfoldable pub lower_bitmask : ℕ → ℕ
lower_bitmask n = if n == 0 then 0 else if leb 32 n then 2 ^ 32 - 1 else 2 ^ n - 1

-- `~lower_bitmask<uint32_t>(n)`.
unfoldable pub upper_bitmask : ℕ → ℕ
unfolding lower_bitmask
upper_bitmask n = 2 ^ 32 - 1 - lower_bitmask n

unfoldable pub encode_r_type : ℕ → Register → ℕ → Register → Register → ℕ → ℕ
encode_r_type opcode rd funct3 rs1 rs2 funct7 =
    let i0 = bit_and opcode (lower_bitmask 7) in
    let i1 = bit_or i0 (shl (bit_and (reg_number rd) (lower_bitmask 5)) 7) in
    let i2 = bit_or i1 (shl (bit_and funct3 (lower_bitmask 3)) 12) in
    let i3 = bit_or i2 (shl (bit_and (reg_number rs1) (lower_bitmask 5)) 15) in
    let i4 = bit_or i3 (shl (bit_and (reg_number rs2) (lower_bitmask 5)) 20) in
    bit_or i4 (shl (bit_and funct7 (lower_bitmask 7)) 25)

unfoldable pub encode_i_type : ℕ → Register → ℕ → Register → ℕ → ℕ
encode_i_type opcode rd funct3 rs1 imm =
    let i0 = bit_and opcode (lower_bitmask 7) in
    let i1 = bit_or i0 (shl (bit_and (reg_number rd) (lower_bitmask 5)) 7) in
    let i2 = bit_or i1 (shl (bit_and funct3 (lower_bitmask 3)) 12) in
    let i3 = bit_or i2 (shl (bit_and (reg_number rs1) (lower_bitmask 5)) 15) in
    bit_or i3 (shl (bit_and imm (lower_bitmask 12)) 20)

unfoldable pub encode_s_type : ℕ → ℕ → Register → Register → ℕ → ℕ
encode_s_type opcode funct3 rs1 rs2 imm =
    let imm_4_0 = bit_and imm (lower_bitmask 5) in
    let imm_11_5 = bit_and (shr imm 5) (lower_bitmask 7) in
    let i0 = bit_and opcode (lower_bitmask 7) in
    let i1 = bit_or i0 (shl imm_4_0 7) in
    let i2 = bit_or i1 (shl (bit_and funct3 (lower_bitmask 3)) 12) in
    let i3 = bit_or i2 (shl (bit_and (reg_number rs1) (lower_bitmask 5)) 15) in
    let i4 = bit_or i3 (shl (bit_and (reg_number rs2) (lower_bitmask 5)) 20) in
    bit_or i4 (shl imm_11_5 25)

unfoldable pub encode_j_type : ℕ → Register → ℕ → ℕ
encode_j_type opcode rd imm =
    let imm_10_1 = bit_and (shr imm 1) (lower_bitmask 10) in
    let imm_11 = bit_and (shr imm 11) 1 in
    let imm_19_12 = bit_and (shr imm 12) (lower_bitmask 8) in
    let imm_20 = bit_and (shr imm 20) 1 in
    let i0 = bit_and opcode (lower_bitmask 7) in
    let i1 = bit_or i0 (shl (bit_and (reg_number rd) (lower_bitmask 5)) 7) in
    let i2 = bit_or i1 (shl imm_19_12 12) in
    let i3 = bit_or i2 (shl imm_11 20) in
    let i4 = bit_or i3 (shl imm_10_1 21) in bit_or i4 (shl imm_20 31)

unfoldable pub encode_u_type : ℕ → Register → ℕ → ℕ
encode_u_type opcode rd imm =
    let i0 = bit_and opcode (lower_bitmask 7) in
    let i1 = bit_or i0 (shl (bit_and (reg_number rd) (lower_bitmask 5)) 7) in
    bit_or i1 (bit_and imm (upper_bitmask 12))
