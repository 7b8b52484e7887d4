-- ===== src/Riscv32/Encode/Fields.antt =====
-- The words that the encoders build, as sums of their fields, each reduced to its width.
use sasc.Prelude.{ℕ, ◌+◌, ◌*◌, ◌^◌, ◌/◌, ◌%◌, ◌<◌, ◌≡◌, arith, bit_and, bit_or}
use sasc.Prelude.Bits.{shl, shr, bit_or-add, bit_and-ones, bit_and-ones_above}
use native.Mathlib.Nat.{mod-eq_of_lt}
use sasc.Riscv32.Register.{Register, reg_number, reg_number-lt}
use sasc.Riscv32.Encode.{
  lower_bitmask, upper_bitmask, encode_r_type, encode_i_type, encode_s_type, encode_j_type,
  encode_u_type,
}

-- `w |= x << k` for a word below the field, and a field that does not leave the word.
pub or_field :
    (k : ℕ) {w x v y : ℕ}
    → w ≡ v
    → x ≡ y
    → v < 2 ^ k
    → y * 2 ^ k < 2 ^ 32
    → bit_or w (shl x k) ≡ v + y * 2 ^ k
or_field k {w} {x} {v} {y} ew ex h fits = rw (ew, ex, mod-eq_of_lt fits) (bit_or-add k v y h)

reg_field : (r : Register) → bit_and (reg_number r) 31 ≡ reg_number r
reg_field r = omega (arith, bit_and-ones 5 (reg_number r), reg_number-lt r)

module _ (rd rs1 rs2 : Register) where
  pub encode_r_type-sum :
      (opcode f3 f7 : ℕ)
      → encode_r_type opcode rd f3 rs1 rs2 f7
        ≡ opcode % 128
          + reg_number rd * 2 ^ 7
          + f3 % 8 * 2 ^ 12
          + reg_number rs1 * 2 ^ 15
          + reg_number rs2 * 2 ^ 20
          + f7 % 128 * 2 ^ 25
  unfolding encode_r_type lower_bitmask
  encode_r_type-sum opcode f3 f7 =
      let b : (reg_number rd < 32) × (reg_number rs1 < 32) × (reg_number rs2 < 32) =
        (reg_number-lt rd, reg_number-lt rs1, reg_number-lt rs2) in
      let i1 = or_field 7 (bit_and-ones 7 opcode) (reg_field rd) (omega arith) (omega arith) in
      let i2 = or_field 12 i1 (bit_and-ones 3 f3) (omega arith) (omega arith) in
      let i3 = or_field 15 i2 (reg_field rs1) (omega arith) (omega arith) in
      let i4 = or_field 20 i3 (reg_field rs2) (omega arith) (omega arith) in
      or_field 25 i4 (bit_and-ones 7 f7) (omega arith) (omega arith)

  pub encode_i_type-sum :
      (opcode f3 imm : ℕ)
      → encode_i_type opcode rd f3 rs1 imm
        ≡ opcode % 128
          + reg_number rd * 2 ^ 7
          + f3 % 8 * 2 ^ 12
          + reg_number rs1 * 2 ^ 15
          + imm % 4096 * 2 ^ 20
  unfolding encode_i_type lower_bitmask
  encode_i_type-sum opcode f3 imm =
      let b : (reg_number rd < 32) × (reg_number rs1 < 32) =
        (reg_number-lt rd, reg_number-lt rs1) in
      let i1 = or_field 7 (bit_and-ones 7 opcode) (reg_field rd) (omega arith) (omega arith) in
      let i2 = or_field 12 i1 (bit_and-ones 3 f3) (omega arith) (omega arith) in
      let i3 = or_field 15 i2 (reg_field rs1) (omega arith) (omega arith) in
      or_field 20 i3 (bit_and-ones 12 imm) (omega arith) (omega arith)

  pub encode_s_type-sum :
      (opcode f3 imm : ℕ)
      → encode_s_type opcode f3 rs1 rs2 imm
        ≡ opcode % 128
          + imm % 32 * 2 ^ 7
          + f3 % 8 * 2 ^ 12
          + reg_number rs1 * 2 ^ 15
          + reg_number rs2 * 2 ^ 20
          + imm / 32 % 128 * 2 ^ 25
  unfolding encode_s_type lower_bitmask
  encode_s_type-sum opcode f3 imm =
      let b : (reg_number rs1 < 32) × (reg_number rs2 < 32) =
        (reg_number-lt rs1, reg_number-lt rs2) in
      let i1 =
        or_field 7 (bit_and-ones 7 opcode) (bit_and-ones 5 imm) (omega arith) (omega arith) in
      let i2 = or_field 12 i1 (bit_and-ones 3 f3) (omega arith) (omega arith) in
      let i3 = or_field 15 i2 (reg_field rs1) (omega arith) (omega arith) in
      let i4 = or_field 20 i3 (reg_field rs2) (omega arith) (omega arith) in
      or_field 25 i4 (bit_and-ones 7 (imm / 32)) (omega arith) (omega arith)

-- The four pieces of a jump's offset, or-ed into a word below bit 12.
pub j_fields :
    {w v : ℕ} (imm : ℕ)
    → w ≡ v
    → v < 2 ^ 12
    → bit_or
        (bit_or
          (bit_or (bit_or w (shl (bit_and (shr imm 12) 255) 12)) (shl (bit_and (shr imm 11) 1) 20))
          (shl (bit_and (shr imm 1) 1023) 21))
        (shl (bit_and (shr imm 20) 1) 31)
      ≡ v
        + imm / 2 ^ 12 % 256 * 2 ^ 12
        + imm / 2 ^ 11 % 2 * 2 ^ 20
        + imm / 2 % 1024 * 2 ^ 21
        + imm / 2 ^ 20 % 2 * 2 ^ 31
j_fields imm e h =
    let i2 = or_field 12 e (bit_and-ones 8 (imm / 2 ^ 12)) (omega arith) (omega arith) in
    let i3 = or_field 20 i2 (bit_and-ones 1 (imm / 2 ^ 11)) (omega arith) (omega arith) in
    let i4 = or_field 21 i3 (bit_and-ones 10 (imm / 2)) (omega arith) (omega arith) in
    or_field 31 i4 (bit_and-ones 1 (imm / 2 ^ 20)) (omega arith) (omega arith)

module _ (rd : Register) (opcode imm : ℕ) where
  pub encode_j_type-sum :
      encode_j_type opcode rd imm
      ≡ opcode % 128
        + reg_number rd * 2 ^ 7
        + imm / 2 ^ 12 % 256 * 2 ^ 12
        + imm / 2 ^ 11 % 2 * 2 ^ 20
        + imm / 2 % 1024 * 2 ^ 21
        + imm / 2 ^ 20 % 2 * 2 ^ 31
  unfolding encode_j_type lower_bitmask
  encode_j_type-sum =
      let b = reg_number-lt rd in
      let i1 = or_field 7 (bit_and-ones 7 opcode) (reg_field rd) (omega arith) (omega arith) in
      j_fields imm i1 (omega arith)

  pub encode_u_type-sum :
      encode_u_type opcode rd imm
      ≡ opcode % 128 + reg_number rd * 2 ^ 7 + imm / 2 ^ 12 % 2 ^ 20 * 2 ^ 12
  unfolding encode_u_type lower_bitmask upper_bitmask
  encode_u_type-sum =
      let b = reg_number-lt rd in
      let i1 = or_field 7 (bit_and-ones 7 opcode) (reg_field rd) (omega arith) (omega arith) in
      rw (i1, bit_and-ones_above 12 20 imm) (bit_or-add 12 _ _ (omega arith))
