-- ===== src/Riscv32/Decode/Jumps.antt =====
-- What the writers of jumps, upper immediates and environment calls append decodes to.
use sasc.Prelude.{ℕ, ◌+◌, ◌*◌, ◌/◌, ◌%◌, ◌^◌, ◌<◌, ◌≡◌, arith, some}
use sasc.Prelude.Words.{sext}
use sasc.Riscv32.Register.{Register, x_zero, reg_number, reg_number-lt}
use sasc.Riscv32.Encode.{encode_u_type}
use sasc.Riscv32.Encode.Fields.{encode_j_type-sum, encode_u_type-sum}
use sasc.Riscv32.Code.{
  CodeBuffer, write_jal, write_jalr, write_lui, write_auipc, write_ecall, write_ebreak,
}
use sasc.Riscv32.Isa.{Instr, decode_fields, decode, upper_imm}
use sasc.Riscv32.Decode.{
  Appends, emplace-Appends, join_imm, imm12, decode-sum, decode-encode_i_type,
}

-- The offset of a `jal`, as the hart reads it: 21 bits with a sign, the lowest dropped.
abbrev pub imm21 : ℕ → ℕ
imm21 imm = sext (2 ^ 20) (imm % 2 ^ 21 / 2 * 2)

-- The upper 20 bits of a word, in place.
abbrev pub imm_upper : ℕ → ℕ
imm_upper imm = imm / 2 ^ 12 % 2 ^ 20 * 2 ^ 12

-- The pieces of a jump's offset, as they lie in a word, give the offset back.
join_offset :
    (imm : ℕ)
    → ((imm / 2 ^ 11 % 2 + imm / 2 % 16 * 2) / 2
            + (imm / 2 ^ 5 % 64 + imm / 2 ^ 20 % 2 * 64) % 64 * 16)
          * 2
        + (imm / 2 ^ 11 % 2 + imm / 2 % 16 * 2) % 2 * 2 ^ 11
        + (imm / 2 ^ 12 % 8 + imm / 2 ^ 15 % 32 * 8) * 2 ^ 12
        + (imm / 2 ^ 5 % 64 + imm / 2 ^ 20 % 2 * 64) / 64 * 2 ^ 20
      ≡ imm % 2 ^ 21 / 2 * 2
join_offset imm = omega arith

-- A word given as a jump's opcode, register and scattered offset.
pub decode-jal_sum :
    (w rd imm : ℕ)
    → rd < 32
    → w
      ≡ 0x6f
        + rd * 2 ^ 7
        + imm / 2 ^ 12 % 256 * 2 ^ 12
        + imm / 2 ^ 11 % 2 * 2 ^ 20
        + imm / 2 % 1024 * 2 ^ 21
        + imm / 2 ^ 20 % 2 * 2 ^ 31
    → decode w ≡ some (Instr.jal rd (imm21 imm))
unfolding decode_fields
decode-jal_sum w rd imm h e = rw (
  decode-sum w 0x6f rd (imm / 2 ^ 12 % 8) (imm / 2 ^ 15 % 32) (imm / 2 ^ 11 % 2 + imm / 2 % 16 * 2)
      (imm / 2 ^ 5 % 64 + imm / 2 ^ 20 % 2 * 64) (omega arith) (omega arith) h (omega arith)
      (omega arith) (omega arith),
  join_offset imm,
)

decode-encode_u_type :
    (opcode : ℕ) (rd : Register) (imm : ℕ)
    → opcode < 128
    → decode (encode_u_type opcode rd imm)
      ≡ decode_fields opcode
          (reg_number rd)
          (imm / 2 ^ 12 % 8)
          (imm / 2 ^ 15 % 32)
          (imm / 2 ^ 20 % 32)
          (imm / 2 ^ 25 % 128)
decode-encode_u_type opcode rd imm h =
    decode-sum _ opcode (reg_number rd) (imm / 2 ^ 12 % 8) (imm / 2 ^ 15 % 32) (imm / 2 ^ 20 % 32)
      (imm / 2 ^ 25 % 128) (omega (arith, encode_u_type-sum rd opcode imm)) h (reg_number-lt rd)
      (omega arith) (omega arith) (omega arith)

join_upper :
    (imm : ℕ)
    → upper_imm (imm / 2 ^ 12 % 8) (imm / 2 ^ 15 % 32) (imm / 2 ^ 20 % 32) (imm / 2 ^ 25 % 128)
      ≡ imm_upper imm
join_upper imm = omega arith

-- The writers of control transfers and upper immediates append the instruction they are named after.
pub control_writers :
    (c : CodeBuffer) (d a : Register) (imm : ℕ)
    → Appends (write_jal c d imm) c (Instr.jal (reg_number d) (imm21 imm))
      × Appends (write_jalr c d a imm) c (Instr.jalr (reg_number d) (reg_number a) (imm12 imm))
      × Appends (write_lui c d imm) c (Instr.lui (reg_number d) (imm_upper imm))
      × Appends (write_auipc c d imm) c (Instr.auipc (reg_number d) (imm_upper imm))
      × Appends (write_ecall c) c Instr.ecall
      × Appends (write_ebreak c) c Instr.ebreak
unfolding write_jal write_jalr write_lui write_auipc write_ecall write_ebreak decode_fields
control_writers c d a imm = (
  emplace-Appends c _ _ (
      decode-jal_sum _ (reg_number d) imm (reg_number-lt d)
        (omega (arith, encode_j_type-sum d 0x6f imm))),
  emplace-Appends c _ _
      (rw (decode-encode_i_type 0x67 (omega arith) d 0 a imm (omega arith), join_imm imm)),
  emplace-Appends c _ _ (rw (decode-encode_u_type 0x37 d imm (omega arith), join_upper imm)),
  emplace-Appends c _ _ (rw (decode-encode_u_type 0x17 d imm (omega arith), join_upper imm)),
  emplace-Appends c _ _ (decode-encode_i_type 0x73 (omega arith) x_zero 0 x_zero 0 (omega arith)),
  emplace-Appends c _ _ (decode-encode_i_type 0x73 (omega arith) x_zero 0 x_zero 1 (omega arith)),
)
