-- ===== src/Riscv32/Decode.antt =====
-- What the encoded words decode to, by instruction format.
pub mod Writers
pub mod Jumps
use sasc.Prelude.{
  ℕ, ◌+◌, ◌*◌, ◌/◌, ◌%◌, ◌^◌, ◌<◌, ◌≡◌, refl, some, [], ◌∷◌, ◌++◌, length, length-append, arith,
}
use sasc.Prelude.Words.{sext}
use sasc.Riscv32.Register.{Register, reg_number, reg_number-lt}
use sasc.Riscv32.Encode.{encode_r_type, encode_i_type, encode_s_type}
use sasc.Riscv32.Encode.Fields.{encode_r_type-sum, encode_i_type-sum, encode_s_type-sum}
use sasc.Riscv32.Code.{InstructionFormat, MachineInstruction, CodeBuffer, emplace}
use sasc.Riscv32.Isa.{Instr, decode_fields, decode}

-- A writer leaves what the buffer held, appends one instruction that decodes to `i`, and returns
-- where that stands.
pub record Appends (r : CodeBuffer × ℕ) (c : CodeBuffer) (i : Instr) : Type 0 where
  pub added : MachineInstruction
  pub grown : r.0.buf ≡ c.buf ++ added ∷ []
  pub decoded : decode added.encoded ≡ some i
  pub place : r.1 ≡ length c.buf

pub emplace-Appends :
    (c : CodeBuffer) (word : ℕ) (format : InstructionFormat) {i : Instr}
    → decode word ≡ some i
    → Appends (emplace c word format) c i
unfolding emplace
emplace-Appends c word format h =
    let m : MachineInstruction = record { encoded = word; fmt = format } in
    record {
      added = m;
      grown = refl;
      decoded = h;
      place = omega (arith, length-append {0} c.buf (m ∷ []));
    }

-- A word given as the sum of its fields decodes by them.
pub decode-sum :
    (w opcode rd f3 rs1 rs2 f7 : ℕ)
    → w ≡ opcode + rd * 2 ^ 7 + f3 * 2 ^ 12 + rs1 * 2 ^ 15 + rs2 * 2 ^ 20 + f7 * 2 ^ 25
    → opcode < 2 ^ 7
    → rd < 2 ^ 5
    → f3 < 2 ^ 3
    → rs1 < 2 ^ 5
    → rs2 < 2 ^ 5
    → decode w ≡ decode_fields opcode rd f3 rs1 rs2 f7
unfolding decode
decode-sum w opcode rd f3 rs1 rs2 f7 e ho hd h3 h1 h2 =
    let p : (w % 2 ^ 7 ≡ opcode) × (w / 2 ^ 7 % 2 ^ 5 ≡ rd) × (w / 2 ^ 12 % 2 ^ 3 ≡ f3) =
      omega arith in
    let q : (w / 2 ^ 15 % 2 ^ 5 ≡ rs1) × (w / 2 ^ 20 % 2 ^ 5 ≡ rs2) × (w / 2 ^ 25 ≡ f7) =
      omega arith in
    rw (p.0, p.1, p.2, q.0, q.1, q.2)

module _ (opcode : ℕ) (ho : opcode < 2 ^ 7) where
  pub decode-encode_r_type :
      (rd : Register) (f3 : ℕ) (rs1 rs2 : Register) (f7 : ℕ)
      → f3 < 2 ^ 3
      → f7 < 2 ^ 7
      → decode (encode_r_type opcode rd f3 rs1 rs2 f7)
        ≡ decode_fields opcode (reg_number rd) f3 (reg_number rs1) (reg_number rs2) f7
  decode-encode_r_type rd f3 rs1 rs2 f7 h3 h7 =
      decode-sum _ opcode (reg_number rd) f3 (reg_number rs1) (reg_number rs2) f7
        (omega (arith, encode_r_type-sum rd rs1 rs2 opcode f3 f7)) ho (reg_number-lt rd) h3
        (reg_number-lt rs1) (reg_number-lt rs2)

  -- The immediate is cut into the places of the second source and of funct7.
  pub decode-encode_i_type_split :
      (rd : Register) (f3 : ℕ) (rs1 : Register) (imm lo hi : ℕ)
      → f3 < 2 ^ 3
      → lo < 2 ^ 5
      → imm % 2 ^ 12 ≡ lo + 32 * hi
      → decode (encode_i_type opcode rd f3 rs1 imm)
        ≡ decode_fields opcode (reg_number rd) f3 (reg_number rs1) lo hi
  decode-encode_i_type_split rd f3 rs1 imm lo hi h3 hl e =
      decode-sum _ opcode (reg_number rd) f3 (reg_number rs1) lo hi
        (omega (arith, encode_i_type-sum rd rs1 rs1 opcode f3 imm)) ho (reg_number-lt rd) h3
        (reg_number-lt rs1) hl

  pub decode-encode_i_type :
      (rd : Register) (f3 : ℕ) (rs1 : Register) (imm : ℕ)
      → f3 < 2 ^ 3
      → decode (encode_i_type opcode rd f3 rs1 imm)
        ≡ decode_fields opcode (reg_number rd) f3 (reg_number rs1) (imm % 32) (imm / 32 % 128)
  decode-encode_i_type rd f3 rs1 imm h3 =
      decode-encode_i_type_split rd f3 rs1 imm (imm % 32) (imm / 32 % 128) h3 (omega arith)
        (omega arith)

  pub decode-encode_s_type :
      (f3 : ℕ) (rs1 rs2 : Register) (imm : ℕ)
      → f3 < 2 ^ 3
      → decode (encode_s_type opcode f3 rs1 rs2 imm)
        ≡ decode_fields opcode (imm % 32) f3 (reg_number rs1) (reg_number rs2) (imm / 32 % 128)
  decode-encode_s_type f3 rs1 rs2 imm h3 =
      decode-sum _ opcode (imm % 32) f3 (reg_number rs1) (reg_number rs2) (imm / 32 % 128)
        (omega (arith, encode_s_type-sum rs1 rs1 rs2 opcode f3 imm)) ho (omega arith) h3
        (reg_number-lt rs1) (reg_number-lt rs2)

pub join_imm : (imm : ℕ) → imm % 32 + 32 * (imm / 32 % 128) ≡ imm % 4096
join_imm imm = omega arith

-- The immediate of an I-type or S-type instruction, as the hart reads it.
abbrev pub imm12 : ℕ → ℕ
imm12 imm = sext 2048 (imm % 4096)
