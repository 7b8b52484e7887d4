-- ===== src/Riscv32/Isa.antt =====
-- What the words that the code generator writes mean: the base instruction set RV32I with the
-- multiplication and division extension M, as its manual defines them. This is the specification
-- that the encoders and the lowering are held to, and models no code of the repository.
pub mod Exec
pub mod Memory
pub mod Run
use sasc.Prelude.{ℕ, ◌+◌, ◌-◌, ◌*◌, ◌/◌, ◌%◌, ◌^◌, Option, none, some, ltb, ◌==◌, if◌then◌else◌}
use sasc.Prelude.Words.{sext}

-- Register to register, register to immediate, shifts by a constant, loads and stores.
pub data ROp : Type 0 where
  add sub xor or and sll srl sra slt sltu : ROp
  mul mulh mulhsu mulhu div divu rem remu : ROp

pub data IOp : Type 0 where
  addi slti sltiu xori ori andi slli srli srai : IOp

pub data Load : Type 0 where
  lb lh lw lbu lhu : Load

pub data Store : Type 0 where
  sb sh sw : Store

-- Registers are numbers; an immediate is a 32-bit word, sign-extended already.
pub data Instr : Type 0 where
  op : ROp → ℕ → ℕ → ℕ → Instr
  op_imm : IOp → ℕ → ℕ → ℕ → Instr
  load : Load → ℕ → ℕ → ℕ → Instr
  store : Store → ℕ → ℕ → ℕ → Instr
  jal : ℕ → ℕ → Instr
  jalr : ℕ → ℕ → ℕ → Instr
  lui auipc : ℕ → ℕ → Instr
  ecall ebreak : Instr

unfoldable pub base_op : ℕ → ROp
base_op f3 =
    if f3 == 0
    then ROp.add
    else if f3 == 1
    then ROp.sll
    else if f3 == 2
    then ROp.slt
    else if f3 == 3
    then ROp.sltu
    else if f3 == 4
    then ROp.xor
    else if f3 == 5
    then ROp.srl
    else if f3 == 6
    then ROp.or
    else ROp.and

unfoldable pub mul_op : ℕ → ROp
mul_op f3 =
    if f3 == 0
    then ROp.mul
    else if f3 == 1
    then ROp.mulh
    else if f3 == 2
    then ROp.mulhsu
    else if f3 == 3
    then ROp.mulhu
    else if f3 == 4
    then ROp.div
    else if f3 == 5
    then ROp.divu
    else if f3 == 6
    then ROp.rem
    else ROp.remu

unfoldable pub decode_op : ℕ → ℕ → Option ROp
unfolding base_op mul_op
decode_op f7 f3 =
    if f7 == 0
    then some (base_op f3)
    else if f7 == 1
    then some (mul_op f3)
    else if f7 == 32
    then (if f3 == 0 then some ROp.sub else if f3 == 5 then some ROp.sra else none)
    else none

unfoldable pub decode_imm : ℕ → ℕ → ℕ → ℕ → ℕ → Option Instr
decode_imm rd f3 rs1 rs2 f7 =
    let imm = sext 2048 (rs2 + 32 * f7) in
    if f3 == 0
    then some (op_imm IOp.addi rd rs1 imm)
    else if f3 == 1
    then (if f7 == 0 then some (op_imm IOp.slli rd rs1 rs2) else none)
    else if f3 == 2
    then some (op_imm IOp.slti rd rs1 imm)
    else if f3 == 3
    then some (op_imm IOp.sltiu rd rs1 imm)
    else if f3 == 4
    then some (op_imm IOp.xori rd rs1 imm)
    else if f3 == 5
    then (if f7 == 0
        then some (op_imm IOp.srli rd rs1 rs2)
        else if f7 == 32
        then some (op_imm IOp.srai rd rs1 rs2)
        else none)
    else if f3 == 6
    then some (op_imm IOp.ori rd rs1 imm)
    else some (op_imm IOp.andi rd rs1 imm)

unfoldable pub decode_load : ℕ → ℕ → ℕ → ℕ → Option Instr
decode_load rd f3 rs1 imm =
    if f3 == 0
    then some (load Load.lb rd rs1 imm)
    else if f3 == 1
    then some (load Load.lh rd rs1 imm)
    else if f3 == 2
    then some (load Load.lw rd rs1 imm)
    else if f3 == 4
    then some (load Load.lbu rd rs1 imm)
    else if f3 == 5
    then some (load Load.lhu rd rs1 imm)
    else none

unfoldable pub decode_store : ℕ → ℕ → ℕ → ℕ → Option Instr
decode_store f3 rs1 rs2 imm =
    if f3 == 0
    then some (store Store.sb rs1 rs2 imm)
    else if f3 == 1
    then some (store Store.sh rs1 rs2 imm)
    else if f3 == 2
    then some (store Store.sw rs1 rs2 imm)
    else none

-- The offset of a jump, put together from the scattered pieces of the upper 20 bits.
abbrev pub jump_offset : ℕ → ℕ → ℕ → ℕ → ℕ
jump_offset f3 rs1 rs2 f7 =
    sext (2 ^ 20)
      ((rs2 / 2 + f7 % 64 * 16) * 2 + rs2 % 2 * 2 ^ 11 + (f3 + rs1 * 8) * 2 ^ 12 + f7 / 64 * 2 ^ 20)

abbrev pub upper_imm : ℕ → ℕ → ℕ → ℕ → ℕ
upper_imm f3 rs1 rs2 f7 = f3 * 2 ^ 12 + rs1 * 2 ^ 15 + rs2 * 2 ^ 20 + f7 * 2 ^ 25

-- By opcode, destination, funct3, both sources and funct7.
unfoldable pub decode_fields : ℕ → ℕ → ℕ → ℕ → ℕ → ℕ → Option Instr
unfolding decode_op decode_imm decode_load decode_store
decode_fields opcode rd f3 rs1 rs2 f7 =
    let imm = sext 2048 (rs2 + 32 * f7) in
    if opcode == 0x33
    then elim (decode_op f7 f3) [ some o ↦ some (op o rd rs1 rs2) | none ↦ none ]
    else if opcode == 0x13
    then decode_imm rd f3 rs1 rs2 f7
    else if opcode == 0x03
    then decode_load rd f3 rs1 imm
    else if opcode == 0x23
    then decode_store f3 rs1 rs2 (sext 2048 (rd + 32 * f7))
    else if opcode == 0x6f
    then some (jal rd (jump_offset f3 rs1 rs2 f7))
    else if opcode == 0x67
    then (if f3 == 0 then some (jalr rd rs1 imm) else none)
    else if opcode == 0x37
    then some (lui rd (upper_imm f3 rs1 rs2 f7))
    else if opcode == 0x17
    then some (auipc rd (upper_imm f3 rs1 rs2 f7))
    else if opcode == 0x73
    then (if rs2 + 32 * f7 == 0
        then some ecall
        else if rs2 + 32 * f7 == 1
        then some ebreak
        else none)
    else none

unfoldable pub decode : ℕ → Option Instr
decode w =
    decode_fields (w % 2 ^ 7) (w / 2 ^ 7 % 2 ^ 5) (w / 2 ^ 12 % 2 ^ 3) (w / 2 ^ 15 % 2 ^ 5)
      (w / 2 ^ 20 % 2 ^ 5) (w / 2 ^ 25)
