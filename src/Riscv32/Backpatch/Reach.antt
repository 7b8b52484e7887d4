-- ===== src/Riscv32/Backpatch/Reach.antt =====
-- What the backpatched jumps of `lower_function` in CodeGenerator_riscv32.cpp reach.
use sasc.Prelude.{
  ℕ, ◌+◌, ◌-◌, ◌*◌, ◌%◌, ◌^◌, ◌<◌, ◌≤◌, ◌≡◌, refl, some, [], ◌∷◌, get_elem?, set,
  get_elem?-set_self, get_elem?-lt, arith, bit_and,
}
use sasc.Prelude.Bits.{bit_and-ones}
use sasc.Error.{ok}
use sasc.Riscv32.Register.{Register, reg_number, reg_number-lt}
use sasc.Riscv32.Encode.{lower_bitmask, encode_j_type}
use sasc.Riscv32.Encode.Fields.{encode_j_type-sum, j_fields}
use sasc.Riscv32.Code.{InstructionFormat, MachineInstruction, CodeBuffer}
use sasc.Riscv32.Decode.Jumps.{imm21, decode-jal_sum}
use sasc.Riscv32.Isa.{Instr, decode}
use sasc.Riscv32.Backpatch.{patch_j_type, patch, backpatch}

-- What the patch keeps of a jump: the opcode and the register.
kept :
    (rd : Register) (imm : ℕ)
    → bit_and (encode_j_type 0x6f rd imm) 4095 ≡ 0x6f + reg_number rd * 2 ^ 7
kept rd imm = omega (
  arith,
  bit_and-ones 12 (encode_j_type 0x6f rd imm),
  encode_j_type-sum rd 0x6f imm,
  reg_number-lt rd,
)

-- A patched `jal` jumps by the new offset, whatever the old one was.
pub decode-patch_j_type :
    (rd : Register) (imm offset : ℕ)
    → decode (patch_j_type (encode_j_type 0x6f rd imm) offset)
      ≡ some (Instr.jal (reg_number rd) (imm21 offset))
unfolding patch_j_type lower_bitmask
decode-patch_j_type rd imm offset =
    let b = reg_number-lt rd in
    decode-jal_sum _ (reg_number rd) offset b (j_fields offset (kept rd imm) (omega arith))

abbrev jump_instr : Register → ℕ → MachineInstruction
jump_instr rd imm = record { encoded = encode_j_type 0x6f rd imm; fmt = InstructionFormat.j_type }

module _ (body : CodeBuffer) (pos epilogue imm : ℕ) (rd : Register) where
  abbrev patched_body : CodeBuffer
  patched_body = record {
    buf = set body.buf pos (record (jump_instr rd imm) {
      encoded = patch_j_type (encode_j_type 0x6f rd imm) (4 * (epilogue - pos) % 2 ^ 32);
    });
  }

  -- Backpatching a `jal` of the body, less than 2 ^ 18 instructions in front of the epilogue,
  -- succeeds, and leaves at its place a `jal` whose target is the epilogue, wherever the body is
  -- put; the other places of the body are not changed.
  pub backpatch-reaches :
      (base : ℕ)
      → get_elem? body.buf pos ≡ some (jump_instr rd imm)
      → pos ≤ epilogue
      → epilogue - pos < 2 ^ 18
      → (patched : CodeBuffer) × (m : MachineInstruction) × (offset : ℕ) × (backpatch
            (pos ∷ [])
            epilogue
            body
          ≡ ok patched)
        × (patched.buf ≡ set body.buf pos m)
        × (get_elem? patched.buf pos ≡ some m)
        × (decode m.encoded ≡ some (Instr.jal (reg_number rd) offset))
        × ((base + 4 * pos + offset) % 2 ^ 32 ≡ (base + 4 * epilogue) % 2 ^ 32)
  unfolding backpatch patch
  backpatch-reaches base e le near =
      let d = 4 * (epilogue - pos) % 2 ^ 32 in
      let m : MachineInstruction = record {
        encoded = patch_j_type (encode_j_type 0x6f rd imm) d;
        fmt = InstructionFormat.j_type;
      } in
      (
        patched_body,
        m,
        imm21 d,
        rw (e, backpatch),
        refl,
        get_elem?-set_self body.buf pos m (get_elem?-lt body.buf pos e),
        decode-patch_j_type rd imm d,
        ground arith,
      )
