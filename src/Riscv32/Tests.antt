-- ===== src/Riscv32/Tests.antt =====
-- Runs of the code generator's theorems and definitions at concrete inputs.
use sasc.Prelude.{
  List, zero, suc, ◌≤◌, ◌<◌, ◌↔◌, ◌++◌, All, true, ℕ, ◌+◌, ◌-◌, ◌*◌, ◌%◌, ◌^◌, ◌≡◌, ◌≢◌, refl,
  arith, some, [], ◌∷◌, get_elem?, set,
}
use sasc.Error.{ok}
use sasc.Ir.IrType.{IrType, i8, i32}
use sasc.Ir.Value.{canonical}
use sasc.Riscv32.Register.{Register, x_zero, ra, t0, t1, t2, reg_number}
use sasc.Riscv32.Encode.{encode_j_type}
use sasc.Riscv32.Code.{InstructionFormat, MachineInstruction, CodeBuffer, empty_buffer}
use sasc.Riscv32.Isa.{Instr, Store, decode}
use sasc.Riscv32.Isa.Exec.{Hart}
use sasc.Riscv32.Isa.Run.{Executes, Sets}
use sasc.Riscv32.Decode.{Appends, imm12}
use sasc.Riscv32.Decode.Writers.{write_store, store_writers}
use sasc.Riscv32.Decode.Jumps.{imm_upper, imm21, control_writers}
use sasc.Riscv32.Code.{write_jal, write_jalr, write_lui, write_auipc, write_ecall, write_ebreak}
use sasc.Ir.Defs.{find_vreg}
use sasc.Riscv32.Alloc.{
  RegSlot, slot_registers, Generator, spill_offset, load_src_vreg, truncate_shift, write_truncate,
}
use sasc.Riscv32.Alloc.Eviction.{load_src_vreg-aliases}
use sasc.Riscv32.Function.Frame.{spill_offset-apart, padded_stack_size-below}
use sasc.Riscv32.Truncate.{write_truncate-canonical}
use sasc.Riscv32.Lower.{write_load_imm}
use sasc.Riscv32.LoadImm.{write_load_imm-value}
use sasc.Riscv32.Backpatch.{backpatch}
use sasc.Riscv32.Backpatch.Reach.{backpatch-reaches}
use sasc.Riscv32.Function.{padded_stack_size, shift_main_offset, call_main}
use sasc.Riscv32.Runtime.{call_main-reaches, call_main-misses}

-- A hart whose register n holds 1000 n.
abbrev hart : Hart
hart = record { pc = 0x10000; regs = λ n. 1000 * n; mem = λ n. 0 }

t0_nonzero : reg_number t0 ≢ 0
unfolding reg_number
t0_nonzero = omega arith

hart_word : hart.regs (reg_number t0) ≡ 5000
unfolding reg_number
hart_word = refl

-- 0x12345fff needs the correction for the sign of its low part.
write_load_imm-value_example :
    (h' : Hart) × Executes empty_buffer (write_load_imm t0 0x12345fff empty_buffer) hart h'
    × Sets hart h' (reg_number t0) 0x12345fff
write_load_imm-value_example = write_load_imm-value empty_buffer t0 hart t0_nonzero 0x12345fff refl

write_truncate-canonical_example :
    (h' : Hart) × Executes empty_buffer
      (write_truncate i8 t0 (truncate_shift i8) empty_buffer)
      hart
      h'
    × Sets hart h' (reg_number t0) (canonical i8 (hart.regs (reg_number t0)))
write_truncate-canonical_example =
    write_truncate-canonical empty_buffer t0 hart t0_nonzero i8 (omega (arith, hart_word))

abbrev jump : MachineInstruction
jump = record { encoded = encode_j_type 0x6f x_zero 0; fmt = InstructionFormat.j_type }

abbrev jump_body : CodeBuffer
jump_body = record { buf = jump ∷ jump ∷ [] }

backpatch-reaches_example :
    (patched : CodeBuffer) × (m : MachineInstruction) × (offset : ℕ) × (backpatch
        (1 ∷ [])
        8
        jump_body
      ≡ ok patched)
    × (patched.buf ≡ set jump_body.buf 1 m)
    × (get_elem? patched.buf 1 ≡ some m)
    × (decode m.encoded ≡ some (Instr.jal (reg_number x_zero) offset))
    × ((0x10000 + 4 * 1 + offset) % 2 ^ 32 ≡ (0x10000 + 4 * 8) % 2 ^ 32)
backpatch-reaches_example =
    backpatch-reaches jump_body 1 8 0 x_zero 0x10000 refl (omega arith) (omega arith)

call_main-reaches_example :
    (h' : Hart) × Executes empty_buffer (call_main (shift_main_offset 64)) hart h'
    × (h'.pc ≡ (0x10000 + 16 + 64) % 2 ^ 32)
    × (h'.regs 1 ≡ (0x10000 + 8) % 2 ^ 32)
call_main-reaches_example = call_main-reaches hart 64 (omega arith) (refl, refl) refl

-- With `main` 2032 bytes into the object's code.
call_main-misses_example :
    (h' : Hart) × Executes empty_buffer (call_main (shift_main_offset 2032)) hart h'
    × (h'.pc ≡ (0x10000 + 16 + 2032 + 2 ^ 32 - 4096) % 2 ^ 32)
    × (h'.pc ≢ (0x10000 + 16 + 2032) % 2 ^ 32)
call_main-misses_example = call_main-misses hart 2032 (omega arith) (refl, refl) refl

store_writers_example :
    Appends
      (write_store Store.sw empty_buffer t0 t1 (2 ^ 32 - 16))
      empty_buffer
      (Instr.store Store.sw (reg_number t0) (reg_number t1) (imm12 (2 ^ 32 - 16)))
store_writers_example = store_writers empty_buffer t0 t1 (2 ^ 32 - 16) Store.sw

control_writers_example :
    Appends (write_jal empty_buffer ra 2048) empty_buffer (Instr.jal (reg_number ra) (imm21 2048))
    × Appends
        (write_jalr empty_buffer ra t1 2048)
        empty_buffer
        (Instr.jalr (reg_number ra) (reg_number t1) (imm12 2048))
    × Appends
        (write_lui empty_buffer ra 2048)
        empty_buffer
        (Instr.lui (reg_number ra) (imm_upper 2048))
    × Appends
        (write_auipc empty_buffer ra 2048)
        empty_buffer
        (Instr.auipc (reg_number ra) (imm_upper 2048))
    × Appends (write_ecall empty_buffer) empty_buffer Instr.ecall
    × Appends (write_ebreak empty_buffer) empty_buffer Instr.ebreak
control_writers_example = control_writers empty_buffer ra t1 2048

spill_offset-apart_example :
    (spill_offset 3 + 4 ≤ spill_offset 0) × (spill_offset 0 + 4 ≤ 2 ^ 32 - 8)
spill_offset-apart_example = spill_offset-apart 0 3 (omega arith) (omega arith)

-- The second spilled register of two is at -20 in a frame of 16 bytes.
padded_stack_size-below_example :
    (padded_stack_size 2 % 16 ≡ 0)
    × ((spill_offset (2 - 1) < 2 ^ 32 - padded_stack_size 2) ↔ (2 % 4 ≡ 2))
padded_stack_size-below_example = padded_stack_size-below 2 (omega arith) (omega arith)

abbrev filled : List Register → ℕ → List RegSlot
filled [] v = []
filled (r ∷ rs) v =
    record { physical = r; resident = v; occupied = true; dirty = true } ∷ filled rs (suc v)

abbrev words_below : ℕ → List (ℕ × IrType)
words_below zero = []
words_below (suc n) = words_below n ++ (n, i32) ∷ []

-- Registers 0 to 14 are in the slots, and 15 and 16 were spilled.
abbrev full_generator : Generator
full_generator = record {
  registers = filled slot_registers 0;
  spilled_vreg_fp_offsets = (15, spill_offset 0) ∷ (16, spill_offset 1) ∷ [];
  next_to_spill = 2;
  vregs = words_below 17;
  body = empty_buffer;
}

abbrev victim : RegSlot
victim = record { physical = t2; resident = 2; occupied = true; dirty = true }

full_slots :
    All
      (λ s. (s.occupied ≡ true) × (s.dirty ≡ true) × (s.resident ≢ 15) × (s.resident ≢ 16))
      (filled slot_registers 0)
full_slots = (
  (refl, refl, omega arith, omega arith),
  (
    (refl, refl, omega arith, omega arith),
    (
      (refl, refl, omega arith, omega arith),
      (
        (refl, refl, omega arith, omega arith),
        (
          (refl, refl, omega arith, omega arith),
          (
            (refl, refl, omega arith, omega arith),
            (
              (refl, refl, omega arith, omega arith),
              (
                (refl, refl, omega arith, omega arith),
                (
                  (refl, refl, omega arith, omega arith),
                  (
                    (refl, refl, omega arith, omega arith),
                    (
                      (refl, refl, omega arith, omega arith),
                      (
                        (refl, refl, omega arith, omega arith),
                        (
                          (refl, refl, omega arith, omega arith),
                          (
                            (refl, refl, omega arith, omega arith),
                            ((refl, refl, omega arith, omega arith), tt),
                          ),
                        ),
                      ),
                    ),
                  ),
                ),
              ),
            ),
          ),
        ),
      ),
    ),
  ),
)

load_src_vreg-aliases_example :
    (g1 : Generator) × (g2 : Generator) × (s2 : RegSlot) × (load_src_vreg 15 full_generator
      ≡ ok (2, g1))
    × (load_src_vreg 16 g1 ≡ ok (2, g2))
    × (get_elem? g2.registers 2 ≡ some s2)
    × (s2.resident ≡ 16)
unfolding find_vreg
load_src_vreg-aliases_example =
    load_src_vreg-aliases full_generator victim 15 16 i32 i32 i32 refl full_slots (omega arith) refl
      refl refl
