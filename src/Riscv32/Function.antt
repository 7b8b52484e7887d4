-- ===== src/Riscv32/Function.antt =====
-- `lower_function`, `lower_ir` and `build_runtime_code` of CodeGenerator_riscv32.cpp, and the part
-- of `compile` in compile.cpp that puts the start-up code in front.
pub mod Frame
pub mod Return
pub mod Enter
mod Tests
use sasc.Prelude.{
  ℕ, ◌+◌, ◌-◌, ◌*◌, ◌/◌, ◌%◌, ◌^◌, Bool, false, ◌||◌, Option, none, some, List, [], ◌∷◌, ◌++◌, map,
  length, get_elem?, String, ◌==◌, if◌then◌else◌,
}
use sasc.Error.{semantic_error, unsupported, uncaught, Result, ok, err, ◌>>=◌}
use sasc.Ir.Defs.{BasicBlock, Function}
use sasc.Riscv32.Register.{x_zero, ra, sp, fp, a7}
use sasc.Riscv32.Code.{
  CodeBuffer, empty_buffer, cur_offset, dump_to_bytes, write_addi, write_sw, write_lw, write_jalr,
  write_auipc, write_ecall, write_nop,
}
use sasc.Riscv32.Alloc.{RegSlot, fresh_slot, slot_registers, Generator}
use sasc.Riscv32.Lower.{lower_block}
use sasc.Riscv32.Backpatch.{backpatch}
use text.Mathlib.Text.{◌==◌ as str_eq}

-- `struct Object` of backend/objwriter/ObjectWriter.hpp.
pub record Entry : Type 0 where
  pub name : String
  pub code_offset : ℕ

pub record Object : Type 0 where
  pub functions : List Entry
  pub code : List ℕ

abbrev pub fresh_slots : List RegSlot
fresh_slots = map fresh_slot slot_registers

-- The state that a function starts from; the slots are those that the last one left.
unfoldable pub reset : List RegSlot → Function → Generator
reset slots fn = record {
  registers = slots;
  spilled_vreg_fp_offsets = [];
  next_to_spill = 0;
  vregs = fn.vregs;
  body = empty_buffer;
}

contains : ℕ → List ℕ → Bool
contains i [] = false
contains i (j ∷ js) = i == j || contains i js

-- The traversal: a stack of blocks to visit, and those seen. A return pushes no successor, and no
-- other terminator is lowered. The result has the positions that jump to the epilogue.
unfoldable pub visit : List BasicBlock → List ℕ → Generator → Result (List ℕ × Generator)
unfolding contains lower_block
visit [] seen g = ok ([], g)
visit (bb ∷ to_visit) seen g =
    let lowered : Result (List ℕ × Generator) = do
      (pos, g1) ← lower_block bb g
      (rest, g2) ← visit to_visit (bb.id ∷ seen) g1
      ok (pos ∷ rest, g2)
    in let skipped = visit to_visit seen g in if contains bb.id seen then skipped else lowered

unfoldable pub write_nops : ℕ → CodeBuffer → CodeBuffer
unfolding write_nop
write_nops ℕ.zero c = c
write_nops (ℕ.suc n) c = write_nops n (write_nop c).0

-- The frame: 8 bytes for the saved registers, 4 for each spilled one, rounded up to 16.
unfoldable pub padded_stack_size : ℕ → ℕ
padded_stack_size spills = (8 + spills * 4 + 15) / 16 * 16

-- `uint32_t(-n)` and `uint32_t(n)` of an `int32_t`.
abbrev pub negated : ℕ → ℕ
negated n = (2 ^ 32 - n) % 2 ^ 32

unfoldable pub build_prologue : ℕ → CodeBuffer
unfolding write_addi write_sw
build_prologue padded =
    let c1 = (write_addi empty_buffer sp sp (negated padded)).0 in
    let c2 = (write_sw c1 sp ra (padded - 4)).0 in
    let c3 = (write_sw c2 sp fp (padded - 8)).0 in (write_addi c3 fp sp padded).0

unfoldable pub build_epilogue : CodeBuffer
unfolding write_addi write_lw write_jalr
build_epilogue =
    let c1 = (write_addi empty_buffer sp fp 0).0 in
    let c2 = (write_lw c1 fp sp (negated 8)).0 in
    let c3 = (write_lw c2 ra sp (negated 4)).0 in (write_jalr c3 x_zero ra 0).0

-- The entry block is at place `entry`; a pointer to no block does not occur.
unfoldable pub lower_function : Function → List RegSlot × Object → Result (List RegSlot × Object)
unfolding reset visit write_nops backpatch padded_stack_size build_prologue build_epilogue
    dump_to_bytes cur_offset
lower_function fn (slots, obj) = elim (get_elem? fn.blocks fn.entry) [
  | none ↦ err uncaught
  | some entry ↦ do
    (tasks, g) ← visit (entry ∷ []) [] (reset slots fn)
    let body = write_nops 6 g.body
    patched ← backpatch tasks (cur_offset body) body
    let padded = padded_stack_size (length g.spilled_vreg_fp_offsets)
    let entry_of_fn : Entry = record { name = fn.name; code_offset = length obj.code }
    let code1 = dump_to_bytes (build_prologue padded) obj.code
    let code2 = dump_to_bytes patched code1
    let code3 = dump_to_bytes build_epilogue code2
    ok (g.registers, record { functions = obj.functions ++ entry_of_fn ∷ []; code = code3 })
]

lower_functions : List Function → List RegSlot × Object → Result Object
unfolding lower_function
lower_functions [] (slots, obj) = ok obj
lower_functions (f ∷ fs) state = do next ← lower_function f state; lower_functions fs next

-- The functions in the order in which the object's map yields them: the map is unordered, and the list
-- stands for one of its orders.
unfoldable pub lower_ir : List Function → Result Object
unfolding lower_functions
lower_ir fns = lower_functions fns (fresh_slots, record { functions = []; code = [] })

-- `uint32_t(main_offset) + 16`: the four instructions of the start-up code stand in front.
unfoldable pub shift_main_offset : ℕ → ℕ
shift_main_offset main_offset = (main_offset % 2 ^ 32 + 16) % 2 ^ 32

unfoldable pub call_main : ℕ → CodeBuffer
unfolding write_auipc write_jalr
call_main shifted = (write_jalr (write_auipc empty_buffer ra shifted).0 ra ra shifted).0

unfoldable pub runtime_words : ℕ → CodeBuffer
unfolding shift_main_offset call_main write_addi write_ecall
runtime_words main_offset =
    (write_ecall (write_addi (call_main (shift_main_offset main_offset)) a7 x_zero 93).0).0

-- Of the operating systems of backend/Target.hpp only Linux is supported.
unfoldable pub build_runtime_code : ℕ → Bool → Result (List ℕ)
unfolding runtime_words dump_to_bytes
build_runtime_code main_offset is_linux =
    if is_linux then ok (dump_to_bytes (runtime_words main_offset) []) else err unsupported

find_main : List Entry → Option ℕ
find_main [] = none
find_main (e ∷ es) = if str_eq e.name "main" then some e.code_offset else find_main es

-- The start-up code is put in front of the object's code.
unfoldable pub link : Bool → Object → Result Object
unfolding find_main build_runtime_code
link is_linux obj = elim (find_main obj.functions) [
  | none ↦ err semantic_error
  | some main_offset ↦ do
    runtime_code ← build_runtime_code main_offset is_linux
    ok (record obj { code = runtime_code ++ obj.code })
]
