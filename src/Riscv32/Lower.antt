-- ===== src/Riscv32/Lower.antt =====
-- The body of `lower_function` in CodeGenerator_riscv32.cpp: the switch over the opcodes, the
-- terminator and the spill at the end of a block.
use sasc.Prelude.{
  ℕ, zero, suc, ◌+◌, ◌*◌, ◌%◌, ◌^◌, Bool, false, Option, none, some, List, [], ◌∷◌, length, map,
  ltb, ◌==◌, if◌then◌else◌, bit_and,
}
use sasc.Error.{unimplemented, uncaught, Result}
use sasc.Ir.IrType.{get_size, is_signed}
use sasc.Ir.Defs.{Op, Instruction, return_kind, Terminator, BasicBlock}
use sasc.Riscv32.Register.{Register, x_zero, a0}
use sasc.Riscv32.Encode.{lower_bitmask}
use sasc.Riscv32.Code.{
  CodeBuffer, write_add, write_sub, write_mul, write_div, write_divu, write_rem, write_remu,
  write_and, write_or, write_xor, write_sll, write_srl, write_sra, write_slt, write_sltu,
  write_sltiu, write_xori, write_addi, write_lui, write_jal,
}
use sasc.Riscv32.Alloc.{
  RegSlot, M, ◌>>=◌, ◌>>◌, return, throw, emit, slot_at, spill_slot, get_empty_slot, load_src_vreg,
  load_dest_vreg, truncate_reg, type_of_vreg,
}

abbrev i_type_immediate_max_size : ℕ
i_type_immediate_max_size = 4095

-- `if ((x & (1 << 11)) != 0) x += (1 << 12);` on a `uint32_t`.
unfoldable pub cancel_sign : ℕ → ℕ
cancel_sign x = if bit_and x (2 ^ 11) == 0 then x else (x + 2 ^ 12) % 2 ^ 32

-- `LoadImm` into a register.
unfoldable pub write_load_imm : Register → ℕ → CodeBuffer → CodeBuffer
unfolding cancel_sign
write_load_imm r value c =
    let immediate = cancel_sign (value % 2 ^ 32) in
    if ltb i_type_immediate_max_size immediate
    then (write_addi (write_lui c r immediate).0 r r immediate).0
    else (write_addi c r x_zero immediate).0

-- A pass over the buffer as a writer whose position is not used.
abbrev pub edit : (CodeBuffer → CodeBuffer) → M (Unit {0})
edit f = emit (λ c. (f c, 0))

-- The registers of three slots, which every binary operation asks for in this order.
pub record Operands : Type 0 where
  pub dest_slot : ℕ
  pub op1_slot : ℕ
  pub op2_slot : ℕ

unfoldable pub load_operands : Instruction → M Operands
unfolding load_dest_vreg load_src_vreg
load_operands instr = do
  dest ← load_dest_vreg instr.dest
  op1 ← load_src_vreg instr.op1
  op2 ← load_src_vreg instr.op2
  return (record { dest_slot = dest; op1_slot = op1; op2_slot = op2 })

-- One instruction on the slots' registers.
abbrev pub emit3 :
    (CodeBuffer → Register → Register → Register → CodeBuffer × ℕ) → ℕ → ℕ → ℕ → M (Unit {0})
emit3 write d a b = do
  dest ← slot_at d
  op1 ← slot_at a
  op2 ← slot_at b
  emit (λ c. write c dest.physical op1.physical op2.physical)

-- `Add`, `Sub`, `Mul`, `BitAnd`, `BitOr`, `BitXor`, `BitShl`: the operands as they are.
unfoldable pub lower_plain :
    (CodeBuffer → Register → Register → Register → CodeBuffer × ℕ) → Instruction → M (Unit {0})
unfolding load_operands slot_at
lower_plain write instr = do s ← load_operands instr; emit3 write s.dest_slot s.op1_slot s.op2_slot

-- `Div`, `Rem` and the comparisons: both operands truncated, and a form for each signedness of the
-- first operand's type.
unfoldable pub lower_truncated :
    (Bool → CodeBuffer → Register → Register → Register → CodeBuffer × ℕ) → Instruction → M Operands
unfolding load_operands slot_at truncate_reg type_of_vreg is_signed
lower_truncated write instr = do
  op_type ← type_of_vreg instr.op1
  s ← load_operands instr
  truncate_reg s.op1_slot
  truncate_reg s.op2_slot
  emit3 (write (is_signed op_type)) s.dest_slot s.op1_slot s.op2_slot
  return s

unfoldable pub lower_shift_right : Instruction → M (Unit {0})
unfolding load_operands slot_at truncate_reg type_of_vreg is_signed
lower_shift_right instr = do
  op_type ← type_of_vreg instr.op1
  s ← load_operands instr
  truncate_reg s.op1_slot
  emit3 (if is_signed op_type then write_sra else write_srl) s.dest_slot s.op1_slot s.op2_slot

-- What follows a comparison, on the destination alone.
abbrev pub finish_dest : (CodeBuffer → Register → CodeBuffer × ℕ) → Operands → M (Unit {0})
finish_dest write s = do dest ← slot_at s.dest_slot; emit (λ c. write c dest.physical)

abbrev by_sign :
    (CodeBuffer → Register → Register → Register → CodeBuffer × ℕ)
    → (CodeBuffer → Register → Register → Register → CodeBuffer × ℕ)
    → Bool
    → CodeBuffer
    → Register
    → Register
    → Register
    → CodeBuffer × ℕ
by_sign signed unsigned b = if b then signed else unsigned

-- The operands of `slt` in either order.
abbrev less : Bool → CodeBuffer → Register → Register → Register → CodeBuffer × ℕ
less = by_sign write_slt write_sltu

abbrev greater : Bool → CodeBuffer → Register → Register → Register → CodeBuffer × ℕ
greater b c dest op1 op2 = by_sign write_slt write_sltu b c dest op2 op1

abbrev negate_dest : CodeBuffer → Register → CodeBuffer × ℕ
negate_dest c dest = write_xori c dest dest 1

unfoldable pub lower_load_imm : Instruction → M (Unit {0})
unfolding load_dest_vreg slot_at write_load_imm
lower_load_imm instr = do
  d ← load_dest_vreg instr.dest
  dest ← slot_at d
  edit (write_load_imm dest.physical instr.immediate)

unfoldable pub lower_neg : Instruction → M (Unit {0})
unfolding load_dest_vreg load_src_vreg slot_at write_sub
lower_neg instr = do
  d ← load_dest_vreg instr.dest
  a ← load_src_vreg instr.op1
  dest ← slot_at d
  src ← slot_at a
  emit (λ c. write_sub c dest.physical x_zero src.physical)

-- The mask needs a scratch register where it does not fit an I-type immediate.
unfoldable pub lower_bit_not : Instruction → M (Unit {0})
unfolding load_dest_vreg load_src_vreg slot_at type_of_vreg get_size lower_bitmask cancel_sign
    get_empty_slot write_lui write_addi write_xor write_xori
lower_bit_not instr = do
  d ← load_dest_vreg instr.dest
  a ← load_src_vreg instr.op1
  resident ← slot_at a
  t ← type_of_vreg resident.resident
  let flip_mask = cancel_sign (lower_bitmask (get_size t * 8))
  let wide : M (Unit {0}) = do
    scratch ← get_empty_slot
    op2 ← slot_at scratch
    emit (λ c. write_lui c op2.physical flip_mask)
    emit (λ c. write_addi c op2.physical op2.physical flip_mask)
    emit3 write_xor d scratch a
  let narrow : M (Unit {0}) = do
    dest ← slot_at d
    op1 ← slot_at a
    emit (λ c. write_xori c dest.physical op1.physical flip_mask)
  if ltb i_type_immediate_max_size flip_mask then wide else narrow

unfoldable pub lower_op : Op → Instruction → M (Unit {0})
unfolding lower_load_imm lower_plain lower_truncated lower_shift_right lower_neg lower_bit_not
lower_op Op.load_imm instr = lower_load_imm instr
lower_op Op.add instr = lower_plain write_add instr
lower_op Op.sub instr = lower_plain write_sub instr
lower_op Op.mul instr = lower_plain write_mul instr
lower_op Op.div instr = do _ ← lower_truncated (by_sign write_div write_divu) instr; return tt
lower_op Op.rem instr = do _ ← lower_truncated (by_sign write_rem write_remu) instr; return tt
lower_op Op.bit_and instr = lower_plain write_and instr
lower_op Op.bit_or instr = lower_plain write_or instr
lower_op Op.bit_xor instr = lower_plain write_xor instr
lower_op Op.bit_not instr = lower_bit_not instr
lower_op Op.bit_shl instr = lower_plain write_sll instr
lower_op Op.bit_shr instr = lower_shift_right instr
lower_op Op.neg instr = lower_neg instr
lower_op Op.cmp_eq instr = do
  s ← lower_truncated (λ b. write_xor) instr
  finish_dest (λ c dest. write_sltiu c dest dest 1) s
lower_op Op.cmp_ne instr = do
  s ← lower_truncated (λ b. write_xor) instr
  finish_dest (λ c dest. write_sltu c dest x_zero dest) s
lower_op Op.cmp_gt instr = do _ ← lower_truncated greater instr; return tt
lower_op Op.cmp_gte instr = do s ← lower_truncated less instr; finish_dest negate_dest s
lower_op Op.cmp_lt instr = do _ ← lower_truncated less instr; return tt
lower_op Op.cmp_lte instr = do s ← lower_truncated greater instr; finish_dest negate_dest s
lower_op _ instr = throw unimplemented

unfoldable pub lower_instructions : List Instruction → M (Unit {0})
unfolding lower_op
lower_instructions [] = return tt
lower_instructions (i ∷ is) = do lower_op i.opcode i; lower_instructions is

-- The terminator, with the position of the jump to the epilogue.
unfoldable pub lower_return : Option ℕ → M ℕ
unfolding load_src_vreg truncate_reg slot_at write_addi write_jal
lower_return ret_reg = do
  elim ret_reg [
    | none ↦ return tt
    | some v ↦ do
      i ← load_src_vreg v
      truncate_reg i
      slot ← slot_at i
      emit (λ c. write_addi c a0 slot.physical 0)
  ]
  λ g. let (body, pos) = write_jal g.body x_zero 0 in Result.ok (pos, record g { body = body })

-- The code switches on a kind that nothing has written where a function has no return, which has no
-- defined behaviour; it is the error `uncaught` here.
unfoldable pub lower_terminator : Terminator → M ℕ
unfolding lower_return
lower_terminator t = elim t.kind [
  | some return_kind ↦ lower_return t.ret_reg
  | some _ ↦ throw unimplemented
  | none ↦ throw uncaught
]

-- `for (RegSlot &slot : registers) if (slot.dirty) spill_slot(body, slot);` from place `i` on.
unfoldable pub spill_dirty : ℕ → ℕ → M (Unit {0})
unfolding slot_at spill_slot
spill_dirty zero i = return tt
spill_dirty (suc n) i = do
  slot ← slot_at i
  if slot.dirty then spill_slot i else return tt
  spill_dirty n (suc i)

abbrev clear_slot : RegSlot → RegSlot
clear_slot s = record s { occupied = false; dirty = false }

unfoldable pub clear_slots : M (Unit {0})
clear_slots g = Result.ok (tt, record g { registers = map clear_slot g.registers })

-- A block: its instructions, its terminator, and the spill of what is dirty.
unfoldable pub lower_block : BasicBlock → M ℕ
unfolding clear_slots lower_instructions lower_terminator spill_dirty
lower_block bb = do
  clear_slots
  lower_instructions bb.instructions
  pos ← lower_terminator bb.terminator
  λ g. (do spill_dirty (length g.registers) 0; return pos) g
