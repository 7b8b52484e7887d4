-- ===== src/Riscv32/Alloc.antt =====
-- The register allocator of CodeGenerator_riscv32.cpp: slots, spilling, and the operations on them,
-- as a state monad with errors over the generator and the code of the body. A `RegSlot *` is the
-- slot's place in the array.
pub mod Slots
pub mod Eviction
use sasc.Prelude.{
  ℕ, suc, ◌+◌, ◌-◌, ◌*◌, ◌%◌, ◌^◌, Bool, true, false, not, ◌&&◌, Option, none, some, List, [], ◌∷◌,
  ◌++◌, length, get_elem?, set, ◌==◌, if◌then◌else◌,
}
use sasc.Error.{Error, uncaught, Result, ok, err}
use sasc.Ir.IrType.{IrType, get_size, is_signed}
use sasc.Ir.Defs.{vreg_at}
use sasc.Riscv32.Register.{Register, fp, t0, t1, t2, t3, t4, t5, t6, a0, a1, a2, a3, a4, a5, a6, a7}
use sasc.Riscv32.Code.{
  CodeBuffer, write_lb, write_lbu, write_lh, write_lhu, write_lw, write_sb, write_sh, write_sw,
  write_slli, write_srai, write_srli,
}

pub record RegSlot : Type 0 where
  pub physical : Register
  pub resident : ℕ
  pub occupied : Bool
  pub dirty : Bool

-- `resident` is not initialised, and not read while the slot is free.
abbrev pub fresh_slot : Register → RegSlot
fresh_slot r = record { physical = r; resident = 0; occupied = false; dirty = false }

abbrev pub slot_registers : List Register
slot_registers = t0 ∷ t1 ∷ t2 ∷ t3 ∷ t4 ∷ t5 ∷ t6 ∷ a0 ∷ a1 ∷ a2 ∷ a3 ∷ a4 ∷ a5 ∷ a6 ∷ a7 ∷ []

-- The offsets of spilled registers are `int32_t`, kept as 32-bit patterns; `vregs` are those of
-- `cur_fn`.
pub record Generator : Type 0 where
  pub registers : List RegSlot
  pub spilled_vreg_fp_offsets : List (ℕ × ℕ)
  pub next_to_spill : ℕ
  pub vregs : List (ℕ × IrType)
  pub body : CodeBuffer

abbrev pub M : Type 0 → Type 0
M A = Generator → Result (A × Generator)

infixl 5 ◌>>=◌ ◌>>◌
abbrev pub ◌>>=◌ : {A B : Type 0} → M A → (A → M B) → M B
◌>>=◌ m f g = elim (m g) [ ok (a, g') ↦ f a g' | err e ↦ err e ]

abbrev pub ◌>>◌ : {B : Type 0} → M (Unit {0}) → M B → M B
m >> k = m >>= λ _. k

abbrev pub return : {A : Type 0} → A → M A
return a g = ok (a, g)

abbrev pub throw : {A : Type 0} → Error → M A
throw e g = err e

-- A call of one of the buffer's writers on the body, whose position is not used.
abbrev pub emit : (CodeBuffer → CodeBuffer × ℕ) → M (Unit {0})
emit write g = ok (tt, record g { body = (write g.body).0 })

-- A dereference of a slot; a place outside the array is `registers.at` throwing.
unfoldable pub slot_at : ℕ → M RegSlot
slot_at i g = elim (get_elem? g.registers i) [ some s ↦ ok (s, g) | none ↦ err uncaught ]

unfoldable pub put_slot : ℕ → RegSlot → M (Unit {0})
put_slot i s g = ok (tt, record g { registers = set g.registers i s })

-- `cur_fn->vregs.at(vreg)`.
unfoldable pub type_of_vreg : ℕ → M IrType
unfolding vreg_at
type_of_vreg v g = elim (vreg_at g.vregs v) [ ok t ↦ ok (t, g) | err e ↦ err e ]

-- The first slot from place `i` on that passes the test.
unfoldable pub find_slot : (RegSlot → Bool) → List RegSlot → ℕ → Option ℕ
find_slot p [] i = none
find_slot p (s ∷ ss) i = if p s then some i else find_slot p ss (suc i)

unfoldable pub find_offset : List (ℕ × ℕ) → ℕ → Option ℕ
find_offset [] v = none
find_offset ((w, o) ∷ m) v = if w == v then some o else find_offset m v

-- `-4 * (size + 4)` is computed in `size_t` and stored as an `int32_t`.
unfoldable pub spill_offset : ℕ → ℕ
spill_offset count = (2 ^ 64 - 4) * (count + 4) % 2 ^ 64 % 2 ^ 32

-- The offset of a spilled register, made at its first spill.
unfoldable pub home_of : ℕ → M ℕ
unfolding find_offset spill_offset
home_of v g = elim (find_offset g.spilled_vreg_fp_offsets v) [
  | some o ↦ ok (o, g)
  | none ↦
      let o = spill_offset (length g.spilled_vreg_fp_offsets) in
      ok (o, record g { spilled_vreg_fp_offsets = g.spilled_vreg_fp_offsets ++ (v, o) ∷ [] })
]

abbrev pub write_spill : IrType → Register → ℕ → CodeBuffer → CodeBuffer × ℕ
write_spill t r offset c =
    if get_size t == 1
    then write_sb c fp r offset
    else if get_size t == 2
    then write_sh c fp r offset
    else write_sw c fp r offset

unfoldable pub spill_slot : ℕ → M (Unit {0})
spill_slot i = do
  slot ← slot_at i
  vreg_type ← type_of_vreg slot.resident
  offset ← home_of slot.resident
  emit (write_spill vreg_type slot.physical offset)
  put_slot i (record slot { dirty = false })

-- `slot->occupied = false; return slot;`
unfoldable pub vacate : ℕ → M ℕ
vacate i = do slot ← slot_at i; put_slot i (record slot { occupied = false }); return i

-- A victim in round robin order, spilled.
unfoldable pub spill_victim : M ℕ
spill_victim g =
    let advance : M (Unit {0}) =
      λ h. ok (tt, record h { next_to_spill = (h.next_to_spill + 1) % length h.registers }) in
    (do advance; spill_slot g.next_to_spill; vacate g.next_to_spill) g

unfoldable pub get_empty_slot : M ℕ
get_empty_slot g = elim (find_slot (λ s. not s.occupied) g.registers 0) [
  | some i ↦ ok (i, g)
  | none ↦ elim (find_slot (λ s. not s.dirty) g.registers 0) [
    | some i ↦ vacate i g
    | none ↦ spill_victim g
  ]
]

-- `spilled_vreg_fp_offsets[vreg]`, which enters 0 for a register that was not spilled.
unfoldable pub offset_or_zero : ℕ → M ℕ
unfolding find_offset
offset_or_zero v g = elim (find_offset g.spilled_vreg_fp_offsets v) [
  | some o ↦ ok (o, g)
  | none ↦ ok (0, record g { spilled_vreg_fp_offsets = g.spilled_vreg_fp_offsets ++ (v, 0) ∷ [] })
]

abbrev pub write_reload : IrType → Register → ℕ → CodeBuffer → CodeBuffer × ℕ
write_reload t r offset c =
    if get_size t == 1
    then (if is_signed t then write_lb c r fp offset else write_lbu c r fp offset)
    else if get_size t == 2
    then (if is_signed t then write_lh c r fp offset else write_lhu c r fp offset)
    else write_lw c r fp offset

unfoldable pub reload : ℕ → M ℕ
reload v = do
  i ← get_empty_slot
  offset ← offset_or_zero v
  vreg_type ← type_of_vreg v
  slot ← slot_at i
  emit (write_reload vreg_type slot.physical offset)
  put_slot i (record slot { resident = v; occupied = true })
  return i

unfoldable pub load_src_vreg : ℕ → M ℕ
load_src_vreg v g = elim (find_slot (λ s. s.occupied && s.resident == v) g.registers 0) [
  | some i ↦ ok (i, g)
  | none ↦ reload v g
]

unfoldable pub load_dest_vreg : ℕ → M ℕ
unfolding get_empty_slot slot_at put_slot
load_dest_vreg v = do
  i ← get_empty_slot
  slot ← slot_at i
  put_slot i (record slot { resident = v; occupied = true; dirty = true })
  return i

-- `(32u - 8u) * size`, the shift count of `truncate_reg`.
unfoldable pub truncate_shift : IrType → ℕ
unfolding get_size
truncate_shift t = (32 - 8) * get_size t % 2 ^ 32

unfoldable pub write_truncate : IrType → Register → ℕ → CodeBuffer → CodeBuffer
unfolding is_signed
write_truncate t r shift c =
    let c1 = (write_slli c r r shift).0 in
    if is_signed t then (write_srai c1 r r shift).0 else (write_srli c1 r r shift).0

unfoldable pub truncate_reg : ℕ → M (Unit {0})
unfolding slot_at type_of_vreg truncate_shift write_truncate
truncate_reg i = do
  slot ← slot_at i
  ir_type ← type_of_vreg slot.resident
  let shift = truncate_shift ir_type
  if shift == 0 then return tt else emit (λ c. (write_truncate ir_type slot.physical shift c, 0))
