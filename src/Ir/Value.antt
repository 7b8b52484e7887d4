-- ===== src/Ir/Value.antt =====
-- What the instructions of the intermediate representation mean: the specification that the emitter and
-- the lowering are held to. No code of the repository interprets instructions.
pub mod Runs
use sasc.Prelude.{
  ℕ, ◌+◌, ◌-◌, ◌*◌, ◌/◌, ◌%◌, ◌^◌, Bool, not, Option, none, some, List, [], ◌∷◌, ltb, ◌==◌,
  if◌then◌else◌, bit_and, bit_or, bit_xor,
}
use sasc.Prelude.Words.{
  two32, bool_word, is_neg, magnitude, lt_signed, shift_right_arith, with_sign, sext,
}
use sasc.Ir.IrType.{IrType, bool, u8, u16, u32, i8, i16, i32, is_signed}
use sasc.Ir.Defs.{Op, Instruction, find_vreg}

-- A value of a type is held as a 32-bit word: the low bits, zero- or sign-extended.
abbrev pub canonical : IrType → ℕ → ℕ
canonical bool x = x % 2 ^ 8
canonical u8 x = x % 2 ^ 8
canonical u16 x = x % 2 ^ 16
canonical u32 x = x % 2 ^ 32
canonical i8 x = sext (2 ^ 7) (x % 2 ^ 8)
canonical i16 x = sext (2 ^ 15) (x % 2 ^ 16)
canonical i32 x = sext (2 ^ 31) (x % 2 ^ 32)

-- Division by zero gives all ones and its remainder the dividend; the quotient of the least signed number
-- by -1 wraps.
abbrev pub quotient : Bool → ℕ → ℕ → ℕ
quotient signed a b =
    if b == 0
    then two32 - 1
    else if signed
    then with_sign two32 (is_neg a) (is_neg b) (magnitude a / magnitude b)
    else a / b

abbrev pub remainder : Bool → ℕ → ℕ → ℕ
remainder signed a b =
    if b == 0
    then a
    else if signed
    then with_sign two32 (is_neg a) Bool.false (magnitude a % magnitude b)
    else a % b

abbrev pub less_than : Bool → ℕ → ℕ → Bool
less_than signed a b = if signed then lt_signed a b else ltb a b

-- The result of an opcode on operands of the type `t`, before it is cut to the type of the destination.
-- A shift takes the low five bits of its count.
unfoldable pub op_value : Op → IrType → ℕ → ℕ → ℕ → Option ℕ
unfolding is_signed
op_value Op.add t a b i = some (a + b)
op_value Op.sub t a b i = some (a + two32 - b)
op_value Op.mul t a b i = some (a * b)
op_value Op.div t a b i = some (quotient (is_signed t) a b)
op_value Op.rem t a b i = some (remainder (is_signed t) a b)
op_value Op.bit_and t a b i = some (bit_and a b)
op_value Op.bit_or t a b i = some (bit_or a b)
op_value Op.bit_xor t a b i = some (bit_xor a b)
op_value Op.bit_not t a b i = some (two32 - 1 - a)
op_value Op.bit_shl t a b i = some (a * 2 ^ (b % 32))
op_value Op.bit_shr t a b i =
    some (if is_signed t then shift_right_arith a (b % 32) else a / 2 ^ (b % 32))
op_value Op.neg t a b i = some (two32 - a)
op_value Op.cmp_eq t a b i = some (bool_word (a == b))
op_value Op.cmp_ne t a b i = some (bool_word (not (a == b)))
op_value Op.cmp_gt t a b i = some (bool_word (less_than (is_signed t) b a))
op_value Op.cmp_gte t a b i = some (bool_word (not (less_than (is_signed t) a b)))
op_value Op.cmp_lt t a b i = some (bool_word (less_than (is_signed t) a b))
op_value Op.cmp_lte t a b i = some (bool_word (not (less_than (is_signed t) b a)))
op_value Op.load_imm t a b i = some i
op_value _ t a b i = none

-- The registers of a function hold values; one that is not in the table has the type `u32`, which no
-- theorem relies on.
abbrev pub Env : Type 0
Env = ℕ → ℕ

abbrev pub type_or : List (ℕ × IrType) → ℕ → IrType
type_or types v = elim (find_vreg types v) [ some t ↦ t | none ↦ u32 ]

abbrev pub set_value : Env → ℕ → ℕ → Env
set_value env r v j = if r == j then v else env j

unfoldable pub step : List (ℕ × IrType) → Instruction → Env → Option Env
unfolding op_value find_vreg
step types i env =
    elim (op_value i.opcode (type_or types i.op1) (env i.op1) (env i.op2) i.immediate) [
      | some v ↦ some (set_value env i.dest (canonical (type_or types i.dest) v))
      | none ↦ none
    ]

-- A list of instructions, from the first on.
unfoldable pub run_ir : List (ℕ × IrType) → List Instruction → Env → Option Env
unfolding step
run_ir types [] env = some env
run_ir types (i ∷ is) env = elim (step types i env) [ some e ↦ run_ir types is e | none ↦ none ]
