-- ===== src/Ir/Defs.antt =====
-- The structures of ir/IR.hpp. A function keeps the blocks made for it in a list, and a
-- `BasicBlock *` is a place there. The successors of a terminator are left out: no code writes them.
use sasc.Prelude.{
  ℕ, ◌+◌, ◌-◌, ◌%◌, ◌^◌, Option, none, some, List, [], ◌∷◌, ◌++◌, length, String, ◌==◌,
  if◌then◌else◌,
}
use sasc.Error.{uncaught, Result, ok, err}
use sasc.Ir.IrType.{IrType}

pub data Op : Type 0 where
  add sub mul div rem bit_and bit_or bit_xor bit_not bit_shl bit_shr neg : Op
  cmp_eq cmp_ne cmp_gt cmp_gte cmp_lt cmp_lte : Op
  load store move load_imm load_arg : Op

-- `static_cast<unsigned int>(-1)`.
abbrev pub no_vreg : ℕ
no_vreg = 2 ^ 32 - 1

pub record Instruction : Type 0 where
  pub opcode : Op
  pub dest : ℕ
  pub op1 : ℕ
  pub op2 : ℕ
  pub immediate : ℕ

pub data Kind : Type 0 where
  return_kind jump_kind branch_kind : Kind

-- The kind is indeterminate (`none`) until a terminator is assigned.
pub record Terminator : Type 0 where
  pub kind : Option Kind
  pub ret_reg : Option ℕ

pub record BasicBlock : Type 0 where
  pub id : ℕ
  pub instructions : List Instruction
  pub terminator : Terminator

pub record Function : Type 0 where
  pub name : String
  pub entry : ℕ
  pub vregs : List (ℕ × IrType)
  pub bb_count : ℕ
  pub blocks : List BasicBlock

-- The constructor of `BasicBlock`.
abbrev pub fresh_block : ℕ → BasicBlock
fresh_block id = record {
  id = id;
  instructions = [];
  terminator = record { kind = none; ret_reg = none };
}

-- The constructor of `Function` makes the entry block.
abbrev pub make_function : String → Function
make_function name = record {
  name = name;
  entry = 0;
  vregs = [];
  bb_count = 1;
  blocks = fresh_block 0 ∷ [];
}

-- `new_bb`, with the place of the new block.
unfoldable pub new_bb : Function → Function × ℕ
new_bb f = (
  record f {
    bb_count = (f.bb_count + 1) % 2 ^ 32;
    blocks = f.blocks ++ fresh_block f.bb_count ∷ [];
  },
  length f.blocks,
)

-- `vregs.find(id)`, and `vregs.at(id)`, which throws `std::out_of_range`.
unfoldable pub find_vreg : List (ℕ × IrType) → ℕ → Option IrType
find_vreg [] v = none
find_vreg ((w, t) ∷ m) v = if w == v then some t else find_vreg m v

unfoldable pub vreg_at : List (ℕ × IrType) → ℕ → Result IrType
unfolding find_vreg
vreg_at m v = elim (find_vreg m v) [ some t ↦ ok t | none ↦ err uncaught ]
