-- ===== src/Ir/Writer.antt =====
-- `IrWriter` of ir/IrWriter.cpp: the object under construction, the current function and block, and
-- the cache of constants. `cur_function` is the function at the end of `functions`; the stack of name
-- scopes is kept by its depth, since no code puts a name into it.
pub mod Laws
use sasc.Prelude.{
  ℕ, ◌+◌, ◌-◌, ◌%◌, ◌^◌, Bool, false, ◌&&◌, ◌||◌, Option, none, some, List, [], ◌∷◌, ◌++◌, length,
  get_elem?, set, String, ◌==◌, if◌then◌else◌,
}
use sasc.Error.{internal, Result, ok, err, ◌>>=◌}
use sasc.Ir.IrType.{IrType, same_variant}
use sasc.Ir.Defs.{
  Op, load_imm, no_vreg, Instruction, return_kind, BasicBlock, Function, find_vreg, make_function,
  new_bb,
}
use text.Mathlib.Text.{◌==◌ as str_eq}

-- One entry of the cache: the key's type and value, and the register.
pub record CachedConst : Type 0 where
  pub type_variant : IrType
  pub value : ℕ
  pub vreg : ℕ

-- `finished` holds the functions begun before the current one, in the order of their creation.
pub record IrWriter : Type 0 where
  pub scope_depth : ℕ
  pub const_cache : List CachedConst
  pub finished : List Function
  pub cur_function : Option Function
  pub cur_bblock : ℕ

abbrev pub fresh_writer : IrWriter
fresh_writer = record {
  scope_depth = 0;
  const_cache = [];
  finished = [];
  cur_function = none;
  cur_bblock = 0;
}

abbrev finish_current : IrWriter → List Function
finish_current w = elim w.cur_function [ none ↦ w.finished | some f ↦ w.finished ++ f ∷ [] ]

unfoldable pub new_function : String → IrWriter → IrWriter
new_function name w = record {
  scope_depth = 1;
  const_cache = [];
  finished = finish_current w;
  cur_function = some (make_function name);
  cur_bblock = 0;
}

unfoldable pub push_scope : IrWriter → IrWriter
push_scope w = record w { scope_depth = w.scope_depth + 1 }

unfoldable pub pop_scope : IrWriter → IrWriter
pop_scope w = record w { scope_depth = w.scope_depth - 1 }

-- The current function; every operation below throws where there is none.
abbrev pub current : IrWriter → Result Function
current w = elim w.cur_function [ none ↦ err internal | some f ↦ ok f ]

-- `vregs.insert({id, ty})` changes nothing where the key is there.
unfoldable pub insert_vreg : List (ℕ × IrType) → ℕ → IrType → List (ℕ × IrType)
unfolding find_vreg
insert_vreg m id t = elim (find_vreg m id) [ some _ ↦ m | none ↦ m ++ (id, t) ∷ [] ]

-- The new id is the number of registers, as an `unsigned int`.
unfoldable pub new_vreg : IrType → IrWriter → Result (ℕ × IrWriter)
unfolding insert_vreg
new_vreg t w = do
  f ← current w
  let id = length f.vregs % 2 ^ 32
  ok (id, record w { cur_function = some (record f { vregs = insert_vreg f.vregs id t }) })

-- A change of the block that the writer stands in.
unfoldable pub edit_block : (BasicBlock → BasicBlock) → ℕ → Function → Function
edit_block g i f = elim (get_elem? f.blocks i) [
  | none ↦ f
  | some b ↦ record f { blocks = set f.blocks i (g b) }
]

unfoldable pub add_instr : Op → ℕ → ℕ → ℕ → ℕ → IrWriter → Result IrWriter
add_instr opcode dst op1 op2 immediate w = do
  f ← current w
  let instr : Instruction = record {
    opcode = opcode;
    dest = dst;
    op1 = op1;
    op2 = op2;
    immediate = immediate;
  }
  ok (record w {
    cur_function =
        some (
          edit_block (λ b. record b { instructions = b.instructions ++ instr ∷ [] }) w.cur_bblock
            f);
  })

unfoldable pub find_const : List CachedConst → IrType → ℕ → Option ℕ
unfolding same_variant
find_const [] t v = none
find_const (c ∷ cs) t v =
    if same_variant c.type_variant t && c.value == v then some c.vreg else find_const cs t v

unfoldable pub get_const_vreg : IrType → ℕ → IrWriter → Result (ℕ × IrWriter)
get_const_vreg t v w = elim (find_const w.const_cache t v) [
  | some r ↦ ok (r, w)
  | none ↦ do
    (dest, w1) ← new_vreg t w
    let w2 = record w1 {
      const_cache = w1.const_cache ++ record { type_variant = t; value = v; vreg = dest } ∷ [];
    }
    w3 ← add_instr load_imm dest no_vreg no_vreg v w2
    ok (dest, w3)
]

-- Both forms of `add_return`: with a value, and without.
unfoldable pub add_return : Option ℕ → IrWriter → Result IrWriter
unfolding new_bb
add_return ret_value w = do
  f ← current w
  let ended : Function =
      edit_block
        (λ b. record b { terminator = record { kind = some return_kind; ret_reg = ret_value } })
        w.cur_bblock f
  ok (record w { cur_function = some (new_bb ended).0; cur_bblock = (new_bb ended).1 })

-- `obj.functions.insert({name, fn})` keeps the function that has the name already.
has_function : String → List Function → Bool
has_function name [] = false
has_function name (f ∷ fs) = str_eq f.name name || has_function name fs

insert_all : List Function → List Function → List Function
unfolding has_function
insert_all done [] = done
insert_all done (f ∷ fs) = insert_all (if has_function f.name done then done else done ++ f ∷ []) fs

unfoldable pub get_obj : IrWriter → List Function
unfolding has_function insert_all
get_obj w = insert_all [] (finish_current w)
