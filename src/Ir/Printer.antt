-- ===== src/Ir/Printer.antt =====
-- The text of an object: ir/IrPrinter.cpp. The successors of a block's terminator, which the
-- structures of `Defs` leave out, are given as a function of the block's place; a note is the empty
-- text, which no code changes.
mod Tests
pub mod Object
pub mod Seen
pub mod Reachable
use sasc.Prelude.{
  ℕ, zero, suc, ◌+◌, ◌*◌, Bool, true, false, ◌==◌, ◌||◌, not, leb, if◌then◌else◌, Option, none,
  some, List, [], ◌∷◌, ◌++◌, length, get_elem?, String,
}
use sasc.Error.{internal, uncaught, Result, ok, err, ◌>>=◌}
use sasc.Frontend.Token.{chars}
use sasc.Frontend.AstPrint.{decimal}
use sasc.Frontend.Parser.Print.{digits}
use sasc.Ir.IrType.{IrType, to_string}
use sasc.Ir.Defs.{
  Op, no_vreg, Instruction, Kind, return_kind, jump_kind, branch_kind, Terminator, BasicBlock,
  Function, vreg_at,
}
use Prim.Native.String.{compare}
use Prim.Native.Nat.Ordering.{gt}
use Prim.Native.Char.{Char}

unfoldable pub op_mnemonic : Op → List Char
op_mnemonic Op.add = chars "add"
op_mnemonic Op.sub = chars "sub"
op_mnemonic Op.mul = chars "mul"
op_mnemonic Op.div = chars "div"
op_mnemonic Op.rem = chars "rem"
op_mnemonic Op.bit_and = chars "and"
op_mnemonic Op.bit_or = chars "or"
op_mnemonic Op.bit_xor = chars "xor"
op_mnemonic Op.bit_not = chars "not"
op_mnemonic Op.bit_shl = chars "shl"
op_mnemonic Op.bit_shr = chars "shr"
op_mnemonic Op.neg = chars "neg"
op_mnemonic Op.cmp_eq = chars "cmp_eq"
op_mnemonic Op.cmp_ne = chars "cmp_ne"
op_mnemonic Op.cmp_gt = chars "cmp_gt"
op_mnemonic Op.cmp_gte = chars "cmp_gte"
op_mnemonic Op.cmp_lt = chars "cmp_lt"
op_mnemonic Op.cmp_lte = chars "cmp_lte"
op_mnemonic Op.load = chars "load"
op_mnemonic Op.store = chars "store"
op_mnemonic Op.move = chars "move"
op_mnemonic Op.load_imm = chars "loadimm"
op_mnemonic Op.load_arg = chars "loadarg"

unfoldable pub vreg_name : ℕ → List Char
unfolding digits
vreg_name id = chars "%" ++ decimal id

unfoldable pub has_dest : Op → Bool
has_dest Op.store = false
has_dest _ = true

unfoldable pub has_immediate : Op → Bool
has_immediate Op.load_imm = true
has_immediate Op.load_arg = true
has_immediate _ = false

-- An operand, if it is used.
unfoldable pub print_operand : ℕ → List Char
unfolding vreg_name
print_operand op = if op == no_vreg then [] else chars " " ++ vreg_name op

unfoldable pub print_instruction : Instruction → List Char
unfolding op_mnemonic vreg_name has_dest has_immediate print_operand digits
print_instruction instr =
    chars "  "
    ++ ((if has_dest instr.opcode then vreg_name instr.dest ++ chars " = " else [])
        ++ (op_mnemonic instr.opcode
            ++ ((if has_dest instr.opcode then [] else chars " " ++ vreg_name instr.dest)
                ++ (print_operand instr.op1
                    ++ (print_operand instr.op2
                        ++ ((if has_immediate instr.opcode
                              then chars " " ++ decimal instr.immediate
                              else [])
                            ++ chars "\n"))))))

pub record Successor : Type 0 where
  pub bb : ℕ
  pub args : List ℕ

-- The loop over the arguments; the flag is `i == 0`.
unfoldable pub print_arg_names : Bool → List ℕ → List Char
unfolding vreg_name
print_arg_names first [] = []
print_arg_names first (v ∷ vs) =
    (if first then [] else chars ", ") ++ (vreg_name v ++ print_arg_names false vs)

unfoldable pub print_block_args : Successor → List Char
unfolding print_arg_names
print_block_args succ = elim succ.args [
  | [] ↦ []
  | v ∷ vs ↦ chars "(" ++ (print_arg_names true (v ∷ vs) ++ chars ")")
]

-- The `id` of the block at a place.
unfoldable pub block_id : List BasicBlock → ℕ → Result ℕ
block_id blocks place = elim (get_elem? blocks place) [ none ↦ err uncaught | some b ↦ ok b.id ]

abbrev print_ret : Option ℕ → List Char
print_ret none = []
print_ret (some v) = chars " " ++ vreg_name v

-- An indeterminate kind is taken for none of the three.
unfoldable pub print_terminator :
    List BasicBlock → Terminator → Successor × Successor → Result (List Char)
unfolding print_block_args block_id digits vreg_name
print_terminator blocks term (first, second) = elim term.kind [
  | none ↦ err internal
  | some return_kind ↦ ok (chars "  ret" ++ (print_ret term.ret_reg ++ chars "\n"))
  | some jump_kind ↦ do
    id ← block_id blocks first.bb
    ok (chars "  jump bb" ++ (decimal id ++ (print_block_args first ++ chars "\n")))
  | some branch_kind ↦ do
    id ← block_id blocks first.bb
    other ← block_id blocks second.bb
    let operands = chars ", bb" ++ (decimal other ++ (print_block_args second ++ chars "\n"))
    ok (chars "  branch bb" ++ (decimal id ++ (print_block_args first ++ operands)))
]

-- The places of the successors that a terminator has.
unfoldable pub successor_places : Option Kind → Successor × Successor → List ℕ
successor_places (some jump_kind) (first, second) = first.bb ∷ []
successor_places (some branch_kind) (first, second) = first.bb ∷ (second.bb ∷ [])
successor_places _ successors = []

unfoldable pub insert_id : ℕ → List ℕ → List ℕ
insert_id id [] = id ∷ []
insert_id id (x ∷ xs) =
    let behind = insert_id id xs in if leb id x then id ∷ (x ∷ xs) else x ∷ behind

-- `std::sort` of the registers' ids, which differ from each other.
unfoldable pub sorted_ids : List (ℕ × IrType) → List ℕ
unfolding insert_id
sorted_ids [] = []
sorted_ids ((id, t) ∷ vregs) = insert_id id (sorted_ids vregs)

unfoldable pub print_vregs : List (ℕ × IrType) → List ℕ → Result (List Char)
unfolding vreg_name vreg_at to_string
print_vregs vregs [] = ok []
print_vregs vregs (id ∷ ids) = do
  t ← vreg_at vregs id
  others ← print_vregs vregs ids
  ok (
      chars "  "
      ++ (vreg_name id ++ (chars ": " ++ (chars (to_string t) ++ (chars "\n" ++ others)))))

unfoldable pub print_instructions : List Instruction → List Char
unfolding print_instruction
print_instructions [] = []
print_instructions (instr ∷ instrs) = print_instruction instr ++ print_instructions instrs

unfoldable pub print_blocks :
    List BasicBlock → (ℕ → Successor × Successor) → List ℕ → Result (List Char)
unfolding print_instructions print_terminator digits
print_blocks blocks successors [] = ok []
print_blocks blocks successors (place ∷ places) =
    let others = print_blocks blocks successors places in
    elim (get_elem? blocks place) [
      | none ↦ err uncaught
      | some bb ↦ do
        terminator ← print_terminator blocks bb.terminator (successors place)
        rest ← others
        let instructions = print_instructions bb.instructions ++ (terminator ++ rest)
        ok (chars "bb" ++ (decimal bb.id ++ (chars ":\n" ++ instructions)))
    ]
