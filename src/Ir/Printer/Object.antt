-- ===== src/Ir/Printer/Object.antt =====
-- The functions of an object as text, in ir/IrPrinter.cpp, and the traversal of a function's blocks. The
-- successors of the blocks are given as in `Printer`.
use sasc.Prelude.{
  ℕ, zero, suc, ◌+◌, ◌*◌, Bool, true, false, ◌==◌, ◌||◌, if◌then◌else◌, none, some, List, [], ◌∷◌,
  ◌++◌, length, get_elem?, String,
}
use sasc.Error.{uncaught}
use sasc.Frontend.Outcome.{Outcome, out_of_fuel, throws, returns, lift, ◌>>=◌}
use sasc.Frontend.Token.{chars}
use sasc.Ir.Defs.{BasicBlock, Function}
use sasc.Ir.Printer.{Successor, successor_places, sorted_ids, print_vregs, print_blocks}
use Prim.Native.String.{compare}
use Prim.Native.Nat.Ordering.{gt}
use Prim.Native.Char.{Char}

unfoldable pub is_seen : ℕ → List ℕ → Bool
is_seen id [] = false
is_seen id (x ∷ xs) = x == id || is_seen id xs

-- The loop over the blocks to visit, on fuel: the top of the stack is its head. It gives the places of
-- the blocks in the order of their visits.
unfoldable pub visit :
    ℕ → List BasicBlock → (ℕ → Successor × Successor) → List ℕ → List ℕ → Outcome (List ℕ)
unfolding is_seen successor_places
visit zero blocks successors seen to_visit = out_of_fuel
visit (suc fuel) blocks successors seen [] = returns []
visit (suc fuel) blocks successors seen (place ∷ to_visit) = elim (get_elem? blocks place) [
  | none ↦ throws uncaught
  | some bb ↦
      let skipped = visit fuel blocks successors seen to_visit in
      let next = successor_places bb.terminator.kind (successors place) in
      let others = visit fuel blocks successors (bb.id ∷ seen) (next ++ to_visit) in
      if is_seen bb.id seen then skipped else others >>= (λ places. returns (place ∷ places))
]

unfoldable pub reachable_blocks : Function → (ℕ → Successor × Successor) → Outcome (List ℕ)
unfolding visit
reachable_blocks fn successors =
    visit (3 * length fn.blocks + 2) fn.blocks successors [] (fn.entry ∷ [])

unfoldable pub print_function : Function → (ℕ → Successor × Successor) → Outcome (List Char)
unfolding sorted_ids print_vregs reachable_blocks print_blocks
print_function fn successors = do
  vregs ← lift (print_vregs fn.vregs (sorted_ids fn.vregs))
  places ← reachable_blocks fn successors
  blocks ← lift (print_blocks fn.blocks successors places)
  let body = vregs ++ (blocks ++ chars "}\n")
  returns (chars "fn " ++ (chars fn.name ++ (chars " {\n" ++ body)))

abbrev name_behind : String → String → Bool
name_behind s t = elim (compare s t) [ gt ↦ true | _ ↦ false ]

unfoldable pub insert_function : Function → List Function → List Function
insert_function f [] = f ∷ []
insert_function f (g ∷ fns) =
    let behind = insert_function f fns in
    if name_behind f.name g.name then g ∷ behind else f ∷ (g ∷ fns)

-- `std::sort` of the functions by their names, which differ from each other.
unfoldable pub sorted_functions : List Function → List Function
unfolding insert_function
sorted_functions [] = []
sorted_functions (f ∷ fns) = insert_function f (sorted_functions fns)

-- The flag is `i > 0`.
unfoldable pub print_functions :
    Bool → List Function → (String → ℕ → Successor × Successor) → Outcome (List Char)
unfolding print_function
print_functions behind [] successors = returns []
print_functions behind (f ∷ fns) successors = do
  text ← print_function f (successors f.name)
  others ← print_functions true fns successors
  returns ((if behind then chars "\n" else []) ++ (text ++ others))

-- `print`: the successors of the blocks of each function by the function's name.
unfoldable pub print : List Function → (String → ℕ → Successor × Successor) → Outcome (List Char)
unfolding sorted_functions print_functions
print fns successors = print_functions false (sorted_functions fns) successors
