-- ===== src/Frontend/EmitIr/AtWork.antt =====
-- The writer at work in one block, as the emitter of expressions uses it.
use sasc.Prelude.{ℕ, ◌^◌, ◌<◌, ◌≡◌, some, none, List, [], ◌∷◌, ◌++◌, length, get_elem?, String}
use sasc.Error.{ok}
use sasc.Ir.IrType.{IrType}
use sasc.Ir.Defs.{Op, load_imm, no_vreg, Instruction, BasicBlock, Function}
use sasc.Ir.Value.Runs.{instruction}
use sasc.Ir.Writer.{CachedConst, IrWriter, new_vreg, add_instr, find_const, get_const_vreg}
use sasc.Ir.Writer.Laws.{
  Table, IsDense, writer, new_vreg-writer, add_instr-writer, get_const_vreg-cached,
  get_const_vreg-fresh, constant,
}
use sasc.Frontend.EmitIr.Emits.{with_reg}

module _ (depth : ℕ) (finished : List Function) (name : String) (entry count at_block : ℕ)
    (blocks : List BasicBlock) (start : BasicBlock)
    (here : get_elem? blocks at_block ≡ some start) where
  abbrev pub at : List CachedConst → Table → List Instruction → IrWriter
  at = writer depth finished name entry count at_block blocks start here

  pub new_vreg-at :
      (k : List CachedConst) (m : Table) (code : List Instruction) (t : IrType)
      → IsDense m
      → length m < 2 ^ 32
      → new_vreg t (at k m code) ≡ ok (length m, at k (with_reg m t) code)
  new_vreg-at = new_vreg-writer depth finished name entry count at_block blocks start here

  pub add_instr-at :
      (k : List CachedConst) (m : Table) (code : List Instruction) (o : Op) (d a b i : ℕ)
      → add_instr o d a b i (at k m code) ≡ ok (at k m (code ++ instruction o d a b i ∷ []))
  add_instr-at = add_instr-writer depth finished name entry count at_block blocks start here

  pub get_const_vreg-at_cached :
      (k : List CachedConst) (m : Table) (code : List Instruction) (t : IrType) (v : ℕ) {r : ℕ}
      → find_const k t v ≡ some r
      → get_const_vreg t v (at k m code) ≡ ok (r, at k m code)
  get_const_vreg-at_cached =
      get_const_vreg-cached depth finished name entry count at_block blocks start here

  pub get_const_vreg-at_fresh :
      (k : List CachedConst) (m : Table) (code : List Instruction) (t : IrType) (v : ℕ)
      → find_const k t v ≡ none
      → IsDense m
      → length m < 2 ^ 32
      → get_const_vreg t v (at k m code)
        ≡ ok (
          length m,
          at
              (k ++ constant t v (length m) ∷ [])
              (with_reg m t)
              (code ++ instruction load_imm (length m) no_vreg no_vreg v ∷ []),
        )
  get_const_vreg-at_fresh =
      get_const_vreg-fresh depth finished name entry count at_block blocks start here
