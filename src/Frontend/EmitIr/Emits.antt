-- ===== src/Frontend/EmitIr/Emits.antt =====
-- What it means that an expression is emitted correctly, and the register that each node adds.
use sasc.Prelude.{
  ℕ, suc, ◌+◌, ◌*◌, ◌≤◌, ◌<◌, ◌≡◌, ◌∙◌, some, List, [], ◌∷◌, ◌++◌, length, length-append, arith,
}
use sasc.Error.{ok}
use sasc.Ir.IrType.{IrType}
use sasc.Ir.Defs.{Instruction, find_vreg}
use sasc.Ir.Value.{Env, set_value, run_ir}
use sasc.Ir.Value.Runs.{set_value-other, Cached, Cached-mono}
use sasc.Ir.Writer.{CachedConst, IrWriter}
use sasc.Ir.Writer.Laws.{Table, IsDense, find_vreg-append}
use sasc.Frontend.FrontendType
use sasc.Frontend.Ast.{
  Expression, integer_literal, boolean_literal, identifier, binary, unary, call, type_of,
}
use sasc.Frontend.EmitIr.{emit_expression}
use sasc.Frontend.Meaning.{eval}

-- The number of nodes; each takes two registers at most.
unfoldable pub size : Expression → ℕ
size (integer_literal _ _) = 1
size (boolean_literal _) = 1
size (identifier _ _ _) = 1
size (binary _ _ l r) = suc (size l + size r)
size (unary _ _ e) = suc (size e)
size (call _ e) = suc (size e)

-- What one table says of a register, the other says too.
abbrev pub Extends : Table → Table → Type 0
Extends m m' = (v : ℕ) (t : IrType) → find_vreg m v ≡ some t → find_vreg m' v ≡ some t

abbrev pub with_reg : Table → IrType → Table
with_reg m t = m ++ (length m, t) ∷ []

pub Extends-with_reg : (m : Table) (t : IrType) → Extends m (with_reg m t)
Extends-with_reg m t v s h = find_vreg-append m ((length m, t) ∷ []) v h

pub length-with_reg : (m : Table) (t : IrType) → length (with_reg m t) ≡ suc (length m)
length-with_reg m t = omega (arith, length-append {0} m ((length m, t) ∷ []))

-- Running `added` puts `value` into `reg`, keeps the registers below `n`, and leaves the cache right.
pub record Runs (final : Table) (added : List Instruction) (env : Env) (cache : List CachedConst)
    (n n' reg value : ℕ) : Type 0 where
  pub after : Env
  pub run : run_ir final added env ≡ some after
  pub result : after reg ≡ value
  pub kept : (v : ℕ) → v < n → after v ≡ env v
  pub cached : Cached cache n' after

-- Emission from the writer `at k m code` succeeds; the code that it adds computes the value of the
-- expression into a register of the expression's type, under every table that extends the one made.
pub record Emits (at : List CachedConst → Table → List Instruction → IrWriter) (e : Expression)
    (k : List CachedConst) (m : Table) (code : List Instruction) : Type 0 where
  pub reg : ℕ
  pub cache : List CachedConst
  pub table : Table
  pub added : List Instruction
  pub ir_type : IrType
  pub emitted : emit_expression e (at k m code) ≡ ok (reg, at cache table (code ++ added))
  pub typed : FrontendType.resolve_type (type_of e) ≡ ok ir_type
  pub found : find_vreg table reg ≡ some ir_type
  pub extends : Extends m table
  pub grows : length m ≤ length table
  pub small : length table ≤ length m + 2 * size e
  pub dense : IsDense table
  pub inside : reg < length table
  pub runs :
      (final : Table) (env : Env)
      → Extends table final
      → Cached k (length m) env
      → Runs final added env cache (length m) (length table) reg (eval e)

-- A last instruction that writes the register `d`, which is new.
pub Runs-last :
    (final : Table) (added : List Instruction) (env before : Env) (cache : List CachedConst)
    (n n' d v value : ℕ)
    → run_ir final added env ≡ some (set_value before d v)
    → v ≡ value
    → n ≤ d
    → suc d ≤ n'
    → ((j : ℕ) → j < n → before j ≡ env j)
    → Cached cache d before
    → Runs final added env cache n n' d value
Runs-last final added env before cache n n' d v value h e le lt kept cached = record {
  after = set_value before d v;
  run = h;
  result = ground arith;
  kept = λ j small. set_value-other before d v j (omega arith) ∙ kept j small;
  cached =
      Cached-mono cache d n' before (set_value before d v) (omega arith)
        (λ j small. set_value-other before d v j (omega arith)) cached;
}
