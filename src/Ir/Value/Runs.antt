-- ===== src/Ir/Value/Runs.antt =====
-- Runs of instruction lists, and the cache of constants under them.
use sasc.Prelude.{
  ℕ, ◌≤◌, ◌<◌, ◌≡◌, ◌≢◌, refl, sym, ◌∙◌, Bool, Bool-cases, true, false, ◌&&◌, Option-cases, some,
  List, [], ◌∷◌, ◌++◌, All, arith, inl, inr, ◌==◌, ==_iff,
}
use sasc.Ir.IrType.{IrType, same_variant}
use sasc.Ir.Defs.{Op, Instruction, find_vreg}
use sasc.Ir.Value.{canonical, op_value, Env, type_or, set_value, step, run_ir}
use sasc.Ir.Writer.{CachedConst, find_const}
use sasc.Ir.Writer.Laws.{Table}

abbrev pub instruction : Op → ℕ → ℕ → ℕ → ℕ → Instruction
instruction o d a b i = record { opcode = o; dest = d; op1 = a; op2 = b; immediate = i }

pub run_ir-append :
    (types : Table) (is js : List Instruction) (env env1 : Env)
    → run_ir types is env ≡ some env1
    → run_ir types (is ++ js) env ≡ run_ir types js env1
unfolding run_ir
run_ir-append types [] js env env1 h = cc
run_ir-append types (i ∷ is) js env env1 h = elim (Option-cases (step types i env)) [
  | inl q ↦ absurd (cc (rw (q, run_ir) at h))
  | inr (e, q) ↦ rw (q, run_ir) (run_ir-append types is js e env1 (rw (q, run_ir) at h))
]

-- One instruction whose operands and destination are known.
pub run_ir-one :
    (types : Table) (o : Op) (d p q i : ℕ) (env : Env) {ta td : IrType} (a b v : ℕ)
    → find_vreg types p ≡ some ta
    → find_vreg types d ≡ some td
    → env p ≡ a
    → env q ≡ b
    → op_value o ta a b i ≡ some v
    → run_ir types (instruction o d p q i ∷ []) env ≡ some (set_value env d (canonical td v))
unfolding run_ir step
run_ir-one types o d p q i env a b v fp fd ea eb h =
    rw (fp, ea, eb, h, fd, run_ir, step, type_or) refl

-- A constant needs no operands.
pub run_ir-load_imm :
    (types : Table) (d p q i : ℕ) (env : Env) {td : IrType}
    → find_vreg types d ≡ some td
    → run_ir types (instruction Op.load_imm d p q i ∷ []) env
      ≡ some (set_value env d (canonical td i))
unfolding run_ir step op_value
run_ir-load_imm types d p q i env fd = rw (fd, run_ir, step, type_or, canonical) refl

pub set_value-same : (env : Env) (r v : ℕ) → set_value env r v r ≡ v
set_value-same env r v = ground arith

pub set_value-other : (env : Env) (r v j : ℕ) → j ≢ r → set_value env r v j ≡ env j
set_value-other env r v j ne = ground arith

-- Every constant of the cache stands in its register, below `n`.
abbrev pub Cached : List CachedConst → ℕ → Env → Type 0
Cached k n env = All (λ c. (c.vreg < n) × (env c.vreg ≡ canonical c.type_variant c.value)) k

pub Cached-mono :
    (k : List CachedConst) (n n' : ℕ) (env env' : Env)
    → n ≤ n'
    → ((v : ℕ) → v < n → env' v ≡ env v)
    → Cached k n env
    → Cached k n' env'
Cached-mono [] n n' env env' le same h = tt
Cached-mono (c ∷ k) n n' env env' le same ((lt, e), h) =
    ((omega arith, same c.vreg lt ∙ e), Cached-mono k n n' env env' le same h)

pub Cached-append :
    (k : List CachedConst) (n : ℕ) (env : Env) (c : CachedConst)
    → Cached k n env
    → c.vreg < n
    → env c.vreg ≡ canonical c.type_variant c.value
    → Cached (k ++ c ∷ []) n env
Cached-append [] n env c h lt e = ((lt, e), tt)
Cached-append (d ∷ k) n env c (p, h) lt e = (p, Cached-append k n env c h lt e)

same_variant-eq : (s t : IrType) → same_variant s t ≡ true → s ≡ t
unfolding same_variant
same_variant-eq IrType.bool IrType.bool h = refl
same_variant-eq IrType.u8 IrType.u8 h = refl
same_variant-eq IrType.u16 IrType.u16 h = refl
same_variant-eq IrType.u32 IrType.u32 h = refl
same_variant-eq IrType.i8 IrType.i8 h = refl
same_variant-eq IrType.i16 IrType.i16 h = refl
same_variant-eq IrType.i32 IrType.i32 h = refl
same_variant-eq _ _ h = cc

both-true : (a b : Bool) → (a && b) ≡ true → (a ≡ true) × (b ≡ true)
both-true true b h = (refl, h)
both-true false b h = cc

some-injective : {a b : ℕ} → some a ≡ some b → a ≡ b
some-injective h = cc

-- What the cache answers is the constant.
pub find_const-Cached :
    (k : List CachedConst) (n : ℕ) (env : Env) (t : IrType) (v : ℕ) {r : ℕ}
    → Cached k n env
    → find_const k t v ≡ some r
    → (r < n) × (env r ≡ canonical t v)
unfolding find_const
find_const-Cached [] n env t v h e = cc
find_const-Cached (c ∷ k) n env t v {r} ((lt, x), h) e =
    elim (Bool-cases (same_variant c.type_variant t && c.value == v)) [
      | inl hit ↦
          let (s, q) = both-true (same_variant c.type_variant t) (c.value == v) hit in
          let found : c.vreg ≡ r = some-injective (rw hit at e) in
          let same : canonical c.type_variant c.value ≡ canonical t v =
            cc (same_variant-eq c.type_variant t s, (==_iff c.value v).0 q) in
          (rw (sym found) lt, rw (sym found) (x ∙ same))
      | inr miss ↦ find_const-Cached k n env t v h (rw miss at e)
    ]
