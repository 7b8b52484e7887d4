-- ===== src/Ir/Writer/Laws.antt =====
-- `IrWriter` at work in one block: the table of registers and the block's instructions grow at their
-- ends, and a new register is one that the table does not have.
use sasc.Prelude.{
  ℕ, ◌^◌, ◌≤◌, ◌<◌, ◌≡◌, refl, none, some, List, [], ◌∷◌, ◌++◌, append_assoc, length, length-append,
  get_elem?, set, get_elem?-set_self, get_elem?-lt, set-set, All, arith, String,
}
use native.Mathlib.Nat.{mod-eq_of_lt}
use sasc.Error.{ok}
use sasc.Ir.IrType.{IrType}
use sasc.Ir.Defs.{Op, load_imm, no_vreg, Instruction, BasicBlock, Function, find_vreg}
use sasc.Ir.Writer.{
  CachedConst, IrWriter, insert_vreg, new_vreg, add_instr, edit_block, find_const, get_const_vreg,
}

abbrev pub Table : Type 0
Table = List (ℕ × IrType)

-- Every register of the table is below `n`.
abbrev pub AllBelow : ℕ → Table → Type 0
AllBelow n = All (λ p. p.0 < n)

pub find_vreg-none : (m : Table) (n : ℕ) → AllBelow n m → find_vreg m n ≡ none
unfolding find_vreg
find_vreg-none [] n h = refl
find_vreg-none ((w, t) ∷ m) n (lt, h) = ground (arith, find_vreg-none m n h)

AllBelow-mono : (m : Table) {n k : ℕ} → n ≤ k → AllBelow n m → AllBelow k m
AllBelow-mono [] le h = tt
AllBelow-mono (p ∷ m) le (lt, h) = (omega arith, AllBelow-mono m le h)

AllBelow-append : (n : ℕ) (m k : Table) → AllBelow n m → AllBelow n k → AllBelow n (m ++ k)
AllBelow-append n [] k hm hk = hk
AllBelow-append n (p ∷ m) k (lt, hm) hk = (lt, AllBelow-append n m k hm hk)

-- The ids of the table are below its length, so the length is free.
abbrev pub IsDense : Table → Type 0
IsDense m = AllBelow (length m) m

pub IsDense-append : (m : Table) (t : IrType) → IsDense m → IsDense (m ++ (length m, t) ∷ [])
IsDense-append m t h =
    let e = length-append {0} m ((length m, t) ∷ []) in
    AllBelow-append _ m ((length m, t) ∷ []) (AllBelow-mono m (omega arith) h) (omega arith)

-- What is found stays found when the table grows.
pub find_vreg-append :
    (m k : Table) (v : ℕ) {t : IrType} → find_vreg m v ≡ some t → find_vreg (m ++ k) v ≡ some t
unfolding find_vreg
find_vreg-append [] k v h = cc
find_vreg-append ((w, s) ∷ m) k v {t} h = ground (arith, find_vreg-append m k v {t = t})

find_vreg-end :
    (m : Table) (n : ℕ) (t : IrType) → AllBelow n m → find_vreg (m ++ (n, t) ∷ []) n ≡ some t
unfolding find_vreg
find_vreg-end [] n t h = ground arith
find_vreg-end ((w, s) ∷ m) n t (lt, h) = ground (arith, find_vreg-end m n t h)

pub find_vreg-last :
    (m : Table) (t : IrType) → IsDense m → find_vreg (m ++ (length m, t) ∷ []) (length m) ≡ some t
find_vreg-last m t h = find_vreg-end m (length m) t h

abbrev pub extend_block : BasicBlock → List Instruction → BasicBlock
extend_block b code = record b { instructions = b.instructions ++ code }

abbrev pub load_constant : ℕ → ℕ → Instruction
load_constant r v = record {
  opcode = load_imm;
  dest = r;
  op1 = no_vreg;
  op2 = no_vreg;
  immediate = v;
}

abbrev pub constant : IrType → ℕ → ℕ → CachedConst
constant t v r = record { type_variant = t; value = v; vreg = r }

-- The writer in a block that is found at the start; `k`, `m` and `code` are the cache, the table and
-- the instructions that were added.
module _ (depth : ℕ) (finished : List Function) (name : String) (entry count at_block : ℕ)
    (blocks : List BasicBlock) (start : BasicBlock)
    (here : get_elem? blocks at_block ≡ some start) where
  abbrev pub writer : List CachedConst → Table → List Instruction → IrWriter
  writer k m code = record {
    scope_depth = depth;
    const_cache = k;
    finished = finished;
    cur_function = some (record {
      name = name;
      entry = entry;
      vregs = m;
      bb_count = count;
      blocks = set blocks at_block (extend_block start code);
    });
    cur_bblock = at_block;
  }

  pub new_vreg-writer :
      (k : List CachedConst) (m : Table) (code : List Instruction) (t : IrType)
      → IsDense m
      → length m < 2 ^ 32
      → new_vreg t (writer k m code) ≡ ok (length m, writer k (m ++ (length m, t) ∷ []) code)
  unfolding new_vreg insert_vreg
  new_vreg-writer k m code t dense lt =
      rw (mod-eq_of_lt lt, find_vreg-none m (length m) dense, insert_vreg, mod-eq_of_lt lt)

  pub add_instr-writer :
      (k : List CachedConst) (m : Table) (code : List Instruction) (o : Op) (d a b i : ℕ)
      → add_instr o d a b i (writer k m code)
        ≡ ok (
            writer k m
              (code ++ record { opcode = o; dest = d; op1 = a; op2 = b; immediate = i } ∷ []))
  unfolding add_instr edit_block
  add_instr-writer k m code o d a b i =
      let b1 = extend_block start code in
      let i1 : Instruction = record { opcode = o; dest = d; op1 = a; op2 = b; immediate = i } in
      rw (
        get_elem?-set_self blocks at_block b1 (get_elem?-lt blocks at_block here),
        set-set blocks at_block b1 (extend_block b1 (i1 ∷ [])),
        append_assoc start.instructions code (i1 ∷ []),
        add_instr,
        edit_block,
      )

  pub get_const_vreg-cached :
      (k : List CachedConst) (m : Table) (code : List Instruction) (t : IrType) (v : ℕ) {r : ℕ}
      → find_const k t v ≡ some r
      → get_const_vreg t v (writer k m code) ≡ ok (r, writer k m code)
  unfolding get_const_vreg find_const
  get_const_vreg-cached k m code t v h = rw h refl

  pub get_const_vreg-fresh :
      (k : List CachedConst) (m : Table) (code : List Instruction) (t : IrType) (v : ℕ)
      → find_const k t v ≡ none
      → IsDense m
      → length m < 2 ^ 32
      → get_const_vreg t v (writer k m code)
        ≡ ok (
          length m,
          writer
              (k ++ constant t v (length m) ∷ [])
              (m ++ (length m, t) ∷ [])
              (code ++ load_constant (length m) v ∷ []),
        )
  unfolding get_const_vreg find_const
  get_const_vreg-fresh k m code t v h dense lt =
      let k1 = k ++ constant t v (length m) ∷ [] in
      rw
        (
          h,
          new_vreg-writer k m code t dense lt,
          add_instr-writer k1 (m ++ (length m, t) ∷ []) code load_imm (length m) no_vreg no_vreg v,
        )
        refl
