-- ===== src/Riscv32/Isa/Run.antt =====
-- Straight-line execution: a list of instructions one after the other.
use sasc.Prelude.{
  ℕ, ◌≡◌, ◌≢◌, ◌∙◌, Option, none, some, List, [], ◌∷◌, ◌++◌, append_assoc, inl, inr, Option-cases,
}
use sasc.Riscv32.Code.{MachineInstruction, CodeBuffer}
use sasc.Riscv32.Isa.{Instr, decode}
use sasc.Riscv32.Isa.Exec.{Hart, exec}
use sasc.Riscv32.Decode.{Appends}

unfoldable pub run_word : ℕ → Hart → Option Hart
run_word w h = elim (decode w) [ none ↦ none | some i ↦ exec i h ]

-- A word that does not decode, or leaves the program, ends the run.
unfoldable pub run : List MachineInstruction → Hart → Option Hart
run [] h = some h
run (i ∷ is) h = elim (run_word i.encoded h) [ none ↦ none | some h' ↦ run is h' ]

run-append :
    (is js : List MachineInstruction) (h h1 : Hart)
    → run is h ≡ some h1
    → run (is ++ js) h ≡ run js h1
unfolding run
run-append [] js h h1 e = cc
run-append (i ∷ is) js h h1 e = elim (Option-cases (run_word i.encoded h)) [
  | inl q ↦ absurd (cc (rw (q, run) at e))
  | inr (h2, q) ↦ rw (q, run) (run-append is js h2 h1 (rw (q, run) at e))
]

-- The code that takes the buffer `c` to `c'` takes the hart `h` to `h'`.
pub record Executes (c c' : CodeBuffer) (h h' : Hart) : Type 0 where
  pub code : List MachineInstruction
  pub grown : c'.buf ≡ c.buf ++ code
  pub runs : run code h ≡ some h'

pub Executes-one :
    (r : CodeBuffer × ℕ) {c : CodeBuffer} {i : Instr} {h h' : Hart}
    → Appends r c i
    → exec i h ≡ some h'
    → Executes c r.0 h h'
unfolding run run_word
Executes-one r {c} {i} {h} {h'} a x = record {
  code = a.added ∷ [];
  grown = a.grown;
  runs = rw (run, a.decoded, x);
}

pub Executes-trans :
    {c1 c2 c3 : CodeBuffer} {h1 h2 h3 : Hart}
    → Executes c1 c2 h1 h2
    → Executes c2 c3 h2 h3
    → Executes c1 c3 h1 h3
Executes-trans {c1} {h1} {h2} x y = record {
  code = x.code ++ y.code;
  grown = y.grown ∙ rw x.grown (append_assoc c1.buf x.code y.code);
  runs = run-append x.code y.code h1 h2 x.runs ∙ y.runs;
}

-- The hart `h'` is `h` with one register set, and some way on.
pub record Sets (h h' : Hart) (r v : ℕ) : Type 0 where
  pub value : h'.regs r ≡ v
  pub others : (j : ℕ) → j ≢ r → h'.regs j ≡ h.regs j
  pub memory : h'.mem ≡ h.mem
