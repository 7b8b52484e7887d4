-- ===== src/Compile/Loads.antt =====
-- What `compile` of compile.cpp writes.
use sasc.Prelude.{
  ℕ, ◌-◌, ◌<◌, ◌≤◌, ◌^◌, ◌≡◌, ◌≢◌, refl, ap, subst, ◌∙◌, arith, List, [], ◌∷◌, ◌++◌, length,
  length-append,
}
use sasc.Error.{ok}
use sasc.Frontend.Outcome.{
  Outcome, out_of_fuel, returns, throws, Safely, gives, >>=-Ensures, Ensures-ends, lift-Safely,
}
use sasc.Frontend.EmitIr.{emit_object}
use sasc.Frontend.Lexer.Reads.{WholeLines}
use sasc.Frontend.Parser.{build_source}
use sasc.Frontend.Parser.Safe.Source.{build_source-terminates}
use sasc.Frontend.Ast.{FunctionDefinition}
use sasc.Riscv32.Function.{Object, lower_ir, link}
use sasc.Ir.Defs.{Function}
use sasc.Elf.{
  Target, alignment, code_segment, elf_header, ehdr_bytes, phdr_bytes, program_header, zeros, emit,
}
use sasc.Elf.Load.{load, load-emit}
use sasc.Compile.{is_linux, compile}
use Prim.Native.Char.{Char}

ends-Safely : {A : Type 0} (o : Outcome A) → o ≢ out_of_fuel → Safely (λ a. o ≡ returns a) o
ends-Safely out_of_fuel h = absurd (h refl)
ends-Safely (throws e) h = record { as_said = tt }
ends-Safely (returns a) h = gives a refl

-- What a file that is written comes from.
abbrev pub WrittenFrom : List Char → Target → List ℕ → Type 0
WrittenFrom source target file =
    (ast : List FunctionDefinition) × (ir : List Function) × (obj : Object) × (linked : Object)
    × (build_source source ≡ returns ast)
    × (emit_object ast ≡ ok ir)
    × (lower_ir ir ≡ ok obj)
    × (link (is_linux target) obj ≡ ok linked)
    × (file ≡ emit linked target)

compile-Safely :
    (source : List Char) (target : Target)
    → WholeLines source
    → Safely (WrittenFrom source target) (compile source target)
unfolding compile
compile-Safely source target w =
    >>=-Ensures (ends-Safely (build_source source) (build_source-terminates source w)) (λ ast a.
      >>=-Ensures (lift-Safely (emit_object ast) (λ ir i. i)) (λ ir i.
        >>=-Ensures (lift-Safely (lower_ir ir) (λ obj o. o)) (λ obj o.
          >>=-Ensures (lift-Safely (link (is_linux target) obj) (λ linked l. l))
            (λ linked l. gives (emit linked target) (ast, ir, obj, linked, a, i, o, l, refl)))))

-- On a source file of whole lines the compiler comes to an end: it throws or it writes a file.
pub compile-terminates :
    (source : List Char) (target : Target) → WholeLines source → compile source target ≢ out_of_fuel
compile-terminates source target w = Ensures-ends (compile-Safely source target w)

length-behind : (as_ bs cs ds es : List ℕ) → length ds ≤ length (as_ ++ (bs ++ (cs ++ (ds ++ es))))
length-behind as_ bs cs ds es = omega (
  arith,
  length-append as_ (bs ++ (cs ++ (ds ++ es))),
  length-append bs (cs ++ (ds ++ es)),
  length-append cs (ds ++ es),
  length-append ds es,
)

length-emit : (obj : Object) (target : Target) → length obj.code ≤ length (emit obj target)
unfolding emit
length-emit obj target =
    let segment = code_segment obj.code in
    length-behind (ehdr_bytes (elf_header target (segment ∷ [])))
      (phdr_bytes (program_header alignment segment) ++ []) (zeros (4096 - 84)) obj.code []

-- A file of less than 2 ^ 32 bytes that the compiler writes for a source of whole lines is one that a
-- loader reads: it puts the linked code at 0x10000 and enters there, and that code is what the stages
-- of the compiler make of the source one after the other.
pub compile-loads :
    (source : List Char) (target : Target) (file : List ℕ)
    → WholeLines source
    → compile source target ≡ returns file
    → length file < 2 ^ 32
    → (ast : List FunctionDefinition) × (ir : List Function) × (obj : Object) × (linked : Object)
      × (build_source source ≡ returns ast)
      × (emit_object ast ≡ ok ir)
      × (lower_ir ir ≡ ok obj)
      × (link (is_linux target) obj ≡ ok linked)
      × (load file
          ≡ (0x7f ∷ 0x45 ∷ 0x4c ∷ 0x46 ∷ 1 ∷ 1 ∷ 1 ∷ [], 0x10000, (0x10000, linked.code) ∷ []))
compile-loads source target file w h b =
    let (ast, ir, obj, linked, a, i, o, l, e) =
      (subst (Safely (WrittenFrom source target)) h (compile-Safely source target w)).as_said in
    (
      ast,
      ir,
      obj,
      linked,
      a,
      i,
      o,
      l,
      ap load e ∙ load-emit linked target (omega (arith, ap length e, length-emit linked target)),
    )
