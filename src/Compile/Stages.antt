-- ===== src/Compile/Stages.antt =====
-- `compile` of compile.cpp with its settings: which artifacts are written, up to the furthest stage that
-- is asked for. What the function does to the world is the list of its events: an output file is
-- opened, which makes it empty, and an artifact is written to a file or to the standard output. The
-- files that open for writing are given, and what a file that opens for reading holds once others were
-- opened for writing, since the textual outputs are opened before the input is read and it may be one of
-- them. The log is
-- left out, and so is what stands on a stream when printing throws. The successors of a block are those
-- of a terminator that no code writes.
use sasc.Prelude.{ℕ, Bool, ◌||◌, Option, none, some, List, [], ◌∷◌, ◌++◌, if◌then◌else◌, String}
use sasc.Error.{Error, file_io_error, Result, ok, err}
use sasc.Frontend.Outcome.{Outcome, out_of_fuel, throws, returns, lift}
use sasc.Frontend.Ast.{FunctionDefinition}
use sasc.Frontend.AstPrint.{print}
use sasc.Frontend.EmitIr.{emit_object}
use sasc.Frontend.Parser.{build_source}
use sasc.Riscv32.Function.{Object, lower_ir, link}
use sasc.Ir.Defs.{Function}
use sasc.Ir.Printer.{Successor}
use sasc.Ir.Printer.Object.{print as print_ir}
use sasc.Elf.{emit}
use sasc.Cli.Text.{Text}
use sasc.Compile.{is_linux}
use sasc.Compile.Settings.{
  EmitKind, ast_kind, ir_kind, exe_kind, same_emit_kind, Emits, CompileSettings, find, wants,
  furthest,
}

-- What is written: the lines of a tree, the text of an object, or the bytes of an executable.
pub data Artifact : Type 0 where
  tree : List Text → Artifact
  ir_text : Text → Artifact
  executable : List ℕ → Artifact

-- Where it is written; none is the standard output.
pub data Event : Type 0 where
  opened : Text → Event
  wrote : Option Text → Artifact → Event

-- The events in order, and how the function ends.
pub record Effects : Type 0 where
  pub events : List Event
  pub ended : Outcome (Unit {0})

abbrev pub over : Effects
over = record { events = []; ended = returns tt }

abbrev pub fails : Error → Effects
fails e = record { events = []; ended = throws e }

abbrev pub after : List Event → Effects → Effects
after before e = record e { events = before ++ e.events }

-- What does nothing to the world, and then the rest.
abbrev pub then_do {ℓ} : {A : Type ℓ} → Outcome A → (A → Effects) → Effects
then_do out_of_fuel rest = record { events = []; ended = out_of_fuel }
then_do (throws e) rest = fails e
then_do (returns a) rest = rest a

-- The constructor of `EmitStreams`: the files of the textual artifacts, in the order of the stages.
unfoldable pub open_streams : (Text → Bool) → Emits → Effects → Effects
unfolding same_emit_kind
open_streams opens [] rest = rest
open_streams opens ((k, t) ∷ emits) rest =
    let others = open_streams opens emits rest in
    if t.to_stdout || same_emit_kind k exe_kind
    then others
    else if opens t.path
    then after (opened t.path ∷ []) others
    else fails file_io_error

-- The files that are open for writing when the input is read.
unfoldable pub opened_paths : Emits → List Text
unfolding same_emit_kind
opened_paths [] = []
opened_paths ((k, t) ∷ emits) =
    let others = opened_paths emits in
    if t.to_stdout || same_emit_kind k exe_kind then others else t.path ∷ others

-- `EmitStreams::get`, and writing to it.
unfoldable pub write_text : EmitKind → CompileSettings → Artifact → Event
unfolding find
write_text k settings a =
    wrote
      (elim (find k settings.emits) [
        | none ↦ none
        | some t ↦ if t.to_stdout then none else some t.path
      ])
      a

unfoldable pub write_executable : (Text → Bool) → CompileSettings → Object → Effects
unfolding find wants emit
write_executable opens settings obj = elim (find exe_kind settings.emits) [
  | none ↦ over
  | some t ↦
      if opens t.path
      then record {
        events = opened t.path ∷ (wrote (some t.path) (executable (emit obj settings.target)) ∷ []);
        ended = returns tt;
      }
      else fails file_io_error
]

unfoldable pub back_end : (Text → Bool) → CompileSettings → List Function → Effects
unfolding lower_ir link write_executable
back_end opens settings ir = then_do (lift (lower_ir ir)) (λ obj.
    then_do (lift (link (is_linux settings.target) obj))
      (λ linked. write_executable opens settings linked))

-- Whether the stage is the furthest that is asked for.
abbrev pub stops_at : EmitKind → CompileSettings → Result Bool
stops_at k settings = elim (furthest settings) [ err e ↦ err e | ok f ↦ ok (same_emit_kind f k) ]

abbrev pub unwritten : String → ℕ → Successor × Successor
unwritten name place = let s : Successor = record { bb = 0; args = [] } in (s, s)

unfoldable pub ir_stage : (Text → Bool) → CompileSettings → List Function → Effects
unfolding wants write_text furthest same_emit_kind back_end print_ir
ir_stage opens settings ir =
    let rest =
      then_do (lift (stops_at ir_kind settings))
        (λ stop. if stop then over else back_end opens settings ir) in
    if wants ir_kind settings
    then then_do (print_ir ir unwritten)
        (λ written. after (write_text ir_kind settings (ir_text written) ∷ []) rest)
    else rest

-- Behind the tree's text.
unfoldable pub ast_written : (Text → Bool) → CompileSettings → List FunctionDefinition → Effects
unfolding furthest same_emit_kind emit_object ir_stage
ast_written opens settings ast = then_do (lift (stops_at ast_kind settings)) (λ stop.
    if stop then over else then_do (lift (emit_object ast)) (λ ir. ir_stage opens settings ir))

unfoldable pub ast_stage : (Text → Bool) → CompileSettings → List FunctionDefinition → Effects
unfolding wants write_text print ast_written
ast_stage opens settings ast =
    if wants ast_kind settings
    then then_do (lift (print ast)) (λ lines.
      after (write_text ast_kind settings (tree lines) ∷ []) (ast_written opens settings ast))
    else ast_written opens settings ast

-- From the input file on; none is a file that does not open.
unfoldable pub read_input : (Text → Bool) → CompileSettings → Option Text → Effects
unfolding build_source ast_stage
read_input opens settings none = fails file_io_error
read_input opens settings (some source) =
    then_do (build_source source) (λ ast. ast_stage opens settings ast)

unfoldable pub compile_with :
    (opens : Text → Bool) (reads : List Text → Text → Option Text)
    → Text
    → CompileSettings
    → Effects
unfolding open_streams opened_paths read_input
compile_with opens reads filename settings =
    open_streams opens settings.emits
      (read_input opens settings (reads (opened_paths settings.emits) filename))
