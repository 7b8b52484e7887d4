-- ===== src/Main/Runs.antt =====
-- Runs of `main` of main.cpp on whole command lines.
use sasc.Prelude.{
  ℕ, ◌≡◌, refl, ap, ◌∙◌, Bool, true, false, Option, none, some, List, [], ◌∷◌, if◌then◌else◌,
}
use sasc.Error.{exit_code}
use sasc.Frontend.Outcome.{Outcome, out_of_fuel, throws, returns}
use sasc.Frontend.Token.{chars}
use sasc.Elf.{Target, rv32g, ilp32d, linux, elf32}
use sasc.Cli.Text.{Text}
use sasc.Cli.Register.{CliResult, CliParser, parsed}
use sasc.Cli.Actions.{give, place, Says}
use sasc.Cli.Results.{parse_actions, parse-Says}
use sasc.Compile.{compile}
use sasc.Compile.Stages.{executable, opened, wrote, Effects, then_do}
use sasc.Compile.Artifacts.{write_file, compile_with-exe}
use sasc.Main.Arguments.{ciderc, out_at, target_at}
use sasc.Main.Ciderc.{runs_on, exits, Process, status, run_parsed, main}

-- The parser that is set up.
unfoldable pub ciderc_parser : CliParser
unfolding ciderc
ciderc_parser = parser_of ciderc
  where
    parser_of : CliResult CliParser → CliParser
    parser_of (parsed cli) = cli
    parser_of _ = record { program_name = []; desc = []; args = []; help_arg = none }

abbrev pub riscv_target : Target
riscv_target = record { isa = rv32g; abi = ilp32d; os = linux; format = elf32 }

-- The process for what the compiler makes of the source, where an executable is to go to `out`.
abbrev pub process_for : (Text → Bool) → Text → Outcome (List ℕ) → Process
process_for opens out out_of_fuel = record { printed = none; events = []; exit_status = runs_on }
process_for opens out (throws e) = record {
  printed = none;
  events = [];
  exit_status = exits (exit_code e);
}
process_for opens out (returns file) =
    if opens out
    then record {
      printed = none;
      events = opened out ∷ (wrote (some out) (executable file) ∷ []);
      exit_status = exits 0;
    }
    else record { printed = none; events = []; exit_status = exits 0xe0 }

abbrev process : Effects → Process
process e = record { printed = none; events = e.events; exit_status = status e.ended }

if-process :
    (b : Bool) (x y : Effects) → process (if b then x else y) ≡ (if b then process x else process y)
if-process true x y = refl
if-process false x y = refl

process-process_for :
    (opens : Text → Bool) (out : Text) (o : Outcome (List ℕ))
    → process (then_do o (write_file opens out)) ≡ process_for opens out o
unfolding status exit_code
process-process_for opens out out_of_fuel = refl
process-process_for opens out (throws e) = refl
process-process_for opens out (returns file) = if-process (opens out) _ _

-- A command line that names an input file that opens, the target and an output file, in this order and
-- however it is spelled, runs the compiler on the contents of the input. What the compiler returns is written to the
-- output file and the process exits with 0; if that file does not open, it exits with 0xe0. What the
-- compiler throws is the exit code, and then nothing is opened for writing.
pub main-executable :
    (replace_extension : Text → Text → Text) (opens : Text → Bool)
    (reads : List Text → Text → Option Text) (program input out source : Text) (tokens : List Text)
    → Says ciderc_parser.args false tokens
        (place input ∷ (give target_at (chars "linux-riscv32g") ∷ (give out_at out ∷ [])))
    → reads [] input ≡ some source
    → main replace_extension opens reads (program ∷ tokens)
      ≡ process_for opens out (compile source riscv_target)
unfolding main ciderc_parser parse_actions
main-executable replace_extension opens reads program input out source tokens says h =
    ap (run_parsed replace_extension opens reads ciderc_parser)
      (parse-Says ciderc_parser tokens _ says)
    ∙ (ap process (compile_with-exe opens reads input source out riscv_target h)
        ∙ process-process_for opens out (compile source riscv_target))
