-- ===== src/Main/Ciderc.antt =====
-- `main` of main.cpp behind the set-up of its arguments. It gives the exit code and what it did to the
-- world: the help text where that is printed, and the events of `compile`.
use sasc.Prelude.{ℕ, Bool, true, false, Option, none, some, List, [], ◌∷◌, get_elem?, if◌then◌else◌}
use sasc.Error.{unsupported, unimplemented, exit_code, Result, ok, err, ◌>>=◌}
use sasc.Frontend.Outcome.{Outcome, out_of_fuel, throws, returns}
use sasc.Frontend.Token.{text}
use sasc.Elf.{supported_targets}
use sasc.Cli.Text.{Text}
use sasc.Cli.Arg.{value}
use sasc.Cli.Register.{CliResult, CliParser, cli_error, help_requested, parsed}
use sasc.Cli.Parse.{parse_argv}
use sasc.Cli.Help.{help_text}
use sasc.Compile.Settings.{asm_kind, exe_kind, Emits, CompileSettings, same_emit_kind, wants}
use sasc.Compile.Stages.{Event, Effects, compile_with}
use sasc.Main.Emit.{insert_emits}
use sasc.Main.Arguments.{file_at, out_at, target_at, emit_at, ciderc}

-- The values of the argument at a position, and the last one.
abbrev pub values_at : ℕ → CliParser → List Text
values_at i cli = elim (get_elem? cli.args i) [ none ↦ [] | some a ↦ a.parsed_values ]

unfoldable pub value_at : ℕ → CliParser → Text
unfolding value
value_at i cli = elim (get_elem? cli.args i) [ none ↦ [] | some a ↦ value a ]

-- The executable's path comes from `--out`.
unfoldable pub set_exe_path : Text → Emits → Emits
unfolding same_emit_kind
set_exe_path out [] = []
set_exe_path out ((k, t) ∷ emits) =
    let others = set_exe_path out emits in
    if same_emit_kind k exe_kind
    then (k, (if t.to_stdout then t else record t { path = out })) ∷ emits
    else (k, t) ∷ others

abbrev pub unless_no_emits : Emits → Result Emits
unless_no_emits [] = err unsupported
unless_no_emits (e ∷ emits) = ok (e ∷ emits)

abbrev pub or_unsupported {ℓ} : {A : Type ℓ} → Option A → Result A
or_unsupported none = err unsupported
or_unsupported (some a) = ok a

abbrev pub unless_asm : CompileSettings → Bool → Result CompileSettings
unless_asm settings true = err unimplemented
unless_asm settings false = ok settings

-- The settings that the parsed command line asks for.
unfoldable pub settings_of : (Text → Text → Text) → CliParser → Result CompileSettings
unfolding supported_targets value_at insert_emits set_exe_path wants
settings_of replace_extension cli = do
  target ← or_unsupported (supported_targets (text (value_at target_at cli)))
  inserted ← insert_emits replace_extension (values_at emit_at cli) (value_at file_at cli) []
  emits ← unless_no_emits inserted
  let settings : CompileSettings = record {
    target = target;
    emits = set_exe_path (value_at out_at cli) emits;
  }
  unless_asm settings (wants asm_kind settings)

abbrev pub usage_error : ℕ
usage_error = 0xe1

-- How the process ends: it may run on, or be aborted by an exception that nothing catches.
pub data ExitStatus : Type 0 where
  runs_on aborted : ExitStatus
  exits : ℕ → ExitStatus

-- The help text, if it printed it, and the events of `compile`.
pub record Process : Type 0 where
  pub printed : Option Text
  pub events : List Event
  pub exit_status : ExitStatus

unfoldable pub status : Outcome (Unit {0}) → ExitStatus
unfolding exit_code
status out_of_fuel = runs_on
status (throws e) = exits (exit_code e)
status (returns _) = exits 0

abbrev process_of : Effects → Process
process_of e = record { printed = none; events = e.events; exit_status = status e.ended }

unfoldable pub run_settings :
    (opens : Text → Bool) (reads : List Text → Text → Option Text)
    → Text
    → Result CompileSettings
    → Process
unfolding compile_with status exit_code
run_settings opens reads filename (err e) = record {
  printed = none;
  events = [];
  exit_status = exits (exit_code e);
}
run_settings opens reads filename (ok settings) =
    process_of (compile_with opens reads filename settings)

-- `main` with the parser that it sets up, from the `try` around its `parse`.
unfoldable pub run_parsed :
    (replace_extension : Text → Text → Text) (opens : Text → Bool)
    (reads : List Text → Text → Option Text)
    → CliParser
    → CliResult CliParser
    → Process
unfolding help_text settings_of run_settings value_at
run_parsed replace_extension opens reads cli help_requested = record {
  printed = some (help_text cli);
  events = [];
  exit_status = exits 0;
}
run_parsed replace_extension opens reads cli (cli_error e) = record {
  printed = some (help_text cli);
  events = [];
  exit_status = exits usage_error;
}
run_parsed replace_extension opens reads cli (parsed cli') =
    run_settings opens reads (value_at file_at cli') (settings_of replace_extension cli')

abbrev aborts : Process
aborts = record { printed = none; events = []; exit_status = aborted }

-- `main` of the process's arguments. Nothing catches what the set-up throws.
unfoldable pub main :
    (replace_extension : Text → Text → Text) (opens : Text → Bool)
    (reads : List Text → Text → Option Text)
    → List Text
    → Process
unfolding ciderc parse_argv run_parsed
main replace_extension opens reads argv = elim ciderc [
  | cli_error e ↦ aborts
  | help_requested ↦ aborts
  | parsed cli ↦ run_parsed replace_extension opens reads cli (parse_argv argv cli)
]
