-- ===== src/Main/Arguments.antt =====
-- The parser of the command line that main.cpp sets up. Its arguments stand at these positions: the
-- input file, `--out`, `--target`, `--emit`, `--verbose`, `--quiet` and `--help`.
use sasc.Prelude.{ℕ, [], ◌++◌}
use sasc.Frontend.Token.{chars}
use sasc.Cli.Text.{Text}
use sasc.Cli.Arg.{Arg, short_name, metavar, required, default_value, allow_multi, split_on}
use sasc.Cli.Register.{
  CliResult, CliParser, cli_parser, add_flag, add_flag_arg, add_positional, add_help_flag, ◌>>=◌,
}
use sasc.Main.Emit.{emit_kinds, emit_kind_list, stdout_specifier}

abbrev emit_description : Text
emit_description =
    chars "Artifacts to produce: "
    ++ (emit_kind_list [] emit_kinds
        ++ (chars ". Append \"=PATH\" to write to file, or \"="
            ++ (stdout_specifier ++ chars "\" for standard output")))

abbrev out_options : Arg → Arg
out_options a = default_value (chars "a.out") (metavar (chars "FILE") (short_name "o" a))

abbrev target_options : Arg → Arg
target_options a = required (metavar (chars "TARGET") (short_name "t" a))

abbrev emit_options : Arg → Arg
emit_options a = default_value (chars "exe") (split_on "," (allow_multi (metavar (chars "KIND") a)))

abbrev verbose_options : Arg → Arg
verbose_options a = allow_multi (short_name "v" a)

unfoldable pub ciderc : CliResult CliParser
unfolding cli_parser add_positional add_flag_arg add_flag add_help_flag emit_kind_list required
    short_name metavar default_value allow_multi split_on
ciderc = do
  c1 ←
      add_positional (chars "file") (chars "Input file") required
        (cli_parser (chars "ciderc") (chars "Compiler for the Cider programming language"))
  c2 ←
      add_flag_arg (chars "out") (chars "Output file path for the executable, if \"--emit exe\"")
        out_options c1
  c3 ← add_flag_arg (chars "target") (chars "Target platform") target_options c2
  c4 ← add_flag_arg (chars "emit") emit_description emit_options c3
  c5 ← add_flag (chars "verbose") (chars "Increase compiler verbosity") verbose_options c4
  c6 ← add_flag (chars "quiet") (chars "Silence compiler output") (short_name "q") c5
  add_help_flag c6

abbrev pub file_at : ℕ
file_at = 0

abbrev pub out_at : ℕ
out_at = 1

abbrev pub target_at : ℕ
target_at = 2

abbrev pub emit_at : ℕ
emit_at = 3
