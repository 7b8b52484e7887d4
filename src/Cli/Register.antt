-- ===== src/Cli/Register.antt =====
-- `CliParser` of utils/CliParser.hpp and the registration of arguments of utils/CliParser.cpp.
-- `CliError` and `CliHelpRequested` are values: an error has a constructor for each place that throws
-- it, and the text of its message is left out.
use sasc.Prelude.{
  ℕ, suc, Bool, true, false, ◌&&◌, if◌then◌else◌, List, [], ◌∷◌, ◌++◌, length, Option, none, some,
}
use sasc.Frontend.Token.{chars}
use sasc.Cli.Text.{Text, same_char, same_text}
use sasc.Cli.Arg.{Arg, Kind, flag, option, positional, same_kind, arg, short_name}
use Prim.Native.Char.{Char}

pub data CliError : Type 0 where
  registered_more_than_once unexpected_positional flag_passed_more_than_once : CliError
  option_passed_more_than_once malformed_option flag_does_not_take_a_value : CliError
  option_requires_a_value unknown_option required_was_not_provided : CliError

pub data CliResult {ℓ} (A : Type ℓ) : Type ℓ where
  cli_error : CliError → CliResult A
  help_requested : CliResult A
  parsed : A → CliResult A

infixl 5 ◌>>=◌
abbrev pub ◌>>=◌ {ℓ κ} : {A : Type ℓ} {B : Type κ} → CliResult A → (A → CliResult B) → CliResult B
cli_error e >>= rest = cli_error e
help_requested >>= rest = help_requested
parsed a >>= rest = rest a

pub record CliParser : Type 0 where
  pub program_name : Text
  pub desc : Text
  pub args : List Arg
  pub help_arg : Option ℕ

unfoldable pub cli_parser : Text → Text → CliParser
cli_parser program_name desc = record {
  program_name = program_name;
  desc = desc;
  args = [];
  help_arg = none;
}

-- The position of the first argument that passes a test.
unfoldable pub find_where : (Arg → Bool) → List Arg → Option ℕ
find_where test [] = none
find_where test (a ∷ args) =
    let behind = find_where test args in
    if test a then some 0 else elim behind [ none ↦ none | some i ↦ some (suc i) ]

abbrev pub has_long : Text → Kind → Arg → Bool
has_long name kind a = same_kind a.kind kind && same_text a.name name

abbrev pub is_short : Char → Option Char → Bool
is_short c none = false
is_short c (some d) = same_char d c

abbrev pub has_short : Char → Kind → Arg → Bool
has_short c kind a = same_kind a.kind kind && is_short c a.short_char

unfoldable pub find_long : Text → Kind → List Arg → Option ℕ
unfolding find_where same_text
find_long name kind args = find_where (has_long name kind) args

unfoldable pub find_short : Char → Kind → List Arg → Option ℕ
unfolding find_where
find_short c kind args = find_where (has_short c kind) args

-- The loop of `add`: an argument of that name and kind is registered.
unfoldable pub is_registered : Text → Kind → List Arg → Bool
unfolding same_text
is_registered name kind [] = false
is_registered name kind (existing ∷ args) =
    let behind = is_registered name kind args in
    if same_text existing.name name && same_kind existing.kind kind then true else behind

-- The argument is registered as what `configure` makes of it: the chained calls on the reference that
-- `add` returns.
unfoldable pub add : Kind → Text → Text → (Arg → Arg) → CliParser → CliResult CliParser
unfolding is_registered arg
add kind name desc configure cli =
    if is_registered name kind cli.args
    then cli_error registered_more_than_once
    else parsed (record cli { args = cli.args ++ configure (arg kind name desc) ∷ [] })

unfoldable pub add_flag : Text → Text → (Arg → Arg) → CliParser → CliResult CliParser
unfolding add
add_flag = add flag

unfoldable pub add_flag_arg : Text → Text → (Arg → Arg) → CliParser → CliResult CliParser
unfolding add
add_flag_arg = add option

unfoldable pub add_positional : Text → Text → (Arg → Arg) → CliParser → CliResult CliParser
unfolding add
add_positional = add positional

unfoldable pub add_help_flag : CliParser → CliResult CliParser
unfolding add_flag short_name
add_help_flag cli = do
  cli' ← add_flag (chars "help") (chars "Show this help text") (short_name "h") cli
  parsed (record cli' { help_arg = some (length cli.args) })
