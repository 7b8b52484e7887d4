-- ===== src/Main/Tests.antt =====
-- The help text of the README, and runs of the command line.
use sasc.Prelude.{
  true-not-false, ℕ, zero, suc, ◌≤◌, ◌≡◌, ◌≢◌, refl, ap, List, [], ◌∷◌, ◌++◌, length, get_elem?,
  none, some, true, false, arith, All, ◌⊎◌,
}
use sasc.Error.{Result, ok, err, unsupported}
use sasc.Frontend.Token.{chars}
use sasc.Compile.{compile}
use sasc.Compile.Settings.{ir_kind, asm_kind, CompileSettings, find, wants, furthest}
use sasc.Compile.Order.{IsFurthest, furthest-IsFurthest}
use sasc.Compile.Artifacts.{exe_only}
use sasc.Cli.Text.{Text, same_text, pieces}
use sasc.Cli.Arg.{Arg, Kind, flag, arg}
use sasc.Cli.Register.{
  CliResult, CliParser, cli_error, help_requested, parsed, registered_more_than_once, find_long,
  find_short, add,
}
use sasc.Cli.Help.{help_text}
use sasc.Cli.Actions.{
  Action, pass, give, place, Lacks, IsName, nothing, short_flag, short_attached, short_separate,
  short, long_flag, long_inline, Says, ended, operand, option_alone, option_with,
}
use sasc.Cli.Parse.{parse, positionals, is_operand, reset}
use sasc.Cli.Values.{received}
use sasc.Cli.Results.{parse_actions, parse-Says, outcome, parse-outcome}
use sasc.Cli.Accepts.{places, asks_help}
use sasc.Cli.Usage.{parse-accepts}
use sasc.Cli.HelpRequested.{parse-help_requested}
use sasc.Cli.Refuses.{IsAccepted, parse-IsAccepted}
use sasc.Cli.Split.{join, join-pieces}
use sasc.Cli.Taken.{add-find_long}
use sasc.Main.Emit.{emit_kinds, stdout_specifier, parse_emit}
use sasc.Main.Arguments.{ciderc, file_at, out_at, target_at, emit_at}
use sasc.Main.Ciderc.{settings_of, value_at, values_at, main}
use sasc.Main.Runs.{ciderc_parser, riscv_target, process_for, main-executable}
use sasc.Main.Values.{first_given, retarget, over_target, parse_emit-named, settings_of-find}

abbrev help_of : CliResult CliParser → Text
help_of (cli_error e) = []
help_of help_requested = []
help_of (parsed cli) = help_text cli

abbrev readme : Text
readme =
    chars "Usage: ciderc [options] <file>\n\nCompiler for the Cider programming language\n"
    ++ (chars "\nPositional arguments:\n  <file>                 Input file (required)\n"
        ++ (chars "\nFlags:\n  -v, --verbose          Increase compiler verbosity (repeatable)\n"
            ++ (chars "  -q, --quiet            Silence compiler output\n"
                ++ (chars "  -h, --help             Show this help text\n\nOptions:\n"
                    ++ (chars
                          "  -o, --out <FILE>       Output file path for the executable, if \"--emit exe\""
                        ++ (chars
                              " [default: a.out]\n  -t, --target <TARGET>  Target platform (required)\n"
                            ++ (chars
                                  "      --emit <KIND>      Artifacts to produce: ast, ir, asm, exe. Append "
                                ++ chars
                                    "\"=PATH\" to write to file, or \"=stdout\" for standard output (repeatable) [default: exe]\n")))))))

help_readme : help_of ciderc ≡ readme
unfolding ciderc help_text
help_readme = refl

-- `ciderc -vo prog --target=linux-riscv32g in.cdr`, and what it says.
abbrev sample_tokens : List Text
sample_tokens =
    chars "-vo" ∷ (chars "prog" ∷ (chars "--target=linux-riscv32g" ∷ (chars "in.cdr" ∷ [])))

abbrev actions : List Action
actions =
    pass 4
    ∷ (give 1 (chars "prog") ∷ (give 2 (chars "linux-riscv32g") ∷ (place (chars "in.cdr") ∷ [])))

target-IsName : IsName (chars "target")
target-IsName = record {
  first = "t";
  others = chars "arget";
  is_cons = refl;
  lacks = (refl, (refl, (refl, (refl, (refl, (refl, tt))))));
}

sample_tokens-Says : Says ciderc_parser.args false sample_tokens actions
unfolding ciderc_parser find_long find_short is_operand
sample_tokens-Says =
    option_with (chars "vo") (chars "prog")
      (short "v" refl refl
        (short_flag "v" 4 refl (short_separate "o" (chars "prog") 1 refl refl refl)))
      (option_alone (chars "-target=linux-riscv32g")
        (long_inline (chars "target") (chars "linux-riscv32g") 2 target-IsName refl refl)
        (operand (chars "in.cdr") refl ended))

abbrev cli_of : CliResult CliParser → CliParser
cli_of (cli_error e) = ciderc_parser
cli_of help_requested = ciderc_parser
cli_of (parsed cli) = cli

abbrev after : CliParser
after = cli_of (parse_actions actions ciderc_parser)

parse-Says_example : parse sample_tokens ciderc_parser ≡ parse_actions actions ciderc_parser
parse-Says_example = parse-Says ciderc_parser sample_tokens actions sample_tokens-Says

parse-after : parse sample_tokens ciderc_parser ≡ parsed after
unfolding parse_actions ciderc_parser reset
parse-after = parse-Says ciderc_parser sample_tokens actions sample_tokens-Says

abbrev arg_at : ℕ → CliParser → Arg
arg_at i cli = elim (get_elem? cli.args i) [ none ↦ arg flag [] [] | some a ↦ a ]

parse-outcome_example :
    get_elem? after.args 4
    ≡ some
        (outcome (received (positionals 0 ciderc_parser.args) 0 4 actions) (arg_at 4 ciderc_parser))
unfolding ciderc_parser
parse-outcome_example =
    parse-outcome ciderc_parser after sample_tokens actions 4 (arg_at 4 ciderc_parser)
      sample_tokens-Says parse-after refl

actions_once :
    (i : ℕ) (a : Arg)
    → get_elem? ciderc_parser.args i ≡ some a
    → a.multi_allowed ≡ false
    → length (received (positionals 0 ciderc_parser.args) 0 i actions) ≤ 1
unfolding ciderc_parser received positionals
actions_once zero a g m = omega arith
actions_once (suc zero) a g m = omega arith
actions_once (suc (suc zero)) a g m = omega arith
actions_once (suc (suc (suc zero))) a g m = omega arith
actions_once (suc (suc (suc (suc zero)))) a g m = omega arith
actions_once (suc (suc (suc (suc (suc zero))))) a g m = omega arith
actions_once (suc (suc (suc (suc (suc (suc zero)))))) a g m = omega arith
actions_once (suc (suc (suc (suc (suc (suc (suc i))))))) a g m = cc

not-required : (a b : Arg) → some a ≡ some b → a.is_required ≡ false → b.is_required ≡ true → ⊥
not-required a b e f t = cc

actions_present :
    (i : ℕ) (a : Arg)
    → get_elem? ciderc_parser.args i ≡ some a
    → a.is_required ≡ true
    → received (positionals 0 ciderc_parser.args) 0 i actions ≢ []
unfolding ciderc_parser received positionals
actions_present zero a g r = λ e. cc
actions_present (suc zero) a g r = λ e. cc
actions_present (suc (suc zero)) a g r = λ e. cc
actions_present (suc (suc (suc zero))) a g r = absurd (not-required _ a g refl r)
actions_present (suc (suc (suc (suc zero)))) a g r = λ e. cc
actions_present (suc (suc (suc (suc (suc zero))))) a g r = absurd (not-required _ a g refl r)
actions_present (suc (suc (suc (suc (suc (suc zero)))))) a g r = absurd (not-required _ a g refl r)
actions_present (suc (suc (suc (suc (suc (suc (suc i))))))) a g r = cc

parse-accepts_example : (cli' : CliParser) × (parse sample_tokens ciderc_parser ≡ parsed cli')
unfolding ciderc_parser places positionals asks_help
parse-accepts_example =
    parse-accepts ciderc_parser sample_tokens actions sample_tokens-Says actions_once (omega arith)
      refl actions_present

parse-IsAccepted_example : IsAccepted ciderc_parser actions
parse-IsAccepted_example =
    parse-IsAccepted ciderc_parser after sample_tokens actions sample_tokens-Says parse-after

-- `ciderc -v --help a b`, which has an operand too many.
abbrev help_tokens : List Text
help_tokens = chars "-v" ∷ (chars "--help" ∷ (chars "a" ∷ (chars "b" ∷ [])))

help-IsName : IsName (chars "help")
help-IsName = record {
  first = "h";
  others = chars "elp";
  is_cons = refl;
  lacks = (refl, (refl, (refl, (refl, tt))));
}

help_tokens-Says :
    Says ciderc_parser.args false help_tokens
      ((pass 4 ∷ []) ++ pass 6 ∷ (place (chars "a") ∷ (place (chars "b") ∷ [])))
unfolding ciderc_parser find_long find_short is_operand
help_tokens-Says = option_alone (chars "v") (short "v" refl refl (short_flag "v" 4 refl nothing)) (
    option_alone (chars "-help") (long_flag (chars "help") 6 help-IsName refl)
      (operand (chars "a") refl (operand (chars "b") refl ended)))

help_once :
    (i : ℕ) (a : Arg)
    → get_elem? ciderc_parser.args i ≡ some a
    → a.multi_allowed ≡ false
    → length (received (positionals 0 ciderc_parser.args) 0 i ((pass 4 ∷ []) ++ pass 6 ∷ [])) ≤ 1
unfolding ciderc_parser received positionals
help_once zero a g m = omega arith
help_once (suc zero) a g m = omega arith
help_once (suc (suc zero)) a g m = omega arith
help_once (suc (suc (suc zero))) a g m = omega arith
help_once (suc (suc (suc (suc zero)))) a g m = omega arith
help_once (suc (suc (suc (suc (suc zero))))) a g m = omega arith
help_once (suc (suc (suc (suc (suc (suc zero)))))) a g m = omega arith
help_once (suc (suc (suc (suc (suc (suc (suc i))))))) a g m = cc

parse-help_requested_example : parse help_tokens ciderc_parser ≡ help_requested
unfolding ciderc_parser places positionals asks_help
parse-help_requested_example =
    parse-help_requested ciderc_parser help_tokens (pass 4 ∷ [])
      (place (chars "a") ∷ (place (chars "b") ∷ [])) 6 help_tokens-Says refl help_once (omega arith)
      refl

join-pieces_example :
    (join "," (pieces "," [] (chars "ast,,ir")) ≡ chars "ast,,ir")
    × All (Lacks ",") (pieces "," [] (chars "ast,,ir"))
join-pieces_example = join-pieces "," (chars "ast,,ir")

add-find_long_example :
    ((i : ℕ) × (find_long (chars "quiet") flag ciderc_parser.args ≡ some i)
      × (add flag (chars "quiet") [] (λ a. a) ciderc_parser ≡ cli_error registered_more_than_once))
    ⊎ ((cli' : CliParser) × (add flag (chars "quiet") [] (λ a. a) ciderc_parser ≡ parsed cli')
        × (find_long (chars "quiet") flag cli'.args ≡ some (length ciderc_parser.args))
        × ((other : Text) (k : Kind) (i : ℕ)
            → find_long other k ciderc_parser.args ≡ some i
            → find_long other k cli'.args ≡ some i))
unfolding arg
add-find_long_example = add-find_long flag (chars "quiet") [] (λ a. a) ciderc_parser refl refl

furthest-IsFurthest_example :
    IsFurthest
      (exe_only riscv_target (chars "a.out"))
      (furthest (exe_only riscv_target (chars "a.out")))
furthest-IsFurthest_example = furthest-IsFurthest (exe_only riscv_target (chars "a.out")) (tt, tt)

-- An extension put behind a name, for the library's function.
abbrev with_extension : Text → Text → Text
with_extension name extension = name ++ extension

not_stdout : ◌≢◌ {A = Text} (chars "b.ir") stdout_specifier
unfolding same_text
not_stdout e = true-not-false (ap (λ t. same_text t (chars "b.ir")) e)

parse_emit-named_example :
    All
      (λ info.
        (parse_emit with_extension (info.name ++ "=" ∷ chars "b.ir") (chars "in")
          ≡ ok (info.kind, record { path = chars "b.ir"; to_stdout = false }))
        × (parse_emit with_extension (info.name ++ "=" ∷ stdout_specifier) (chars "in")
            ≡ ok (info.kind, record { path = []; to_stdout = true }))
        × (parse_emit with_extension info.name (chars "in")
            ≡ ok (
              info.kind,
              record { path = with_extension (chars "in") info.extension; to_stdout = false },
            ))
        × (parse_emit with_extension (info.name ++ "=" ∷ []) (chars "in") ≡ err unsupported))
      emit_kinds
parse_emit-named_example =
    parse_emit-named with_extension (chars "in") (chars "b.ir") (λ e. cc) not_stdout

abbrev settings_or : Result CompileSettings → CompileSettings
settings_or (err e) = exe_only riscv_target []
settings_or (ok settings) = settings

settings_of-find_example :
    (find ir_kind (settings_or (settings_of with_extension after)).emits
      ≡ over_target
          (retarget (value_at out_at after) ir_kind)
          (first_given with_extension (value_at file_at after) ir_kind (values_at emit_at after)))
    × (wants asm_kind (settings_or (settings_of with_extension after)) ≡ false)
unfolding ciderc_parser settings_of parse_actions reset
settings_of-find_example =
    settings_of-find with_extension after (settings_or (settings_of with_extension after)) ir_kind
      refl

abbrev main_source : Text
main_source = chars "fn main() -> i32 { return 7i32; }\n"

-- `ciderc in.cdr -t linux-riscv32g -oprog`.
abbrev build_tokens : List Text
build_tokens = chars "in.cdr" ∷ (chars "-t" ∷ (chars "linux-riscv32g" ∷ (chars "-oprog" ∷ [])))

build_tokens-Says : Says ciderc_parser.args false build_tokens (
    place (chars "in.cdr")
    ∷ (give target_at (chars "linux-riscv32g") ∷ (give out_at (chars "prog") ∷ [])))
unfolding ciderc_parser find_long find_short is_operand
build_tokens-Says = operand (chars "in.cdr") refl (
    option_with (chars "t") (chars "linux-riscv32g")
      (short "t" refl refl (short_separate "t" (chars "linux-riscv32g") 2 refl refl refl))
      (option_alone (chars "oprog")
        (short "o" refl refl (short_attached "o" "p" (chars "rog") 1 refl refl)) ended))

main-executable_example :
    main with_extension (λ _. true) (λ _ _. some main_source) (chars "ciderc" ∷ build_tokens)
    ≡ process_for (λ _. true) (chars "prog") (compile main_source riscv_target)
main-executable_example =
    main-executable with_extension (λ _. true) (λ _ _. some main_source) (chars "ciderc")
      (chars "in.cdr") (chars "prog") main_source build_tokens build_tokens-Says refl
