-- ===== src/Cli/Help.antt =====
-- `CliParser::help_text` of utils/CliParser.cpp. The width of a text is its number of bytes, as it is
-- for `std::format` on ASCII text.
use sasc.Prelude.{
  ℕ, zero, suc, ◌-◌, Bool, true, false, not, ◌||◌, ltb, if◌then◌else◌, List, [], ◌∷◌, ◌++◌, length,
  Option, none, some,
}
use sasc.Frontend.Token.{chars}
use sasc.Cli.Text.{Text, is_empty}
use sasc.Cli.Arg.{Arg, Kind, flag, option, positional, same_kind}
use sasc.Cli.Register.{CliParser}
use Prim.Native.Char.{Char}

abbrev short_column : Option Char → Text
short_column none = chars "    "
short_column (some c) = chars "-" ++ c ∷ chars ", "

abbrev meta_or : Option Text → Text → Text
meta_or none name = name
meta_or (some m) name = m

-- The left-hand column, as in `-o, --out <FILE>` or `<file>`.
unfoldable pub lhs_for : Arg → Text
lhs_for a = elim a.kind [
  | positional ↦ chars "<" ++ (a.name ++ chars ">")
  | flag ↦ short_column a.short_char ++ (chars "--" ++ a.name)
  | option ↦
      short_column a.short_char
      ++ (chars "--" ++ (a.name ++ (chars " <" ++ (meta_or a.meta a.name ++ chars ">"))))
]

-- The right-hand column: the description and the annotations.
unfoldable pub rhs_for : Arg → Text
rhs_for a =
    a.desc
    ++ ((if a.is_required then chars " (required)" else [])
        ++ ((if a.multi_allowed then chars " (repeatable)" else []) ++ elim a.default_val [
          | none ↦ []
          | some val ↦ chars " [default: " ++ (val ++ chars "]")
        ]))

abbrev max : ℕ → ℕ → ℕ
max a b = if ltb a b then b else a

-- The width of the widest left-hand column.
unfoldable pub widest : ℕ → List Arg → ℕ
unfolding lhs_for
widest width [] = width
widest width (a ∷ args) = widest (max width (length (lhs_for a))) args

unfoldable pub has_options : List Arg → Bool
has_options [] = false
has_options (a ∷ args) = not (same_kind a.kind positional) || has_options args

unfoldable pub usage_positionals : List Arg → Text
usage_positionals [] = []
usage_positionals (a ∷ args) =
    let behind = usage_positionals args in
    if not (same_kind a.kind positional)
    then behind
    else if a.is_required
    then chars " <" ++ (a.name ++ (chars ">" ++ behind))
    else chars " [" ++ (a.name ++ (chars "]" ++ behind))

abbrev spaces : ℕ → Text
spaces zero = []
spaces (suc n) = chars " " ++ spaces n

-- `{:<width}`.
unfoldable pub pad : ℕ → Text → Text
pad width t = t ++ spaces (width - length t)

-- The entries of one kind; the flag is whether the section's heading is printed.
unfoldable pub section : Kind → Text → ℕ → Bool → List Arg → Text
unfolding pad lhs_for rhs_for
section kind heading width printed_heading [] = []
section kind heading width printed_heading (a ∷ args) =
    let skipped = section kind heading width printed_heading args in
    let printed = section kind heading width true args in
    if not (same_kind a.kind kind)
    then skipped
    else (if printed_heading then [] else chars "\n" ++ (heading ++ chars ":\n"))
      ++ (chars "  "
          ++ (pad width (lhs_for a) ++ (chars "  " ++ (rhs_for a ++ (chars "\n" ++ printed)))))

unfoldable pub help_text : CliParser → Text
unfolding widest has_options usage_positionals section
help_text cli =
    let width = widest 0 cli.args in
    chars "Usage: "
    ++ (cli.program_name
        ++ ((if has_options cli.args then chars " [options]" else [])
            ++ (usage_positionals cli.args
                ++ (chars "\n"
                    ++ ((if is_empty cli.desc then [] else chars "\n" ++ (cli.desc ++ chars "\n"))
                        ++ (section positional (chars "Positional arguments") width false cli.args
                            ++ (section flag (chars "Flags") width false cli.args
                                ++ section option (chars "Options") width false cli.args)))))))
