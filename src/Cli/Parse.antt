-- ===== src/Cli/Parse.antt =====
-- `CliParser::parse` of utils/CliParser.cpp. A token that an option takes as its value is passed over
-- by the loop, as `++i` does: a step says whether it took the next one.
use sasc.Prelude.{
  ℕ, suc, ◌+◌, Bool, true, false, not, ◌&&◌, ◌||◌, ◌==◌, leb, if◌then◌else◌, List, [], ◌∷◌, map,
  get_elem?, set, Option, none, some,
}
use sasc.Frontend.Token.{chars}
use sasc.Cli.Text.{Text, same_text, is_empty, cut_at}
use sasc.Cli.Arg.{Arg, flag, option, positional, same_kind, add_value}
use sasc.Cli.Register.{
  CliResult, CliParser, cli_error, help_requested, parsed, find_long, find_short,
  unexpected_positional, flag_passed_more_than_once, option_passed_more_than_once, malformed_option,
  flag_does_not_take_a_value, option_requires_a_value, unknown_option, required_was_not_provided,
  ◌>>=◌,
}
use Prim.Native.Char.{code}

-- The locals of `parse`, and the arguments it writes to.
pub record Parsing : Type 0 where
  pub args : List Arg
  pub pos_index : ℕ
  pub end_of_flags : Bool

unfoldable pub reset : Arg → Arg
reset a = record a { seen = false; parsed_values = [] }

-- The positions of the positionals, in registration order; `i` is the position of the first argument.
unfoldable pub positionals : ℕ → List Arg → List ℕ
positionals i [] = []
positionals i (a ∷ args) =
    let behind = positionals (suc i) args in
    if same_kind a.kind positional then i ∷ behind else behind

-- A value is recorded at position `i`.
unfoldable pub record_value : ℕ → Text → List Arg → List Arg
unfolding add_value
record_value i val args = elim (get_elem? args i) [
  | none ↦ args
  | some a ↦ set args i (record (add_value val a) { seen = true })
]

-- Whether the argument may not be passed again.
unfoldable pub is_repeat : ℕ → List Arg → Bool
is_repeat i args = elim (get_elem? args i) [ none ↦ false | some a ↦ not a.multi_allowed && a.seen ]

unfoldable pub take_positional : Text → Parsing → CliResult Parsing
unfolding positionals record_value
take_positional tok p = elim (get_elem? (positionals 0 p.args) p.pos_index) [
  | none ↦ cli_error unexpected_positional
  | some i ↦ parsed (record p { args = record_value i tok p.args; pos_index = p.pos_index + 1 })
]

unfoldable pub hit_flag : ℕ → Parsing → CliResult Parsing
unfolding record_value is_repeat
hit_flag i p =
    if is_repeat i p.args
    then cli_error flag_passed_more_than_once
    else parsed (record p { args = record_value i [] p.args })

unfoldable pub set_option : ℕ → Text → Parsing → CliResult Parsing
unfolding record_value is_repeat
set_option i val p =
    if is_repeat i p.args
    then cli_error option_passed_more_than_once
    else parsed (record p { args = record_value i val p.args })

abbrev pub is_help : Option ℕ → ℕ → Bool
is_help none i = false
is_help (some h) i = h == i

-- `hit_flag` and the test for the help flag behind both of its calls.
unfoldable pub pass_flag : Option ℕ → ℕ → Parsing → CliResult Parsing
unfolding hit_flag
pass_flag help i p = do p' ← hit_flag i p; if is_help help i then help_requested else parsed p'

unfoldable pub looks_like_negative_number : Text → Bool
looks_like_negative_number (c ∷ (d ∷ cs)) =
    code c == b'-' && (leb b'0' (code d) && leb (code d) b'9')
looks_like_negative_number _ = false

-- A bare `-` or a negative number is never an option.
unfoldable pub is_operand : Text → Bool
unfolding looks_like_negative_number
is_operand [] = true
is_operand (c ∷ []) = true
is_operand (c ∷ (d ∷ cs)) = not (code c == b'-') || looks_like_negative_number (c ∷ (d ∷ cs))

-- An option's value: the one at hand, or else the next token. The flag is whether that one is taken.
unfoldable pub value_for : Option Text → Option Text → CliResult (Text × Bool)
value_for (some val) next = parsed (val, false)
value_for none (some val) = parsed (val, true)
value_for none none = cli_error option_requires_a_value

-- A long option's name and the value behind its `=`.
unfoldable pub named_option :
    Option ℕ → Text → Option Text → Option Text → Parsing → CliResult (Parsing × Bool)
unfolding find_long pass_flag set_option value_for
named_option help body inline_val next p =
    if is_empty body then cli_error malformed_option else elim (find_long body flag p.args) [
      | some i ↦ elim inline_val [
        | some _ ↦ cli_error flag_does_not_take_a_value
        | none ↦ do p' ← pass_flag help i p; parsed (p', false)
      ]
      | none ↦ elim (find_long body option p.args) [
        | some i ↦ do
          (val, taken) ← value_for inline_val next
          p' ← set_option i val p
          parsed (p', taken)
        | none ↦ cli_error unknown_option
      ]
    ]

-- A long option, without its leading `--`.
unfoldable pub long_option : Option ℕ → Text → Option Text → Parsing → CliResult (Parsing × Bool)
unfolding cut_at named_option
long_option help token_body next p =
    let (body, inline_val) = cut_at "=" token_body in named_option help body inline_val next p

abbrev pub unless_empty : Text → Option Text
unless_empty [] = none
unless_empty (c ∷ cs) = some (c ∷ cs)

-- The loop over a cluster of short options.
unfoldable pub short_options : Option ℕ → Text → Option Text → Parsing → CliResult (Parsing × Bool)
unfolding find_short pass_flag set_option value_for
short_options help [] next p = parsed (p, false)
short_options help (c ∷ cluster) next p = elim (find_short c flag p.args) [
  | some i ↦ do p' ← pass_flag help i p; short_options help cluster next p'
  | none ↦ elim (find_short c option p.args) [
    | some i ↦ do
      (val, taken) ← value_for (unless_empty cluster) next
      p' ← set_option i val p
      parsed (p', taken)
    | none ↦ cli_error unknown_option
  ]
]

-- A token that is an option, without its leading `-`.
unfoldable pub option_token : Option ℕ → Text → Option Text → Parsing → CliResult (Parsing × Bool)
unfolding long_option short_options
option_token help [] next p = parsed (p, false)
option_token help (c ∷ cs) next p =
    if code c == b'-' then long_option help cs next p else short_options help (c ∷ cs) next p

abbrev behind_dash : Text → Text
behind_dash [] = []
behind_dash (c ∷ cs) = cs

-- The body of the loop over the tokens.
unfoldable pub step : Option ℕ → Text → Option Text → Parsing → CliResult (Parsing × Bool)
unfolding same_text take_positional is_operand option_token
step help tok next p =
    if same_text tok (chars "--") && not p.end_of_flags
    then parsed (record p { end_of_flags = true }, false)
    else if p.end_of_flags || is_operand tok
    then take_positional tok p >>= (λ p'. parsed (p', false))
    else option_token help (behind_dash tok) next p

abbrev pub head? : List Text → Option Text
head? [] = none
head? (t ∷ ts) = some t

-- The loop; the flag is whether the first token has been taken.
unfoldable pub loop : Option ℕ → Bool → List Text → Parsing → CliResult Parsing
unfolding step
loop help taken [] p = parsed p
loop help true (tok ∷ tokens) p = loop help false tokens p
loop help false (tok ∷ tokens) p = do
  (p', taken) ← step help tok (head? tokens) p
  loop help taken tokens p'

abbrev pub fill : Option Text → Arg → Arg
fill none a = a
fill (some val) a = add_value val a

unfoldable pub fill_default : Arg → Arg
unfolding add_value
fill_default a = if a.seen then a else fill a.default_val a

unfoldable pub is_missing : Arg → Bool
is_missing a = a.is_required && not a.seen

unfoldable pub check_required : List Arg → CliResult (List Arg)
unfolding is_missing
check_required [] = parsed []
check_required (a ∷ args) =
    let behind = check_required args in
    if is_missing a
    then cli_error required_was_not_provided
    else behind >>= (λ args'. parsed (a ∷ args'))

-- No argument seen, no slot filled.
abbrev pub begin : List Arg → Parsing
begin args = record { args = map reset args; pos_index = 0; end_of_flags = false }

-- `parse` of a list of tokens: the parser with its arguments' results.
unfoldable pub parse : List Text → CliParser → CliResult CliParser
unfolding reset loop fill_default check_required
parse tokens cli = do
  p ← loop cli.help_arg false tokens (begin cli.args)
  args ← check_required (map fill_default p.args)
  parsed (record cli { args = args })

-- `parse` of `main`'s arguments: the program's name is passed over.
unfoldable pub parse_argv : List Text → CliParser → CliResult CliParser
unfolding parse
parse_argv [] cli = parse [] cli
parse_argv (program ∷ tokens) cli = parse tokens cli
