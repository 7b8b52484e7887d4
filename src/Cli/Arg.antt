-- ===== src/Cli/Arg.antt =====
-- `CliParser::Arg` of utils/CliParser.hpp and utils/CliParser.cpp: how an argument is configured and
-- what was passed for it. A pointer to an argument is its position among the parser's arguments.
use sasc.Prelude.{ℕ, Bool, true, false, List, [], ◌∷◌, ◌++◌, length, Option, none, some}
use sasc.Frontend.Token.{chars}
use sasc.Cli.Text.{Text, pieces}
use Prim.Native.Char.{Char}

pub data Kind : Type 0 where
  flag option positional : Kind

abbrev pub same_kind : Kind → Kind → Bool
same_kind flag flag = true
same_kind option option = true
same_kind positional positional = true
same_kind _ _ = false

pub record Arg : Type 0 where
  pub kind : Kind
  pub name : Text
  pub desc : Text
  pub short_char : Option Char
  pub meta : Option Text
  pub default_val : Option Text
  pub split_sep : Option Char
  pub is_required : Bool
  pub multi_allowed : Bool
  pub seen : Bool
  pub parsed_values : List Text

-- The constructor.
unfoldable pub arg : Kind → Text → Text → Arg
arg kind name desc = record {
  kind = kind;
  name = name;
  desc = desc;
  short_char = none;
  meta = none;
  default_val = none;
  split_sep = none;
  is_required = false;
  multi_allowed = false;
  seen = false;
  parsed_values = [];
}

unfoldable pub short_name : Char → Arg → Arg
short_name c a = record a { short_char = some c }

unfoldable pub metavar : Text → Arg → Arg
metavar name a = record a { meta = some name }

unfoldable pub required : Arg → Arg
required a = record a { is_required = true }

unfoldable pub default_value : Text → Arg → Arg
default_value val a = record a { default_val = some val }

unfoldable pub allow_multi : Arg → Arg
allow_multi a = record a { multi_allowed = true }

unfoldable pub split_on : Char → Arg → Arg
split_on sep a = record a { split_sep = some sep }

unfoldable pub last : List Text → Option Text
last [] = none
last (v ∷ []) = some v
last (v ∷ (w ∷ vs)) = last (w ∷ vs)

unfoldable pub maybe_value : Arg → Option Text
unfolding last
maybe_value a = last a.parsed_values

unfoldable pub value : Arg → Text
unfolding last
value a = elim (last a.parsed_values) [ none ↦ [] | some v ↦ v ]

unfoldable pub count : Arg → ℕ
count a = length a.parsed_values

unfoldable pub display_name : Arg → Text
display_name a = elim a.kind [
  | positional ↦ chars "<" ++ (a.name ++ chars ">")
  | _ ↦ chars "--" ++ a.name
]

-- What `add_value` appends for one value.
unfoldable pub values_of : Option Char → Text → List Text
unfolding pieces
values_of none val = val ∷ []
values_of (some sep) val = pieces sep [] val

unfoldable pub add_value : Text → Arg → Arg
unfolding values_of
add_value val a = record a { parsed_values = a.parsed_values ++ values_of a.split_sep val }
