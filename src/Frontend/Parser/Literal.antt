-- ===== src/Frontend/Parser/Literal.antt =====
-- `try_parse_identifier`, `try_parse_boolean_literal` and `try_parse_integer_literal` of
-- frontend/Parser.cpp.
use sasc.Prelude.{
  ℕ, ◌+◌, ◌*◌, ◌-◌, ◌^◌, ◌%◌, true, false, ◌&&◌, Option, none, some, List, [], ◌∷◌, ltb, ◌==◌,
  if◌then◌else◌,
}
use sasc.Error.{type_error, internal, uncaught, Result, ok, err}
use sasc.Frontend.Outcome.{returns, ◌>>=◌, lift}
use sasc.Frontend.FrontendType.{FrontendType, is_integer, from_string}
use sasc.Frontend.Ast.{Expression, integer_literal, boolean_literal, identifier}
use sasc.Frontend.Token.{TokenType, text, is_numeric}
use sasc.Frontend.Parser.Stream.{Parser, peek, take}
use Prim.Native.Char.{Char, code}

-- The base that a literal's prefix gives, and what is behind the prefix.
unfoldable pub split_base : List Char → ℕ × List Char
split_base (z ∷ p ∷ cs) =
    if code z == b'0' && code p == b'b'
    then (2, cs)
    else if code z == b'0' && code p == b'o'
    then (8, cs)
    else if code z == b'0' && code p == b'x'
    then (16, cs)
    else (10, z ∷ p ∷ cs)
split_base cs = (10, cs)

-- `value_str` and `type_str`.
unfoldable pub split_digits : List Char → List Char × List Char
unfolding is_numeric
split_digits [] = ([], [])
split_digits (c ∷ cs) =
    let (ds, rest) = split_digits cs in if is_numeric c then (c ∷ ds, rest) else ([], c ∷ cs)

-- The digits that `std::stoll` reads, up to the first one that the base does not have.
unfoldable pub read_digits : ℕ → ℕ → List Char → ℕ
read_digits base n [] = n
read_digits base n (c ∷ cs) =
    let rest = read_digits base (n * base + (code c - b'0')) cs in
    if ltb (code c - b'0') base then rest else n

-- `std::stoll` on a string of decimal digits, in base 2, 8, 10 or 16.
unfoldable pub stoll : ℕ → List Char → Result ℕ
unfolding read_digits
stoll base [] = err uncaught
stoll base (c ∷ cs) =
    if ltb (code c - b'0') base && ltb (read_digits base 0 (c ∷ cs)) (2 ^ 63)
    then ok (read_digits base 0 (c ∷ cs))
    else err uncaught

-- The literal of `value_str` and `type_str`.
unfoldable pub typed_literal : ℕ → List Char × List Char → Result Expression
unfolding stoll is_integer from_string
typed_literal base (value_str, type_str) =
    let type_annotation = from_string (text type_str) in
    if is_integer type_annotation
    then elim (stoll base value_str) [
      | err e ↦ err e
      | ok value ↦ ok (integer_literal type_annotation (value % 2 ^ 32))
    ]
    else err type_error

-- The literal of a token's text.
unfoldable pub literal_of : List Char → Result Expression
unfolding split_base split_digits typed_literal
literal_of [] = err internal
literal_of (c ∷ cs) =
    let (base, digits) = split_base (c ∷ cs) in typed_literal base (split_digits digits)

-- A rule of one token: what it makes of the token's text, for the token types that it is for.
unfoldable pub token_rule : (TokenType → Option (List Char → Result Expression)) → Parser Expression
unfolding peek take
token_rule rule ts = do
  t ← peek ts
  elim (rule t) [
    | none ↦ returns (none, ts)
    | some make ↦ do ((_, str), ts1) ← take ts; e ← lift (make str); returns (some e, ts1)
  ]

unfoldable pub literal_rule : TokenType → Option (List Char → Result Expression)
unfolding literal_of
literal_rule TokenType.int_literal = some literal_of
literal_rule _ = none

unfoldable pub try_parse_integer_literal : Parser Expression
unfolding token_rule literal_rule
try_parse_integer_literal = token_rule literal_rule

unfoldable pub boolean_rule : TokenType → Option (List Char → Result Expression)
boolean_rule TokenType.keyword_false = some (λ _. ok (boolean_literal false))
boolean_rule TokenType.keyword_true = some (λ _. ok (boolean_literal true))
boolean_rule _ = none

unfoldable pub try_parse_boolean_literal : Parser Expression
unfolding token_rule boolean_rule
try_parse_boolean_literal = token_rule boolean_rule

unfoldable pub identifier_rule : TokenType → Option (List Char → Result Expression)
identifier_rule TokenType.ident =
    some (λ str. ok (identifier FrontendType.unresolved (text str) none))
identifier_rule _ = none

unfoldable pub try_parse_identifier : Parser Expression
unfolding token_rule identifier_rule
try_parse_identifier = token_rule identifier_rule
