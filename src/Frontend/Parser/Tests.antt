-- ===== src/Frontend/Parser/Tests.antt =====
-- Runs of the lexer and the parser on source text.
use sasc.Prelude.{◌≢◌, ◌<◌, ◌^◌, List, true, arith, ◌≡◌, refl, none, some, [], ◌∷◌}
use sasc.Error.{Error}
use sasc.Frontend.Outcome.{out_of_fuel, throws, returns, Surely, Safely}
use sasc.Frontend.FrontendType.{i32, unresolved, void, is_integer, FrontendType}
use sasc.Frontend.Ast.{
  add, multiply, subtract, logical_not, Expression, identifier, unary, call, boolean_literal,
  integer_literal, binary, return_statement,
}
use sasc.Frontend.Token.{TokenType, SourceLoc, Token, same_type, chars}
use sasc.Frontend.Lexer.{make_lexer, take}
use sasc.Frontend.Lexer.Reads.{at, WholeLines}
use sasc.Frontend.Lexer.Ends.{Taken, take-Surely}
use sasc.Frontend.Lexer.Loops.{take-OneLine}
use sasc.Frontend.Parser.Expr.{try_parse_expr}
use sasc.Frontend.Parser.Safe.{After}
use sasc.Frontend.Parser.Safe.Unary.{try_parse_expr-Safely}
use sasc.Frontend.Parser.Quirks.{try_parse_function_definition-unclosed, expect-unexpected}
use sasc.Frontend.Parser.Safe.Expr.{IsParsed}
use sasc.Frontend.Parser.Print.{show}
use sasc.Frontend.Parser.Print.Levels.{stops}
use sasc.Frontend.Parser.Print.RoundTrip.{try_parse_expr-show}
use Prim.Native.Char.{Char}
use sasc.Frontend.Parser.Stream.{Tokens, tokens, next, ended, peek as peek_type, size, expect}
use sasc.Frontend.Parser.{parse, try_parse_function_definition}

parses :
    parse 20 (
      tokens 200
        (make_lexer (chars "fn main() -> i32 { // comment\n return 1i32 + 2i32 * 0x03i32; }\n")))
    ≡ returns (
        record {
          name = "main";
          args = [];
          return_type = i32;
          body_statements =
              return_statement (
                some (
                  binary unresolved add
                    (integer_literal i32 1)
                    (binary unresolved multiply (integer_literal i32 2) (integer_literal i32 3))))
              ∷ [];
          body_return_expr = none;
        }
        ∷ [])
unfolding parse tokens
parses = refl

unclosed :
    parse 20 (tokens 200 (make_lexer (chars "fn main( {}")))
    ≡ returns (
        record {
          name = "main";
          args = [];
          return_type = void;
          body_statements = [];
          body_return_expr = none;
        }
        ∷ [])
unfolding parse tokens
unclosed = refl

with_arg : parse 20 (tokens 200 (make_lexer (chars "fn f(a: i32) {}"))) ≡ throws Error.syntax_error
unfolding parse tokens
with_arg = refl

loops : parse 20 (tokens 200 (make_lexer (chars "// a"))) ≡ out_of_fuel
unfolding parse tokens
loops = refl

keyword_name :
    parse 20 (tokens 200 (make_lexer (chars "fn true() {}"))) ≡ throws Error.unimplemented
unfolding parse tokens
keyword_name = refl

-- A source of one line, its tokens, and what `(1i32 - x) * f() - !true` is.
abbrev source : List Char
source = chars "fn main() {}\n"

abbrev start : SourceLoc
start = record { line = 0; col = 0 }

source-WholeLines : WholeLines source
source-WholeLines = omega arith

abbrev product : Expression
product =
    binary unresolved multiply
      (binary unresolved subtract (integer_literal i32 1) (identifier unresolved "x" none))
      (call unresolved (identifier unresolved "f" none))

abbrev difference : Expression
difference =
    binary unresolved subtract product (unary unresolved logical_not (boolean_literal true))

abbrev differences : Expression
differences = binary unresolved subtract difference (integer_literal i32 1)

-- `(1i32 - x) * f() - !true - 1i32;`.
differences_shown :
    show 12 differences (next TokenType.semicolon [] ended)
    ≡ tokens 200 (make_lexer (chars "(1i32 - x) * f() - !true - 1i32;"))
unfolding show tokens
differences_shown = refl

literal_parsed : (is_integer i32 ≡ true) × (i32 ≢ FrontendType.unresolved_int) × (1 < 2 ^ 32)
unfolding is_integer
literal_parsed = (refl, (λ e. cc), omega arith)

product-IsParsed : IsParsed product
product-IsParsed = (refl, (refl, literal_parsed, (refl, refl)), (refl, (refl, refl)))

difference-IsParsed : IsParsed difference
difference-IsParsed = (refl, product-IsParsed, (refl, tt))

differences-IsParsed : IsParsed differences
differences-IsParsed = (refl, difference-IsParsed, literal_parsed)

take-Surely_example : Surely (Taken source start) (take 14 (at source start))
take-Surely_example = take-Surely 14 source start source-WholeLines (omega arith)

take-OneLine_example : take 100 (at (chars "// done") start) ≡ out_of_fuel
take-OneLine_example = take-OneLine 100 (chars " done") start (omega arith)

try_parse_expr-show_example :
    try_parse_expr 20 (show 12 differences (next TokenType.semicolon [] ended))
    ≡ returns (some differences, next TokenType.semicolon [] ended)
unfolding peek_type stops
try_parse_expr-show_example =
    try_parse_expr-show differences 20 (next TokenType.semicolon [] ended) TokenType.semicolon
      differences-IsParsed (omega arith) refl refl

abbrev semicolon_source : List Char
semicolon_source = chars ";\n"

abbrev semicolon_token : Token
semicolon_token = record {
  loc = record { start = start; end = record { line = 0; col = 1 } };
  str = [];
  type = TokenType.semicolon;
}

-- `-1i32;`, and `1i32 < 2i32 < 3i32`.
abbrev negative : Tokens
negative = next TokenType.minus [] (next TokenType.int_literal (chars "1i32") ended)

abbrev compared : Tokens
compared = next TokenType.less [] (next TokenType.int_literal (chars "3i32") ended)

abbrev comparison : Tokens
comparison =
    next TokenType.int_literal (chars "1i32")
      (next TokenType.less [] (next TokenType.int_literal (chars "2i32") compared))

try_parse_expr-Safely_example : Safely (After IsParsed negative) (try_parse_expr 3 negative)
unfolding size
try_parse_expr-Safely_example = try_parse_expr-Safely 3 negative tt (omega arith)

try_parse_function_definition-unclosed_example :
    try_parse_function_definition 3 (
      next TokenType.keyword_fn []
        (next TokenType.ident (chars "f") (next TokenType.l_paren [] ended)))
    ≡ try_parse_function_definition 3 (
        next TokenType.keyword_fn [] (
          next TokenType.ident
            (chars "f")
            (next TokenType.l_paren [] (next TokenType.r_paren [] ended))))
unfolding peek_type same_type
try_parse_function_definition-unclosed_example =
    try_parse_function_definition-unclosed 2 (chars "f") ended TokenType.end_of_file refl refl refl

expect-unexpected_example :
    expect TokenType.ident (next TokenType.keyword_true [] ended) ≡ throws Error.unimplemented
unfolding same_type
expect-unexpected_example =
    expect-unexpected TokenType.keyword_true TokenType.ident [] ended refl refl
