-- ===== src/Frontend/Parser/Quirks.antt =====
-- The parser of frontend/Parser.cpp where grammar.ebnf or its own words say something else.
use sasc.Prelude.{
  ℕ, suc, ◌≡◌, ◌≢◌, refl, inl, inr, Bool-cases, Bool, true, false, some, List, [], arith,
  if◌then◌else◌,
}
use sasc.Error.{Error, unimplemented, syntax_error, err, Result-cases}
use sasc.Frontend.Outcome.{throws, returns}
use sasc.Frontend.FrontendType.{unresolved}
use sasc.Frontend.Ast.{BinaryOperation, Expression, binary}
use sasc.Frontend.Token.{TokenType, same_type, to_string, token_to_string, unexpected}
use sasc.Frontend.Parser.Stream.{Tokens, next, Parser, peek, take, expect}
use sasc.Frontend.Parser.Operators.{comparison_operators}
use sasc.Frontend.Parser.Expr.{required, one_operator, try_parse_comparison, try_parse_bitwise_or}
use sasc.Frontend.Parser.{
  try_parse_arg_definition, skip_r_paren, parse_args, try_parse_function_definition,
}
use Prim.Native.Char.{Char}

-- `try_parse_comparison` reads one operator and its operands and stops, whatever follows: a second
-- comparison too is left unread.
pub try_parse_comparison-once :
    (f : ℕ) (unary_rule : Parser Expression) (ts ts1 rest : Tokens) (u : TokenType)
    (str : List Char) (o : BinaryOperation) (l r : Expression)
    → try_parse_bitwise_or f unary_rule ts ≡ returns (some l, next u str ts1)
    → comparison_operators u ≡ some o
    → try_parse_bitwise_or f unary_rule ts1 ≡ returns (some r, rest)
    → try_parse_comparison f unary_rule ts ≡ returns (some (binary unresolved o l r), rest)
unfolding try_parse_comparison one_operator required peek take
try_parse_comparison-once f unary_rule ts ts1 rest u str o l r h q k = ground arith

parse_args-unclosed :
    (f : ℕ) (ts : Tokens) (t : TokenType)
    → peek ts ≡ returns t
    → same_type t TokenType.ident ≡ false
    → same_type t TokenType.r_paren ≡ false
    → parse_args (suc f) ts ≡ returns ([], ts)
unfolding parse_args try_parse_arg_definition skip_r_paren
parse_args-unclosed f ts t p i r = ground arith

-- A function definition without arguments is read the same with and without the parenthesis that
-- closes its argument list, where neither a name nor a closing parenthesis follows.
pub try_parse_function_definition-unclosed :
    (f : ℕ) (name : List Char) (ts : Tokens) (t : TokenType)
    → peek ts ≡ returns t
    → same_type t TokenType.ident ≡ false
    → same_type t TokenType.r_paren ≡ false
    → try_parse_function_definition
        (suc f)
        (next TokenType.keyword_fn [] (next TokenType.ident name (next TokenType.l_paren [] ts)))
      ≡ try_parse_function_definition (suc f) (
          next TokenType.keyword_fn []
            (next TokenType.ident name (next TokenType.l_paren [] (next TokenType.r_paren [] ts))))
unfolding try_parse_function_definition parse_args try_parse_arg_definition skip_r_paren expect peek
    take same_type
try_parse_function_definition-unclosed f name ts t p i r =
    rw (parse_args-unclosed f ts t p i r) refl

abbrev pub is_bool_keyword : TokenType → Bool
is_bool_keyword TokenType.keyword_true = true
is_bool_keyword TokenType.keyword_false = true
is_bool_keyword _ = false

to_string-named : (t : TokenType) (e : Error) → is_bool_keyword t ≡ false → to_string t ≢ err e
unfolding to_string
to_string-named t e k h = ground arith

token_to_string-named :
    (t : TokenType) (str : List Char) (e : Error)
    → is_bool_keyword t ≡ false
    → token_to_string t str ≢ err e
unfolding token_to_string to_string
token_to_string-named t str e k h = ground arith

unexpected-keyword :
    (u t : TokenType) (str : List Char)
    → is_bool_keyword u ≡ true
    → unexpected u str t ≡ err unimplemented
unfolding unexpected token_to_string to_string
unexpected-keyword u t str k = ground arith

unexpected-other :
    (u t : TokenType) (str : List Char)
    → is_bool_keyword u ≡ false
    → is_bool_keyword t ≡ false
    → unexpected u str t ≡ err syntax_error
unfolding unexpected
unexpected-other u t str k n = elim (Result-cases (token_to_string u str)) [
  | inr (x, p) ↦ absurd (token_to_string-named u str x k p)
  | inl (m, p) ↦ elim (Result-cases (to_string t)) [
    | inr (x, q) ↦ absurd (to_string-named t x n q)
    | inl (_, q) ↦ rw p (rw q refl)
  ]
]

-- Where another token is expected, the keywords `true` and `false` throw the error of what is not
-- implemented, and every other token a syntax error.
pub expect-unexpected :
    (u t : TokenType) (str : List Char) (ts : Tokens)
    → same_type u t ≡ false
    → is_bool_keyword t ≡ false
    → expect t (next u str ts) ≡ throws (if is_bool_keyword u then unimplemented else syntax_error)
unfolding expect take
expect-unexpected u t str ts n k = elim (Bool-cases (is_bool_keyword u)) [
  | inl e ↦ rw (n, e, unexpected-keyword u t str e) refl
  | inr e ↦ rw (n, e, unexpected-other u t str e k) refl
]
