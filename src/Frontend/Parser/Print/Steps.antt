-- ===== src/Frontend/Parser/Print/Steps.antt =====
-- What `try_parse_primary`, `try_parse_postfix` and `try_parse_unary` of frontend/Parser.cpp make of
-- each form of expression.
use sasc.Prelude.{ℕ, suc, ◌≡◌, refl, Bool, true, false, none, some, List, [], ap, arith, String}
use sasc.Error.{ok}
use sasc.Frontend.Outcome.{returns}
use sasc.Frontend.FrontendType.{unresolved}
use sasc.Frontend.Ast.{UnaryOperation, Expression, boolean_literal, identifier, unary, call}
use sasc.Frontend.Token.{TokenType, same_type, text, chars}
use sasc.Frontend.Parser.Stream.{Tokens, next, Parser, peek, take, expect}
use sasc.Frontend.Parser.Literal.{
  token_rule, literal_rule, boolean_rule, identifier_rule, literal_of, try_parse_integer_literal,
  try_parse_boolean_literal, try_parse_identifier,
}
use sasc.Frontend.Parser.Expr.{
  required, parenthesized, try_parse_primary, try_parse_postfix, unary_operators, unary_step,
  try_parse_unary, try_parse_expr,
}
use sasc.Frontend.Parser.Print.{boolean_token, unary_token}
use Prim.Native.Char.{Char}

pub text-chars : (n : String) → text (chars n) ≡ n
text-chars String.[] = refl
text-chars (String.◌∷◌ c n) = ap (String.◌∷◌ c) (text-chars n)

module _ (expr_rule : Parser Expression) (rest : Tokens) where
  pub primary-literal :
      (str : List Char) (e : Expression)
      → literal_of str ≡ ok e
      → try_parse_primary expr_rule (next TokenType.int_literal str rest) ≡ returns (some e, rest)
  unfolding try_parse_primary try_parse_identifier try_parse_boolean_literal
      try_parse_integer_literal token_rule identifier_rule boolean_rule literal_rule peek take
  primary-literal str e h = ground arith

  pub primary-boolean :
      (b : Bool)
      → try_parse_primary expr_rule (next (boolean_token b) [] rest)
        ≡ returns (some (boolean_literal b), rest)
  unfolding try_parse_primary try_parse_identifier try_parse_boolean_literal token_rule
      identifier_rule boolean_rule peek take
  primary-boolean true = refl
  primary-boolean false = refl

  pub primary-identifier :
      (n : String)
      → try_parse_primary expr_rule (next TokenType.ident (chars n) rest)
        ≡ returns (some (identifier unresolved n none), rest)
  unfolding try_parse_primary try_parse_identifier token_rule identifier_rule peek take
  primary-identifier n =
      ap (λ m. returns (some (identifier unresolved m none), rest)) (text-chars n)

  pub primary-parenthesized :
      (ts : Tokens) (e : Expression)
      → expr_rule ts ≡ returns (some e, next TokenType.r_paren [] rest)
      → try_parse_primary expr_rule (next TokenType.l_paren [] ts) ≡ returns (some e, rest)
  unfolding try_parse_primary try_parse_identifier try_parse_boolean_literal
      try_parse_integer_literal token_rule identifier_rule boolean_rule literal_rule parenthesized
      required expect same_type peek take
  primary-parenthesized ts e h = ground arith

  pub postfix-one :
      (ts : Tokens) (e : Expression) (t : TokenType)
      → try_parse_primary expr_rule ts ≡ returns (some e, rest)
      → peek rest ≡ returns t
      → same_type t TokenType.l_paren ≡ false
      → try_parse_postfix expr_rule ts ≡ returns (some e, rest)
  unfolding try_parse_postfix
  postfix-one ts e t h p n = ground arith

  pub postfix-call :
      (ts : Tokens) (e : Expression)
      → try_parse_primary expr_rule ts
        ≡ returns (some e, next TokenType.l_paren [] (next TokenType.r_paren [] rest))
      → try_parse_postfix expr_rule ts ≡ returns (some (call unresolved e), rest)
  unfolding try_parse_postfix expect same_type peek take
  postfix-call ts e h = ground arith

pub unary-one :
    (g : ℕ) (ts rest : Tokens) (e : Expression) (u : TokenType)
    → peek ts ≡ returns u
    → unary_operators u ≡ none
    → try_parse_postfix (try_parse_expr g) ts ≡ returns (some e, rest)
    → try_parse_unary (suc g) ts ≡ returns (some e, rest)
unfolding try_parse_unary unary_step try_parse_expr
unary-one g ts rest e u p n h = ground arith

pub unary-two :
    (g : ℕ) (ts rest : Tokens) (e : Expression) (o : UnaryOperation)
    → try_parse_unary g ts ≡ returns (some e, rest)
    → try_parse_unary (suc g) (next (unary_token o) [] ts)
      ≡ returns (some (unary unresolved o e), rest)
unfolding try_parse_unary unary_step unary_operators required peek take
unary-two g ts rest e UnaryOperation.logical_not h = ground arith
unary-two g ts rest e UnaryOperation.bitwise_not h = ground arith
unary-two g ts rest e UnaryOperation.negation h = ground arith
