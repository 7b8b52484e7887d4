-- ===== src/Frontend/Parser/Safe/Unary.antt =====
-- The end and the result of the rules for literals, `try_parse_unary` and `try_parse_expr` of
-- frontend/Parser.cpp.
use sasc.Prelude.{ℕ, zero, suc, ◌<◌, ◌≡◌, ◌≢◌, refl, some, arith, List, String}
use sasc.Error.{Result, ok}
use sasc.Frontend.Outcome.{Safely, gives, >>=-Ensures}
use sasc.Frontend.FrontendType.{unresolved, from_string, unresolved_int}
use sasc.Frontend.Ast.{Expression, unary, call}
use sasc.Frontend.Token.{TokenType, same_type}
use sasc.Frontend.Parser.Stream.{Tokens, Parser, Ends, size}
use sasc.Frontend.Parser.Literal.{
  literal_of, literal_rule, boolean_rule, identifier_rule, try_parse_integer_literal,
  try_parse_boolean_literal, try_parse_identifier,
}
use sasc.Frontend.Parser.Expr.{
  try_parse_primary, try_parse_postfix, unary_operators, unary_step, try_parse_unary,
  try_parse_expr,
}
use sasc.Frontend.Parser.Safe.{
  After, Safe, on_operator-Safely, on_type-Safely, required-Safely, matched-Safely, Shorter-trans,
  expect-Safely,
}
use sasc.Frontend.Parser.Safe.Expr.{
  IsParsed, or_else-Safe, token_rule-Safe, parenthesized-Safe, try_parse_expr_with-Safe,
}
use Prim.Native.Char.{Char}

-- No text is read as the type of a literal that has none.
from_string-resolved : (s : String) → from_string s ≢ unresolved_int
unfolding from_string
from_string-resolved s h = ground arith

pub literal_of-IsParsed : (str : List Char) (e : Expression) → literal_of str ≡ ok e → IsParsed e
unfolding literal_of
literal_of-IsParsed str e h = ground arith

pub literal_rule-IsParsed :
    (t : TokenType) (make : List Char → Result Expression)
    → literal_rule t ≡ some make
    → (str : List Char) (e : Expression) → make str ≡ ok e
    → IsParsed e
unfolding literal_rule
literal_rule-IsParsed t make q str e h = ground arith

pub boolean_rule-IsParsed :
    (t : TokenType) (make : List Char → Result Expression)
    → boolean_rule t ≡ some make
    → (str : List Char) (e : Expression) → make str ≡ ok e
    → IsParsed e
unfolding boolean_rule
boolean_rule-IsParsed t make q str e h = ground arith

pub identifier_rule-IsParsed :
    (t : TokenType) (make : List Char → Result Expression)
    → identifier_rule t ≡ some make
    → (str : List Char) (e : Expression) → make str ≡ ok e
    → IsParsed e
unfolding identifier_rule
identifier_rule-IsParsed t make q str e h = ground arith

primary-Safe :
    (n : ℕ) (expr_rule : Parser Expression)
    → Safe IsParsed n expr_rule
    → Safe IsParsed (suc n) (try_parse_primary expr_rule)
unfolding try_parse_primary try_parse_identifier try_parse_boolean_literal try_parse_integer_literal
    literal_rule boolean_rule identifier_rule
primary-Safe n expr_rule h =
    or_else-Safe (suc n) _ _ (token_rule-Safe identifier_rule (suc n) refl identifier_rule-IsParsed)
      (or_else-Safe (suc n) _ _ (token_rule-Safe boolean_rule (suc n) refl boolean_rule-IsParsed) (
        or_else-Safe (suc n) _ _ (token_rule-Safe literal_rule (suc n) refl literal_rule-IsParsed)
          (λ ts e l. parenthesized-Safe n expr_rule ts h e l)))

postfix-Safe :
    (n : ℕ) (expr_rule : Parser Expression)
    → Safe IsParsed n expr_rule
    → Safe IsParsed (suc n) (try_parse_postfix expr_rule)
unfolding try_parse_postfix same_type
postfix-Safe n expr_rule h ts e l =
    matched-Safely IsParsed IsParsed ts (primary-Safe n expr_rule h ts e l) (λ callee ts1 p s1.
      on_type-Safely TokenType.l_paren ts1 refl s1.1 (gives (some callee, ts1) (p, s1)) (λ r s2.
        >>=-Ensures (expect-Safely TokenType.r_paren r.1 s2.1 refl) (λ r3 s3.
          gives (some (call unresolved callee), r3.1)
            ((refl, p), Shorter-trans r3.1 r.1 ts s3 (Shorter-trans r.1 ts1 ts s2 s1)))))

unary_step-Safe :
    (n : ℕ) (again expr_rule : Parser Expression)
    → Safe IsParsed n again
    → Safe IsParsed n expr_rule
    → Safe IsParsed (suc n) (unary_step again expr_rule)
unfolding unary_step unary_operators
unary_step-Safe n again expr_rule h k ts e l =
    on_operator-Safely unary_operators ts refl e (postfix-Safe n expr_rule k ts e l)
      (λ operation r s.
        >>=-Ensures (required-Safely IsParsed n again r.1 h s.1 (omega arith)) (λ r2 (p, s2).
          gives (some (unary unresolved operation r2.0), r2.1)
            ((refl, p), Shorter-trans r2.1 r.1 ts s2 s)))

pub try_parse_unary-Safe : (f : ℕ) → Safe IsParsed f (try_parse_unary f)
unfolding try_parse_unary
try_parse_unary-Safe zero ts e l = absurd (omega arith)
try_parse_unary-Safe (suc f) ts e l =
    let ih = try_parse_unary-Safe f in
    unary_step-Safe f _ _ ih (try_parse_expr_with-Safe f _ ih) ts e l

-- On fewer tokens than the fuel, where the lexer ends, `try_parse_expr` comes to an end: it throws, or
-- it does not match and leaves the tokens untouched, or it takes one token at least and returns a tree
-- in which literals have sized integer types and 32-bit values and no other node a type or a symbol.
pub try_parse_expr-Safely :
    (f : ℕ) (ts : Tokens) → Ends ts → size ts < f → Safely (After IsParsed ts) (try_parse_expr f ts)
unfolding try_parse_expr
try_parse_expr-Safely f = try_parse_expr_with-Safe f (try_parse_unary f) (try_parse_unary-Safe f)
