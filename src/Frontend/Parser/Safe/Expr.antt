-- ===== src/Frontend/Parser/Safe/Expr.antt =====
-- The end and the result of the rules for binary operators of frontend/Parser.cpp.
use sasc.Prelude.{
  ℕ, zero, suc, ◌^◌, ◌<◌, ◌≡◌, ◌≢◌, refl, sym, true, Option, none, some, arith, List, subst,
}
use sasc.Error.{Result, ok}
use sasc.Frontend.Outcome.{returns, Safely, gives, >>=-Ensures, elim-Ensures, lift-Safely}
use sasc.Frontend.FrontendType.{unresolved, is_integer, unresolved_int}
use sasc.Frontend.Ast.{
  BinaryOperation, Expression, integer_literal, boolean_literal, identifier, binary, unary, call,
}
use sasc.Frontend.Token.{TokenType, end_of_file, same_type}
use sasc.Frontend.Parser.Stream.{Tokens, Parser, Ends, size}
use sasc.Frontend.Parser.Operators.{
  logical_or_operators, logical_and_operators, equality_operators, comparison_operators,
  bitwise_or_operators, bitwise_xor_operators, bitwise_and_operators, bitshift_operators,
  additive_operators, multiplicative_operators,
}
use sasc.Frontend.Parser.Expr.{
  try_parse_expr_with, try_parse_logical_or, try_parse_logical_and, try_parse_equality,
  try_parse_comparison, try_parse_bitwise_or, try_parse_bitwise_xor, try_parse_bitwise_and,
  try_parse_bitshift, try_parse_additive, try_parse_multiplicative, one_operator, operator_loop,
  operators_left, or_else, parenthesized,
}
use sasc.Frontend.Parser.Literal.{token_rule}
use sasc.Frontend.Parser.Safe.{
  Shorter, After, Safe, on_operator-Safely, on_type-Safely, required-Safely, matched-Safely,
  Shorter-trans, expect-Safely, peek-Safely, take-Safely,
}
use Prim.Native.Char.{Char}

-- A tree as the parser builds it, before analysis: a literal's type is a sized integer type, and no
-- other node has a type or a symbol.
abbrev pub IsParsed : Expression → Type 0
IsParsed (integer_literal t v) = (is_integer t ≡ true) × (t ≢ unresolved_int) × (v < 2 ^ 32)
IsParsed (boolean_literal b) = Unit
IsParsed (identifier t n s) = (t ≡ unresolved) × (s ≡ none)
IsParsed (binary t o l r) = (t ≡ unresolved) × IsParsed l × IsParsed r
IsParsed (unary t o e) = (t ≡ unresolved) × IsParsed e
IsParsed (call t e) = (t ≡ unresolved) × IsParsed e

pub one_operator-Safe :
    (operators : TokenType → Option BinaryOperation) (n : ℕ) (operand : Parser Expression)
    → operators end_of_file ≡ none
    → Safe IsParsed n operand
    → Safe IsParsed n (one_operator operators operand)
unfolding one_operator
one_operator-Safe operators n operand z h ts e k =
    matched-Safely IsParsed IsParsed ts (h ts e k) (λ l ts1 pl s1.
      on_operator-Safely operators ts1 z s1.1 (gives (some l, ts1) (pl, s1)) (λ operation r1 s2.
        >>=-Ensures (required-Safely IsParsed n operand r1.1 h s2.1 (omega arith)) (λ r3 q.
          gives (some (binary unresolved operation l r3.0), r3.1)
            ((refl, pl, q.0), Shorter-trans r3.1 r1.1 ts q.1 (Shorter-trans r1.1 ts1 ts s2 s1)))))

-- `before` is what the rule started on.
operator_loop-Safely :
    (operators : TokenType → Option BinaryOperation) (n : ℕ) (operand : Parser Expression)
    (before : Tokens) (f : ℕ) (ret : Expression) (ts : Tokens)
    → operators end_of_file ≡ none
    → Safe IsParsed n operand
    → size before < n
    → IsParsed ret
    → Shorter ts before
    → size ts < f
    → Safely (After IsParsed before) (operator_loop operators operand f ret ts)
unfolding operator_loop
operator_loop-Safely operators n operand before zero ret ts z h k p s l = absurd (omega arith)
operator_loop-Safely operators n operand before (suc f) ret ts z h k p s l =
    on_operator-Safely operators ts z s.1 (gives (some ret, ts) (p, s)) (λ operation r1 s1.
      >>=-Ensures (required-Safely IsParsed n operand r1.1 h s1.1 (omega arith)) (λ r2 (pr, s2).
        operator_loop-Safely operators n operand before f (binary unresolved operation ret r2.0)
          r2.1 z h k (refl, p, pr)
          (Shorter-trans r2.1 r1.1 before s2 (Shorter-trans r1.1 ts before s1 s)) (omega arith)))

operators_left-Safe :
    (operators : TokenType → Option BinaryOperation) (f : ℕ) (operand : Parser Expression)
    → operators end_of_file ≡ none
    → Safe IsParsed f operand
    → Safe IsParsed f (operators_left operators f operand)
unfolding operators_left
operators_left-Safe operators f operand z h ts e k =
    matched-Safely IsParsed IsParsed ts (h ts e k)
      (λ l ts1 pl s1. operator_loop-Safely operators f operand ts f l ts1 z h k pl s1 (omega arith))

-- From `unary` up to the loosest level.
pub try_parse_expr_with-Safe :
    (f : ℕ) (unary_rule : Parser Expression)
    → Safe IsParsed f unary_rule
    → Safe IsParsed f (try_parse_expr_with f unary_rule)
unfolding try_parse_expr_with try_parse_logical_or try_parse_logical_and try_parse_equality
    try_parse_comparison try_parse_bitwise_or try_parse_bitwise_xor try_parse_bitwise_and
    try_parse_bitshift try_parse_additive try_parse_multiplicative logical_or_operators
    logical_and_operators equality_operators comparison_operators bitwise_or_operators
    bitwise_xor_operators bitwise_and_operators bitshift_operators additive_operators
    multiplicative_operators
try_parse_expr_with-Safe f unary_rule h =
    let multiplicative = operators_left-Safe multiplicative_operators f unary_rule refl h in
    let additive = operators_left-Safe additive_operators f _ refl multiplicative in
    let bitshift = one_operator-Safe bitshift_operators f _ refl additive in
    let bitwise_and = one_operator-Safe bitwise_and_operators f _ refl bitshift in
    let bitwise_xor = one_operator-Safe bitwise_xor_operators f _ refl bitwise_and in
    let bitwise_or = one_operator-Safe bitwise_or_operators f _ refl bitwise_xor in
    let comparison = one_operator-Safe comparison_operators f _ refl bitwise_or in
    let equality = one_operator-Safe equality_operators f _ refl comparison in
    let logical_and = one_operator-Safe logical_and_operators f _ refl equality in
    one_operator-Safe logical_or_operators f _ refl logical_and

pub or_else-Safe :
    (n : ℕ) (first second : Parser Expression)
    → Safe IsParsed n first
    → Safe IsParsed n second
    → Safe IsParsed n (or_else first second)
or_else-Safe n first second h k ts e l = >>=-Ensures (h ts e l) other
  where
    other :
        (r : Option Expression × Tokens)
        → After IsParsed ts r
        → Safely
            (After IsParsed ts)
            (elim r.0 [ none ↦ second r.1 | some x ↦ returns (some x, r.1) ])
    other (none, ts1) q = subst (λ us. Safely (After IsParsed ts) (second us)) (sym q) (k ts e l)
    other (some x, ts1) q = gives (some x, ts1) q

-- A rule of one token, where what it makes of the text is a tree of the parser's.
pub token_rule-Safe :
    (rule : TokenType → Option (List Char → Result Expression)) (n : ℕ)
    → rule end_of_file ≡ none
    → ((t : TokenType) (make : List Char → Result Expression)
        → rule t ≡ some make
        → (str : List Char) (e : Expression) → make str ≡ ok e
        → IsParsed e)
    → Safe IsParsed n (token_rule rule)
unfolding token_rule
token_rule-Safe rule n z made ts e k = >>=-Ensures (peek-Safely ts e) (λ t p.
    elim-Ensures (rule t) (λ _. gives (none, ts) refl)
      (λ make q. >>=-Ensures (take-Safely ts e (λ y. cc)) (λ r s.
        >>=-Ensures (lift-Safely (make r.0.1) (λ x m. made t make q r.0.1 x m))
          (λ x px. gives (some x, r.1) (px, s)))))

pub parenthesized-Safe :
    (n : ℕ) (expr_rule : Parser Expression) (ts : Tokens)
    → Safe IsParsed n expr_rule
    → Ends ts
    → size ts < suc n
    → Safely (After IsParsed ts) (parenthesized expr_rule ts)
unfolding parenthesized same_type
parenthesized-Safe n expr_rule ts h e l =
    on_type-Safely TokenType.l_paren ts refl e (gives (none, ts) refl) (λ r s.
      >>=-Ensures (required-Safely IsParsed n expr_rule r.1 h s.1 (omega arith)) (λ r2 (p, s2).
        >>=-Ensures (expect-Safely TokenType.r_paren r2.1 s2.1 refl) (λ r3 s3.
          gives (some r2.0, r3.1)
            (p, Shorter-trans r3.1 r2.1 ts s3 (Shorter-trans r2.1 r.1 ts s2 s)))))
