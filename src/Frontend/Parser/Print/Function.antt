-- ===== src/Frontend/Parser/Print/Function.antt =====
-- A function that returns an expression, from its tokens to its IR.
use sasc.Prelude.{
  ℕ, zero, suc, ◌+◌, ◌<◌, ◌^◌, ◌≡◌, Bool-cases, inl, inr, ltb, refl, sym, ◌∙◌, true, false, none,
  some, List, [], ◌∷◌, arith, String,
}
use sasc.Error.{ok}
use sasc.Frontend.Outcome.{returns, lift, lift-returns}
use sasc.Frontend.FrontendType.{from_string, type_eq}
use sasc.Frontend.Ast.{
  UnaryOperation, type_of, integer_literal, boolean_literal, identifier, binary, unary, call,
  Expression, Statement, return_statement, FunctionDefinition,
}
use sasc.Frontend.Check.{analyse}
use sasc.Frontend.EmitIr.Program
use sasc.Frontend.EmitIr.Program.{Computes}
use sasc.Frontend.EmitIr.Emits.{size as nodes}
use sasc.Frontend.EmitIr.{emit_object}
use sasc.Frontend.Accepted.{analyse-Computes}
use sasc.Frontend.Meaning.{eval}
use sasc.Frontend.Meaning.Typing.{IsClosed}
use sasc.Frontend.Resolve.{resolve_type}
use sasc.Ir.Defs.{Function}
use sasc.Frontend.Token.{TokenType, chars, same_type}
use sasc.Frontend.Parser.Stream.{Tokens, ended, next, peek, take, expect}
use sasc.Frontend.Parser.{
  many, try_parse_return_stmt, try_parse_stmt, try_parse_arg_definition, skip_r_paren, parse_args,
  parse_return_type, parse_body, try_parse_function_definition, try_parse_top_level_decl, parse,
  build,
}
use sasc.Frontend.Parser.Expr.{required, try_parse_expr}
use sasc.Frontend.Parser.Safe.Expr.{IsParsed}
use sasc.Frontend.Parser.Print.{left_height, height, wrap, bare, show}
use sasc.Frontend.Parser.Print.Levels.{stops}
use sasc.Frontend.Parser.Print.Steps.{text-chars}
use sasc.Frontend.Parser.Print.Climb.{weight}
use sasc.Frontend.Parser.Print.RoundTrip.{try_parse_expr-show}

-- `fn name() -> type { return e; }`.
abbrev pub function_tokens : String → String → Expression → Tokens
function_tokens name type e = next TokenType.keyword_fn [] (
    next TokenType.ident (chars name) (
      next TokenType.l_paren [] (
        next TokenType.r_paren [] (
          next TokenType.thin_arrow [] (
            next TokenType.ident (chars type) (
              next TokenType.l_curly_bracket [] (
                next TokenType.keyword_return [] (
                  show 12 e
                    (next TokenType.semicolon [] (next TokenType.r_curly_bracket [] ended))))))))))

abbrev closing : Tokens
closing = next TokenType.r_curly_bracket [] ended

-- The first token is no semicolon.
abbrev StartsExpression : Tokens → Type 0
StartsExpression ts =
    (u : TokenType) × (peek ts ≡ returns u) × (same_type u TokenType.semicolon ≡ false)

wrap-StartsExpression :
    (k h : ℕ) (body : Tokens → Tokens) (rest : Tokens)
    → ((after : Tokens) → StartsExpression (body after))
    → StartsExpression (wrap k h body rest)
unfolding wrap same_type peek
wrap-StartsExpression k h body rest n = elim (Bool-cases (ltb h k)) [
  | inl e ↦ rw e (TokenType.l_paren, refl, refl)
  | inr e ↦ rw e (n rest)
]

bare-StartsExpression : (e : Expression) (rest : Tokens) → StartsExpression (bare e rest)
unfolding bare same_type peek
bare-StartsExpression (integer_literal t v) rest = (TokenType.int_literal, refl, refl)
bare-StartsExpression (boolean_literal true) rest = (TokenType.keyword_true, refl, refl)
bare-StartsExpression (boolean_literal false) rest = (TokenType.keyword_false, refl, refl)
bare-StartsExpression (identifier t n s) rest = (TokenType.ident, refl, refl)
bare-StartsExpression (binary t o l r) rest =
    wrap-StartsExpression (height l) (left_height o) (bare l) _ (bare-StartsExpression l)
bare-StartsExpression (unary t UnaryOperation.logical_not e) rest =
    (TokenType.exclamation, refl, refl)
bare-StartsExpression (unary t UnaryOperation.bitwise_not e) rest = (TokenType.tilde, refl, refl)
bare-StartsExpression (unary t UnaryOperation.negation e) rest = (TokenType.minus, refl, refl)
bare-StartsExpression (call t e) rest =
    wrap-StartsExpression (height e) 0 (bare e) _ (bare-StartsExpression e)

return_stmt-lem :
    (f : ℕ) (e : Expression) (ts rest : Tokens) (u : TokenType)
    → peek ts ≡ returns u
    → same_type u TokenType.semicolon ≡ false
    → try_parse_expr f ts ≡ returns (some e, next TokenType.semicolon [] rest)
    → try_parse_stmt f (next TokenType.keyword_return [] ts)
      ≡ returns (some (return_statement (some e)), rest)
unfolding try_parse_stmt try_parse_return_stmt required peek take expect same_type
return_stmt-lem f e ts rest u p n h = ground arith

stmt-show :
    (f : ℕ) (e : Expression) (rest : Tokens)
    → IsParsed e
    → weight e + 1 < f
    → try_parse_stmt f
        (next TokenType.keyword_return [] (show 12 e (next TokenType.semicolon [] rest)))
      ≡ returns (some (return_statement (some e)), rest)
unfolding show peek stops
stmt-show f e rest i w =
    let after = next TokenType.semicolon [] rest in
    let (u, p, n) = wrap-StartsExpression (height e) 12 (bare e) after (bare-StartsExpression e) in
    return_stmt-lem f e (show 12 e after) rest u p n
      (try_parse_expr-show e f after TokenType.semicolon i w refl refl)

closing-stmt : (f : ℕ) → try_parse_stmt f closing ≡ returns (none, closing)
unfolding try_parse_stmt try_parse_return_stmt peek same_type
closing-stmt f = refl

closing-expr : (g : ℕ) → try_parse_expr (suc (suc g)) closing ≡ returns (none, closing)
unfolding try_parse_expr
closing-expr g = refl

parse_body-one :
    (g : ℕ) (ts : Tokens) (s : Statement)
    → try_parse_stmt (suc (suc g)) ts ≡ returns (some s, closing)
    → parse_body (suc (suc g)) (next TokenType.l_curly_bracket [] ts)
      ≡ returns ((s ∷ [], none), ended)
unfolding parse_body many peek take expect same_type
parse_body-one g ts s h =
    let k = closing-stmt (suc (suc g)) in let x = closing-expr g in ground arith

function_definition-one :
    (g : ℕ) (name type : String) (ts : Tokens) (e : Expression)
    → parse_body (suc (suc g)) ts ≡ returns ((return_statement (some e) ∷ [], none), ended)
    → try_parse_top_level_decl (suc (suc g)) (
        next TokenType.keyword_fn [] (
          next TokenType.ident (chars name) (
            next TokenType.l_paren [] (
              next TokenType.r_paren []
                (next TokenType.thin_arrow [] (next TokenType.ident (chars type) ts))))))
      ≡ returns (some (Program.returns name (from_string type) e), ended)
unfolding try_parse_top_level_decl try_parse_function_definition parse_args skip_r_paren
    try_parse_arg_definition parse_return_type peek take expect same_type
function_definition-one g name type ts e h = rw (h, text-chars name, text-chars type) refl

end_of_file-decl : (f : ℕ) → try_parse_top_level_decl f ended ≡ returns (none, ended)
unfolding try_parse_top_level_decl try_parse_function_definition peek same_type
end_of_file-decl f = refl

parse-one :
    (f : ℕ) (ts : Tokens) (fn : FunctionDefinition)
    → try_parse_top_level_decl (suc (suc f)) ts ≡ returns (some fn, ended)
    → parse (suc (suc f)) ts ≡ returns (fn ∷ [])
unfolding parse many expect take same_type
parse-one f ts fn h = let k = end_of_file-decl (suc (suc f)) in ground arith

-- The tokens of a function without parameters that returns an expression are parsed to that function
-- and nothing else, with fuel by the size of the expression.
pub parse-function_tokens :
    (f : ℕ) (name type : String) (e : Expression)
    → IsParsed e
    → weight e + 1 < f
    → parse f (function_tokens name type e)
      ≡ returns (Program.returns name (from_string type) e ∷ [])
parse-function_tokens zero name type e i w = absurd (omega arith)
parse-function_tokens (suc zero) name type e i w = absurd (omega arith)
parse-function_tokens (suc (suc g)) name type e i w =
    parse-one g (function_tokens name type e) (Program.returns name (from_string type) e) (
      function_definition-one g name type _ e
        (parse_body-one g _ (return_statement (some e)) (stmt-show (suc (suc g)) e closing i w)))

-- From the tokens of a function without parameters that returns a closed expression of less than 2 ^ 31
-- nodes: where the constructor of `AST` returns on them, emission succeeds, and gives one function of
-- that name whose entry block returns the value of the resolved expression, which has the declared type.
pub build-Computes :
    (f : ℕ) (name type : String) (e : Expression) {tlds : List FunctionDefinition}
    → IsParsed e
    → IsClosed e
    → weight e + 1 < f
    → nodes e < 2 ^ 31
    → build f (function_tokens name type e) ≡ returns tlds
    → (r : Expression) × (fn : Function) × (resolve_type e ≡ ok r)
      × (type_eq (type_of r) (from_string type) ≡ true)
      × (emit_object tlds ≡ ok (fn ∷ []))
      × (fn.name ≡ name)
      × Computes fn (eval r)
unfolding build
build-Computes f name type e {tlds} i c w room h =
    analyse-Computes name (from_string type) e c room (
      lift-returns (analyse (Program.returns name (from_string type) e ∷ []))
        (sym (analysed f _ (parse-function_tokens f name type e i w)) ∙ h))
  where
    analysed :
        (f : ℕ) (ts : Tokens) {fns : List FunctionDefinition}
        → parse f ts ≡ returns fns
        → build f ts ≡ lift (analyse fns)
    analysed f ts p = rw p refl
