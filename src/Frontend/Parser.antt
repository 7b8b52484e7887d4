-- ===== src/Frontend/Parser.antt =====
-- The parser of frontend/Parser.cpp: top-level declarations and statements, and the loop over them in
-- the constructor of `AST` in frontend/AST.cpp.
pub mod Stream
pub mod Literal
pub mod Operators
pub mod Expr
pub mod Safe
pub mod Print
pub mod Quirks
mod Tests
use sasc.Prelude.{
  ℕ, zero, suc, Bool, true, false, Option, none, some, List, [], ◌∷◌, length, if◌then◌else◌,
}
use sasc.Error.{syntax_error, Result}
use sasc.Frontend.Outcome.{Outcome, out_of_fuel, throws, returns, ◌>>=◌, lift}
use sasc.Frontend.FrontendType.{FrontendType, void, from_string}
use sasc.Frontend.Ast.{Expression, Statement, return_statement, ArgDefinition, FunctionDefinition}
use sasc.Frontend.Check.{analyse}
use sasc.Frontend.Token.{TokenType, text, same_type}
use sasc.Frontend.Lexer.{make_lexer}
use Prim.Native.Char.{Char}
use sasc.Frontend.Parser.Stream.{Tokens, tokens, Parser, peek, take, expect}
use sasc.Frontend.Parser.Expr.{required, try_parse_expr}

unfoldable pub try_parse_arg_definition : Parser ArgDefinition
unfolding peek take expect from_string same_type
try_parse_arg_definition ts = do
  t ← peek ts
  if same_type t TokenType.ident
      then (do
        ((_, name), ts1) ← take ts
        (_, ts2) ← expect TokenType.colon ts1
        (type, ts3) ← expect TokenType.ident ts2
        returns (some (record { name = text name; type = from_string (text type) }), ts3))
      else returns (none, ts)

unfoldable pub try_parse_return_stmt : ℕ → Parser Statement
unfolding peek take expect required try_parse_expr same_type
try_parse_return_stmt f ts = do
  t ← peek ts
  if same_type t TokenType.keyword_return
      then (do
        (_, ts1) ← take ts
        t1 ← peek ts1
        if same_type t1 TokenType.semicolon
            then (do (_, ts2) ← take ts1; returns (some (return_statement none), ts2))
            else (do
              (e, ts2) ← required (try_parse_expr f) ts1
              (_, ts3) ← expect TokenType.semicolon ts2
              returns (some (return_statement (some e)), ts3)))
      else returns (none, ts)

unfoldable pub try_parse_stmt : ℕ → Parser Statement
unfolding try_parse_return_stmt
try_parse_stmt f = try_parse_return_stmt f

-- `while (true)` as long as the rule matches.
unfoldable pub many {ℓ} : {A : Type ℓ} → Parser A → ℕ → Tokens → Outcome (List A × Tokens)
many rule zero ts = out_of_fuel
many rule (suc f) ts = do
  (parsed, ts1) ← rule ts
  elim parsed [
    | none ↦ returns ([], ts1)
    | some a ↦ do (as_, ts2) ← many rule f ts1; returns (a ∷ as_, ts2)
  ]

-- `if (lexer.peek().type == TokenType::R_PAREN) lexer.take();`
unfoldable pub skip_r_paren : Tokens → Outcome Tokens
unfolding peek take same_type
skip_r_paren ts = do
  t ← peek ts
  if same_type t TokenType.r_paren then (do (_, ts1) ← take ts; returns ts1) else returns ts

-- The loop over the arguments.
unfoldable pub parse_args : ℕ → Tokens → Outcome (List ArgDefinition × Tokens)
unfolding try_parse_arg_definition skip_r_paren peek take same_type
parse_args zero ts = out_of_fuel
parse_args (suc f) ts = do
  (parsed, ts1) ← try_parse_arg_definition ts
  elim parsed [
    | none ↦ do ts2 ← skip_r_paren ts1; returns ([], ts2)
    | some arg ↦ do
      t ← peek ts1
      if same_type t TokenType.comma
          then (do (_, ts2) ← take ts1; (args, ts3) ← parse_args f ts2; returns (arg ∷ args, ts3))
          else (do ts2 ← skip_r_paren ts1; returns (arg ∷ [], ts2))
  ]

unfoldable pub parse_return_type : Tokens → Outcome (FrontendType × Tokens)
unfolding peek take expect from_string same_type
parse_return_type ts = do
  t ← peek ts
  if same_type t TokenType.thin_arrow
      then (do
        (_, ts1) ← take ts
        (type, ts2) ← expect TokenType.ident ts1
        returns (from_string (text type), ts2))
      else returns (void, ts)

-- The body, with its braces.
unfoldable pub parse_body : ℕ → Tokens → Outcome ((List Statement × Option Expression) × Tokens)
unfolding expect many try_parse_stmt try_parse_expr
parse_body f ts = do
  (_, ts1) ← expect TokenType.l_curly_bracket ts
  (statements, ts2) ← many (try_parse_stmt f) f ts1
  (return_expr, ts3) ← try_parse_expr f ts2
  (_, ts4) ← expect TokenType.r_curly_bracket ts3
  returns ((statements, return_expr), ts4)

unfoldable pub try_parse_function_definition : ℕ → Parser FunctionDefinition
unfolding peek take expect parse_args parse_return_type parse_body same_type
try_parse_function_definition f ts = do
  t ← peek ts
  if same_type t TokenType.keyword_fn
      then (do
        (_, ts1) ← take ts
        (name, ts2) ← expect TokenType.ident ts1
        (_, ts3) ← expect TokenType.l_paren ts2
        (args, ts4) ← parse_args f ts3
        (return_type, ts5) ← parse_return_type ts4
        ((statements, return_expr), ts6) ← parse_body f ts5
        returns (
          some (record {
            name = text name;
            args = args;
            return_type = return_type;
            body_statements = statements;
            body_return_expr = return_expr;
          }),
          ts6,
        ))
      else returns (none, ts)

unfoldable pub try_parse_top_level_decl : ℕ → Parser FunctionDefinition
unfolding try_parse_function_definition
try_parse_top_level_decl f = try_parse_function_definition f

-- The parse of `AST::AST`.
unfoldable pub parse : ℕ → Tokens → Outcome (List FunctionDefinition)
unfolding many try_parse_top_level_decl expect
parse f ts = do
  (tlds, ts1) ← many (try_parse_top_level_decl f) f ts
  (_, ts2) ← expect TokenType.end_of_file ts1
  returns tlds

-- `AST::AST`: parse, then semantic analysis.
unfoldable pub build : ℕ → Tokens → Outcome (List FunctionDefinition)
unfolding parse analyse
build f ts = do tlds ← parse f ts; lift (analyse tlds)

-- `AST::AST` on a file, with fuel for a call of `take` for each character and one more.
unfoldable pub build_source : List Char → Outcome (List FunctionDefinition)
unfolding build tokens
build_source source = build (suc (length source)) (tokens (suc (length source)) (make_lexer source))
