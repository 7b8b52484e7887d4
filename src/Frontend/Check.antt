-- ===== src/Frontend/Check.antt =====
-- `check_semantics` of frontend/AST_semantics.cpp, and the passes of the `AST` constructor in
-- frontend/AST.cpp behind the parser. On an expression `check_semantics` visits the tree and does
-- nothing.
use sasc.Prelude.{Option, none, some, List, [], ◌∷◌}
use sasc.Error.{internal, unimplemented, Result, ok, err, ◌>>=◌, ◌>>◌}
use sasc.Frontend.FrontendType.{FrontendType, void, type_eq}
use sasc.Frontend.Ast.{
  Expression, integer_literal, boolean_literal, identifier, binary, unary, call, type_of, Statement,
  return_statement, ArgDefinition, FunctionDefinition,
}
use sasc.Frontend.Symbols.{map_result, over_option, resolve_function, hoist}
use sasc.Frontend.Resolve.{throw_type_error, check, resolve_type}

unfoldable pub check_expression : Expression → Result (Unit {0})
check_expression (integer_literal _ _) = ok tt
check_expression (boolean_literal _) = ok tt
check_expression (identifier _ _ _) = ok tt
check_expression (binary _ _ l r) = do check_expression l; check_expression r
check_expression (unary _ _ e) = check_expression e
check_expression (call _ e) = check_expression e

-- The value's type, `void` where there is none, against the return type of the function.
abbrev optional_type : Option Expression → FrontendType
optional_type none = void
optional_type (some e) = type_of e

-- `SemanticAnalysisState` is the return type of the function that is being checked.
unfoldable pub check_return : Option FrontendType → Option Expression → Result (Option Expression)
unfolding resolve_type throw_type_error type_eq type_of
check_return state e = do
  e' ← over_option resolve_type e
  elim state [
    | none ↦ err internal
    | some expected ↦ do
      check (type_eq (optional_type e') expected) (expected ∷ optional_type e' ∷ [])
      ok e'
  ]

unfoldable pub check_statement : Option FrontendType → Statement → Result Statement
unfolding check_return
check_statement state (return_statement e) = do e' ← check_return state e; ok (return_statement e')

unfoldable pub check_args : List ArgDefinition → Result (Unit {0})
check_args [] = ok tt
check_args (a ∷ as_) = err unimplemented

-- The types of a return expression are not resolved: what it carries is compared.
unfoldable pub check_return_expr : FrontendType → Option Expression → Result (Unit {0})
unfolding check_expression throw_type_error type_eq type_of
check_return_expr expected none = ok tt
check_return_expr expected (some e) = do
  check_expression e
  check (type_eq (type_of e) expected) (expected ∷ type_of e ∷ [])

unfoldable pub check_function : FunctionDefinition → Result FunctionDefinition
unfolding check_args check_statement check_return_expr
check_function f = do
  check_args f.args
  body ← map_result (check_statement (some f.return_type)) f.body_statements
  check_return_expr f.return_type f.body_return_expr
  ok (record f { body_statements = body })

-- Hoisting, symbol resolution and checking of the parsed definitions, in this order.
unfoldable pub analyse : List FunctionDefinition → Result (List FunctionDefinition)
unfolding hoist resolve_function check_function
analyse tlds = do
  symbols ← hoist tlds ([] ∷ [])
  resolved ← map_result (resolve_function symbols) tlds
  map_result check_function resolved
