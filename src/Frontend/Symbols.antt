-- ===== src/Frontend/Symbols.antt =====
-- Symbol scopes of frontend/AST.cpp, and the pass that ties identifiers to symbols, of
-- frontend/AST_semantics.cpp. A scope is the list of its own symbols and those of its parents,
-- innermost first.
use sasc.Prelude.{Bool, true, Option, none, some, List, [], ◌∷◌, String, if◌then◌else◌}
use sasc.Error.{name_error, Result, ok, err, ◌>>=◌}
use sasc.Frontend.FrontendType.{FrontendType, FrontendTypes, end, param, function}
use sasc.Frontend.Ast.{
  Symbol, Expression, integer_literal, boolean_literal, identifier, binary, unary, call, Statement,
  return_statement, ArgDefinition, FunctionDefinition,
}
use text.Mathlib.Text.{◌==◌ as str_eq}

abbrev pub SymbolScope : Type 0
SymbolScope = List (List Symbol)

unfoldable pub find_here : String → List Symbol → Option Symbol
find_here name [] = none
find_here name (s ∷ ss) = if str_eq s.name name then some s else find_here name ss

unfoldable pub find : Bool → String → SymbolScope → Option Symbol
unfolding find_here
find recursive name [] = none
find recursive name (frame ∷ parents) = elim (find_here name frame) [
  | some s ↦ some s
  | none ↦ if recursive then find recursive name parents else none
]

-- Throws on a collision in the innermost scope.
unfoldable pub add : String → FrontendType → SymbolScope → Result SymbolScope
unfolding find_here
add name t [] = ok ((record { name = name; type = t } ∷ []) ∷ [])
add name t (frame ∷ parents) = elim (find_here name frame) [
  | some _ ↦ err name_error
  | none ↦ ok ((record { name = name; type = t } ∷ frame) ∷ parents)
]

unfoldable pub resolve_symbols : SymbolScope → Expression → Result Expression
unfolding find
resolve_symbols scope (integer_literal t v) = ok (integer_literal t v)
resolve_symbols scope (boolean_literal v) = ok (boolean_literal v)
resolve_symbols scope (identifier t name _) = elim (find true name scope) [
  | some s ↦ ok (identifier t name (some s))
  | none ↦ err name_error
]
resolve_symbols scope (binary t o l r) = do
  l' ← resolve_symbols scope l
  r' ← resolve_symbols scope r
  ok (binary t o l' r')
resolve_symbols scope (unary t o e) = do e' ← resolve_symbols scope e; ok (unary t o e')
resolve_symbols scope (call t e) = do e' ← resolve_symbols scope e; ok (call t e')

-- An optional expression, as in a `return` and at the end of a body.
abbrev pub over_option :
    (Expression → Result Expression) → Option Expression → Result (Option Expression)
over_option f none = ok none
over_option f (some e) = do e' ← f e; ok (some e')

unfoldable pub resolve_statement : SymbolScope → Statement → Result Statement
unfolding resolve_symbols
resolve_statement scope (return_statement e) = do
  e' ← over_option (resolve_symbols scope) e
  ok (return_statement e')

abbrev pub map_result {ℓ κ} : {A : Type ℓ} {B : Type κ} → (A → Result B) → List A → Result (List B)
map_result f [] = ok []
map_result f (x ∷ xs) = do y ← f x; ys ← map_result f xs; ok (y ∷ ys)

pub add_args : List ArgDefinition → SymbolScope → Result SymbolScope
unfolding add
add_args [] scope = ok scope
add_args (a ∷ as_) scope = add a.name a.type scope >>= add_args as_

-- The return expression is not visited.
unfoldable pub resolve_function : SymbolScope → FunctionDefinition → Result FunctionDefinition
unfolding add_args resolve_statement
resolve_function parents f = do
  scope ← add_args f.args ([] ∷ parents)
  body ← map_result (resolve_statement scope) f.body_statements
  ok (record f { body_statements = body })

arg_types : List ArgDefinition → FrontendTypes
arg_types [] = end
arg_types (a ∷ as_) = param a.type (arg_types as_)

-- The name and the type under which a definition is hoisted.
unfoldable pub declares : FunctionDefinition → String × FrontendType
unfolding arg_types
declares f = (f.name, function f.return_type (arg_types f.args))

unfoldable pub hoist : List FunctionDefinition → SymbolScope → Result SymbolScope
unfolding declares add
hoist [] scope = ok scope
hoist (f ∷ fs) scope = add (declares f).0 (declares f).1 scope >>= hoist fs
