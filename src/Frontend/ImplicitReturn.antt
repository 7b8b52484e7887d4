-- ===== src/Frontend/ImplicitReturn.antt =====
-- A body's last expression without `return`, in the analysis of frontend/AST_semantics.cpp.
use sasc.Prelude.{◌≡◌, ◌≢◌, refl, sym, ap, ◌∙◌, subst, true, Option, none, some, List, [], ◌∷◌}
use sasc.Error.{ok, ◌>>◌, >>=-eq-ok, ok-injective}
use sasc.Frontend.FrontendType.{FrontendType, unresolved, type_eq}
use sasc.Frontend.Ast.{Expression, type_of, FunctionDefinition}
use sasc.Frontend.Symbols.{
  SymbolScope, map_result, add_args, resolve_statement, resolve_function, hoist,
}
use sasc.Frontend.Check.{
  check_expression, check_args, check_statement, check_return_expr, check_function, analyse,
}
use sasc.Frontend.Meaning.Typing.{checked}

type_eq-unresolved : (t : FrontendType) → type_eq unresolved t ≡ true → t ≡ unresolved
unfolding type_eq
type_eq-unresolved FrontendType.unresolved h = refl
type_eq-unresolved _ h = cc

some-injective : {a b : Expression} → some a ≡ some b → a ≡ b
some-injective h = cc

-- The symbols are resolved in the statements, and the last expression stays as it is.
resolve_function-return_expr :
    (scope : SymbolScope) (f : FunctionDefinition) {g : FunctionDefinition}
    → resolve_function scope f ≡ ok g
    → (g.body_return_expr ≡ f.body_return_expr) × (g.return_type ≡ f.return_type)
unfolding resolve_function
resolve_function-return_expr scope f h =
    let (s1, _, h1) = >>=-eq-ok (add_args f.args ([] ∷ scope)) _ h in
    let (body, _, h2) = >>=-eq-ok (map_result (resolve_statement s1) f.body_statements) _ h1 in
    (
      ap (λ (g : FunctionDefinition). g.body_return_expr) (sym (ok-injective h2)),
      ap (λ (g : FunctionDefinition). g.return_type) (sym (ok-injective h2)),
    )

check_return_expr-unresolved :
    (t : FrontendType) (o : Option Expression) (e : Expression)
    → o ≡ some e
    → type_of e ≡ unresolved
    → t ≢ unresolved
    → check_return_expr t o ≢ ok tt
unfolding check_return_expr
check_return_expr-unresolved t none e s u n h = cc
check_return_expr-unresolved t (some d) e s u n h =
    let (_, _, h1) = >>=-eq-ok (check_expression d) _ h in
    let same : d ≡ e = some-injective s in
    let (b, _) =
      checked (type_eq (type_of d) t) (t ∷ type_of d ∷ []) (ok (tt {0}))
        (ap (λ r. r >> ok (tt {0})) h1) in
    n (type_eq-unresolved t (subst (λ u. type_eq u t ≡ true) (ap type_of same ∙ u) b))

check_function-unresolved :
    (f : FunctionDefinition) (e : Expression)
    → f.body_return_expr ≡ some e
    → type_of e ≡ unresolved
    → f.return_type ≢ unresolved
    → (g : FunctionDefinition) → check_function f ≢ ok g
unfolding check_function
check_function-unresolved f e s u n g h =
    let (_, _, h1) = >>=-eq-ok (check_args f.args) _ h in
    let (body, _, h2) =
      >>=-eq-ok (map_result (check_statement (some f.return_type)) f.body_statements) _ h1 in
    let (_, q, _) = >>=-eq-ok (check_return_expr f.return_type f.body_return_expr) _ h2 in
    check_return_expr-unresolved f.return_type f.body_return_expr e s u n q

-- A program is not accepted whose first function ends in an expression without `return` that the parser
-- leaves without a type, as it does with every operator and call: type resolution does not visit it.
pub analyse-unresolved :
    (f : FunctionDefinition) (fs : List FunctionDefinition) (e : Expression)
    → f.body_return_expr ≡ some e
    → type_of e ≡ unresolved
    → f.return_type ≢ unresolved
    → (gs : List FunctionDefinition) → analyse (f ∷ fs) ≢ ok gs
unfolding analyse
analyse-unresolved f fs e s u n gs h =
    let (symbols, _, h1) = >>=-eq-ok (hoist (f ∷ fs) ([] ∷ [])) _ h in
    let (resolved, q, h2) = >>=-eq-ok (map_result (resolve_function symbols) (f ∷ fs)) _ h1 in
    let (f', r, q1) = >>=-eq-ok (resolve_function symbols f) _ q in
    let (fs', _, q2) = >>=-eq-ok (map_result (resolve_function symbols) fs) _ q1 in
    let kept = resolve_function-return_expr symbols f r in
    let (g, c, _) =
      >>=-eq-ok (check_function f') _
        (subst (λ rs. map_result check_function rs ≡ ok gs) (sym (ok-injective q2)) h2) in
    check_function-unresolved f' e (kept.0 ∙ s) u (subst (λ t. t ≢ unresolved) (sym kept.1) n) g c
