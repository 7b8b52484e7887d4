-- ===== src/Frontend/Accepted.antt =====
-- From the parsed tree to the IR: the passes of the `AST` constructor and `AST::emit_ir`, on a program
-- that is one function without parameters, which returns an expression.
use sasc.Prelude.{
  suc, ◌^◌, ◌<◌, ◌≡◌, refl, sym, ap, ◌∙◌, true, none, some, inl, inr, List, [], ◌∷◌, String, arith,
}
use sasc.Error.{ok, ◌>>=◌, ◌>>◌, >>=-eq-ok, ok-injective, Result-cases}
use sasc.Ir.Defs.{Function}
use sasc.Frontend.FrontendType.{FrontendType, function, end, type_eq}
use sasc.Frontend.Ast.{
  Expression, integer_literal, boolean_literal, identifier, binary, unary, call, type_of,
  FunctionDefinition,
}
use sasc.Frontend.Symbols.{SymbolScope, resolve_symbols}
use sasc.Frontend.Resolve.{check, group, binary_type, unary_type, call_type}
use sasc.Frontend.Resolve
use sasc.Frontend.Check.{analyse}
use sasc.Frontend.EmitIr.{emit_object}
use sasc.Frontend.EmitIr.Emits.{size}
use sasc.Frontend.EmitIr.Program.{returns, Computes, emit_object-Computes}
use sasc.Frontend.Meaning.{eval}
use sasc.Frontend.Meaning.Typing.{IsClosed, resolve_type-Typed, checked}

-- There is nothing to resolve where there is no identifier.
resolve_symbols-IsClosed :
    (scope : SymbolScope) (e : Expression) → IsClosed e → resolve_symbols scope e ≡ ok e
unfolding resolve_symbols
resolve_symbols-IsClosed scope (integer_literal t v) c = refl
resolve_symbols-IsClosed scope (boolean_literal v) c = refl
resolve_symbols-IsClosed scope (identifier t n s) c = absurd c
resolve_symbols-IsClosed scope (binary t o l r) (cl, cr) =
    rw (resolve_symbols-IsClosed scope l cl, resolve_symbols-IsClosed scope r cr, resolve_symbols)
      refl
resolve_symbols-IsClosed scope (unary t o e) c =
    rw (resolve_symbols-IsClosed scope e c, resolve_symbols) refl
resolve_symbols-IsClosed scope (call t e) c = absurd c

-- Type resolution keeps the shape of the tree.
size-resolve_type :
    (e : Expression) {r : Expression} → Resolve.resolve_type e ≡ ok r → size r ≡ size e
unfolding Resolve.resolve_type size
size-resolve_type (integer_literal t v) h = ap size (sym (ok-injective h))
size-resolve_type (boolean_literal v) h = ap size (sym (ok-injective h))
size-resolve_type (identifier t n (some s)) h = ap size (sym (ok-injective h))
size-resolve_type (identifier t n none) h = cc
size-resolve_type (binary t o l r) h =
    let (l', el, h1) = >>=-eq-ok (Resolve.resolve_type l) _ h in
    let (r', er, h2) = >>=-eq-ok (Resolve.resolve_type r) _ h1 in
    let (u, eu, h3) = >>=-eq-ok (binary_type (group o) (type_of l') (type_of r')) _ h2 in
    ap size (sym (ok-injective h3)) ∙ omega (arith, size-resolve_type l el, size-resolve_type r er)
size-resolve_type (unary t o e) h =
    let (e', ee, h1) = >>=-eq-ok (Resolve.resolve_type e) _ h in
    let (u, eu, h2) = >>=-eq-ok (unary_type o (type_of e')) _ h1 in
    ap size (sym (ok-injective h2)) ∙ ap suc (size-resolve_type e ee)
size-resolve_type (call t e) h =
    let (e', ee, h1) = >>=-eq-ok (Resolve.resolve_type e) _ h in
    let (u, eu, h2) = >>=-eq-ok (call_type (type_of e')) _ h1 in
    ap size (sym (ok-injective h2)) ∙ ap suc (size-resolve_type e ee)

-- The scopes inside the function: its own, which is empty, and the program's.
abbrev declared : String → FrontendType → SymbolScope
declared name t = [] ∷ (record { name = name; type = function t end } ∷ []) ∷ []

-- On a closed expression the passes come to type resolution and one check of the return type.
pub analyse-returns :
    (name : String) (t : FrontendType) (e : Expression)
    → IsClosed e
    → analyse (returns name t e ∷ []) ≡ (do
      e' ← Resolve.resolve_type e
      check (type_eq (type_of e') t) (t ∷ type_of e' ∷ [])
      ok (returns name t e' ∷ []))
unfolding analyse
analyse-returns name t e c =
    let closed = resolve_symbols-IsClosed (declared name t) e c in
    elim (Result-cases (Resolve.resolve_type e)) [
      | inr (x, q) ↦ rw (closed, q, analyse) refl
      | inl (e', q) ↦ elim (Result-cases (check (type_eq (type_of e') t) (t ∷ type_of e' ∷ []))) [
        | inr (x, p) ↦ rw (closed, q, p, analyse) refl
        | inl (u, p) ↦ rw (closed, q, p, analyse) refl
      ]
    ]

-- A program that is one function without parameters, whose body returns a closed expression of less
-- than 2 ^ 31 nodes: where the analysis accepts it, emission succeeds, and gives one function whose
-- entry block returns the value of the resolved expression, which has the type that was declared.
pub analyse-Computes :
    (name : String) (t : FrontendType) (e : Expression) {tlds : List FunctionDefinition}
    → IsClosed e
    → size e < 2 ^ 31
    → analyse (returns name t e ∷ []) ≡ ok tlds
    → (r : Expression) × (fn : Function) × (Resolve.resolve_type e ≡ ok r)
      × (type_eq (type_of r) t ≡ true)
      × (emit_object tlds ≡ ok (fn ∷ []))
      × (fn.name ≡ name)
      × Computes fn (eval r)
analyse-Computes name t e {tlds} c room h =
    let (r, q, h1) = >>=-eq-ok (Resolve.resolve_type e) _ (sym (analyse-returns name t e c) ∙ h) in
    let (same, h2) = checked (type_eq (type_of r) t) (t ∷ type_of r ∷ []) _ h1 in
    let (fn, emitted, named, computes) =
      emit_object-Computes name t r (resolve_type-Typed e c q) (rw (size-resolve_type e q) room) in
    (r, fn, q, same, ap emit_object (sym (ok-injective h2)) ∙ emitted, named, computes)
