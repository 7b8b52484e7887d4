-- ===== src/Frontend/Parser/Print/Tests.antt =====
-- From the tokens of a program to its IR, at a concrete input.
use sasc.Prelude.{arith, ◌≡◌, ◌≢◌, refl, true, [], ◌∷◌}
use sasc.Error.{ok}
use sasc.Ir.Defs.{Function}
use sasc.Frontend.Outcome.{returns}
use sasc.Frontend.FrontendType.{FrontendType, i32, unresolved, is_integer, type_eq, from_string}
use sasc.Frontend.Ast.{add, less_than, Expression, integer_literal, binary, type_of}
use sasc.Frontend.Resolve.{resolve_type}
use sasc.Frontend.EmitIr.{emit_object}
use sasc.Frontend.EmitIr.Emits.{size}
use sasc.Frontend.EmitIr.Program
use sasc.Frontend.EmitIr.Program.{Computes}
use sasc.Frontend.Meaning.{eval}
use sasc.Frontend.Meaning.Typing.{IsClosed}
use sasc.Frontend.Parser.{build}
use sasc.Frontend.Parser.Safe.Expr.{IsParsed}
use sasc.Frontend.Parser.Print.{show}
use sasc.Frontend.Parser.Print.Function.{function_tokens, build-Computes}

-- `1i32 + 2i32 < 5i32` as it is parsed, and resolved.
abbrev sum_below : Expression
sum_below =
    binary unresolved less_than
      (binary unresolved add (integer_literal i32 1) (integer_literal i32 2))
      (integer_literal i32 5)

abbrev sum_below_resolved : Expression
sum_below_resolved =
    binary FrontendType.bool less_than
      (binary i32 add (integer_literal i32 1) (integer_literal i32 2)) (integer_literal i32 5)

sized : i32 ≢ FrontendType.unresolved_int
sized e = cc

sum_below-IsParsed : IsParsed sum_below
unfolding is_integer
sum_below-IsParsed = (
  refl,
  (refl, (refl, sized, omega arith), (refl, sized, omega arith)),
  (refl, sized, omega arith),
)

sum_below-IsClosed : IsClosed sum_below
unfolding is_integer
sum_below-IsClosed = (((refl, sized), (refl, sized)), (refl, sized))

sum_below_built :
    build 12 (function_tokens "main" "bool" sum_below)
    ≡ returns (Program.returns "main" FrontendType.bool sum_below_resolved ∷ [])
unfolding build show
sum_below_built = refl

build-Computes_example :
    (r : Expression) × (fn : Function) × (resolve_type sum_below ≡ ok r)
    × (type_eq (type_of r) (from_string "bool") ≡ true)
    × (emit_object (Program.returns "main" FrontendType.bool sum_below_resolved ∷ [])
        ≡ ok (fn ∷ []))
    × (fn.name ≡ "main")
    × Computes fn (eval r)
build-Computes_example =
    build-Computes 12 "main" "bool" sum_below sum_below-IsParsed sum_below-IsClosed (omega arith)
      (unfold size in omega arith) sum_below_built
