-- ===== src/Frontend/AstPrint/Tests.antt =====
-- A small tree as text.
use sasc.Prelude.{◌≡◌, refl, [], ◌∷◌, none, some}
use sasc.Error.{ok}
use sasc.Frontend.Token.{chars}
use sasc.Frontend.FrontendType.{FrontendType}
use sasc.Frontend.Ast.{
  BinaryOperation, Expression, integer_literal, binary, return_statement, FunctionDefinition,
}
use sasc.Frontend.AstPrint.{print}

abbrev sum : Expression
sum =
    binary FrontendType.i32 BinaryOperation.add (integer_literal FrontendType.i32 40)
      (integer_literal FrontendType.i32 2)

abbrev main_function : FunctionDefinition
main_function = record {
  name = "main";
  args = [];
  return_type = FrontendType.i32;
  body_statements = return_statement (some sum) ∷ [];
  body_return_expr = none;
}

print_main :
    print (main_function ∷ [])
    ≡ ok (
        chars "Function definition (name: \"main\", args: 0, return type: i32)"
        ∷ (chars "  Return statement (type: \"i32\")"
            ∷ (chars "    Binary expression (operator: '+')"
                ∷ (chars "      Integer literal (value: 40, type: i32)"
                    ∷ (chars "      Integer literal (value: 2, type: i32)" ∷ [])))))
unfolding print
print_main = refl
