-- ===== src/Frontend/Resolve.antt =====
-- `resolve_type` of frontend/AST_semantics.cpp: types are found from the leaves up, and the node comes
-- back with its `type` filled in. A thrown type error first builds its message.
use sasc.Prelude.{Bool, true, false, not, none, some, List, [], ◌∷◌}
use sasc.Error.{type_error, unimplemented, Error, Result, ok, err, ◌>>=◌, ◌>>◌}
use sasc.Frontend.FrontendType.{
  FrontendType, bool, is_integer, is_unsigned_integer, is_numeric, is_bool, is_function,
  return_type, to_string, type_eq,
}
use sasc.Frontend.Ast.{
  BinaryOperation, logical_or, logical_and, equal, not_equal, less_than, less_than_or_equal,
  greater_than, greater_than_or_equal, bitwise_or, bitwise_xor, bitwise_and, shift_left,
  shift_right, UnaryOperation, logical_not, bitwise_not, negation, Expression, integer_literal,
  boolean_literal, identifier, binary, unary, call, type_of,
}

-- `throw CompilerError::type_error(std::format(…))` with these types in the message.
unfoldable pub throw_type_error {ℓ} : {A : Type ℓ} → List FrontendType → Result A
unfolding to_string
throw_type_error [] = err type_error
throw_type_error (t ∷ ts) = do _ ← to_string t; throw_type_error ts

abbrev pub check : Bool → List FrontendType → Result (Unit {0})
check true ts = ok tt
check false ts = throw_type_error ts

-- The kinds of operator that the switch tells apart.
pub data Group : Type 0 where
  logical comparison bitwise shift arithmetic : Group

unfoldable pub group : BinaryOperation → Group
group logical_or = logical
group logical_and = logical
group equal = comparison
group not_equal = comparison
group less_than = comparison
group less_than_or_equal = comparison
group greater_than = comparison
group greater_than_or_equal = comparison
group bitwise_or = bitwise
group bitwise_xor = bitwise
group bitwise_and = bitwise
group shift_left = shift
group shift_right = shift
group _ = arithmetic

-- The operand checks, and then the type of the result.
unfoldable pub binary_type : Group → FrontendType → FrontendType → Result FrontendType
unfolding throw_type_error is_integer is_unsigned_integer is_numeric type_eq
binary_type logical l r = err unimplemented
binary_type comparison l r = do check (type_eq l r) (l ∷ r ∷ []); ok bool
binary_type bitwise l r = do
  check (is_integer l) (l ∷ [])
  check (is_integer r) (r ∷ [])
  check (type_eq l r) (l ∷ r ∷ [])
  ok l
binary_type shift l r = do
  check (is_integer l) (l ∷ [])
  check (is_unsigned_integer r) (r ∷ [])
  ok l
binary_type arithmetic l r = do
  check (is_numeric l) (l ∷ [])
  check (is_numeric r) (r ∷ [])
  check (type_eq l r) (l ∷ r ∷ [])
  ok l

unfoldable pub unary_type : UnaryOperation → FrontendType → Result FrontendType
unfolding throw_type_error is_integer is_unsigned_integer is_numeric is_bool
unary_type logical_not t = do check (is_bool t) (t ∷ []); ok t
unary_type bitwise_not t = do check (is_integer t) (t ∷ []); ok t
unary_type negation t = do
  check (is_numeric t) (t ∷ [])
  check (not (is_unsigned_integer t)) (t ∷ [])
  ok t

-- A callee must have a function type; the call has its return type.
unfoldable pub call_type : FrontendType → Result FrontendType
unfolding throw_type_error is_function return_type
call_type t = do check (is_function t) (t ∷ []); return_type t

-- An identifier whose symbol is not resolved would be a null dereference.
unfoldable pub resolve_type : Expression → Result Expression
unfolding group binary_type unary_type call_type type_of
resolve_type (integer_literal t v) = ok (integer_literal t v)
resolve_type (boolean_literal v) = ok (boolean_literal v)
resolve_type (identifier t name none) = err Error.uncaught
resolve_type (identifier t name (some s)) = ok (identifier s.type name (some s))
resolve_type (binary _ o l r) = do
  l' ← resolve_type l
  r' ← resolve_type r
  t ← binary_type (group o) (type_of l') (type_of r')
  ok (binary t o l' r')
resolve_type (unary _ o e) = do
  e' ← resolve_type e
  t ← unary_type o (type_of e')
  ok (unary t o e')
resolve_type (call _ e) = do e' ← resolve_type e; t ← call_type (type_of e'); ok (call t e')
