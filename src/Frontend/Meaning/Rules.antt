-- ===== src/Frontend/Meaning/Rules.antt =====
-- The typing rules of the source language, for expressions without identifiers and calls.
pub mod Sound
pub mod Complete
use sasc.Prelude.{◌≡◌, ◌⊎◌, inl, inr, refl, sym, ◌≢◌, ◌∙◌, true, not, [], ◌∷◌, subst}
use sasc.Error.{ok, >>=-eq-ok, ok-injective}
use sasc.Frontend.FrontendType.{
  FrontendType, bool, u8, u16, u32, i8, i16, i32, unresolved_int, is_integer, is_unsigned_integer,
  is_numeric, is_bool, type_eq,
}
use sasc.Frontend.FrontendType
use sasc.Frontend.Ast.{
  BinaryOperation, logical_or, logical_and, equal, not_equal, less_than, less_than_or_equal,
  greater_than, greater_than_or_equal, bitwise_or, bitwise_xor, bitwise_and, shift_left,
  shift_right, add, subtract, multiply, divide, modulus, UnaryOperation, logical_not, bitwise_not,
  negation, Expression, integer_literal, boolean_literal, identifier, binary, unary, call, type_of,
}
use sasc.Frontend.Resolve
use sasc.Frontend.Resolve.{comparison, bitwise, shift, arithmetic, group, binary_type, unary_type}
use sasc.Frontend.Meaning.Typing.{HasIrType, IsClosed, checked, resolve_type-Typed, Typed-HasIrType}

pub data Signed : FrontendType → Type 0 where
  i8_signed : Signed i8
  i16_signed : Signed i16
  i32_signed : Signed i32

pub data Unsigned : FrontendType → Type 0 where
  u8_unsigned : Unsigned u8
  u16_unsigned : Unsigned u16
  u32_unsigned : Unsigned u32

abbrev pub Integer : FrontendType → Type 0
Integer t = Signed t ⊎ Unsigned t

-- The operators that compare.
pub data Compares : BinaryOperation → Type 0 where
  equal_compares : Compares equal
  not_equal_compares : Compares not_equal
  less_than_compares : Compares less_than
  less_than_or_equal_compares : Compares less_than_or_equal
  greater_than_compares : Compares greater_than
  greater_than_or_equal_compares : Compares greater_than_or_equal

pub data Shifts : BinaryOperation → Type 0 where
  shift_left_shifts : Shifts shift_left
  shift_right_shifts : Shifts shift_right

-- The operators on two integers of one type, which give that type.
pub data Combines : BinaryOperation → Type 0 where
  add_combines : Combines add
  subtract_combines : Combines subtract
  multiply_combines : Combines multiply
  divide_combines : Combines divide
  modulus_combines : Combines modulus
  bitwise_and_combines : Combines bitwise_and
  bitwise_xor_combines : Combines bitwise_xor
  bitwise_or_combines : Combines bitwise_or

-- A parsed tree and the same tree with its types: the operands of a comparison have the same type and it
-- gives `bool`, a shift takes an unsigned count and gives the type of what it shifts, and there is no
-- rule for a logical operator of two operands.
pub data Types : Expression → Expression → Type 0 where
  literal :
      {t : FrontendType} {v : _} → Integer t → Types (integer_literal t v) (integer_literal t v)
  truth : {b : _} → Types (boolean_literal b) (boolean_literal b)
  compared :
      {t : FrontendType} {o : BinaryOperation} {l r k s : Expression}
      → Compares o
      → Types l k
      → Types r s
      → type_of k ≡ type_of s
      → Types (binary t o l r) (binary bool o k s)
  shifted :
      {t : FrontendType} {o : BinaryOperation} {l r k s : Expression}
      → Shifts o
      → Types l k
      → Types r s
      → Integer (type_of k)
      → Unsigned (type_of s)
      → Types (binary t o l r) (binary (type_of k) o k s)
  combined :
      {t : FrontendType} {o : BinaryOperation} {l r k s : Expression}
      → Combines o
      → Types l k
      → Types r s
      → Integer (type_of k)
      → type_of k ≡ type_of s
      → Types (binary t o l r) (binary (type_of k) o k s)
  inverted :
      {t : FrontendType} {e u : Expression}
      → Types e u
      → type_of u ≡ bool
      → Types (unary t logical_not e) (unary bool logical_not u)
  complemented :
      {t : FrontendType} {e u : Expression}
      → Types e u
      → Integer (type_of u)
      → Types (unary t bitwise_not e) (unary (type_of u) bitwise_not u)
  negated :
      {t : FrontendType} {e u : Expression}
      → Types e u
      → Signed (type_of u)
      → Types (unary t negation e) (unary (type_of u) negation u)
