-- ===== src/Frontend/Meaning/Rules/Complete.antt =====
-- `resolve_type` of frontend/AST_semantics.cpp accepts what the typing rules allow.
use sasc.Prelude.{◌↔◌, ◌≡◌, ◌⊎◌, inl, inr, refl, true, false, subst}
use sasc.Error.{ok}
use sasc.Frontend.FrontendType.{
  FrontendType, bool, u8, u16, u32, i8, i16, i32, unresolved_int, is_integer, is_unsigned_integer,
  is_numeric, is_bool, type_eq,
}
use sasc.Frontend.FrontendType
use sasc.Frontend.Ast.{
  BinaryOperation, UnaryOperation, logical_not, bitwise_not, negation, Expression, binary, unary,
  type_of,
}
use sasc.Frontend.Resolve
use sasc.Frontend.Resolve.{comparison, bitwise, shift, arithmetic, group, binary_type, unary_type}
use sasc.Frontend.Meaning.Typing.{HasIrType, IsClosed}
use sasc.Frontend.Meaning.Rules.{
  Signed, i8_signed, i16_signed, i32_signed, Unsigned, u8_unsigned, u16_unsigned, u32_unsigned,
  Integer, Compares, equal_compares, not_equal_compares, less_than_compares,
  less_than_or_equal_compares, greater_than_compares, greater_than_or_equal_compares, Shifts,
  shift_left_shifts, shift_right_shifts, Combines, add_combines, subtract_combines,
  multiply_combines, divide_combines, modulus_combines, bitwise_and_combines, bitwise_xor_combines,
  bitwise_or_combines, Types, literal, truth, compared, shifted, combined, inverted, complemented,
  negated,
}
use sasc.Frontend.Meaning.Rules.Sound.{resolve_type-Types}
use sasc.Ir.IrType.{IrType}

Integer-HasIrType : (t : FrontendType) → Integer t → HasIrType t
unfolding FrontendType.resolve_type
Integer-HasIrType _ (inl i8_signed) = (IrType.i8, refl)
Integer-HasIrType _ (inl i16_signed) = (IrType.i16, refl)
Integer-HasIrType _ (inl i32_signed) = (IrType.i32, refl)
Integer-HasIrType _ (inr u8_unsigned) = (IrType.u8, refl)
Integer-HasIrType _ (inr u16_unsigned) = (IrType.u16, refl)
Integer-HasIrType _ (inr u32_unsigned) = (IrType.u32, refl)

Integer-is_integer : (t : FrontendType) → Integer t → (is_integer t ≡ true) × (is_numeric t ≡ true)
unfolding is_integer is_numeric
Integer-is_integer _ (inl i8_signed) = (refl, refl)
Integer-is_integer _ (inl i16_signed) = (refl, refl)
Integer-is_integer _ (inl i32_signed) = (refl, refl)
Integer-is_integer _ (inr u8_unsigned) = (refl, refl)
Integer-is_integer _ (inr u16_unsigned) = (refl, refl)
Integer-is_integer _ (inr u32_unsigned) = (refl, refl)

Unsigned-is_unsigned_integer : (t : FrontendType) → Unsigned t → is_unsigned_integer t ≡ true
unfolding is_unsigned_integer
Unsigned-is_unsigned_integer _ u8_unsigned = refl
Unsigned-is_unsigned_integer _ u16_unsigned = refl
Unsigned-is_unsigned_integer _ u32_unsigned = refl

Signed-is_unsigned_integer : (t : FrontendType) → Signed t → is_unsigned_integer t ≡ false
unfolding is_unsigned_integer
Signed-is_unsigned_integer _ i8_signed = refl
Signed-is_unsigned_integer _ i16_signed = refl
Signed-is_unsigned_integer _ i32_signed = refl

Types-HasIrType : {e r : Expression} → Types e r → HasIrType (type_of r)
unfolding type_of FrontendType.resolve_type
Types-HasIrType (literal i) = Integer-HasIrType _ i
Types-HasIrType truth = (IrType.bool, refl)
Types-HasIrType (compared c tk ts e) = (IrType.bool, refl)
Types-HasIrType (shifted c tk ts i n) = Types-HasIrType tk
Types-HasIrType (combined c tk ts i e) = Types-HasIrType tk
Types-HasIrType (inverted tk e) = (IrType.bool, refl)
Types-HasIrType (complemented tk i) = Types-HasIrType tk
Types-HasIrType (negated tk n) = Types-HasIrType tk

type_eq_self : (t : FrontendType) → HasIrType t → type_eq t t ≡ true
unfolding type_eq FrontendType.resolve_type
type_eq_self bool h = refl
type_eq_self u8 h = refl
type_eq_self u16 h = refl
type_eq_self u32 h = refl
type_eq_self i8 h = refl
type_eq_self i16 h = refl
type_eq_self i32 h = refl
type_eq_self _ (s, h) = cc

Compares-group : (o : BinaryOperation) → Compares o → group o ≡ comparison
unfolding group
Compares-group _ equal_compares = refl
Compares-group _ not_equal_compares = refl
Compares-group _ less_than_compares = refl
Compares-group _ less_than_or_equal_compares = refl
Compares-group _ greater_than_compares = refl
Compares-group _ greater_than_or_equal_compares = refl

Shifts-group : (o : BinaryOperation) → Shifts o → group o ≡ shift
unfolding group
Shifts-group _ shift_left_shifts = refl
Shifts-group _ shift_right_shifts = refl

Combines-group : (o : BinaryOperation) → Combines o → (group o ≡ bitwise) ⊎ (group o ≡ arithmetic)
unfolding group
Combines-group _ add_combines = inr refl
Combines-group _ subtract_combines = inr refl
Combines-group _ multiply_combines = inr refl
Combines-group _ divide_combines = inr refl
Combines-group _ modulus_combines = inr refl
Combines-group _ bitwise_and_combines = inl refl
Combines-group _ bitwise_xor_combines = inl refl
Combines-group _ bitwise_or_combines = inl refl

comparison-ok : (t : FrontendType) → HasIrType t → binary_type comparison t t ≡ ok bool
unfolding binary_type
comparison-ok t h = rw (type_eq_self t h) refl

shift-ok : (t u : FrontendType) → Integer t → Unsigned u → binary_type shift t u ≡ ok t
unfolding binary_type
shift-ok t u i n = rw ((Integer-is_integer t i).0, Unsigned-is_unsigned_integer u n) refl

combined-ok :
    (o : BinaryOperation) (t : FrontendType)
    → Combines o
    → Integer t
    → binary_type (group o) t t ≡ ok t
unfolding binary_type
combined-ok o t c i =
    let (p, q) = Integer-is_integer t i in
    let same = type_eq_self t (Integer-HasIrType t i) in
    elim (Combines-group o c) [ inl e ↦ rw (e, p, same) refl | inr e ↦ rw (e, q, same) refl ]

binary-resolved :
    (t u : FrontendType) (o : BinaryOperation) (l r k s : Expression)
    → Resolve.resolve_type l ≡ ok k
    → Resolve.resolve_type r ≡ ok s
    → binary_type (group o) (type_of k) (type_of s) ≡ ok u
    → Resolve.resolve_type (binary t o l r) ≡ ok (binary u o k s)
unfolding Resolve.resolve_type
binary-resolved t u o l r k s a b h = rw (a, b, h) refl

unary-resolved :
    (t u : FrontendType) (o : UnaryOperation) (e k : Expression)
    → Resolve.resolve_type e ≡ ok k
    → unary_type o (type_of k) ≡ ok u
    → Resolve.resolve_type (unary t o e) ≡ ok (unary u o k)
unfolding Resolve.resolve_type
unary-resolved t u o e k a h = rw (a, h) refl

-- What the rules allow is resolved so.
Types-resolve_type : {e r : Expression} → Types e r → Resolve.resolve_type e ≡ ok r
unfolding Resolve.resolve_type unary_type is_bool
Types-resolve_type (literal i) = refl
Types-resolve_type truth = refl
Types-resolve_type (compared {t = t} {o = o} {l = l} {r = r} {k = k} {s = s} c tk ts e) =
    binary-resolved t bool o l r k s (Types-resolve_type tk) (Types-resolve_type ts) (
      rw (Compares-group o c) (
        subst (λ v. binary_type comparison (type_of k) v ≡ ok bool) e
          (comparison-ok (type_of k) (Types-HasIrType tk))))
Types-resolve_type (shifted {t = t} {o = o} {l = l} {r = r} {k = k} {s = s} c tk ts i n) =
    binary-resolved t (type_of k) o l r k s (Types-resolve_type tk) (Types-resolve_type ts)
      (rw (Shifts-group o c) (shift-ok (type_of k) (type_of s) i n))
Types-resolve_type (combined {t = t} {o = o} {l = l} {r = r} {k = k} {s = s} c tk ts i e) =
    binary-resolved t (type_of k) o l r k s (Types-resolve_type tk) (Types-resolve_type ts) (
      subst (λ v. binary_type (group o) (type_of k) v ≡ ok (type_of k)) e
        (combined-ok o (type_of k) c i))
Types-resolve_type (inverted {t = t} {e = a} {u = u} tk e) =
    unary-resolved t bool logical_not a u (Types-resolve_type tk) (rw e refl)
Types-resolve_type (complemented {t = t} {e = a} {u = u} tk i) =
    unary-resolved t (type_of u) bitwise_not a u (Types-resolve_type tk)
      (rw ((Integer-is_integer (type_of u) i).0) refl)
Types-resolve_type (negated {t = t} {e = a} {u = u} tk n) =
    unary-resolved t (type_of u) negation a u (Types-resolve_type tk) (
      rw ((Integer-is_integer (type_of u) (inl n)).1, Signed-is_unsigned_integer (type_of u) n)
        refl)

-- Type resolution of a closed expression succeeds with a tree just where the typing rules give that tree:
-- comparisons of two operands of one type are of type `bool`, arithmetic and bitwise operations on two
-- integers of one type are of that type, a shift by an unsigned count is of the type of what it shifts,
-- `!` is on `bool`, `~` on integers and `-` on signed ones, and there is nothing else.
pub resolve_type-Types_iff :
    (e r : Expression) → IsClosed e → (Resolve.resolve_type e ≡ ok r) ↔ Types e r
resolve_type-Types_iff e r c = ((λ h. resolve_type-Types e c h), (λ h. Types-resolve_type h))
