-- ===== src/Frontend/Meaning/Rules/Sound.antt =====
-- `resolve_type` of frontend/AST_semantics.cpp gives types by the typing rules.
use sasc.Prelude.{◌≡◌, inl, inr, refl, sym, ◌≢◌, ◌∙◌, true, not, [], ◌∷◌, subst}
use sasc.Error.{ok, >>=-eq-ok, ok-injective}
use sasc.Frontend.FrontendType.{
  FrontendType, bool, u8, u16, u32, i8, i16, i32, unresolved_int, is_integer, is_unsigned_integer,
  is_numeric, is_bool, type_eq,
}
use sasc.Frontend.FrontendType
use sasc.Frontend.Ast.{
  BinaryOperation, logical_or, logical_and, equal, not_equal, less_than, less_than_or_equal,
  greater_than, greater_than_or_equal, bitwise_or, bitwise_xor, bitwise_and, shift_left,
  shift_right, add, subtract, multiply, divide, modulus, UnaryOperation, logical_not, bitwise_not,
  negation, Expression, integer_literal, boolean_literal, identifier, binary, unary, call, type_of,
}
use sasc.Frontend.Resolve
use sasc.Frontend.Resolve.{comparison, bitwise, shift, arithmetic, group, binary_type, unary_type}
use sasc.Frontend.Meaning.Typing.{HasIrType, IsClosed, checked, resolve_type-Typed, Typed-HasIrType}
use sasc.Frontend.Meaning.Rules.{
  Signed, i8_signed, i16_signed, i32_signed, Unsigned, u8_unsigned, u16_unsigned, u32_unsigned,
  Integer, Compares, equal_compares, not_equal_compares, less_than_compares,
  less_than_or_equal_compares, greater_than_compares, greater_than_or_equal_compares, Shifts,
  shift_left_shifts, shift_right_shifts, Combines, add_combines, subtract_combines,
  multiply_combines, divide_combines, modulus_combines, bitwise_and_combines, bitwise_xor_combines,
  bitwise_or_combines, Types, literal, truth, compared, shifted, combined, inverted, complemented,
  negated,
}

numeric-Integer : (t : FrontendType) → HasIrType t → is_numeric t ≡ true → Integer t
unfolding is_numeric FrontendType.resolve_type
numeric-Integer i8 h e = inl i8_signed
numeric-Integer i16 h e = inl i16_signed
numeric-Integer i32 h e = inl i32_signed
numeric-Integer u8 h e = inr u8_unsigned
numeric-Integer u16 h e = inr u16_unsigned
numeric-Integer u32 h e = inr u32_unsigned
numeric-Integer unresolved_int (s, h) e = cc
numeric-Integer _ (s, h) e = cc

integer-Integer : (t : FrontendType) → HasIrType t → is_integer t ≡ true → Integer t
unfolding is_integer FrontendType.resolve_type
integer-Integer i8 h e = inl i8_signed
integer-Integer i16 h e = inl i16_signed
integer-Integer i32 h e = inl i32_signed
integer-Integer u8 h e = inr u8_unsigned
integer-Integer u16 h e = inr u16_unsigned
integer-Integer u32 h e = inr u32_unsigned
integer-Integer unresolved_int (s, h) e = cc
integer-Integer _ (s, h) e = cc

unsigned-Unsigned : (t : FrontendType) → HasIrType t → is_unsigned_integer t ≡ true → Unsigned t
unfolding is_unsigned_integer FrontendType.resolve_type
unsigned-Unsigned u8 h e = u8_unsigned
unsigned-Unsigned u16 h e = u16_unsigned
unsigned-Unsigned u32 h e = u32_unsigned
unsigned-Unsigned unresolved_int (s, h) e = cc
unsigned-Unsigned _ (s, h) e = cc

Unsigned-is_unsigned_integer : (t : FrontendType) → Unsigned t → is_unsigned_integer t ≡ true
unfolding is_unsigned_integer
Unsigned-is_unsigned_integer _ u8_unsigned = refl
Unsigned-is_unsigned_integer _ u16_unsigned = refl
Unsigned-is_unsigned_integer _ u32_unsigned = refl

negated-Signed : (t : FrontendType) → Integer t → not (is_unsigned_integer t) ≡ true → Signed t
negated-Signed t (inl s) e = s
negated-Signed t (inr u) e = cc (rw (Unsigned-is_unsigned_integer t u) at e)

bool-eq : (t : FrontendType) → is_bool t ≡ true → t ≡ bool
unfolding is_bool
bool-eq bool h = refl
bool-eq _ h = cc

same-eq : (l r : FrontendType) → HasIrType l → type_eq l r ≡ true → l ≡ r
unfolding type_eq FrontendType.resolve_type
same-eq bool bool h e = refl
same-eq u8 u8 h e = refl
same-eq u16 u16 h e = refl
same-eq u32 u32 h e = refl
same-eq i8 i8 h e = refl
same-eq i16 i16 h e = refl
same-eq i32 i32 h e = refl
same-eq _ _ (s, h) e = cc

module _ (t u : FrontendType) (o : BinaryOperation) (l r k s : Expression) (tk : Types l k)
    (ts : Types r s) (hk : HasIrType (type_of k)) (hs : HasIrType (type_of s)) where
  compared-Types :
      Compares o
      → binary_type comparison (type_of k) (type_of s) ≡ ok u
      → Types (binary t o l r) (binary u o k s)
  unfolding binary_type
  compared-Types c h =
      let (e, h1) =
        checked (type_eq (type_of k) (type_of s)) (type_of k ∷ type_of s ∷ []) (ok bool) h in
      subst (λ v. Types (binary t o l r) (binary v o k s)) (ok-injective h1)
        (compared c tk ts (same-eq (type_of k) (type_of s) hk e))

  shifted-Types :
      Shifts o
      → binary_type shift (type_of k) (type_of s) ≡ ok u
      → Types (binary t o l r) (binary u o k s)
  unfolding binary_type
  shifted-Types c h =
      let (p, h1) = checked (is_integer (type_of k)) (type_of k ∷ []) _ h in
      let (q, h2) =
        checked (is_unsigned_integer (type_of s)) (type_of s ∷ []) (ok (type_of k)) h1 in
      subst (λ v. Types (binary t o l r) (binary v o k s)) (ok-injective h2)
        (shifted c tk ts (integer-Integer (type_of k) hk p) (unsigned-Unsigned (type_of s) hs q))

  bitwise-Types :
      Combines o
      → binary_type bitwise (type_of k) (type_of s) ≡ ok u
      → Types (binary t o l r) (binary u o k s)
  unfolding binary_type
  bitwise-Types c h =
      let (p, h1) = checked (is_integer (type_of k)) (type_of k ∷ []) _ h in
      let (q, h2) = checked (is_integer (type_of s)) (type_of s ∷ []) _ h1 in
      let (e, h3) =
        checked (type_eq (type_of k) (type_of s)) (type_of k ∷ type_of s ∷ []) (ok (type_of k))
          h2 in
      subst (λ v. Types (binary t o l r) (binary v o k s)) (ok-injective h3)
        (combined c tk ts (integer-Integer (type_of k) hk p) (same-eq (type_of k) (type_of s) hk e))

  arithmetic-Types :
      Combines o
      → binary_type arithmetic (type_of k) (type_of s) ≡ ok u
      → Types (binary t o l r) (binary u o k s)
  unfolding binary_type
  arithmetic-Types c h =
      let (p, h1) = checked (is_numeric (type_of k)) (type_of k ∷ []) _ h in
      let (q, h2) = checked (is_numeric (type_of s)) (type_of s ∷ []) _ h1 in
      let (e, h3) =
        checked (type_eq (type_of k) (type_of s)) (type_of k ∷ type_of s ∷ []) (ok (type_of k))
          h2 in
      subst (λ v. Types (binary t o l r) (binary v o k s)) (ok-injective h3)
        (combined c tk ts (numeric-Integer (type_of k) hk p) (same-eq (type_of k) (type_of s) hk e))

binary-Types :
    (t u : FrontendType) (o : BinaryOperation) (l r k s : Expression)
    → Types l k
    → Types r s
    → HasIrType (type_of k)
    → HasIrType (type_of s)
    → binary_type (group o) (type_of k) (type_of s) ≡ ok u
    → Types (binary t o l r) (binary u o k s)
unfolding group binary_type
binary-Types t u logical_or l r k s a b c d h = cc
binary-Types t u logical_and l r k s a b c d h = cc
binary-Types t u equal l r k s a b c d h = compared-Types t u equal l r k s a b c d equal_compares h
binary-Types t u not_equal l r k s a b c d h =
    compared-Types t u not_equal l r k s a b c d not_equal_compares h
binary-Types t u less_than l r k s a b c d h =
    compared-Types t u less_than l r k s a b c d less_than_compares h
binary-Types t u less_than_or_equal l r k s a b c d h =
    compared-Types t u less_than_or_equal l r k s a b c d less_than_or_equal_compares h
binary-Types t u greater_than l r k s a b c d h =
    compared-Types t u greater_than l r k s a b c d greater_than_compares h
binary-Types t u greater_than_or_equal l r k s a b c d h =
    compared-Types t u greater_than_or_equal l r k s a b c d greater_than_or_equal_compares h
binary-Types t u bitwise_or l r k s a b c d h =
    bitwise-Types t u bitwise_or l r k s a b c d bitwise_or_combines h
binary-Types t u bitwise_xor l r k s a b c d h =
    bitwise-Types t u bitwise_xor l r k s a b c d bitwise_xor_combines h
binary-Types t u bitwise_and l r k s a b c d h =
    bitwise-Types t u bitwise_and l r k s a b c d bitwise_and_combines h
binary-Types t u shift_left l r k s a b c d h =
    shifted-Types t u shift_left l r k s a b c d shift_left_shifts h
binary-Types t u shift_right l r k s a b c d h =
    shifted-Types t u shift_right l r k s a b c d shift_right_shifts h
binary-Types t u add l r k s a b c d h = arithmetic-Types t u add l r k s a b c d add_combines h
binary-Types t u subtract l r k s a b c d h =
    arithmetic-Types t u subtract l r k s a b c d subtract_combines h
binary-Types t u multiply l r k s a b c d h =
    arithmetic-Types t u multiply l r k s a b c d multiply_combines h
binary-Types t u divide l r k s a b c d h =
    arithmetic-Types t u divide l r k s a b c d divide_combines h
binary-Types t u modulus l r k s a b c d h =
    arithmetic-Types t u modulus l r k s a b c d modulus_combines h

unary-Types :
    (t u : FrontendType) (o : UnaryOperation) (e k : Expression)
    → Types e k
    → HasIrType (type_of k)
    → unary_type o (type_of k) ≡ ok u
    → Types (unary t o e) (unary u o k)
unfolding unary_type
unary-Types t u logical_not e k a c h =
    let (b, h1) = checked (is_bool (type_of k)) (type_of k ∷ []) (ok (type_of k)) h in
    let same = bool-eq (type_of k) b in
    subst (λ v. Types (unary t logical_not e) (unary v logical_not k)) (sym same ∙ ok-injective h1)
      (inverted a same)
unary-Types t u bitwise_not e k a c h =
    let (p, h1) = checked (is_integer (type_of k)) (type_of k ∷ []) (ok (type_of k)) h in
    subst (λ v. Types (unary t bitwise_not e) (unary v bitwise_not k)) (ok-injective h1)
      (complemented a (integer-Integer (type_of k) c p))
unary-Types t u negation e k a c h =
    let (p, h1) = checked (is_numeric (type_of k)) (type_of k ∷ []) _ h in
    let (q, h2) =
      checked (not (is_unsigned_integer (type_of k))) (type_of k ∷ []) (ok (type_of k)) h1 in
    subst (λ v. Types (unary t negation e) (unary v negation k)) (ok-injective h2)
      (negated a (negated-Signed (type_of k) (numeric-Integer (type_of k) c p) q))

resolved-HasIrType :
    (e : Expression) {r : Expression}
    → IsClosed e
    → Resolve.resolve_type e ≡ ok r
    → HasIrType (type_of r)
resolved-HasIrType e {r} c h = Typed-HasIrType r (resolve_type-Typed e c h)

literal-Integer : (t : FrontendType) → is_integer t ≡ true → t ≢ unresolved_int → Integer t
unfolding is_integer
literal-Integer i8 h n = inl i8_signed
literal-Integer i16 h n = inl i16_signed
literal-Integer i32 h n = inl i32_signed
literal-Integer u8 h n = inr u8_unsigned
literal-Integer u16 h n = inr u16_unsigned
literal-Integer u32 h n = inr u32_unsigned
literal-Integer unresolved_int h n = absurd (n refl)
literal-Integer _ h n = cc

-- What resolution gives is by the rules.
pub resolve_type-Types :
    (e : Expression) {r : Expression} → IsClosed e → Resolve.resolve_type e ≡ ok r → Types e r
unfolding Resolve.resolve_type
resolve_type-Types (integer_literal t v) (i, n) h =
    subst (Types (integer_literal t v)) (ok-injective h) (literal (literal-Integer t i n))
resolve_type-Types (boolean_literal v) c h =
    subst (Types (boolean_literal v)) (ok-injective h) truth
resolve_type-Types (identifier t n s) c h = absurd c
resolve_type-Types (binary t o l r) (cl, cr) h =
    let (k, el, h1) = >>=-eq-ok (Resolve.resolve_type l) _ h in
    let (s, er, h2) = >>=-eq-ok (Resolve.resolve_type r) _ h1 in
    let (u, eu, h3) = >>=-eq-ok (binary_type (group o) (type_of k) (type_of s)) _ h2 in
    subst (Types (binary t o l r)) (ok-injective h3) (
      binary-Types t u o l r k s (resolve_type-Types l cl el) (resolve_type-Types r cr er)
        (resolved-HasIrType l cl el) (resolved-HasIrType r cr er) eu)
resolve_type-Types (unary t o e) c h =
    let (k, ee, h1) = >>=-eq-ok (Resolve.resolve_type e) _ h in
    let (u, eu, h2) = >>=-eq-ok (unary_type o (type_of k)) _ h1 in
    subst (Types (unary t o e)) (ok-injective h2)
      (unary-Types t u o e k (resolve_type-Types e c ee) (resolved-HasIrType e c ee) eu)
resolve_type-Types (call t e) c h = absurd c
