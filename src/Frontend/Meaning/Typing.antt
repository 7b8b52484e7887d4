-- ===== src/Frontend/Meaning/Typing.antt =====
-- What `resolve_type` of frontend/AST_semantics.cpp ensures of the tree that it returns.
use sasc.Prelude.{
  ℕ, ◌<◌, ◌≡◌, ◌≢◌, ◌⊎◌, inl, inr, refl, Bool, true, false, List, [], ◌∷◌, subst, sym, not, arith,
}
use sasc.Error.{Result, ok, ◌>>◌, >>=-eq-ok, ok-injective}
use sasc.Ir.IrType.{IrType}
use sasc.Frontend.FrontendType.{
  FrontendType, bool, is_integer, is_unsigned_integer, is_numeric, is_bool, type_eq, unresolved_int,
}
use sasc.Frontend.FrontendType
use sasc.Frontend.Ast.{
  BinaryOperation, UnaryOperation, logical_not, bitwise_not, negation, Expression, integer_literal,
  boolean_literal, identifier, binary, unary, call, type_of,
}
use sasc.Frontend.Resolve
use sasc.Frontend.Resolve.{
  Group, logical, comparison, bitwise, shift, arithmetic, group, binary_type, unary_type,
  throw_type_error, check,
}
use sasc.Frontend.Meaning.{cut, binary_value, unary_value, eval}

-- The type has a counterpart in the intermediate representation.
abbrev pub HasIrType : FrontendType → Type 0
HasIrType t = (s : IrType) × (FrontendType.resolve_type t ≡ ok s)

-- Literals carry an integer type of the IR, and there are no identifiers and no calls: the expressions
-- that IR is emitted for.
abbrev pub IsClosed : Expression → Type 0
IsClosed (integer_literal t v) = (is_integer t ≡ true) × (t ≢ unresolved_int)
IsClosed (boolean_literal v) = Unit
IsClosed (identifier _ _ _) = ⊥
IsClosed (binary _ _ l r) = IsClosed l × IsClosed r
IsClosed (unary _ _ e) = IsClosed e
IsClosed (call _ _) = ⊥

-- Every node carries the type that its operands' types determine.
abbrev pub Typed : Expression → Type 0
Typed (integer_literal t v) = (is_integer t ≡ true) × (t ≢ unresolved_int)
Typed (boolean_literal v) = Unit
Typed (identifier _ _ _) = ⊥
Typed (binary t o l r) = Typed l × Typed r × (binary_type (group o) (type_of l) (type_of r) ≡ ok t)
Typed (unary t o e) = Typed e × (unary_type o (type_of e) ≡ ok t)
Typed (call _ _) = ⊥

-- Where resolution succeeds, the tree that it returns is typed throughout.
pub resolve_type-Typed :
    (e : Expression) {r : Expression} → IsClosed e → Resolve.resolve_type e ≡ ok r → Typed r
unfolding Resolve.resolve_type
resolve_type-Typed (integer_literal t v) c h = subst Typed (ok-injective h) c
resolve_type-Typed (boolean_literal v) c h = subst Typed (ok-injective h) tt
resolve_type-Typed (identifier t n s) c h = absurd c
resolve_type-Typed (binary t o l r) (cl, cr) h =
    let (l', el, h1) = >>=-eq-ok (Resolve.resolve_type l) _ h in
    let (r', er, h2) = >>=-eq-ok (Resolve.resolve_type r) _ h1 in
    let (u, eu, h3) = >>=-eq-ok (binary_type (group o) (type_of l') (type_of r')) _ h2 in
    subst Typed (ok-injective h3) (resolve_type-Typed l cl el, resolve_type-Typed r cr er, eu)
resolve_type-Typed (unary t o e) c h =
    let (e', ee, h1) = >>=-eq-ok (Resolve.resolve_type e) _ h in
    let (u, eu, h2) = >>=-eq-ok (unary_type o (type_of e')) _ h1 in
    subst Typed (ok-injective h2) (resolve_type-Typed e c ee, eu)
resolve_type-Typed (call t e) c h = absurd c

integer_type : (t : FrontendType) → is_integer t ≡ true → t ≢ unresolved_int → HasIrType t
unfolding is_integer FrontendType.resolve_type
integer_type FrontendType.i8 h n = (IrType.i8, refl)
integer_type FrontendType.i16 h n = (IrType.i16, refl)
integer_type FrontendType.i32 h n = (IrType.i32, refl)
integer_type FrontendType.u8 h n = (IrType.u8, refl)
integer_type FrontendType.u16 h n = (IrType.u16, refl)
integer_type FrontendType.u32 h n = (IrType.u32, refl)
integer_type unresolved_int h n = absurd (n refl)
integer_type _ h n = cc

-- A failed check throws, so a passed one holds.
throw-ne-ok {ℓ} : {A : Type ℓ} (ts : List FrontendType) {a : A} → throw_type_error ts ≢ ok a
unfolding throw_type_error
throw-ne-ok [] h = cc
throw-ne-ok (t ∷ ts) h =
    let (s, e, k) = >>=-eq-ok (FrontendType.to_string t) _ h in throw-ne-ok ts k

pub checked {ℓ} :
    {A : Type ℓ} (b : Bool) (ts : List FrontendType) (k : Result A) {a : A}
    → (check b ts >> k) ≡ ok a
    → (b ≡ true) × (k ≡ ok a)
checked true ts k h = (refl, h)
checked false ts k h = absurd (throw-ne-ok ts (>>=-eq-ok (throw_type_error ts) _ h).1)

integer-not-bool : (t : FrontendType) → is_integer t ≡ true → is_bool t ≡ false
unfolding is_integer is_bool
integer-not-bool bool h = cc
integer-not-bool _ h = refl

numeric-not-bool : (t : FrontendType) → is_numeric t ≡ true → is_bool t ≡ false
unfolding is_numeric is_bool
numeric-not-bool bool h = cc
numeric-not-bool _ h = refl

-- A binary expression has the type of its left operand, or `bool` where it compares.
binary_type-cases :
    (g : Group) (l r : FrontendType) {t : FrontendType}
    → binary_type g l r ≡ ok t
    → ((g ≡ comparison) × (t ≡ bool)) ⊎ ((is_bool l ≡ false) × (t ≡ l))
unfolding binary_type
binary_type-cases logical l r h = cc
binary_type-cases comparison l r h =
    inl (refl, sym (ok-injective (checked (type_eq l r) (l ∷ r ∷ []) (ok bool) h).1))
binary_type-cases bitwise l r h =
    let (p, h1) = checked (is_integer l) (l ∷ []) _ h in
    let h2 = checked (is_integer r) (r ∷ []) _ h1 in
    let h3 = checked (type_eq l r) (l ∷ r ∷ []) (ok l) h2.1 in
    inr (integer-not-bool l p, sym (ok-injective h3.1))
binary_type-cases shift l r h =
    let (p, h1) = checked (is_integer l) (l ∷ []) _ h in
    let h2 = checked (is_unsigned_integer r) (r ∷ []) (ok l) h1 in
    inr (integer-not-bool l p, sym (ok-injective h2.1))
binary_type-cases arithmetic l r h =
    let (p, h1) = checked (is_numeric l) (l ∷ []) _ h in
    let h2 = checked (is_numeric r) (r ∷ []) _ h1 in
    let h3 = checked (type_eq l r) (l ∷ r ∷ []) (ok l) h2.1 in
    inr (numeric-not-bool l p, sym (ok-injective h3.1))

-- A unary expression has the type of its operand; `!` is for `bool` alone.
pub unary_type-cases :
    (o : UnaryOperation) (u : FrontendType) {t : FrontendType}
    → unary_type o u ≡ ok t
    → (t ≡ u) × ((is_bool u ≡ false) ⊎ (o ≡ logical_not))
unfolding unary_type
unary_type-cases logical_not u h =
    (sym (ok-injective (checked (is_bool u) (u ∷ []) (ok u) h).1), inr refl)
unary_type-cases bitwise_not u h =
    let (p, h1) = checked (is_integer u) (u ∷ []) (ok u) h in
    (sym (ok-injective h1), inl (integer-not-bool u p))
unary_type-cases negation u h =
    let (p, h1) = checked (is_numeric u) (u ∷ []) _ h in
    (
      sym (ok-injective (checked (not (is_unsigned_integer u)) (u ∷ []) (ok u) h1).1),
      inl (numeric-not-bool u p),
    )

pub logical_not-bool :
    (u : FrontendType) {t : FrontendType} → unary_type logical_not u ≡ ok t → is_bool u ≡ true
unfolding unary_type
logical_not-bool u h = (checked (is_bool u) (u ∷ []) (ok u) h).0

-- The type of a typed expression has a counterpart in the intermediate representation.
pub Typed-HasIrType : (e : Expression) → Typed e → HasIrType (type_of e)
unfolding type_of FrontendType.resolve_type
Typed-HasIrType (integer_literal t v) (i, n) = integer_type t i n
Typed-HasIrType (boolean_literal v) h = (IrType.bool, refl)
Typed-HasIrType (identifier t n s) h = absurd h
Typed-HasIrType (binary t o l r) (tl, tr, h) =
    elim (binary_type-cases (group o) (type_of l) (type_of r) h) [
      | inl (_, e) ↦ rw e (IrType.bool, refl)
      | inr (_, e) ↦ rw e (Typed-HasIrType l tl)
    ]
Typed-HasIrType (unary t o e) (te, h) =
    rw ((unary_type-cases o (type_of e) h).0) (Typed-HasIrType e te)
Typed-HasIrType (call t e) h = absurd h

cut-bool : (t : FrontendType) (x : ℕ) → is_bool t ≡ true → x < 2 → cut t x < 2
unfolding cut is_bool
cut-bool bool x h lt = omega arith
cut-bool _ x h lt = cc

comparison_value :
    (o : BinaryOperation) (t : FrontendType) (a b : ℕ)
    → group o ≡ comparison
    → binary_value o t a b < 2
unfolding group binary_value
comparison_value BinaryOperation.equal t a b h = ground arith
comparison_value BinaryOperation.not_equal t a b h = ground arith
comparison_value BinaryOperation.less_than t a b h = ground arith
comparison_value BinaryOperation.less_than_or_equal t a b h = ground arith
comparison_value BinaryOperation.greater_than t a b h = ground arith
comparison_value BinaryOperation.greater_than_or_equal t a b h = ground arith
comparison_value _ t a b h = cc

-- A value of type `bool` is 0 or 1.
pub eval-bool : (e : Expression) → Typed e → is_bool (type_of e) ≡ true → eval e < 2
unfolding type_of eval
eval-bool (integer_literal t v) (i, n) b = cc (integer-not-bool t i)
eval-bool (boolean_literal v) h b = ground arith
eval-bool (identifier t n s) h b = absurd h
eval-bool (binary t o l r) (tl, tr, h) b =
    elim (binary_type-cases (group o) (type_of l) (type_of r) h) [
      | inl (g, e) ↦ cut-bool t _ b (comparison_value o (type_of l) (eval l) (eval r) g)
      | inr (p, e) ↦ cc (rw e at b)
    ]
eval-bool (unary t o e) (te, h) b =
    let (q, cases) = unary_type-cases o (type_of e) h in
    elim cases [
      | inl p ↦ cc (rw q at b)
      | inr p ↦ cut-bool t _ b (rw (p, unary_value) (ground arith))
    ]
eval-bool (call t e) h b = absurd h
