-- ===== src/Frontend/EmitIr/Values.antt =====
-- The opcodes that the emitter chooses mean what the operators of the source mean.
use sasc.Prelude.{ℕ, ◌<◌, ◌≡◌, refl, sym, true, some, ◌==◌, arith, bit_xor}
use sasc.Prelude.Words.{bool_word}
use sasc.Error.{ok, ok-injective}
use sasc.Ir.IrType.{IrType, is_signed}
use sasc.Ir.Defs.{Op}
use sasc.Ir.Value.{canonical, op_value}
use sasc.Frontend.FrontendType.{FrontendType, is_signed_integer, is_bool}
use sasc.Frontend.FrontendType
use sasc.Frontend.Ast.{BinaryOperation}
use sasc.Frontend.Resolve.{group, binary_type}
use sasc.Frontend.EmitIr.{op_code}
use sasc.Frontend.Meaning.{cut, binary_value}

pub is_signed-resolve_type :
    (t : FrontendType) {s : IrType}
    → FrontendType.resolve_type t ≡ ok s
    → is_signed s ≡ is_signed_integer t
unfolding FrontendType.resolve_type is_signed is_signed_integer
is_signed-resolve_type FrontendType.bool h = cc
is_signed-resolve_type FrontendType.i8 h = cc
is_signed-resolve_type FrontendType.i16 h = cc
is_signed-resolve_type FrontendType.i32 h = cc
is_signed-resolve_type FrontendType.u8 h = cc
is_signed-resolve_type FrontendType.u16 h = cc
is_signed-resolve_type FrontendType.u32 h = cc
is_signed-resolve_type _ h = cc

-- Every operator but `&&` and `||`, which do not pass type resolution, has an opcode.
pub op_code-total :
    (o : BinaryOperation) (l r : FrontendType) {t : FrontendType}
    → binary_type (group o) l r ≡ ok t
    → (op : Op) × (op_code o ≡ ok op)
unfolding binary_type group op_code
op_code-total BinaryOperation.logical_or l r h = cc
op_code-total BinaryOperation.logical_and l r h = cc
op_code-total BinaryOperation.equal l r h = (Op.cmp_eq, refl)
op_code-total BinaryOperation.not_equal l r h = (Op.cmp_ne, refl)
op_code-total BinaryOperation.less_than l r h = (Op.cmp_lt, refl)
op_code-total BinaryOperation.less_than_or_equal l r h = (Op.cmp_lte, refl)
op_code-total BinaryOperation.greater_than l r h = (Op.cmp_gt, refl)
op_code-total BinaryOperation.greater_than_or_equal l r h = (Op.cmp_gte, refl)
op_code-total BinaryOperation.bitwise_or l r h = (Op.bit_or, refl)
op_code-total BinaryOperation.bitwise_xor l r h = (Op.bit_xor, refl)
op_code-total BinaryOperation.bitwise_and l r h = (Op.bit_and, refl)
op_code-total BinaryOperation.shift_left l r h = (Op.bit_shl, refl)
op_code-total BinaryOperation.shift_right l r h = (Op.bit_shr, refl)
op_code-total BinaryOperation.add l r h = (Op.add, refl)
op_code-total BinaryOperation.subtract l r h = (Op.sub, refl)
op_code-total BinaryOperation.multiply l r h = (Op.mul, refl)
op_code-total BinaryOperation.divide l r h = (Op.div, refl)
op_code-total BinaryOperation.modulus l r h = (Op.rem, refl)

-- The opcode on operands of the IR's type computes the operator on operands of the source's type.
pub op_value-op_code :
    (o : BinaryOperation) (t : FrontendType) (op : Op) (s : IrType) (a b i : ℕ)
    → op_code o ≡ ok op
    → FrontendType.resolve_type t ≡ ok s
    → op_value op s a b i ≡ some (binary_value o t a b)
unfolding op_code op_value binary_value
op_value-op_code BinaryOperation.logical_or t op s a b i h e = cc
op_value-op_code BinaryOperation.logical_and t op s a b i h e = cc
op_value-op_code BinaryOperation.equal t op s a b i h e = rw (sym (ok-injective h)) refl
op_value-op_code BinaryOperation.not_equal t op s a b i h e = rw (sym (ok-injective h)) refl
op_value-op_code BinaryOperation.bitwise_or t op s a b i h e = rw (sym (ok-injective h)) refl
op_value-op_code BinaryOperation.bitwise_xor t op s a b i h e = rw (sym (ok-injective h)) refl
op_value-op_code BinaryOperation.bitwise_and t op s a b i h e = rw (sym (ok-injective h)) refl
op_value-op_code BinaryOperation.shift_left t op s a b i h e = rw (sym (ok-injective h)) refl
op_value-op_code BinaryOperation.add t op s a b i h e = rw (sym (ok-injective h)) refl
op_value-op_code BinaryOperation.subtract t op s a b i h e = rw (sym (ok-injective h)) refl
op_value-op_code BinaryOperation.multiply t op s a b i h e = rw (sym (ok-injective h)) refl
op_value-op_code BinaryOperation.less_than t op s a b i h e =
    rw (sym (ok-injective h), is_signed-resolve_type t e) refl
op_value-op_code BinaryOperation.less_than_or_equal t op s a b i h e =
    rw (sym (ok-injective h), is_signed-resolve_type t e) refl
op_value-op_code BinaryOperation.greater_than t op s a b i h e =
    rw (sym (ok-injective h), is_signed-resolve_type t e) refl
op_value-op_code BinaryOperation.greater_than_or_equal t op s a b i h e =
    rw (sym (ok-injective h), is_signed-resolve_type t e) refl
op_value-op_code BinaryOperation.shift_right t op s a b i h e =
    rw (sym (ok-injective h), is_signed-resolve_type t e) refl
op_value-op_code BinaryOperation.divide t op s a b i h e =
    rw (sym (ok-injective h), is_signed-resolve_type t e) refl
op_value-op_code BinaryOperation.modulus t op s a b i h e =
    rw (sym (ok-injective h), is_signed-resolve_type t e) refl

-- `!` is an exclusive or with 1, on operands that are 0 or 1.
pub bit_xor-one : (a : ℕ) → a < 2 → bit_xor a 1 ≡ bool_word (a == 0)
bit_xor-one ℕ.zero h = refl
bit_xor-one (ℕ.suc ℕ.zero) h = refl
bit_xor-one (ℕ.suc (ℕ.suc a)) h = absurd (omega arith)

pub bool-resolve_type :
    (t : FrontendType) {s : IrType}
    → is_bool t ≡ true
    → FrontendType.resolve_type t ≡ ok s
    → s ≡ IrType.bool
unfolding is_bool FrontendType.resolve_type
bool-resolve_type FrontendType.bool b h = cc
bool-resolve_type _ b h = cc

pub cut-canonical :
    (t : FrontendType) {s : IrType} (x : ℕ)
    → FrontendType.resolve_type t ≡ ok s
    → cut t x ≡ canonical s x
unfolding cut
cut-canonical t x h = rw (h, cut) refl
