-- ===== src/Frontend/Parser/Print/Literal.antt =====
-- The text of integer literals in `try_parse_integer_literal` of frontend/Parser.cpp.
use sasc.Prelude.{
  ℕ, zero, suc, ◌+◌, ◌^◌, ◌/◌, ◌%◌, ◌<◌, ◌≡◌, ◌≢◌, refl, ◌∙◌, true, List, [], ◌∷◌, arith, ltb, ap,
  inl, inr, Bool-cases, ltb→lt,
}
use native.Mathlib.Decide.{dec_lt}
use sasc.Error.{ok}
use sasc.Frontend.FrontendType.{FrontendType, is_integer, from_string}
use sasc.Frontend.Ast.{integer_literal}
use sasc.Frontend.Token.{text, chars, is_numeric}
use sasc.Frontend.Parser.Literal.{
  split_base, split_digits, read_digits, stoll, typed_literal, literal_of,
}
use sasc.Frontend.Parser.Print.{digit, digits, literal_text}
use Prim.Native.Char.{Char, code}

code-digit : (d : ℕ) → d < 10 → code (digit d) ≡ 48 + d
unfolding digit
code-digit zero h = refl
code-digit (suc zero) h = refl
code-digit (suc (suc zero)) h = refl
code-digit (suc (suc (suc zero))) h = refl
code-digit (suc (suc (suc (suc zero)))) h = refl
code-digit (suc (suc (suc (suc (suc zero))))) h = refl
code-digit (suc (suc (suc (suc (suc (suc zero)))))) h = refl
code-digit (suc (suc (suc (suc (suc (suc (suc zero))))))) h = refl
code-digit (suc (suc (suc (suc (suc (suc (suc (suc zero)))))))) h = refl
code-digit (suc (suc (suc (suc (suc (suc (suc (suc (suc zero))))))))) h = refl
code-digit (suc (suc (suc (suc (suc (suc (suc (suc (suc (suc d)))))))))) h = absurd (omega arith)

read_digits-digits :
    (f n : ℕ) (cs : List Char) → n < 10 ^ f → read_digits 10 0 (digits f n cs) ≡ read_digits 10 n cs
unfolding digits read_digits
read_digits-digits zero n cs h = ap (λ m. read_digits 10 m cs) (omega arith)
read_digits-digits (suc f) n cs h = elim (dec_lt n 10) [
  | yes b ↦ let e = code-digit n b in ground arith
  | no b ↦
      let e = code-digit (n % 10) (omega arith) in
      let ih = read_digits-digits f (n / 10) (digit (n % 10) ∷ cs) (omega arith) in ground arith
]

-- The digits go in front of the digits that the text begins with.
split_digits-digits :
    (f n : ℕ) (cs ds rest : List Char)
    → split_digits cs ≡ (ds, rest)
    → split_digits (digits f n cs) ≡ (digits f n ds, rest)
unfolding digits split_digits is_numeric
split_digits-digits zero n cs ds rest h = h
split_digits-digits (suc f) n cs ds rest h = elim (dec_lt n 10) [
  | yes b ↦ let e = code-digit n b in ground arith
  | no b ↦
      let e = code-digit (n % 10) (omega arith) in
      let ih =
        split_digits-digits f (n / 10) (digit (n % 10) ∷ cs) (digit (n % 10) ∷ ds) rest
          (ground arith) in
      ground arith
]

-- The text does not begin with the second character of a prefix.
abbrev NoBase : List Char → Type 0
NoBase [] = Unit
NoBase (c ∷ cs) = (code c ≢ b'b') × (code c ≢ b'o') × (code c ≢ b'x')

-- A number's text begins with a digit, and with no prefix of a base.
abbrev DigitFirst : List Char → Type 0
DigitFirst [] = ⊥
DigitFirst (c ∷ cs) = (code c < 58) × NoBase cs

digit-DigitFirst : (d : ℕ) (cs : List Char) → d < 10 → NoBase cs → DigitFirst (digit d ∷ cs)
digit-DigitFirst d cs h n = (omega (arith, code-digit d h), n)

digits-DigitFirst : (f n : ℕ) (cs : List Char) → DigitFirst cs → DigitFirst (digits f n cs)
unfolding digits
digits-DigitFirst zero n cs h = h
digits-DigitFirst (suc f) n [] h = absurd h
digits-DigitFirst (suc f) n (c ∷ cs) (b, k) = elim (Bool-cases (ltb n 10)) [
  | inl e ↦ rw e (
      digit-DigitFirst n (c ∷ cs) (ltb→lt n 10 e)
        (λ z. omega arith, λ z. omega arith, λ z. omega arith))
  | inr e ↦ rw e (
      digits-DigitFirst f (n / 10) (digit (n % 10) ∷ c ∷ cs) (
        digit-DigitFirst (n % 10) (c ∷ cs) (omega arith)
          (λ z. omega arith, λ z. omega arith, λ z. omega arith)))
]

number-DigitFirst : (f n : ℕ) (cs : List Char) → NoBase cs → DigitFirst (digits (suc f) n cs)
unfolding digits
number-DigitFirst f n cs h = elim (Bool-cases (ltb n 10)) [
  | inl e ↦ rw e (digit-DigitFirst n cs (ltb→lt n 10 e) h)
  | inr e ↦ rw e (
      digits-DigitFirst f (n / 10) (digit (n % 10) ∷ cs)
        (digit-DigitFirst (n % 10) cs (omega arith) h))
]

split_base-DigitFirst : (cs : List Char) → DigitFirst cs → split_base cs ≡ (10, cs)
unfolding split_base
split_base-DigitFirst [] h = absurd h
split_base-DigitFirst (c ∷ []) h = refl
split_base-DigitFirst (c ∷ d ∷ cs) (b, k) = ground arith

stoll-digits : (n : ℕ) → n < 2 ^ 32 → stoll 10 (digits 10 n []) ≡ ok n
unfolding stoll read_digits
stoll-digits n h =
    stoll_first (digits 10 n []) (number-DigitFirst 9 n [] tt)
      (read_digits-digits 10 n [] (omega arith))
  where
    stoll_first :
        (cs : List Char)
        → DigitFirst cs
        → read_digits 10 0 cs ≡ read_digits 10 n []
        → stoll 10 cs ≡ ok n
    stoll_first [] b e = absurd b
    stoll_first (c ∷ cs) (b, _) e = ground arith

module _ (t : FrontendType) (v : ℕ) (cs : List Char) (base : NoBase cs)
    (letters : split_digits cs ≡ ([], cs)) (named : from_string (text cs) ≡ t)
    (integer : is_integer t ≡ true) (room : v < 2 ^ 32) where
  typed : typed_literal 10 (digits 10 v [], cs) ≡ ok (integer_literal t v)
  unfolding typed_literal
  typed =
      let small : v % 2 ^ 32 ≡ v = omega arith in
      rw (named, integer, stoll-digits v room) (ap2_literal named small)
    where
      ap2_literal :
          {a : FrontendType} {b : ℕ}
          → a ≡ t
          → b ≡ v
          → ok (integer_literal a b) ≡ ok (integer_literal t v)
      ap2_literal p q = cc

  literal_of-number : literal_of (digits 10 v cs) ≡ ok (integer_literal t v)
  unfolding literal_of
  literal_of-number =
      number_of (digits 10 v cs) (number-DigitFirst 9 v cs base)
        (split_digits-digits 10 v cs [] cs letters)
    where
      number_of :
          (ds : List Char)
          → DigitFirst ds
          → split_digits ds ≡ (digits 10 v [], cs)
          → literal_of ds ≡ ok (integer_literal t v)
      number_of [] b e = absurd b
      number_of (c ∷ ds) b e =
          ap (λ (r : ℕ × List Char). typed_literal r.0 (split_digits r.1))
            (split_base-DigitFirst (c ∷ ds) b)
          ∙ ap (typed_literal 10) e
          ∙ typed

-- The parser reads a literal back from its decimal text with its type behind it, for every sized integer
-- type and every value of 32 bits.
pub literal_of-literal_text :
    (t : FrontendType) (v : ℕ)
    → is_integer t ≡ true
    → t ≢ FrontendType.unresolved_int
    → v < 2 ^ 32
    → literal_of (literal_text t v) ≡ ok (integer_literal t v)
unfolding literal_text from_string split_digits is_numeric is_integer
literal_of-literal_text FrontendType.i8 v h n l =
    literal_of-number FrontendType.i8 v (chars "i8") (omega arith) refl refl refl l
literal_of-literal_text FrontendType.i16 v h n l =
    literal_of-number FrontendType.i16 v (chars "i16") (omega arith) refl refl refl l
literal_of-literal_text FrontendType.i32 v h n l =
    literal_of-number FrontendType.i32 v (chars "i32") (omega arith) refl refl refl l
literal_of-literal_text FrontendType.u8 v h n l =
    literal_of-number FrontendType.u8 v (chars "u8") (omega arith) refl refl refl l
literal_of-literal_text FrontendType.u16 v h n l =
    literal_of-number FrontendType.u16 v (chars "u16") (omega arith) refl refl refl l
literal_of-literal_text FrontendType.u32 v h n l =
    literal_of-number FrontendType.u32 v (chars "u32") (omega arith) refl refl refl l
literal_of-literal_text FrontendType.unresolved_int v h n l = absurd (n refl)
literal_of-literal_text _ v h n l = cc
