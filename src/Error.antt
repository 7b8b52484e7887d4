-- ===== src/Error.antt =====
-- The exceptions of utils/error.cpp as values. The text of a message and its source location are left
-- out; `uncaught` is an exception of the C++ library, such as `std::out_of_range`.
use sasc.Prelude.{ℕ, ◌≡◌, refl, ◌⊎◌, inl, inr}

pub data Error : Type 0 where
  syntax_error name_error type_error semantic_error : Error
  unsupported file_io_error unimplemented internal uncaught : Error

-- What a function that may throw returns.
pub data Result {ℓ} (B : Type ℓ) : Type ℓ where
  err : Error → Result B
  ok : B → Result B

infixl 5 ◌>>=◌ ◌>>◌
abbrev pub ◌>>=◌ {ℓ κ} :
    {B : Type ℓ} {C : Type κ} (thrown : Result B) (rest : B → Result C) → Result C
err e >>= rest = err e
ok b >>= rest = rest b

-- The process's exit status, `ExitCode` of utils/common.hpp.
unfoldable pub exit_code : Error → ℕ
exit_code syntax_error = 0x1
exit_code name_error = 0x2
exit_code type_error = 0x3
exit_code semantic_error = 0x4
exit_code unsupported = 0x10
exit_code file_io_error = 0xe0
exit_code unimplemented = 0xfd
exit_code internal = 0xfe
exit_code uncaught = 0xff

abbrev pub ◌>>◌ {κ} : {C : Type κ} (first : Result (Unit {0})) (rest : Result C) → Result C
first >> rest = first >>= λ _. rest

pub >>=-eq-ok {ℓ κ} :
    {B : Type ℓ} {C : Type κ} (thrown : Result B) (rest : B → Result C) {c : C}
    → (thrown >>= rest) ≡ ok c
    → (b : B) × (thrown ≡ ok b) × (rest b ≡ ok c)
>>=-eq-ok (err e) rest returned = cc
>>=-eq-ok (ok b) rest returned = (b, refl, returned)

pub Result-cases {ℓ} :
    {A : Type ℓ} (r : Result A) → ((a : A) × (r ≡ ok a)) ⊎ ((e : Error) × (r ≡ err e))
Result-cases (ok a) = inl (a, refl)
Result-cases (err e) = inr (e, refl)

pub ok-injective {ℓ} : {A : Type ℓ} {a b : A} → ok a ≡ ok b → a ≡ b
ok-injective h = cc
