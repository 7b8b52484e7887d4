-- ===== src/Frontend/FrontendType/Text.antt =====
-- The names of types, in frontend/FrontendType.cpp.
use sasc.Prelude.{◌≡◌, refl, subst, false, String}
use sasc.Error.{ok, ok-injective}
use sasc.Frontend.FrontendType.{
  FrontendType, void, bool, u8, u16, u32, i8, i16, i32, function, is_function, from_string,
  to_string,
}

-- A type that prints, and is no function type, is read back from its name.
pub from_string-to_string :
    (t : FrontendType) {s : String} → is_function t ≡ false → to_string t ≡ ok s → from_string s ≡ t
unfolding is_function from_string to_string
from_string-to_string void f h = subst (λ s. from_string s ≡ void) (ok-injective h) refl
from_string-to_string bool f h = subst (λ s. from_string s ≡ bool) (ok-injective h) refl
from_string-to_string u8 f h = subst (λ s. from_string s ≡ u8) (ok-injective h) refl
from_string-to_string u16 f h = subst (λ s. from_string s ≡ u16) (ok-injective h) refl
from_string-to_string u32 f h = subst (λ s. from_string s ≡ u32) (ok-injective h) refl
from_string-to_string i8 f h = subst (λ s. from_string s ≡ i8) (ok-injective h) refl
from_string-to_string i16 f h = subst (λ s. from_string s ≡ i16) (ok-injective h) refl
from_string-to_string i32 f h = subst (λ s. from_string s ≡ i32) (ok-injective h) refl
from_string-to_string (function r ps) f h = cc
from_string-to_string _ f h = cc
