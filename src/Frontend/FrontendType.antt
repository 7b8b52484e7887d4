-- ===== src/Frontend/FrontendType.antt =====
-- `FrontendType` of frontend/FrontendType.cpp: a constructor for each variant. Only `unknown` carries a
-- name and only `function` a signature, the fields that the code reads.
pub mod Text
use sasc.Prelude.{Bool, true, false, ◌&&◌, String, if◌then◌else◌}
use sasc.Error.{internal, Result, ok, err, ◌>>=◌}
use sasc.Ir.IrType.{IrType}
use Prim.Native.String.{◌++◌ as str_append}
use text.Mathlib.Text.{◌==◌ as str_eq}

mutual
  pub data FrontendType : Type 0 where
    void bool u8 u16 u32 i8 i16 i32 : FrontendType
    unresolved unresolved_int unresolved_float : FrontendType
    unknown : String → FrontendType
    function : FrontendType → FrontendTypes → FrontendType

  pub data FrontendTypes : Type 0 where
    end : FrontendTypes
    param : FrontendType → FrontendTypes → FrontendTypes

unfoldable pub is_integer : FrontendType → Bool
is_integer i8 = true
is_integer i16 = true
is_integer i32 = true
is_integer u8 = true
is_integer u16 = true
is_integer u32 = true
is_integer unresolved_int = true
is_integer _ = false

unfoldable pub is_signed_integer : FrontendType → Bool
is_signed_integer i8 = true
is_signed_integer i16 = true
is_signed_integer i32 = true
is_signed_integer unresolved_int = true
is_signed_integer _ = false

unfoldable pub is_unsigned_integer : FrontendType → Bool
is_unsigned_integer u8 = true
is_unsigned_integer u16 = true
is_unsigned_integer u32 = true
is_unsigned_integer unresolved_int = true
is_unsigned_integer _ = false

unfoldable pub is_float : FrontendType → Bool
is_float unresolved_float = true
is_float _ = false

unfoldable pub is_numeric : FrontendType → Bool
is_numeric i8 = true
is_numeric i16 = true
is_numeric i32 = true
is_numeric u8 = true
is_numeric u16 = true
is_numeric u32 = true
is_numeric unresolved_int = true
is_numeric unresolved_float = true
is_numeric _ = false

unfoldable pub is_bool : FrontendType → Bool
is_bool bool = true
is_bool _ = false

unfoldable pub is_function : FrontendType → Bool
is_function (function _ _) = true
is_function _ = false

unfoldable pub return_type : FrontendType → Result FrontendType
return_type (function r _) = ok r
return_type _ = err internal

unfoldable pub param_types : FrontendType → Result FrontendTypes
param_types (function _ ps) = ok ps
param_types _ = err internal

-- `to_string` throws at a type that is not resolved; a signature's types are separated by commas.
unfoldable mutual
  pub to_string : FrontendType → Result String
  to_string void = ok "void"
  to_string bool = ok "bool"
  to_string i8 = ok "i8"
  to_string i16 = ok "i16"
  to_string i32 = ok "i32"
  to_string u8 = ok "u8"
  to_string u16 = ok "u16"
  to_string u32 = ok "u32"
  to_string (function r ps) = do
    s ← params_to_string true ps
    t ← to_string r
    ok (str_append "fn(" (str_append s (str_append ") -> " t)))
  to_string unresolved = err internal
  to_string unresolved_int = err internal
  to_string unresolved_float = err internal
  to_string (unknown _) = err internal

  -- The flag is `i == 0`.
  pub params_to_string : Bool → FrontendTypes → Result String
  params_to_string first end = ok ""
  params_to_string first (param t ts) = do
    s ← to_string t
    rest ← params_to_string false ts
    ok (str_append (if first then "" else ", ") (str_append s rest))

unfoldable pub from_string : String → FrontendType
from_string s =
    if str_eq s ""
    then unresolved
    else if str_eq s "void"
    then void
    else if str_eq s "bool"
    then bool
    else if str_eq s "u8"
    then u8
    else if str_eq s "u16"
    then u16
    else if str_eq s "u32"
    then u32
    else if str_eq s "i8"
    then i8
    else if str_eq s "i16"
    then i16
    else if str_eq s "i32"
    then i32
    else unknown ""

unfoldable pub resolve_type : FrontendType → Result IrType
resolve_type bool = ok IrType.bool
resolve_type i8 = ok IrType.i8
resolve_type i16 = ok IrType.i16
resolve_type i32 = ok IrType.i32
resolve_type u8 = ok IrType.u8
resolve_type u16 = ok IrType.u16
resolve_type u32 = ok IrType.u32
resolve_type _ = err internal

-- `operator==`.
unfoldable mutual
  pub type_eq : FrontendType → FrontendType → Bool
  type_eq void void = true
  type_eq bool bool = true
  type_eq u8 u8 = true
  type_eq u16 u16 = true
  type_eq u32 u32 = true
  type_eq i8 i8 = true
  type_eq i16 i16 = true
  type_eq i32 i32 = true
  type_eq unresolved unresolved = true
  type_eq unresolved_int unresolved_int = true
  type_eq unresolved_float unresolved_float = true
  type_eq (unknown n) (unknown m) = str_eq n m
  type_eq (function r ps) (function s qs) = type_eq r s && types_eq ps qs
  type_eq _ _ = false

  pub types_eq : FrontendTypes → FrontendTypes → Bool
  types_eq end end = true
  types_eq (param t ts) (param u us) = type_eq t u && types_eq ts us
  types_eq _ _ = false
