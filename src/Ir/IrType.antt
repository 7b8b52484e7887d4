-- ===== src/Ir/IrType.antt =====
-- The types of ir/IrType.cpp.
use sasc.Prelude.{ℕ, Bool, true, false, String}

pub data IrType : Type 0 where
  bool u8 u16 u32 i8 i16 i32 : IrType

pub IrType-discrete : Discrete IrType
IrType-discrete = hlevel

-- The size in bytes.
unfoldable pub get_size : IrType → ℕ
get_size bool = 1
get_size u8 = 1
get_size u16 = 2
get_size u32 = 4
get_size i8 = 1
get_size i16 = 2
get_size i32 = 4

-- The last case stands behind the switch.
unfoldable pub get_alignment : IrType → ℕ
get_alignment bool = 1
get_alignment u8 = 1
get_alignment u16 = 2
get_alignment i8 = 1
get_alignment i16 = 2
get_alignment _ = 4

unfoldable pub is_signed : IrType → Bool
is_signed i8 = true
is_signed i16 = true
is_signed i32 = true
is_signed bool = false
is_signed u8 = false
is_signed u16 = false
is_signed u32 = false

unfoldable pub to_string : IrType → String
to_string bool = "bool"
to_string u8 = "u8"
to_string u16 = "u16"
to_string u32 = "u32"
to_string i8 = "i8"
to_string i16 = "i16"
to_string i32 = "i32"

-- `variant == variant`, as a table.
unfoldable pub same_variant : IrType → IrType → Bool
same_variant bool bool = true
same_variant u8 u8 = true
same_variant u16 u16 = true
same_variant u32 u32 = true
same_variant i8 i8 = true
same_variant i16 i16 = true
same_variant i32 i32 = true
same_variant _ _ = false
