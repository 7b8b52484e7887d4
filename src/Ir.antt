-- ===== src/Ir.antt =====
-- The intermediate representation of src/ir: types, instructions and functions, and the writer.
pub mod IrType
pub mod Defs
pub mod Writer
pub mod Value
pub mod Printer
