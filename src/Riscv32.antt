-- ===== src/Riscv32.antt =====
-- The RV32 code generator of src/backend/codegen/riscv, from the registers up.
pub mod Register
pub mod Encode
pub mod Code
pub mod Isa
pub mod Decode
pub mod Steps
pub mod Alloc
pub mod Truncate
pub mod Lower
pub mod LoadImm
pub mod Backpatch
pub mod Function
pub mod Runtime
mod Tests
