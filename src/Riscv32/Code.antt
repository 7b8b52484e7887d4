-- ===== src/Riscv32/Code.antt =====
-- The instruction buffer of CodeGenerator_riscv32.cpp and its `write_*` functions, each of which
-- appends one encoded instruction and returns its position.
mod Buffer
mod RType
mod IType
mod Memory
mod Control
unfoldable pub use Buffer.*
unfoldable pub use RType.*
unfoldable pub use IType.*
unfoldable pub use Memory.*
unfoldable pub use Control.*
