-- ===== src/Main.antt =====
-- main.cpp: the arguments of the command line, the `--emit` values, the settings made of them, and the
-- exit code. `std::filesystem::path::replace_extension` is a parameter; the log and the text of error
-- messages are left out.
pub mod Emit
pub mod Arguments
pub mod Ciderc
pub mod Runs
pub mod Values
mod Tests
