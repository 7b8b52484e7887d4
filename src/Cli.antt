-- ===== src/Cli.antt =====
-- The command line: utils/CliParser.hpp and utils/CliParser.cpp, and the parts of main.cpp that read it.
mod Tests
pub mod Text
pub mod Arg
pub mod Register
pub mod Parse
pub mod Help
pub mod Actions
pub mod Names
pub mod Spelling
pub mod Loop
pub mod Values
pub mod Results
pub mod Accepts
pub mod Usage
pub mod HelpRequested
pub mod Repeats
pub mod Refuses
pub mod Split
pub mod Taken
