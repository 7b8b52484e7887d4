-- ===== src/Lib.antt =====
-- The compiler of the Cider language: the command line is parsed into settings; a source file
-- is lexed and parsed into a syntax tree, the tree is analysed, written as an intermediate
-- representation (IR), lowered to RV32IM machine code, and put into an ELF file.
--
-- What is modelled, by file:
-- - Error: `CompilerError` and its exit codes (src/utils/error.cpp).
-- - Ir/IrType, Ir/Defs: the types and structures of the IR (src/ir/IrType.cpp, src/ir/IR.hpp,
--   src/ir/IR.cpp).
-- - Ir/Writer: `IrWriter` (src/ir/IrWriter.cpp), a function on the writer's state for each
--   operation.
-- - Ir/Printer, Ir/Printer/Object: the text of an object and the traversal of a function's
--   blocks (src/ir/IrPrinter.cpp), for any successors of the blocks.
-- - Frontend/Token, Frontend/Lexer: the tokens and `Lexer` (src/frontend/Lexer.cpp,
--   src/frontend/Lexer.hpp, src/utils/common.cpp), a function on the lexer's state for each of
--   its operations and loops.
-- - Frontend/Parser/Stream, Frontend/Parser/Literal, Frontend/Parser/Operators,
--   Frontend/Parser/Expr, Frontend/Parser: the parser (src/frontend/Parser.cpp), a function for
--   each `try_parse_` function, and the loop of the constructor of `AST` (`parse`, `build`,
--   `build_source`).
-- - Frontend/FrontendType: `FrontendType` (src/frontend/FrontendType.cpp).
-- - Frontend/Ast, Frontend/Symbols: the tree and the symbol scopes (src/frontend/AST.hpp,
--   src/frontend/AST.cpp).
-- - Frontend/Symbols, Frontend/Resolve, Frontend/Check: `resolve_symbols`, `resolve_type` and
--   `check_semantics` (src/frontend/AST_semantics.cpp), and their order in the constructor of
--   `AST` (`analyse`).
-- - Frontend/EmitIr: `emit_ir` (src/frontend/AST_emitIr.cpp) and `AST::emit_ir`.
-- - Riscv32/Register, Riscv32/Encode, Riscv32/Code: registers, the five instruction formats,
--   and the code buffer with its writers (src/backend/codegen/riscv/CodeGenerator_riscv32.cpp,
--   as the files below).
-- - Riscv32/Alloc, Riscv32/Lower: register slots, spilling and reloading, and the lowering of
--   every opcode and of blocks.
-- - Riscv32/Backpatch, Riscv32/Function: backpatching, `lower_function`, `lower_ir`,
--   `build_runtime_code`, and the part of `compile` (src/compile.cpp) that puts the start-up
--   code in front.
-- - Elf: the file that `ObjectWriter_ELF32` writes
--   (src/backend/objwriter/elf/ObjectWriter_ELF32.cpp) and the supported targets
--   (src/backend/Target.cpp).
-- - Frontend/AstPrint: the text of a tree (src/frontend/AST_print.cpp), without source
--   locations.
-- - Compile: the pipeline of `compile` (src/compile.cpp) from the text of the source to the
--   bytes of the executable.
-- - Compile/Settings, Compile/Stages: `CompileSettings` (src/compile.hpp) and `compile` with
--   them: the files it opens, the artifacts it writes and the stage at which it stops.
-- - Cli/Text, Cli/Arg, Cli/Register, Cli/Parse, Cli/Help: the parser of the command line
--   (src/utils/CliParser.hpp, src/utils/CliParser.cpp): its arguments, their registration,
--   `parse` with a function for each lambda and loop, and `help_text`.
-- - Main/Emit, Main/Arguments, Main/Ciderc: `main` (src/main.cpp): the `--emit` values, the
--   arguments it registers, the settings and the exit code.
--
-- What is specification, written independently of the code:
-- - Cli/Actions: what a command line says, and the ways to spell it; Cli/Values, Cli/Results,
--   Cli/Accepts: the values that each argument receives (`received`, `outcome`) and the request
--   for help (`asks_help`).
-- - Main/Values, Main/Runs: the first value for a kind (`first_given`), and the process for a
--   compilation (`process_for`).
-- - Ir/Value: the value of an instruction, and `run_ir` for a list of them.
-- - Ir/Printer/Reachable: where a terminator leads (`edges`) and the blocks that can be reached
--   (`Reaches`), with the traversal.
-- - Frontend/Meaning: the value of a typed expression; Frontend/Meaning/Rules: the typing rules
--   (`Types`).
-- - Frontend/Lexer/Words: the token that a word spells (`Spells`), with the lexing of words.
-- - Frontend/Parser/Print: trees written as tokens. Chains of multiplications and of additions
--   that group to the left stand without parentheses, and so does an operand that binds tighter
--   than its operator, or a unary expression under a unary operator; other operands are in
--   parentheses, as the code's one-operator levels need them.
-- - Elf/Load: a loader, which reads the entry point and the segments of a file by its header.
-- - Riscv32/Isa: the decoder and the semantics of RV32IM instructions; a hart is its program
--   counter, registers and memory, and `run` takes a list of instructions one after the other.
--
-- The remaining files hold proofs: Ir/Writer/Laws, Frontend/Lexer/Reads, Frontend/Lexer/Ends,
-- Frontend/Lexer/Loops, Frontend/Lexer/Peek, Frontend/Parser/Safe and its children, the
-- children of Frontend/Parser/Print, Frontend/Parser/Quirks, Frontend/FrontendType/Text,
-- Frontend/Meaning/Typing, the children of Frontend/Meaning/Rules, Ir/Value/Runs,
-- Ir/Printer/Seen, the children of Frontend/EmitIr, Frontend/Accepted, Frontend/ImplicitReturn,
-- Riscv32/Encode/Fields, Riscv32/Decode and its children, Riscv32/Steps, Riscv32/Truncate,
-- Riscv32/LoadImm, Riscv32/Alloc/Slots, Riscv32/Alloc/Eviction, Riscv32/Isa/Memory,
-- Riscv32/Function/Frame, Riscv32/Function/Enter, Riscv32/Function/Return,
-- Riscv32/Backpatch/Reach, Riscv32/Runtime, Compile/Loads, Compile/Order, Compile/Artifacts,
-- Cli/Names, Cli/Spelling, Cli/Loop, Cli/Usage, Cli/HelpRequested, Cli/Repeats, Cli/Refuses,
-- Cli/Split and Cli/Taken. Tests and runs at concrete inputs are in Cli/Tests, Main/Tests,
-- Ir/Printer/Tests, Frontend/AstPrint/Tests, Frontend/Tests, Frontend/Lexer/Tests,
-- Frontend/Parser/Tests, Frontend/Parser/Print/Tests, Elf/Tests, Compile/Tests, Riscv32/Tests
-- and Riscv32/Function/Tests.
--
-- How state is modelled. The lexer is a record of what the stream still holds, the position and
-- the token peeked at; a character is a byte, and the end of the input reads as the byte 255,
-- as the code's conversion to `char` has it. The parser works on the tokens that successive
-- calls of `take` give (`tokens`), which may end or run into a loop of the lexer.
-- Frontend/Outcome has what a loop ends in: a value, an exception, or no end within the fuel.
-- The writer is a record that each operation returns anew; the current function is kept beside
-- the finished ones, and a block is a place in its function's list. The generator is a record
-- under a state monad with errors; a slot is a place in the array. A pointer to an argument of
-- the command line is its position among the parser's arguments. What `compile` does to the
-- world is the list of its events, and `main` gives these with the exit code. A code buffer is
-- the list of its instructions, each a word with its format. Exceptions are values of `Error`.
-- Machine integers are natural numbers with the wrap-around written out: 32 bits for words,
-- registers and ids, 64 for `size_t`.
--
-- Bounds. The loops of the lexer and the parser and the parser's recursion run on fuel. For a
-- source of whole lines, one more than its characters is enough for lexing, parsing and
-- analysis to come to an end. The traversal of blocks for printing runs on three times the
-- number of blocks and two, which is enough. Elsewhere no definition runs on fuel: trees and
-- lists are structural recursion, and the generator's traversal of blocks visits each of its
-- stack once, since no terminator that it lowers has successors. A frame is assumed to be below
-- 2 ^ 31 bytes. A shift instruction of the IR takes the low five bits of its count.
--
-- A block without a terminator. The kind of a terminator is not initialised (src/ir/IR.hpp),
-- and `lower_function` switches on it where a function ends without a return. That has no
-- defined behaviour; here the kind is absent (`none`) and lowering ends in the error
-- `uncaught`, so that `compile` and `main` fail on such a program. The functions of an object
-- are in an unordered map in the code; here they are lowered and linked in the order in which
-- they were added, one of the orders that the map may have.
--
-- Parameters: which files open for writing, what a file that opens for reading holds once
-- others were opened for writing (the textual outputs are opened before the input is read, and
-- the input may be one of them), and `replace_extension` of `std::filesystem::path`.
--
-- Not modelled: logging, and what stands on a stream when printing throws; `elf.h`, a copy of
-- the C library's header, is taken for the layout of its two structures; messages of errors
-- (but for the text of tokens, which may throw) and source locations of errors and of nodes.
pub mod Prelude
pub mod Error
pub mod Ir
pub mod Frontend
pub mod Riscv32
pub mod Elf
pub mod Cli
pub mod Compile
pub mod Main
