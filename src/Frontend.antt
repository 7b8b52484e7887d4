-- ===== src/Frontend.antt =====
-- The front end of src/frontend: lexer, types, the tree, parser, semantic analysis, IR emission.
pub mod Outcome
pub mod Token
pub mod Lexer
pub mod FrontendType
pub mod Ast
pub mod AstPrint
pub mod Parser
pub mod Symbols
pub mod Resolve
pub mod Check
pub mod EmitIr
pub mod Meaning
pub mod Accepted
pub mod ImplicitReturn
mod Tests
