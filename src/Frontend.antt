-- ===== src/Frontend.antt =====
-- src/compiler.cpp: the lexer and the parser one after the other, and `validateJitEntrySignature`,
-- which runs them and looks at the program.
pub mod Entry
pub mod SourceLine
pub mod Lines
pub mod Callable
pub mod Parse
pub mod Total
pub mod Strings
mod Examples
