-- ===== src/Lexer.antt =====
-- src/lexer.hpp and src/lexer.cpp: the lexer. The position in the source is the text still to be
-- read together with a cursor, which counts lines and columns.
pub mod Token
pub mod Chars
pub mod Cursor
pub mod Read
pub mod Skip
pub mod Tokenize
pub mod Consumes
pub mod Gaps
pub mod Grammar
pub mod Shapes
pub mod Sound
pub mod Stream
pub mod Examples
pub mod Columns
pub mod Lines
pub mod Progress
