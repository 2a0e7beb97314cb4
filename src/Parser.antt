-- ===== src/Parser.antt =====
-- src/parser.hpp and src/parser.cpp: the recursive-descent parser. The tokens and the position in
-- them are the current token and the tokens behind it.
pub mod State
pub mod Names
pub mod Literal
pub mod Numbers
pub mod IndexNumbers
pub mod IndexErrors
pub mod Escapes
pub mod Decimal
pub mod Types
pub mod Value
pub mod Command
pub mod Declaration
pub mod Print
pub mod RoundTrip
pub mod TypeRoundTrip
pub mod ValuePrint
pub mod ValueItems
pub mod ValueSteps
pub mod ValueRoundTrip
pub mod Progress
pub mod Total
mod Examples
