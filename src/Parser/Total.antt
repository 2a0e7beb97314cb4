-- ===== src/Parser/Total.antt =====
-- Whether the functions of src/parser.cpp end.
pub mod Types
pub mod Values
pub mod Commands
pub mod Program
