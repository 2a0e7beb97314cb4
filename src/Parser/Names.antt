-- ===== src/Parser/Names.antt =====
-- src/parser.cpp: `isInstructionKeyword`, `isPrimitiveTypeName` and `tokenStartsInstruction`.
use psic.Prelude.{Bool, ◌&&◌, ◌||◌, [], ◌∷◌, Text, contains}
use psic.Lexer.Token.{Token, identifier, special_instruction}
use psic.Parser.State.{same_type}

unfoldable pub is_instruction_keyword : Text → Bool
unfolding contains
is_instruction_keyword = contains (
    "add" ∷ "sub" ∷ "mul" ∷ "div" ∷ "mod" ∷ "eq" ∷ "gt" ∷ "lt" ∷ "neq" ∷ "gte" ∷ "lte" ∷ "and"
    ∷ "or" ∷ "not" ∷ "xor" ∷ "lsh" ∷ "rsh" ∷ "land" ∷ "lor" ∷ "lnot" ∷ "ref" ∷ "load" ∷ "store"
    ∷ "jmp" ∷ "cjmp" ∷ "call" ∷ "ret" ∷ "label" ∷ [])

unfoldable pub is_primitive_type_name : Text → Bool
unfolding contains
is_primitive_type_name = contains (
    "void" ∷ "bool" ∷ "i8" ∷ "i16" ∷ "i32" ∷ "i64" ∷ "u8" ∷ "u16" ∷ "u32" ∷ "u64" ∷ "f32" ∷ "f64"
    ∷ [])

unfoldable pub token_starts_instruction : Token → Bool
unfolding same_type is_instruction_keyword
token_starts_instruction t =
    same_type t.type special_instruction
    || (same_type t.type identifier && is_instruction_keyword t.text)
