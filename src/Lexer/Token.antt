-- ===== src/Lexer/Token.antt =====
-- src/lexer.hpp: `TokenType` and `Token`.
use psic.Prelude.{ℕ, Text}

pub data TokenType : Type 0 where
  identifier number string special_register special_instruction : TokenType
  left_brace right_brace left_bracket right_bracket : TokenType
  star dot colon equals semicolon comma end_of_file : TokenType

pub record Token : Type 0 where
  pub type : TokenType
  pub text : Text
  pub line : ℕ
  pub column : ℕ
