-- ===== src/Lexer/Examples.antt =====
-- Runs of the lexer, and the theorems about it at concrete inputs.
use psic.Prelude.{ℕ, ◌≡◌, refl, [], ◌∷◌, List, Text, codes, ◌+◌, arith}
use psic.Source.{ok}
use psic.Lexer.Token.{Token, TokenType, identifier, number, semicolon, equals, end_of_file}
use psic.Lexer.Cursor.{start, advance, read_byte}
use psic.Lexer.Skip.{skip_whitespace_and_comments}
use psic.Lexer.Tokenize.{tokenize, read_lexeme}
use psic.Lexer.Sound.{Lexes, tokenize-Lexes}
use psic.Lexer.Stream.{IsStream, tokenize-IsStream}
use psic.Lexer.Lines.{count, count_crlf, line_number}
use psic.Lexer.Columns.{one, two, IsLineText, none, more, column_number}
use psic.Lexer.Read.{read_identifier, read_number, read_string, read_special_token}

abbrev at : TokenType → Text → ℕ → ℕ → Token
at t text line column = record { type = t; text = text; line = line; column = column }

abbrev pub source : Text
source = codes "x = -0x1F; // c\n/* d\r\n */ y2.5"

abbrev pub tokens : List Token
tokens =
    at identifier (codes "x") 1 1
    ∷ at equals (codes "=") 1 3
    ∷ at number (codes "-0x1F") 1 5
    ∷ at semicolon (codes ";") 1 10
    ∷ at identifier (codes "y2") 3 5
    ∷ at TokenType.dot (codes ".") 3 7
    ∷ at number (codes "5") 3 8
    ∷ at end_of_file [] 3 9
    ∷ []

pub tokenize-source : tokenize source ≡ ok tokens
unfolding tokenize skip_whitespace_and_comments read_lexeme read_identifier read_number read_string
    read_special_token read_byte codes
tokenize-source = refl

tokenize-Lexes_example : Lexes source start tokens
tokenize-Lexes_example = tokenize-Lexes source tokenize-source

tokenize-IsStream_example : IsStream tokens
tokenize-IsStream_example = tokenize-IsStream source tokenize-source

-- A return with its newline, a lone newline and a lone return.
abbrev three_lines : Text
three_lines = codes "a\r\nb\nc\r"

line_number_example :
    (advance three_lines [] start).line + count_crlf three_lines
    ≡ 1 + count b'\r' three_lines + count b'\n' three_lines
line_number_example = line_number three_lines []

-- `é` in its two bytes, and a letter.
abbrev two_characters : Text
two_characters = 0xC3 ∷ 0xA9 ∷ b'x' ∷ []

two_characters-IsLineText : IsLineText 2 two_characters
two_characters-IsLineText =
    more (two (omega arith) (omega arith) (omega arith, omega arith)) (omega arith) (omega arith)
      (more (one (omega arith)) (omega arith) (omega arith) none refl) refl

column_number_example :
    ((advance two_characters [] start).column ≡ 3)
    × ((advance two_characters [] start).utf8_continuation_bytes ≡ 0)
column_number_example = column_number [] start two_characters-IsLineText refl
