-- ===== src/Lexer/Tokenize.antt =====
-- src/lexer.cpp: `tokenize`.
use psic.Prelude.{
  ℕ, zero, suc, ◌&&◌, ◌||◌, List, [], ◌∷◌, ◌++◌, Text, codes, ◌==◌, if◌then◌else◌, Option, none,
  some, length,
}
use psic.Source.{Result, ok, failed, out_of_fuel, ◌>>=◌}
use psic.Lexer.Token.{
  TokenType, Token, identifier, number, string, special_register, special_instruction, left_brace,
  right_brace, left_bracket, right_bracket, star, dot, colon, equals, semicolon, comma, end_of_file,
}
use psic.Lexer.Chars.{is_digit_char, is_letter_char}
use psic.Lexer.Cursor.{Cursor, start, current_char}
use psic.Lexer.Read.{
  Read, read_one, location, read_identifier, read_number, read_string, read_special_token,
}
use psic.Lexer.Skip.{skip_whitespace_and_comments}

-- The `switch` on a single character; `none` is its default.
unfoldable pub punctuation : ℕ → Option TokenType
punctuation c =
    if c == b'{'
    then some left_brace
    else if c == b'}'
    then some right_brace
    else if c == b'['
    then some left_bracket
    else if c == b']'
    then some right_bracket
    else if c == b'*'
    then some star
    else if c == b'.'
    then some dot
    else if c == b':'
    then some colon
    else if c == b'='
    then some equals
    else if c == b';'
    then some semicolon
    else if c == b','
    then some comma
    else none

-- A token's type, and what was read for its text.
abbrev pub Lexeme : Type 0
Lexeme = TokenType × Read

abbrev pub typed : TokenType → Result Read → Result Lexeme
typed t r = r >>= λ x. ok (t, x)

-- The body of the loop, at the byte `c` with `cs` behind it.
unfoldable pub read_lexeme : ℕ → Text → Cursor → Result Lexeme
unfolding is_letter_char is_digit_char punctuation
read_lexeme c cs k =
    if is_letter_char c
    then ok (identifier, read_identifier (c ∷ cs) k)
    else if is_digit_char c || (c == b'-' && is_digit_char (current_char cs))
    then typed number (read_number (c ∷ cs) k)
    else if c == b'"'
    then typed string (read_string (c ∷ cs) k)
    else if c == b'%'
    then typed special_register (read_special_token b'%' (c ∷ cs) k)
    else if c == b'#'
    then typed special_instruction (read_special_token b'#' (c ∷ cs) k)
    else elim (punctuation c) [
      | none ↦ failed (codes "unexpected character '" ++ (c ∷ codes "'")) (location k)
      | some t ↦ ok (t, read_one (c ∷ cs) k)
    ]

abbrev pub token_at : Cursor → TokenType → Text → Token
token_at k t text = record { type = t; text = text; line = k.line; column = k.column }

-- The loop behind the skipped text, at the end or at a token. `again` is the next round.
unfoldable pub tokenize_from :
    (Text → Cursor → Result (List Token)) → Text → Cursor → Result (List Token)
tokenize_from again [] k = ok (token_at k end_of_file [] ∷ [])
tokenize_from again (c ∷ cs) k = do
  lexeme ← read_lexeme c cs k
  tokens ← again lexeme.1.rest lexeme.1.cursor
  ok (token_at k lexeme.0 lexeme.1.text ∷ tokens)

-- The loop, on fuel: each round reads at least one byte or ends.
unfoldable pub tokenize_loop : ℕ → Text → Cursor → Result (List Token)
unfolding tokenize_from
tokenize_loop zero src k = out_of_fuel
tokenize_loop (suc f) src k = do
  skipped ← skip_whitespace_and_comments (suc (length src)) src k
  tokenize_from (tokenize_loop f) skipped.0 skipped.1

-- `Lexer(source).tokenize()`.
unfoldable pub tokenize : Text → Result (List Token)
unfolding tokenize_loop
tokenize src = tokenize_loop (suc (length src)) src start
