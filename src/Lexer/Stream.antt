-- ===== src/Lexer/Stream.antt =====
-- The token lists that the lexer of src/lexer.cpp hands to the parser, and the end-of-file token in
-- them.
use psic.Prelude.{ℕ, ◌≡◌, refl, ◌≢◌, [], ◌∷◌, List, Text, some, arith}
use psic.Source.{ok}
use psic.Lexer.Token.{TokenType, Token, end_of_file}
use psic.Lexer.Cursor.{Cursor}
use psic.Lexer.Tokenize.{punctuation, tokenize}
use psic.Lexer.Grammar.{
  IsToken, identifier_token, number_token, string_token, register_token, instruction_token,
  punctuation_token,
}
use psic.Lexer.Sound.{Lexes, finished, token, tokenize-Lexes}

pub data IsStream : List Token → Type 0 where
  last : {t : Token} → t.type ≡ end_of_file → IsStream (t ∷ [])
  before : {t : Token} {ts : List Token} → t.type ≢ end_of_file → IsStream ts → IsStream (t ∷ ts)

punctuation-ne-end_of_file : (c : ℕ) → punctuation c ≢ some end_of_file
unfolding punctuation
punctuation-ne-end_of_file c h = ground arith

IsToken-ne-end_of_file : {rest text : Text} {t : TokenType} → IsToken rest t text → t ≢ end_of_file
IsToken-ne-end_of_file (identifier_token _ _ _) e = cc
IsToken-ne-end_of_file (number_token _) e = cc
IsToken-ne-end_of_file (string_token _ _) e = cc
IsToken-ne-end_of_file (register_token _ _ _) e = cc
IsToken-ne-end_of_file (instruction_token _ _ _) e = cc
IsToken-ne-end_of_file (punctuation_token {c} p) e = punctuation-ne-end_of_file c (rw e at p)

Lexes-IsStream : {src : Text} {k : Cursor} {ts : List Token} → Lexes src k ts → IsStream ts
Lexes-IsStream (finished gap e) = rw e (last refl)
Lexes-IsStream (token gap text rest t later s g i more e) =
    rw e (before (IsToken-ne-end_of_file i) (Lexes-IsStream more))

-- A token list that `tokenize` returns has its only end-of-file token at the end.
pub tokenize-IsStream : (src : Text) {ts : List Token} → tokenize src ≡ ok ts → IsStream ts
tokenize-IsStream src e = Lexes-IsStream (tokenize-Lexes src e)
