-- ===== src/Lexer/Cursor.antt =====
-- src/lexer.hpp and src/lexer.cpp: the fields of `Lexer` that count, and `readChar`.
use psic.Prelude.{
  ℕ, ◌+◌, ◌-◌, Bool, true, false, ◌&&◌, not, [], ◌∷◌, ◌++◌, Text, ◌==◌, if◌then◌else◌,
}
use psic.Lexer.Chars.{is_continuation, utf8_sequence_length}

pub record Cursor : Type 0 where
  pub line : ℕ
  pub column : ℕ
  pub utf8_continuation_bytes : ℕ
  pub previous_was_carriage_return : Bool

-- The initial values of the fields.
abbrev pub start : Cursor
start = record {
  line = 1;
  column = 1;
  utf8_continuation_bytes = 0;
  previous_was_carriage_return = false;
}

-- `currentChar` on the text still to be read, and `lookAheadChar` on its tail: 0 at the end.
abbrev pub current_char : Text → ℕ
current_char [] = 0
current_char (c ∷ _) = c

abbrev pub look_ahead_char : Text → ℕ
look_ahead_char [] = 0
look_ahead_char (_ ∷ cs) = current_char cs

-- The cursor after `readChar` has read the byte `c`, with the text `behind` following it.
unfoldable pub read_byte : ℕ → Text → Cursor → Cursor
unfolding is_continuation utf8_sequence_length
read_byte c behind k =
    if c == b'\r'
    then record {
      line = k.line + 1;
      column = 1;
      utf8_continuation_bytes = 0;
      previous_was_carriage_return = true;
    }
    else if c == b'\n'
    then record {
      line = (if k.previous_was_carriage_return then k.line else k.line + 1);
      column = 1;
      utf8_continuation_bytes = 0;
      previous_was_carriage_return = false;
    }
    else if not (k.utf8_continuation_bytes == 0) && is_continuation c
    then record k {
      utf8_continuation_bytes = k.utf8_continuation_bytes - 1;
      previous_was_carriage_return = false;
    }
    else record k {
      column = k.column + 1;
      utf8_continuation_bytes = utf8_sequence_length c behind - 1;
      previous_was_carriage_return = false;
    }

-- `readChar` on the text still to be read. The lexer calls it only where a byte is left.
abbrev pub read_char : Text → Cursor → Cursor
read_char [] k = k
read_char (c ∷ cs) k = read_byte c cs k

-- The cursor after the bytes of `taken` have been read one by one, with `behind` following them.
unfoldable pub advance : Text → Text → Cursor → Cursor
advance [] behind k = k
advance (c ∷ taken) behind k = advance taken behind (read_byte c (taken ++ behind) k)
