-- ===== src/Lexer/Lines.antt =====
-- The line counter of src/lexer.cpp against the returns and newlines of a text.
use psic.Prelude.{ℕ, ◌+◌, ◌≡◌, Bool, ◌&&◌, [], ◌∷◌, ◌++◌, Text, arith, ◌==◌, if◌then◌else◌}
use psic.Lexer.Cursor.{Cursor, start, current_char, read_byte, advance}

abbrev pub count : ℕ → Text → ℕ
count b [] = 0
count b (c ∷ cs) = (if c == b then 1 else 0) + count b cs

-- How often a newline directly follows a carriage return.
abbrev pub count_crlf : Text → ℕ
count_crlf [] = 0
count_crlf (c ∷ cs) = (if c == b'\r' && current_char cs == b'\n' then 1 else 0) + count_crlf cs

-- The newline that a carriage return before the text makes part of its line end.
abbrev joined : Bool → Text → ℕ
joined after_return src = if after_return && current_char src == b'\n' then 1 else 0

read_byte-line :
    (c : ℕ) (behind : Text) (k : Cursor)
    → (read_byte c behind k).line
      ≡ k.line
        + (if c == b'\r'
            then 1
            else if c == b'\n'
            then (if k.previous_was_carriage_return then 0 else 1)
            else 0)
unfolding read_byte
read_byte-line c behind k = ground arith

read_byte-return :
    (c : ℕ) (behind : Text) (k : Cursor)
    → (read_byte c behind k).previous_was_carriage_return ≡ (c == b'\r')
unfolding read_byte
read_byte-return c behind k = ground arith

advance-line :
    (src behind : Text) (k : Cursor)
    → (advance src behind k).line + count_crlf src + joined k.previous_was_carriage_return src
      ≡ k.line + count b'\r' src + count b'\n' src
unfolding advance
advance-line [] behind k = ground arith
advance-line (c ∷ cs) behind k =
    let after = cs ++ behind in
    ground (
      arith,
      advance-line cs behind (read_byte c after k),
      read_byte-line c after k,
      read_byte-return c after k,
    )

-- After `src`, whatever follows it, the line number is one more than the returns and newlines in
-- `src`, where a return with a newline behind it counts once.
pub line_number :
    (src behind : Text)
    → (advance src behind start).line + count_crlf src ≡ 1 + count b'\r' src + count b'\n' src
line_number src behind = ground (arith, advance-line src behind start)
