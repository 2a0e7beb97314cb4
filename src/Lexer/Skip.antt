-- ===== src/Lexer/Skip.antt =====
-- src/lexer.cpp: `skipWhitespaceAndComments`.
use psic.Prelude.{ℕ, zero, suc, ◌&&◌, ◌||◌, [], ◌∷◌, Text, codes, ◌==◌, if◌then◌else◌, tail}
use psic.Source.{Result, ok, failed, out_of_fuel, ◌>>=◌}
use psic.Lexer.Chars.{is_blank_char}
use psic.Lexer.Cursor.{Cursor, current_char, read_char}
use psic.Lexer.Read.{location}

-- The loop behind `//`: it stops before the end of the line.
unfoldable pub skip_line_comment : Text → Cursor → Text × Cursor
skip_line_comment [] k = ([], k)
skip_line_comment (c ∷ cs) k =
    let more = skip_line_comment cs (read_char (c ∷ cs) k) in
    if c == b'\n' || c == b'\r' then (c ∷ cs, k) else more

-- The loop behind `/*`, with the cursor at the start of the comment.
unfoldable pub skip_block_comment : Cursor → Text → Cursor → Result (Text × Cursor)
skip_block_comment at_start [] k = failed (codes "unterminated block comment") (location at_start)
skip_block_comment at_start (c ∷ cs) k =
    let k' = read_char (c ∷ cs) k in
    let more = skip_block_comment at_start cs k' in
    if c == b'*' && current_char cs == b'/' then ok (tail cs, read_char cs k') else more

-- The outer loop, on fuel: each round reads at least one byte.
unfoldable pub skip_whitespace_and_comments : ℕ → Text → Cursor → Result (Text × Cursor)
unfolding skip_line_comment skip_block_comment is_blank_char
skip_whitespace_and_comments zero src k = out_of_fuel
skip_whitespace_and_comments (suc f) [] k = ok ([], k)
skip_whitespace_and_comments (suc f) (c ∷ cs) k =
    let k' = read_char (c ∷ cs) k in
    let after_blank = skip_whitespace_and_comments f cs k' in
    let line_end = skip_line_comment (tail cs) (read_char cs k') in
    let after_line = skip_whitespace_and_comments f line_end.0 line_end.1 in
    let after_block = skip_block_comment k (tail cs) (read_char cs k') >>= λ e.
    skip_whitespace_and_comments f e.0 e.1 in
    if is_blank_char c
    then after_blank
    else if c == b'/' && current_char cs == b'/'
    then after_line
    else if c == b'/' && current_char cs == b'*'
    then after_block
    else ok (c ∷ cs, k)
