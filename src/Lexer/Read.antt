-- ===== src/Lexer/Read.antt =====
-- src/lexer.cpp: `readIdentifier`, `readNumber`, `readString` and `readSpecialToken`.
use psic.Prelude.{ℕ, Bool, false, ◌&&◌, ◌||◌, not, [], ◌∷◌, ◌++◌, Text, codes, ◌==◌, if◌then◌else◌}
use psic.Source.{SourceLocation, Result, ok, failed, ◌>>=◌}
use psic.Lexer.Chars.{
  is_digit_char, is_hex_digit_char, is_octal_digit_char, is_letter_char, is_letter_or_digit_char,
}
use psic.Lexer.Cursor.{Cursor, current_char, look_ahead_char, read_char}

-- What a loop has appended to `text`, and where it has left the lexer.
pub record Read : Type 0 where
  pub text : Text
  pub rest : Text
  pub cursor : Cursor

abbrev pub nothing : Text → Cursor → Read
nothing src k = record { text = []; rest = src; cursor = k }

-- `text += readChar();`
abbrev pub read_one : Text → Cursor → Read
read_one [] k = nothing [] k
read_one (c ∷ cs) k = record { text = c ∷ []; rest = cs; cursor = read_char (c ∷ cs) k }

abbrev prepend : ℕ → Read → Read
prepend c r = record r { text = c ∷ r.text }

-- `while (!isAtEnd() && p(currentChar())) text += readChar();`
unfoldable pub read_while : (ℕ → Bool) → Text → Cursor → Read
read_while p [] k = nothing [] k
read_while p (c ∷ cs) k =
    let more = read_while p cs (read_char (c ∷ cs) k) in
    if p c then prepend c more else nothing (c ∷ cs) k

-- A loop that goes on from where `r` stopped, on the same `text`.
abbrev pub and_then : Read → (Text → Cursor → Read) → Read
and_then r f = let s = f r.rest r.cursor in record s { text = r.text ++ s.text }

abbrev pub location : Cursor → SourceLocation
location k = record { line = k.line; column = k.column }

unfoldable pub read_identifier : Text → Cursor → Read
unfolding read_while is_letter_or_digit_char
read_identifier = read_while is_letter_or_digit_char

-- The digits behind a sign and, for a decimal number, the point and the digits behind it.
unfoldable pub read_fraction : Text → Cursor → Read
unfolding read_while is_digit_char
read_fraction src k =
    if current_char src == b'.' && is_digit_char (look_ahead_char src)
    then and_then (read_one src k) (read_while is_digit_char)
    else nothing src k

-- A leading zero digit and the letter of a base, lower or upper case.
unfoldable pub has_prefix : ℕ → ℕ → Text → Bool
has_prefix lower upper src =
    current_char src == b'0' && (look_ahead_char src == lower || look_ahead_char src == upper)

-- The branch for a base other than ten: the prefix, and then at least one digit.
unfoldable pub read_based : (ℕ → Bool) → Text → Cursor → Read → Result Read
unfolding read_while
read_based is_digit message at_start signed =
    let prefixed = and_then (and_then signed read_one) read_one in
    if not (is_digit (current_char prefixed.rest))
    then failed message (location at_start)
    else ok (and_then prefixed (read_while is_digit))

-- `readNumber` behind the sign `signed`; `at_start` is the cursor at the start of the token.
unfoldable pub read_digits : Cursor → Read → Result Read
unfolding has_prefix read_based is_hex_digit_char is_octal_digit_char is_digit_char read_fraction
read_digits at_start signed =
    if has_prefix b'x' b'X' signed.rest
    then read_based is_hex_digit_char (codes "expected hexadecimal digits") at_start signed
    else if has_prefix b'o' b'O' signed.rest
    then read_based is_octal_digit_char (codes "expected octal digits") at_start signed
    else ok (and_then (and_then signed (read_while is_digit_char)) read_fraction)

unfoldable pub read_number : Text → Cursor → Result Read
unfolding read_digits
read_number src k =
    read_digits k (if current_char src == b'-' then read_one src k else nothing src k)

-- The loop of `readString`, with the cursor at the start of the token.
unfoldable pub read_string_body : Cursor → Bool → Text → Cursor → Result Read
read_string_body at_start escaped [] k =
    failed (codes "unterminated string literal") (location at_start)
read_string_body at_start escaped (c ∷ cs) k =
    let more = read_string_body at_start (c == b'\\' && not escaped) cs (read_char (c ∷ cs) k) in
    if c == b'"' && not escaped then ok (read_one (c ∷ cs) k) else more >>= λ r. ok (prepend c r)

unfoldable pub read_string : Text → Cursor → Result Read
unfolding read_string_body
read_string src k =
    let quote = read_one src k in
    read_string_body k false quote.rest quote.cursor >>= λ r.
    ok (record r { text = quote.text ++ r.text })

-- The loop of `readSpecialToken`; a dot belongs to an instruction's name if a letter follows it.
unfoldable pub read_special_name : ℕ → Text → Cursor → Read
unfolding is_letter_or_digit_char is_letter_char
read_special_name marker [] k = nothing [] k
read_special_name marker (c ∷ cs) k =
    let more = read_special_name marker cs (read_char (c ∷ cs) k) in
    if is_letter_or_digit_char c
    then prepend c more
    else if marker == b'#' && c == b'.' && is_letter_char (current_char cs)
    then prepend c more
    else nothing (c ∷ cs) k

unfoldable pub read_special_token : ℕ → Text → Cursor → Result Read
unfolding read_special_name is_letter_char
read_special_token marker src k =
    let first = read_one src k in
    if not (is_letter_char (current_char first.rest))
    then failed (codes "expected a name right after '" ++ (marker ∷ codes "'")) (location k)
    else ok (and_then first (read_special_name marker))
