-- ===== src/Lexer/Chars.antt =====
-- src/lexer.cpp: the character classes and `utf8SequenceLength`. A `char` is its byte.
use psic.Prelude.{
  ℕ, zero, suc, ◌-◌, Bool, true, false, ◌&&◌, ◌||◌, not, [], ◌∷◌, Text, ltb, leb, ◌==◌,
  if◌then◌else◌, bit_and, length,
}

unfoldable pub is_digit_char : ℕ → Bool
is_digit_char c = leb b'0' c && leb c b'9'

unfoldable pub is_hex_digit_char : ℕ → Bool
is_hex_digit_char c =
    (leb b'0' c && leb c b'9') || (leb b'a' c && leb c b'f') || (leb b'A' c && leb c b'F')

unfoldable pub is_letter_char : ℕ → Bool
is_letter_char c = (leb b'a' c && leb c b'z') || (leb b'A' c && leb c b'Z') || c == b'_'

unfoldable pub is_letter_or_digit_char : ℕ → Bool
unfolding is_letter_char is_digit_char
is_letter_or_digit_char c = is_letter_char c || is_digit_char c

unfoldable pub is_octal_digit_char : ℕ → Bool
is_octal_digit_char c = leb b'0' c && leb c b'7'

-- The blanks that `skipWhitespaceAndComments` passes over.
unfoldable pub is_blank_char : ℕ → Bool
is_blank_char c = c == b' ' || c == b'\t' || c == b'\n' || c == b'\r' || c == 0x0c

unfoldable pub is_continuation : ℕ → Bool
is_continuation b = bit_and b 0xC0 == 0x80

-- The length that the first byte of a sequence announces.
utf8_length_of_first : ℕ → ℕ
utf8_length_of_first first =
    if leb 0xF0 first && leb first 0xF4
    then 4
    else if leb 0xE0 first && leb first 0xEF
    then 3
    else if leb 0xC2 first && leb first 0xDF
    then 2
    else 1

-- The first continuation byte may neither make an overlong form, nor a surrogate, nor exceed 0x10FFFF.
second_byte_refused : ℕ → ℕ → Bool
second_byte_refused first c =
    (first == 0xE0 && ltb c 0xA0)
    || (first == 0xED && leb 0xA0 c)
    || (first == 0xF0 && ltb c 0x90)
    || (first == 0xF4 && leb 0x90 c)

-- The loop over `index`, with `n` continuation bytes still to be checked.
continuations_valid : ℕ → Bool → ℕ → Text → Bool
continuations_valid first is_second zero bytes = true
continuations_valid first is_second (suc n) [] = false
continuations_valid first is_second (suc n) (c ∷ bytes) =
    is_continuation c
    && not (is_second && second_byte_refused first c)
    && continuations_valid first false n bytes

-- `utf8SequenceLength(text, offset)`, for the byte at the offset and the bytes behind it.
unfoldable pub utf8_sequence_length : ℕ → Text → ℕ
unfolding utf8_length_of_first second_byte_refused continuations_valid is_continuation
utf8_sequence_length first behind =
    let len = utf8_length_of_first first in
    if len == 1 || ltb (suc (length behind)) len
    then 1
    else if continuations_valid first true (len - 1) behind
    then len
    else 1
