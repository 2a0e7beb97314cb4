-- ===== src/Parser/Literal.antt =====
-- src/parser.cpp: `parseSignedIntegerLiteral` and `decodeStringEscapes`.
use psic.Prelude.{
  ℕ, zero, suc, ◌+◌, ◌-◌, ◌*◌, ◌/◌, Bool, ◌&&◌, ◌||◌, not, [], ◌∷◌, ◌++◌, Text, codes, ltb, leb,
  ◌==◌, if◌then◌else◌, Option, none, some, ℤ, pos, neg, tail,
}
use psic.Source.{Result, ok, ◌>>=◌}
use psic.Lexer.Chars.{is_hex_digit_char}
use psic.Lexer.Cursor.{current_char, look_ahead_char}
use psic.Lexer.Read.{has_prefix}
use psic.Parser.State.{State, thrown}

-- The value of a digit in any base; `none` is another character.
unfoldable pub digit_value : ℕ → Option ℕ
digit_value c =
    if leb b'0' c && leb c b'9'
    then some (c - b'0')
    else if leb b'a' c && leb c b'f'
    then some (c - b'a' + 10)
    else if leb b'A' c && leb c b'F'
    then some (c - b'A' + 10)
    else none

-- The loop over the digits; `none` is `std::out_of_range`.
unfoldable pub accumulate : ℕ → ℕ → Text → ℕ → Option ℕ
unfolding digit_value
accumulate limit base [] magnitude = some magnitude
accumulate limit base (c ∷ digits) magnitude = elim (digit_value c) [
  | none ↦ none
  | some d ↦
      if leb base d || ltb ((limit - d) / base) magnitude
      then none
      else accumulate limit base digits (magnitude * base + d)
]

-- `std::numeric_limits<long long>::max()`.
abbrev pub positive_limit : ℕ
positive_limit = 0x7FFF_FFFF_FFFF_FFFF

abbrev pub is_negative : Text → Bool
is_negative spelling = current_char spelling == b'-'

abbrev pub without_sign : Text → Text
without_sign spelling = if is_negative spelling then tail spelling else spelling

-- The base that the prefix of the digits names, and the digits behind it.
unfoldable pub base_and_digits : Text → ℕ × Text
unfolding has_prefix
base_and_digits digits =
    if has_prefix b'x' b'X' digits
    then (16, tail (tail digits))
    else if has_prefix b'o' b'O' digits
    then (8, tail (tail digits))
    else (10, digits)

unfoldable pub parse_signed_integer_literal : Text → Option ℤ
unfolding base_and_digits accumulate
parse_signed_integer_literal spelling =
    let negative = is_negative spelling in
    let limit = if negative then positive_limit + 1 else positive_limit in
    let split = base_and_digits (without_sign spelling) in
    elim (accumulate limit split.0 split.1 0) [
      | none ↦ none
      | some magnitude ↦ some (if negative then neg magnitude else pos magnitude)
    ]

unfoldable pub hex_digit_value : ℕ → ℕ
hex_digit_value c =
    if leb b'0' c && leb c b'9'
    then c - b'0'
    else if leb b'a' c && leb c b'f'
    then 10 + (c - b'a')
    else 10 + (c - b'A')

-- The byte that an escape with the character `next` stands for, if no digits follow it.
unfoldable pub simple_escape : ℕ → Option ℕ
simple_escape next =
    if next == b'"'
    then some b'"'
    else if next == b'\\'
    then some b'\\'
    else if next == b'n'
    then some b'\n'
    else if next == b't'
    then some b'\t'
    else if next == b'r'
    then some b'\r'
    else if next == b'0'
    then some 0
    else none

-- `\x` and the text behind it.
unfoldable pub hex_escape : State → Text → Result (ℕ × ℕ)
unfolding hex_digit_value is_hex_digit_char
hex_escape s behind =
    let high = current_char behind in
    let low = look_ahead_char behind in
    if is_hex_digit_char high && is_hex_digit_char low
    then ok (3, hex_digit_value high * 16 + hex_digit_value low)
    else thrown (codes "'\\x' in a string needs exactly two hex digits, e.g. '\\x41'") s

-- The byte behind a backslash, and what is behind that.
unfoldable pub read_escape : State → Text → Result (ℕ × ℕ)
unfolding simple_escape hex_escape
read_escape s [] = thrown (codes "string ends with a dangling '\\'") s
read_escape s (next ∷ behind) = elim (simple_escape next) [
  | some byte ↦ ok (1, byte)
  | none ↦
      if next == b'x'
      then hex_escape s behind
      else thrown (codes "unknown escape '\\" ++ (next ∷ codes "' in a string")) s
]

-- One round of the loop at the byte `c`: how many bytes behind it are passed over, and the byte
-- that is appended.
unfoldable pub decode_step : State → ℕ → Text → Result (ℕ × ℕ)
unfolding read_escape
decode_step s c inner = if not (c == b'\\') then ok (0, c) else read_escape s inner

-- The loop, with the number of bytes that the last round passes over.
unfoldable pub decode : State → ℕ → Text → Result Text
unfolding decode_step
decode s skip [] = ok []
decode s (suc skip) (c ∷ inner) = decode s skip inner
decode s zero (c ∷ inner) =
    decode_step s c inner >>= λ e. (decode s e.0 inner >>= λ rest. ok (e.1 ∷ rest))

-- The text without its last byte.
abbrev pub without_last : Text → Text
without_last [] = []
without_last (c ∷ []) = []
without_last (c ∷ d ∷ cs) = c ∷ without_last (d ∷ cs)

-- `decodeStringEscapes` at the state of the parser, which an error names.
unfoldable pub decode_string_escapes : State → Text → Result Text
unfolding decode
decode_string_escapes s raw = decode s 0 (without_last (tail raw))
