-- ===== src/Parser/Escapes.antt =====
-- The spelling of a string, and `decodeStringEscapes` of src/parser.cpp on it.
use psic.Prelude.{
  ℕ, ◌+◌, ◌-◌, ◌/◌, ◌%◌, ◌<◌, ◌≡◌, refl, [], ◌∷◌, ◌++◌, Text, ltb, ◌==◌, if◌then◌else◌, arith, ap,
}
use psic.Source.{ok, ◌>>=◌}
use psic.Lexer.Chars.{is_hex_digit_char}
use psic.Parser.State.{State}
use psic.Parser.Literal.{
  hex_digit_value, simple_escape, hex_escape, read_escape, decode_step, decode, without_last,
  decode_string_escapes,
}

abbrev pub hex_char : ℕ → ℕ
hex_char d = if ltb d 10 then b'0' + d else b'a' + (d - 10)

-- The spelling of a byte inside a string: an escape where the byte would end the string or start an
-- escape, and for every control character.
unfoldable pub escape : ℕ → Text
escape c =
    if c == b'"'
    then b'\\' ∷ b'"' ∷ []
    else if c == b'\\'
    then b'\\' ∷ b'\\' ∷ []
    else if c == b'\n'
    then b'\\' ∷ b'n' ∷ []
    else if c == b'\t'
    then b'\\' ∷ b't' ∷ []
    else if c == b'\r'
    then b'\\' ∷ b'r' ∷ []
    else if c == 0
    then b'\\' ∷ b'0' ∷ []
    else if ltb c 32
    then b'\\' ∷ b'x' ∷ hex_char (c / 16) ∷ hex_char (c % 16) ∷ []
    else c ∷ []

unfoldable pub escaped : Text → Text
escaped [] = []
escaped (c ∷ cs) = escape c ++ escaped cs

abbrev pub quoted : Text → Text
quoted text = b'"' ∷ (escaped text ++ b'"' ∷ [])

without_last-append : (cs : Text) (c : ℕ) → without_last (cs ++ c ∷ []) ≡ cs
without_last-append [] c = refl
without_last-append (d ∷ []) c = refl
without_last-append (d ∷ e ∷ cs) c = ap (◌∷◌ d) (without_last-append (e ∷ cs) c)

hex_escape-hex_char :
    (s : State) (c : ℕ) (behind : Text)
    → c < 256
    → hex_escape s (hex_char (c / 16) ∷ hex_char (c % 16) ∷ behind) ≡ ok (3, c)
unfolding hex_escape is_hex_digit_char hex_digit_value
hex_escape-hex_char s c behind h = ground arith

decode-escape :
    (s : State) (c : ℕ) (cs : Text)
    → decode s 0 (escape c ++ cs) ≡ (decode s 0 cs >>= λ rest. ok (c ∷ rest))
unfolding escape decode decode_step read_escape simple_escape
decode-escape s c cs = ground (arith, hex_escape-hex_char s c cs)

decode-escaped : (s : State) (text : Text) → decode s 0 (escaped text) ≡ ok text
unfolding escaped
decode-escaped s [] = unfold decode in refl
decode-escaped s (c ∷ cs) = rw (decode-escape s c (escaped cs), decode-escaped s cs) refl

-- A text in quotes, with its quotes, backslashes and control characters escaped, is decoded to
-- that text, whatever bytes it has.
pub decode_string_escapes-quoted :
    (s : State) (text : Text) → decode_string_escapes s (quoted text) ≡ ok text
unfolding decode_string_escapes
decode_string_escapes-quoted s text =
    rw (without_last-append (escaped text) b'"') (decode-escaped s text)
