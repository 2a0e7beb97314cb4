-- ===== src/Frontend/Strings.antt =====
-- `readString` of src/lexer.cpp and `decodeStringEscapes` of src/parser.cpp together on a text in
-- quotes.
use psic.Prelude.{
  subst, sym, ltb→lt, ◌<◌, ℕ, ◌≡◌, refl, Bool, true, false, ◌&&◌, not, [], ◌∷◌, ◌++◌, Text, ◌==◌,
  if◌then◌else◌, append_assoc, arith, ltb, ◌/◌, ◌%◌,
}
use psic.Source.{Result, ok}
use psic.Lexer.Cursor.{Cursor, advance}
use psic.Lexer.Read.{Read, read_string_body, read_string}
use psic.Lexer.Grammar.{IsStringBody, closing, inside}
use psic.Parser.State.{State}
use psic.Parser.Literal.{decode_string_escapes}
use psic.Parser.Escapes.{hex_char, escape, escaped, quoted, decode_string_escapes-quoted}

-- What a reader returns that takes `text` and leaves `rest`.
abbrev pub taken : Text → Text → Cursor → Result Read
taken text rest k = ok (record { text = text; rest = rest; cursor = advance text rest k })

read_string_body-IsStringBody :
    {flag : Bool} {body : Text}
    → IsStringBody flag body
    → (at_start : Cursor) (rest : Text) (k : Cursor)
    → read_string_body at_start flag (body ++ rest) k ≡ taken body rest k
unfolding read_string_body advance
read_string_body-IsStringBody (closing e) at_start rest k = rw e refl
read_string_body-IsStringBody (inside {c = c} {body} e more) at_start rest k =
    rw (e, read_string_body-IsStringBody more at_start rest _) refl

if-IsStringBody :
    (b : Bool) (x y body : Text)
    → (b ≡ true → IsStringBody false (x ++ body))
    → (b ≡ false → IsStringBody false (y ++ body))
    → IsStringBody false ((if b then x else y) ++ body)
if-IsStringBody true x y body hx hy = hx refl
if-IsStringBody false x y body hx hy = hy refl

pair-IsStringBody :
    (d : ℕ) {body : Text} → IsStringBody false body → IsStringBody false (b'\\' ∷ d ∷ body)
pair-IsStringBody d {body} h =
    let unescaped : (d == b'\\' && not true) ≡ false = ground arith in
    inside refl (inside (ground arith) (subst (λ f. IsStringBody f body) (sym unescaped) h))

plain-IsStringBody :
    (c : ℕ) {body : Text}
    → (c == b'"') ≡ false
    → (c == b'\\') ≡ false
    → IsStringBody false body
    → IsStringBody false (c ∷ body)
plain-IsStringBody c {body} q e h =
    inside (ground arith) (subst (λ f. IsStringBody f body) (ground arith) h)

hex_char-plain : (d : ℕ) → d < 16 → ((hex_char d == b'"') ≡ false) × ((hex_char d == b'\\') ≡ false)
hex_char-plain d h = (ground arith, ground arith)

hex-IsStringBody :
    (c : ℕ) {body : Text}
    → c < 32
    → IsStringBody false body
    → IsStringBody false (b'\\' ∷ b'x' ∷ hex_char (c / 16) ∷ hex_char (c % 16) ∷ body)
hex-IsStringBody c h more =
    let high = hex_char-plain (c / 16) (omega arith) in
    let low = hex_char-plain (c % 16) (omega arith) in
    pair-IsStringBody b'x'
      (plain-IsStringBody _ high.0 high.1 (plain-IsStringBody _ low.0 low.1 more))

escape-IsStringBody :
    (c : ℕ) {body : Text} → IsStringBody false body → IsStringBody false (escape c ++ body)
unfolding escape
escape-IsStringBody c h =
    if-IsStringBody (c == b'"') _ _ _ (λ _. pair-IsStringBody b'"' h)
      λ quote.
        if-IsStringBody (c == b'\\') _ _ _ (λ _. pair-IsStringBody b'\\' h)
          λ slash.
            if-IsStringBody (c == b'\n') _ _ _ (λ _. pair-IsStringBody b'n' h)
              λ _.
                if-IsStringBody (c == b'\t') _ _ _ (λ _. pair-IsStringBody b't' h)
                  λ _.
                    if-IsStringBody (c == b'\r') _ _ _ (λ _. pair-IsStringBody b'r' h)
                      λ _.
                        if-IsStringBody (c == 0) _ _ _ (λ _. pair-IsStringBody b'0' h)
                          λ _.
                            if-IsStringBody (ltb c 32) _ _ _
                              (λ e. hex-IsStringBody c (ltb→lt c 32 e) h)
                              λ _. plain-IsStringBody c quote slash h

escaped-IsStringBody : (text : Text) → IsStringBody false (escaped text ++ b'"' ∷ [])
unfolding escaped
escaped-IsStringBody [] = closing refl
escaped-IsStringBody (c ∷ cs) =
    rw (append_assoc (escape c) (escaped cs) (b'"' ∷ []))
      (escape-IsStringBody c (escaped-IsStringBody cs))

-- A text in quotes, with its quotes, backslashes and control characters escaped, is read by the
-- lexer as one string that ends at its closing quote, whatever follows, and the parser decodes
-- that string to the text.
pub read_string-quoted :
    (text rest : Text) (k : Cursor) (s : State)
    → (read_string (quoted text ++ rest) k ≡ taken (quoted text) rest k)
      × (decode_string_escapes s (quoted text) ≡ ok text)
unfolding read_string advance
read_string-quoted text rest k s = (
  rw (read_string_body-IsStringBody (escaped-IsStringBody text) k rest _) refl,
  decode_string_escapes-quoted s text,
)
