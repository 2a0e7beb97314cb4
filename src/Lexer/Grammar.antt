-- ===== src/Lexer/Grammar.antt =====
-- The tokens of src/lexer.cpp described without the reader: which text is a token of which type,
-- given the text that follows it.
use psic.Prelude.{
  ℕ, ◌<◌, ◌≡◌, Bool, true, false, ◌&&◌, ◌||◌, not, [], ◌∷◌, ◌++◌, Text, ◌==◌, length, all, some,
}
use psic.Lexer.Token.{TokenType, identifier, number, string, special_register, special_instruction}
use psic.Lexer.Chars.{
  is_digit_char, is_hex_digit_char, is_octal_digit_char, is_letter_char, is_letter_or_digit_char,
}
use psic.Lexer.Cursor.{current_char, look_ahead_char}
use psic.Lexer.Read.{has_prefix}
use psic.Lexer.Tokenize.{punctuation}

-- The text ends here, or goes on with a character outside `p`.
abbrev pub Stops : (ℕ → Bool) → Text → Type 0
Stops p [] = Unit {0}
Stops p (c ∷ _) = p c ≡ false

abbrev pub AreDigits : (ℕ → Bool) → Text → Type 0
AreDigits p ds = (all p ds ≡ true) × (0 < length ds)

-- Neither base prefix begins the text.
abbrev pub IsDecimal : Text → Type 0
IsDecimal src = (has_prefix b'x' b'X' src ≡ false) × (has_prefix b'o' b'O' src ≡ false)

-- A point with a digit behind it begins the text.
abbrev pub starts_fraction : Text → Bool
starts_fraction src = current_char src == b'.' && is_digit_char (look_ahead_char src)

pub data IsMagnitude (rest : Text) : Text → Type 0 where
  hexadecimal :
      {z x : ℕ} {ds : Text}
      → z ≡ b'0'
      → (x == b'x' || x == b'X') ≡ true
      → AreDigits is_hex_digit_char ds
      → Stops is_hex_digit_char rest
      → IsMagnitude rest (z ∷ x ∷ ds)
  octal :
      {z x : ℕ} {ds : Text}
      → z ≡ b'0'
      → (x == b'o' || x == b'O') ≡ true
      → AreDigits is_octal_digit_char ds
      → Stops is_octal_digit_char rest
      → IsMagnitude rest (z ∷ x ∷ ds)
  whole :
      {ds : Text}
      → AreDigits is_digit_char ds
      → IsDecimal (ds ++ rest)
      → Stops is_digit_char rest
      → starts_fraction rest ≡ false
      → IsMagnitude rest ds
  fraction :
      (ds es : Text) {dot : ℕ} {text : Text}
      → AreDigits is_digit_char ds
      → IsDecimal (text ++ rest)
      → dot ≡ b'.'
      → AreDigits is_digit_char es
      → Stops is_digit_char rest
      → text ≡ ds ++ (dot ∷ es)
      → IsMagnitude rest text

pub data IsNumber (rest : Text) : Text → Type 0 where
  negative : {c : ℕ} {text : Text} → c ≡ b'-' → IsMagnitude rest text → IsNumber rest (c ∷ text)
  positive : {text : Text} → IsMagnitude rest text → IsNumber rest text

-- The characters behind the opening quote; the flag says that a backslash stands before them.
pub data IsStringBody : Bool → Text → Type 0 where
  closing :
      {escaped : Bool} {c : ℕ} → (c == b'"' && not escaped) ≡ true → IsStringBody escaped (c ∷ [])
  inside :
      {escaped : Bool} {c : ℕ} {body : Text}
      → (c == b'"' && not escaped) ≡ false
      → IsStringBody (c == b'\\' && not escaped) body
      → IsStringBody escaped (c ∷ body)

-- A character of a special name, before the text `behind`.
abbrev pub is_special_char : ℕ → ℕ → Text → Bool
is_special_char marker c behind =
    is_letter_or_digit_char c
    || (marker == b'#' && c == b'.' && is_letter_char (current_char behind))

abbrev pub AreSpecialChars : ℕ → Text → Text → Type 0
AreSpecialChars marker [] [] = Unit {0}
AreSpecialChars marker [] (c ∷ rest) = is_special_char marker c rest ≡ false
AreSpecialChars marker (c ∷ name) rest =
    (is_special_char marker c (name ++ rest) ≡ true) × AreSpecialChars marker name rest

-- `text` is a token of the type, if `rest` follows it.
pub data IsToken (rest : Text) : TokenType → Text → Type 0 where
  identifier_token :
      {c : ℕ} {word : Text}
      → is_letter_char c ≡ true
      → all is_letter_or_digit_char word ≡ true
      → Stops is_letter_or_digit_char rest
      → IsToken rest identifier (c ∷ word)
  number_token : {text : Text} → IsNumber rest text → IsToken rest number text
  string_token :
      {c : ℕ} {body : Text} → c ≡ b'"' → IsStringBody false body → IsToken rest string (c ∷ body)
  register_token :
      {m c : ℕ} {name : Text}
      → m ≡ b'%'
      → is_letter_char c ≡ true
      → AreSpecialChars b'%' (c ∷ name) rest
      → IsToken rest special_register (m ∷ c ∷ name)
  instruction_token :
      {m c : ℕ} {name : Text}
      → m ≡ b'#'
      → is_letter_char c ≡ true
      → AreSpecialChars b'#' (c ∷ name) rest
      → IsToken rest special_instruction (m ∷ c ∷ name)
  punctuation_token : {c : ℕ} {t : TokenType} → punctuation c ≡ some t → IsToken rest t (c ∷ [])
