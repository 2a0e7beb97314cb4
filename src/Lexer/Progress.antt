-- ===== src/Lexer/Progress.antt =====
-- How far each round of the loop of `tokenize` in src/lexer.cpp reads.
use psic.Prelude.{
  ℕ, ◌+◌, ◌<◌, ◌≡◌, ◌⊎◌, Bool, true, false, ◌&&◌, ◌||◌, not, [], ◌∷◌, ◌++◌, Text, arith, Option,
  none, some, inl, inr, ◌==◌, length, length-append, Bool-cases,
}
use psic.Source.{
  Result, ok, failed, Ensures, Ensures-both, Ensures-if, Ensures-bind, holds, rejected,
}
use psic.Lexer.Token.{TokenType, number, string, special_register, special_instruction}
use psic.Lexer.Chars.{
  is_letter_char, is_digit_char, is_hex_digit_char, is_octal_digit_char, is_letter_or_digit_char,
}
use psic.Lexer.Cursor.{Cursor, current_char, read_char}
use psic.Lexer.Read.{
  Read, nothing, read_one, read_while, and_then, location, read_identifier, read_fraction,
  has_prefix, read_based, read_digits, read_number, read_string, read_special_name,
  read_special_token,
}
use psic.Lexer.Tokenize.{Lexeme, typed, punctuation, read_lexeme}
use psic.Lexer.Consumes.{
  read_identifier-Consumes, read_string_body-Consumes, Consumes, read_one-Consumes,
  read_number-Consumes, read_string-Consumes, read_special_token-Consumes,
}

pub length-append_text : (a b : Text) → length (a ++ b) ≡ length a + length b
length-append_text a b = length-append a b

abbrev pub Reads : Read → Type 0
Reads r = 0 < length r.text

and_then-Reads : (r : Read) (f : Text → Cursor → Read) → Reads r → Reads (and_then r f)
and_then-Reads r f h = omega (arith, length-append_text r.text (f r.rest r.cursor).text)

read_while-Reads :
    (p : ℕ → Bool) (c : ℕ) (cs : Text) (k : Cursor) → p c ≡ true → Reads (read_while p (c ∷ cs) k)
unfolding read_while
read_while-Reads p c cs k h = rw h (omega arith)

read_based-Reads :
    (is_digit : ℕ → Bool) (message : Text) (k : Cursor) (r : Read)
    → Reads (and_then r read_one)
    → Ensures Reads (read_based is_digit message k r)
unfolding read_based
read_based-Reads is_digit message k r h =
    let prefixed = and_then (and_then r read_one) read_one in
    let two = and_then-Reads (and_then r read_one) read_one h in
    Ensures-if (not (is_digit (current_char prefixed.rest))) (λ _. rejected message (location k))
      λ _. holds (and_then-Reads prefixed (read_while is_digit) two)

zero_char : ¬ (is_digit_char 0 ≡ true)
unfolding is_digit_char
zero_char h = cc

-- Behind a sign, or at a digit.
abbrev StartsNumber : Read → Type 0
StartsNumber r = Reads r ⊎ (is_digit_char (current_char r.rest) ≡ true)

read_one-Reads : (r : Read) → StartsNumber r → Reads (and_then r read_one)
unfolding is_digit_char
read_one-Reads r (inl h) = and_then-Reads r read_one h
read_one-Reads r (inr h) = ground (arith, length-append_text r.text (read_one r.rest r.cursor).text)

decimal-Reads : (r : Read) → StartsNumber r → Reads (and_then r (read_while is_digit_char))
decimal-Reads r (inl h) = and_then-Reads r (read_while is_digit_char) h
decimal-Reads r (inr h) = omega (
  arith,
  length-append_text r.text (read_while is_digit_char r.rest r.cursor).text,
  head r.rest r.cursor h,
)
  where
    head :
        (s : Text) (k : Cursor)
        → is_digit_char (current_char s) ≡ true
        → Reads (read_while is_digit_char s k)
    head [] k e = absurd (zero_char e)
    head (c ∷ cs) k e = read_while-Reads is_digit_char c cs k e

read_digits-Reads : (k : Cursor) (r : Read) → StartsNumber r → Ensures Reads (read_digits k r)
unfolding read_digits
read_digits-Reads k r h =
    Ensures-if (has_prefix b'x' b'X' r.rest)
      (λ _. read_based-Reads is_hex_digit_char _ k r (read_one-Reads r h))
      λ _.
        Ensures-if (has_prefix b'o' b'O' r.rest)
          (λ _. read_based-Reads is_octal_digit_char _ k r (read_one-Reads r h))
          λ _. holds (
            and_then-Reads (and_then r (read_while is_digit_char)) read_fraction
              (decimal-Reads r h))

read_number-Reads :
    (c : ℕ) (cs : Text) (k : Cursor)
    → (is_digit_char c || (c == b'-' && is_digit_char (current_char cs))) ≡ true
    → Ensures Reads (read_number (c ∷ cs) k)
unfolding read_number
read_number-Reads c cs k h = elim (Bool-cases (c == b'-')) [
  | inl minus ↦ rw minus (read_digits-Reads k (read_one (c ∷ cs) k) (inl (omega arith)))
  | inr plain ↦ rw plain (read_digits-Reads k (nothing (c ∷ cs) k) (inr (ground arith)))
]

read_string-Reads : (c : ℕ) (cs : Text) (k : Cursor) → Ensures Reads (read_string (c ∷ cs) k)
unfolding read_string
read_string-Reads c cs k =
    Ensures-bind (read_string_body-Consumes k false cs (read_char (c ∷ cs) k))
      λ r _. holds (omega arith)

read_special_token-Reads :
    (marker c : ℕ) (cs : Text) (k : Cursor) → Ensures Reads (read_special_token marker (c ∷ cs) k)
unfolding read_special_token
read_special_token-Reads marker c cs k =
    Ensures-if (not (is_letter_char (current_char cs))) (λ _. rejected _ _)
      λ _. holds (and_then-Reads (read_one (c ∷ cs) k) (read_special_name marker) (omega arith))

read_identifier-Reads :
    (c : ℕ) (cs : Text) (k : Cursor) → is_letter_char c ≡ true → Reads (read_identifier (c ∷ cs) k)
unfolding read_identifier
read_identifier-Reads c cs k h =
    read_while-Reads is_letter_or_digit_char c cs k (unfold is_letter_or_digit_char in rw h)

-- A lexeme read from `src`: it stands in front of what is left, and is not empty.
abbrev pub IsLexed : Text → Cursor → Lexeme → Type 0
IsLexed src k l = Consumes src k l.1 × Reads l.1

typed-IsLexed :
    (t : TokenType) (src : Text) (k : Cursor) {r : Result Read}
    → Ensures (Consumes src k) r
    → Ensures Reads r
    → Ensures (IsLexed src k) (typed t r)
typed-IsLexed t src k h g = Ensures-bind (Ensures-both h g) λ x p. holds p

punctuation-IsLexed :
    (c : ℕ) (cs : Text) (k : Cursor) (o : Option TokenType) (message : Text)
    → Ensures
        (IsLexed (c ∷ cs) k)
        (elim o [ none ↦ failed message (location k) | some t ↦ ok (t, read_one (c ∷ cs) k) ])
punctuation-IsLexed c cs k none message = rejected message (location k)
punctuation-IsLexed c cs k (some t) message = holds (read_one-Consumes (c ∷ cs) k, omega arith)

pub read_lexeme-IsLexed :
    (c : ℕ) (cs : Text) (k : Cursor) → Ensures (IsLexed (c ∷ cs) k) (read_lexeme c cs k)
unfolding read_lexeme
read_lexeme-IsLexed c cs k =
    Ensures-if (is_letter_char c)
      (λ h. holds (read_identifier-Consumes (c ∷ cs) k, read_identifier-Reads c cs k h))
      λ _.
        Ensures-if (is_digit_char c || (c == b'-' && is_digit_char (current_char cs)))
          (λ h.
            typed-IsLexed number _ k (read_number-Consumes (c ∷ cs) k) (read_number-Reads c cs k h))
          λ _.
            Ensures-if (c == b'"')
              (λ _.
                typed-IsLexed string _ k (read_string-Consumes c cs k) (read_string-Reads c cs k))
              λ _.
                Ensures-if (c == b'%') (λ _. special special_register b'%')
                  λ _.
                    Ensures-if (c == b'#') (λ _. special special_instruction b'#')
                      λ _. punctuation-IsLexed c cs k (punctuation c) _
  where
    special :
        (t : TokenType) (marker : ℕ)
        → Ensures (IsLexed (c ∷ cs) k) (typed t (read_special_token marker (c ∷ cs) k))
    special t marker =
        typed-IsLexed t _ k (read_special_token-Consumes marker _ k)
          (read_special_token-Reads marker c cs k)
