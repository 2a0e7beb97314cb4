-- ===== src/Lexer/Shapes.antt =====
-- What each reader of src/lexer.cpp reads, by the grammar.
use psic.Prelude.{
  ℕ, ◌<◌, ◌≡◌, refl, ap, inl, inr, Bool, true, false, ◌&&◌, ◌||◌, not, [], ◌∷◌, ◌++◌, Text, arith,
  ◌==◌, length, append_assoc, append-nil, all, Bool-cases, Option, none, some,
}
use psic.Source.{
  Result, ok, failed, Ensures, Ensures-if, Ensures-bind, Ensures-map, holds, rejected,
}
use psic.Lexer.Token.{TokenType, identifier, number, string, special_register, special_instruction}
use psic.Lexer.Chars.{
  is_digit_char, is_hex_digit_char, is_octal_digit_char, is_letter_char, is_letter_or_digit_char,
}
use psic.Lexer.Cursor.{Cursor, current_char, read_char}
use psic.Lexer.Read.{
  Read, read_one, read_while, and_then, location, read_identifier, read_fraction, has_prefix,
  read_based, read_digits, read_number, read_string_body, read_string, read_special_name,
  read_special_token,
}
use psic.Lexer.Tokenize.{Lexeme, typed, punctuation, read_lexeme}
use psic.Lexer.Consumes.{Consumes, read_special_name-Consumes, read_while-Consumes}
use psic.Lexer.Grammar.{
  Stops, AreDigits, IsDecimal, starts_fraction, IsMagnitude, hexadecimal, octal, whole, fraction,
  IsNumber, negative, positive, IsStringBody, closing, inside, is_special_char, AreSpecialChars,
  IsToken, identifier_token, number_token, string_token, register_token, instruction_token,
  punctuation_token,
}

record Run (p : ℕ → Bool) (r : Read) : Type 0 where
  taken : all p r.text ≡ true
  stops : Stops p r.rest

read_while-Run : (p : ℕ → Bool) (src : Text) (k : Cursor) → Run p (read_while p src k)
unfolding read_while
read_while-Run p [] k = record { taken = refl; stops = tt }
read_while-Run p (c ∷ cs) k = elim (Bool-cases (p c)) [
  | inl h ↦
      let more = read_while-Run p cs (read_char (c ∷ cs) k) in
      rw h (record { taken = rw h more.taken; stops = more.stops })
  | inr h ↦ rw h (record { taken = refl; stops = h })
]

-- At a character of `p` the loop reads at least that one.
read_while-AreDigits :
    (p : ℕ → Bool) (src : Text) (k : Cursor)
    → p 0 ≡ false
    → p (current_char src) ≡ true
    → AreDigits p (read_while p src k).text
read_while-AreDigits p src k h e = (Run.taken (read_while-Run p src k), reads src e)
  where
    reads : (s : Text) → p (current_char s) ≡ true → 0 < length (read_while p s k).text
    reads [] e = cc
    reads (c ∷ cs) e = unfold read_while in rw e (omega arith)

-- The text behind the sign, with what is left.
record IsSigned (st : Text) (r : Read) : Type 0 where
  magnitude : Text
  splits : r.text ≡ st ++ magnitude
  fits : IsMagnitude r.rest magnitude

read_based-lem :
    (p : ℕ → Bool) (message st : Text) (z x : ℕ) (s : Text) (at_start k : Cursor)
    → p 0 ≡ false
    → ((rest ds : Text) → AreDigits p ds → Stops p rest → IsMagnitude rest (z ∷ x ∷ ds))
    → Ensures
        (IsSigned st)
        (read_based p message at_start (record { text = st; rest = z ∷ x ∷ s; cursor = k }))
unfolding read_based
read_based-lem p message st z x s at_start k h f =
    let k' = read_char (x ∷ s) (read_char (z ∷ x ∷ s) k) in
    let digits = read_while p s k' in
    Ensures-if (not (p (current_char s))) (λ _. rejected message (location at_start))
      λ e. holds (record {
        magnitude = z ∷ x ∷ digits.text;
        splits = simp append_assoc;
        fits =
            f digits.rest digits.text (read_while-AreDigits p s k' h (ground arith))
              (Run.stops (read_while-Run p s k'));
      })

whole-lem :
    (ds src : Text)
    → AreDigits is_digit_char ds
    → IsDecimal (ds ++ src)
    → Stops is_digit_char src
    → starts_fraction src ≡ false
    → IsMagnitude src (ds ++ [])
whole-lem ds src a d s h = rw append-nil (whole a d s h)

fraction-lem :
    (ds src : Text) (k : Cursor)
    → AreDigits is_digit_char ds
    → IsDecimal (ds ++ src)
    → Stops is_digit_char src
    → IsMagnitude (read_fraction src k).rest (ds ++ (read_fraction src k).text)
unfolding read_fraction
fraction-lem ds [] k a d s = whole-lem ds [] a d s refl
fraction-lem ds (c ∷ cs) k a d s = elim (Bool-cases (starts_fraction (c ∷ cs))) [
  | inl e ↦
      let k' = read_char (c ∷ cs) k in
      let es = read_while is_digit_char cs k' in
      let src-eq =
        ap (λ t. ds ++ (c ∷ t)) (Consumes.splits (read_while-Consumes is_digit_char cs k')) in
      rw e (
        fraction ds es.text a (rw append_assoc (rw (src-eq) at d)) (ground arith)
          (read_while-AreDigits is_digit_char cs k' (unfold is_digit_char in refl) (ground arith))
          (Run.stops (read_while-Run is_digit_char cs k')) refl)
  | inr e ↦ rw e (whole-lem ds (c ∷ cs) a d s e)
]

read_decimal-lem :
    (st src : Text) (k : Cursor)
    → IsDecimal src
    → is_digit_char (current_char src) ≡ true
    → IsSigned st (
        and_then
          (and_then (record { text = st; rest = src; cursor = k }) (read_while is_digit_char))
          read_fraction)
read_decimal-lem st src k d h =
    let digits = read_while is_digit_char src k in
    let f = read_fraction digits.rest digits.cursor in
    record {
      magnitude = digits.text ++ f.text;
      splits = append_assoc st digits.text f.text;
      fits =
          fraction-lem digits.text digits.rest digits.cursor
            (read_while-AreDigits is_digit_char src k (unfold is_digit_char in refl) h)
            (rw (← Consumes.splits (read_while-Consumes is_digit_char src k)) d)
            (Run.stops (read_while-Run is_digit_char src k));
    }

-- A constructor of `IsMagnitude` for the base whose letter is `lower` or `upper`.
abbrev Based : (ℕ → Bool) → ℕ → ℕ → Type 0
Based p lower upper =
    (z x : ℕ) (rest ds : Text)
    → z ≡ b'0'
    → (x == lower || x == upper) ≡ true
    → AreDigits p ds
    → Stops p rest
    → IsMagnitude rest (z ∷ x ∷ ds)

prefixed-lem :
    (p : ℕ → Bool) (message st src : Text) (lower upper : ℕ) (at_start k : Cursor)
    → p 0 ≡ false
    → 0 < lower
    → 0 < upper
    → Based p lower upper
    → has_prefix lower upper src ≡ true
    → Ensures
        (IsSigned st)
        (read_based p message at_start (record { text = st; rest = src; cursor = k }))
prefixed-lem p message st [] lower upper at_start k h l u f e =
    absurd (unfold has_prefix in ground arith)
prefixed-lem p message st (z ∷ []) lower upper at_start k h l u f e =
    absurd (unfold has_prefix in ground arith)
prefixed-lem p message st (z ∷ x ∷ s) lower upper at_start k h l u f e =
    read_based-lem p message st z x s at_start k h λ rest ds.
      f z x rest ds (unfold has_prefix in ground arith) (unfold has_prefix in ground arith)

read_digits-lem :
    (st src : Text) (at_start k : Cursor)
    → is_digit_char (current_char src) ≡ true
    → Ensures (IsSigned st) (read_digits at_start (record { text = st; rest = src; cursor = k }))
unfolding read_digits
read_digits-lem st src at_start k h =
    Ensures-if (has_prefix b'x' b'X' src)
      (prefixed-lem is_hex_digit_char _ st src b'x' b'X' at_start k refl (omega arith) (omega arith)
        λ z x rest ds. hexadecimal)
      λ h₁.
        Ensures-if (has_prefix b'o' b'O' src)
          (prefixed-lem is_octal_digit_char _ st src b'o' b'O' at_start k refl (omega arith)
            (omega arith) λ z x rest ds. octal)
          λ h₂. holds (read_decimal-lem st src k (h₁, h₂) h)

IsNumber-negative : (c : ℕ) → c ≡ b'-' → (r : Read) → IsSigned (c ∷ []) r → IsNumber r.rest r.text
IsNumber-negative c e r h = rw (IsSigned.splits h) (negative e (IsSigned.fits h))

IsNumber-positive : (r : Read) → IsSigned [] r → IsNumber r.rest r.text
IsNumber-positive r h = rw (IsSigned.splits h) (positive (IsSigned.fits h))

behind_minus :
    (c : ℕ) (cs : Text)
    → (is_digit_char c || (c == b'-' && is_digit_char (current_char cs))) ≡ true
    → (c == b'-') ≡ true
    → is_digit_char (current_char cs) ≡ true
unfolding is_digit_char
behind_minus c cs h e = ground arith

read_number-IsNumber :
    (c : ℕ) (cs : Text) (k : Cursor)
    → (is_digit_char c || (c == b'-' && is_digit_char (current_char cs))) ≡ true
    → Ensures (λ r. IsNumber r.rest r.text) (read_number (c ∷ cs) k)
unfolding read_number
read_number-IsNumber c cs k h = elim (Bool-cases (c == b'-')) [
  | inl e ↦ rw e (
      Ensures-map (IsNumber-negative c (ground arith))
        (read_digits-lem (c ∷ []) cs k (read_char (c ∷ cs) k) (behind_minus c cs h e)))
  | inr e ↦ rw e (Ensures-map IsNumber-positive (read_digits-lem [] (c ∷ cs) k k (ground arith)))
]

read_string_body-IsStringBody :
    (at_start : Cursor) (escaped : Bool) (src : Text) (k : Cursor)
    → Ensures (λ r. IsStringBody escaped r.text) (read_string_body at_start escaped src k)
unfolding read_string_body
read_string_body-IsStringBody at_start escaped [] k = rejected _ _
read_string_body-IsStringBody at_start escaped (c ∷ cs) k =
    Ensures-if (c == b'"' && not escaped) (λ e. holds (closing e))
      λ e.
        Ensures-bind (read_string_body-IsStringBody at_start (c == b'\\' && not escaped) cs _)
          λ r h. holds (inside e h)

abbrev IsSpecialName : ℕ → Read → Type 0
IsSpecialName marker r = AreSpecialChars marker r.text r.rest

IsSpecialName-cons :
    (marker c : ℕ) (cs : Text) (r : Read)
    → cs ≡ r.text ++ r.rest
    → is_special_char marker c cs ≡ true
    → IsSpecialName marker r
    → IsSpecialName marker (record r { text = c ∷ r.text })
IsSpecialName-cons marker c cs r s e h = (rw (← s) e, h)

read_special_name-IsSpecialName :
    (marker : ℕ) (src : Text) (k : Cursor) → IsSpecialName marker (read_special_name marker src k)
unfolding read_special_name
read_special_name-IsSpecialName marker [] k = tt
read_special_name-IsSpecialName marker (c ∷ cs) k =
    let dotted = marker == b'#' && c == b'.' && is_letter_char (current_char cs) in
    let k' = read_char (c ∷ cs) k in
    let r = read_special_name marker cs k' in
    let more = λ (e : is_special_char marker c cs ≡ true).
      IsSpecialName-cons marker c cs r (Consumes.splits (read_special_name-Consumes marker cs k')) e
        (read_special_name-IsSpecialName marker cs k') in
    elim (Bool-cases (is_letter_or_digit_char c)) [
      | inl e ↦ rw e (more (ground arith))
      | inr e ↦ rw e (elim (Bool-cases dotted) [
        | inl e' ↦ rw e' (more (ground arith))
        | inr e' ↦ rw e' (ground arith)
      ])
    ]

letter_first :
    (marker c : ℕ) (cs : Text) (k : Cursor)
    → is_letter_char c ≡ true
    → (name : Text) × ((read_special_name marker (c ∷ cs) k).text ≡ c ∷ name)
unfolding read_special_name is_letter_or_digit_char
letter_first marker c cs k h = ((read_special_name marker cs (read_char (c ∷ cs) k)).text, rw h)

abbrev TokenRead : TokenType → Read → Type 0
TokenRead t r = IsToken r.rest t r.text

special-TokenRead :
    (t : TokenType) (marker c : ℕ) (cs : Text) (k : Cursor)
    → ((d : ℕ) (name rest : Text)
        → is_letter_char d ≡ true
        → AreSpecialChars marker (d ∷ name) rest
        → IsToken rest t (c ∷ d ∷ name))
    → Ensures (TokenRead t) (read_special_token marker (c ∷ cs) k)
unfolding read_special_token
special-TokenRead t marker c [] k f = rejected _ _
special-TokenRead t marker c (d ∷ cs) k f =
    Ensures-if (not (is_letter_char d)) (λ _. rejected _ _)
      λ h.
        let k' = read_char (c ∷ d ∷ cs) k in
        let r = read_special_name marker (d ∷ cs) k' in
        let (name, e) = letter_first marker d cs k' (ground arith) in
        let named = read_special_name-IsSpecialName marker (d ∷ cs) k' in
        holds (rw e (f d name r.rest (ground arith) (rw e at named)))

word-TokenRead :
    (c : ℕ) (cs : Text) (k : Cursor)
    → is_letter_char c ≡ true
    → TokenRead identifier (read_identifier (c ∷ cs) k)
unfolding read_identifier read_while
word-TokenRead c cs k h =
    let word = read_while-Run is_letter_or_digit_char cs (read_char (c ∷ cs) k) in
    rw (letter_in h) (identifier_token h word.taken word.stops)
  where
    letter_in : is_letter_char c ≡ true → is_letter_or_digit_char c ≡ true
    letter_in h = unfold is_letter_or_digit_char in ground arith

string-TokenRead :
    (c : ℕ) (cs : Text) (k : Cursor)
    → c ≡ b'"'
    → Ensures (TokenRead string) (read_string (c ∷ cs) k)
unfolding read_string
string-TokenRead c cs k e =
    Ensures-bind (read_string_body-IsStringBody k false cs (read_char (c ∷ cs) k))
      λ r h. holds (string_token e h)

abbrev pub LexemeIsToken : Lexeme → Type 0
LexemeIsToken l = TokenRead l.0 l.1

typed-IsToken :
    (t : TokenType) {r : Result Read} → Ensures (TokenRead t) r → Ensures LexemeIsToken (typed t r)
typed-IsToken t h = Ensures-bind h λ x p. holds p

punctuation-IsToken :
    (c : ℕ) (cs : Text) (k : Cursor) (o : Option TokenType) (message : Text)
    → punctuation c ≡ o
    → Ensures LexemeIsToken
        (elim o [ none ↦ failed message (location k) | some t ↦ ok (t, read_one (c ∷ cs) k) ])
punctuation-IsToken c cs k none message e = rejected message (location k)
punctuation-IsToken c cs k (some t) message e = holds (punctuation_token e)

-- The body of the loop reads a token of the grammar, whatever the source.
pub read_lexeme-IsToken :
    (c : ℕ) (cs : Text) (k : Cursor) → Ensures LexemeIsToken (read_lexeme c cs k)
unfolding read_lexeme
read_lexeme-IsToken c cs k =
    Ensures-if (is_letter_char c) (λ h. holds (word-TokenRead c cs k h))
      λ _.
        Ensures-if (is_digit_char c || (c == b'-' && is_digit_char (current_char cs)))
          (λ h.
            typed-IsToken number (Ensures-map (λ r. number_token) (read_number-IsNumber c cs k h)))
          λ _.
            Ensures-if (c == b'"')
              (λ h. typed-IsToken string (string-TokenRead c cs k (ground arith)))
              λ _.
                Ensures-if (c == b'%')
                  (λ h. typed-IsToken special_register (
                    special-TokenRead special_register b'%' c cs k
                      λ d name rest. register_token (ground arith)))
                  λ _.
                    Ensures-if (c == b'#')
                      (λ h. typed-IsToken special_instruction (
                        special-TokenRead special_instruction b'#' c cs k
                          λ d name rest. instruction_token (ground arith)))
                      λ _. punctuation-IsToken c cs k (punctuation c) _ refl
