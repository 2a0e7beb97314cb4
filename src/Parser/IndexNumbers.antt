-- ===== src/Parser/IndexNumbers.antt =====
-- `expectIndexNumber` of src/parser.cpp: the spellings that it reads, against those of
-- `parseSignedIntegerLiteral`.
use psic.Prelude.{
  not, ℕ, ◌≤◌, ◌≡◌, ◌↔◌, refl, sym, ◌∙◌, Bool, true, false, ◌&&◌, ◌||◌, List, [], ◌∷◌, ◌++◌, Text,
  codes, ltb, all, length, ◌*◌, ◌+◌, tail, arith, if◌then◌else◌, Bool-cases, inl, inr, some, pos,
  and-eq-true,
}
use psic.Source.{ok}
use psic.Lexer.Token.{Token, number}
use psic.Lexer.Chars.{is_digit_char, is_hex_digit_char, is_octal_digit_char}
use psic.Lexer.Read.{has_prefix}
use psic.Parser.State.{State, thrown, raise_error, expect_token_type, consume_token, same_type}
use psic.Parser.Literal.{
  digit_value, hex_digit_value, is_negative, base_and_digits, parse_signed_integer_literal,
}
use psic.Parser.Numbers.{is_digit_of, digit, written, read_in, parse_signed_integer_literal_lem}
use psic.Parser.Types.{int_max, digits_value, stoi, index_number, expect_index_number}

-- The digits write the number in the base.
abbrev Spells : ℕ → Text → ℕ → Type 0
Spells base digits n = (all (is_digit_of base) digits ≡ true) × (written base digits 0 ≡ n)

hex_digit : (c : ℕ) → is_hex_digit_char c ≡ is_digit_of 16 c
unfolding is_hex_digit_char is_digit_char digit_value
hex_digit c = ground arith

octal_digit : (c : ℕ) → is_octal_digit_char c ≡ is_digit_of 8 c
unfolding is_octal_digit_char digit_value
octal_digit c = ground arith

plain_digit : (c : ℕ) → is_digit_char c ≡ is_digit_of 10 c
unfolding is_digit_char digit_value
plain_digit c = ground arith

digit-same : (base c : ℕ) → is_digit_of base c ≡ true → hex_digit_value c ≡ digit c
unfolding digit_value hex_digit_value
digit-same base c h = ground arith

all-same : {p q : ℕ → Bool} → ((c : ℕ) → p c ≡ q c) → (digits : Text) → all p digits ≡ all q digits
all-same same [] = refl
all-same same (c ∷ digits) = rw (same c, all-same same digits) refl

digits_value-written :
    (base : ℕ) (digits : Text) (front : ℕ)
    → all (is_digit_of base) digits ≡ true
    → digits_value base front digits ≡ written base digits front
unfolding digits_value
digits_value-written base [] front h = refl
digits_value-written base (c ∷ digits) front h =
    let (this, others) = and-eq-true (is_digit_of base c) (all (is_digit_of base) digits) h in
    rw (digit-same base c this) (digits_value-written base digits (front * base + digit c) others)

-- One branch of the function: the digits behind the prefix of their base.
module _ (base : ℕ) (what : Text) (t : Token) (s : State) (n : ℕ) where
  stoi_iff :
      (digits : Text)
      → all (is_digit_of base) digits ≡ true
      → (stoi base digits what t s ≡ ok (n, s)) ↔ (Spells base digits n × (n ≤ int_max))
  unfolding stoi
  stoi_iff digits h = elim (Bool-cases (ltb int_max (written base digits 0))) [
    | inl over ↦
        rw (digits_value-written base digits 0 h, over)
          ((λ e. absurd (cc)), λ (spelled, fits). absurd (ground (arith, over, spelled.1, fits)))
    | inr fits ↦
        rw (digits_value-written base digits 0 h, fits)
          (
            (λ e.
                let same : written base digits 0 ≡ n = cc in
                ((h, same), ground (arith, fits, same))),
            λ (spelled, _). cc,
          )
  ]

  branch_iff :
      (p : ℕ → Bool)
      → ((c : ℕ) → p c ≡ is_digit_of base c)
      → (digits message : Text)
      → ((if all p digits then stoi base digits what t else raise_error message) s ≡ ok (n, s))
        ↔ (Spells base digits n × (n ≤ int_max))
  unfolding thrown
  branch_iff p same digits message =
      let all_same = all-same same digits in
      elim (Bool-cases (all p digits)) [
        | inl e ↦ rw e (stoi_iff digits (sym all_same ∙ e))
        | inr e ↦
            rw e
              ((λ h. absurd (cc)), λ (spelled, _). absurd (ground (arith, e, all_same, spelled.0)))
      ]

-- The same of the other reader of numbers, for a spelling without a sign.
literal_iff :
    (text : Text) (n : ℕ)
    → is_negative text ≡ false
    → ((parse_signed_integer_literal text ≡ some (pos n)) × (n ≤ int_max))
      ↔ (Spells (base_and_digits text).0 (base_and_digits text).1 n × (n ≤ int_max))
literal_iff text n h =
    let split = base_and_digits text in
    let is_read : parse_signed_integer_literal text ≡ read_in false split =
      ground (arith, h, parse_signed_integer_literal_lem text) in
    elim (Bool-cases (all (is_digit_of split.0) split.1)) [
      | inl e ↦ ground (arith, is_read, e)
      | inr e ↦ ground (arith, is_read, e)
    ]

-- A prefix of a base with nothing behind it.
abbrev pub is_bare_prefix : Text → Bool
is_bare_prefix text =
    (has_prefix b'x' b'X' text || has_prefix b'o' b'O' text) && not (ltb 2 (length text))

index_number_iff :
    (what : Text) (t : Token) (s : State) (n : ℕ)
    → is_bare_prefix t.text ≡ false
    → (index_number what t s ≡ ok (n, s))
      ↔ (Spells (base_and_digits t.text).0 (base_and_digits t.text).1 n × (n ≤ int_max))
unfolding index_number base_and_digits
index_number_iff what t s n full =
    let digits = tail (tail t.text) in
    let plain = what ++ codes " must be a plain whole number (no '-' or '.')" in
    let octal = what ++ codes " must be an octal whole number" in
    elim (Bool-cases (has_prefix b'x' b'X' t.text)) [
      | inl x ↦
          let long : ltb 2 (length t.text) ≡ true = ground (arith, x, full) in
          rw (x, long) (branch_iff 16 what t s n is_hex_digit_char hex_digit digits plain)
      | inr not_x ↦ elim (Bool-cases (has_prefix b'o' b'O' t.text)) [
        | inl o ↦
            let long : ltb 2 (length t.text) ≡ true = ground (arith, not_x, o, full) in
            rw (not_x, o, long)
              (branch_iff 8 what t s n is_octal_digit_char octal_digit digits octal)
        | inr not_o ↦ elim (Bool-cases (ltb 2 (length t.text))) [
          | inl long ↦
              rw (not_x, not_o, long)
                (branch_iff 10 what t s n is_digit_char plain_digit t.text plain)
          | inr short ↦
              rw (not_x, not_o, short)
                (branch_iff 10 what t s n is_digit_char plain_digit t.text plain)
        ]
      ]
    ]

-- A spelling with a minus sign has no base and is no plain number.
negative-digits : (text : Text) → is_negative text ≡ true → all (is_digit_of 10) text ≡ false
unfolding digit_value
negative-digits [] h = ground arith
negative-digits (c ∷ cs) h = ground arith

negative-base : (text : Text) → is_negative text ≡ true → base_and_digits text ≡ (10, text)
unfolding base_and_digits has_prefix
negative-base text h = ground arith

pub expect_number :
    (what : Text) (t u : Token) (ahead : List Token)
    → t.type ≡ number
    → expect_token_type number what (record { here = t; ahead = u ∷ ahead })
      ≡ ok (t, record { here = u; ahead = ahead })
unfolding expect_token_type consume_token same_type
expect_number what t u ahead e = rw e refl

-- A number token whose text is no prefix of a base with nothing behind it is read as the index n, and
-- nothing behind it is, if and only if its text has no minus sign, is n when it is read as an integer
-- literal, and n is at most the largest `int`.
pub expect_index_number_iff :
    (what : Text) (t u : Token) (ahead : List Token) (n : ℕ)
    → t.type ≡ number
    → is_bare_prefix t.text ≡ false
    → (expect_index_number what (record { here = t; ahead = u ∷ ahead })
        ≡ ok (n, record { here = u; ahead = ahead }))
      ↔ ((is_negative t.text ≡ false)
          × (parse_signed_integer_literal t.text ≡ some (pos n))
          × (n ≤ int_max))
unfolding expect_index_number
expect_index_number_iff what t u ahead n is_number full =
    let s : State = record { here = u; ahead = ahead } in
    let index = index_number_iff what t s n full in
    rw (expect_number what t u ahead is_number) (elim (Bool-cases (is_negative t.text)) [
      | inl e ↦
          let no_digits = negative-digits t.text e in
          let no_base = negative-base t.text e in
          (
            (λ h.
                absurd
                  (let spelled = (index.0 h).0 in ground (arith, no_digits, no_base, spelled.0))),
            λ h. absurd (ground (arith, e, h.0)),
          )
      | inr e ↦
          let literal = literal_iff t.text n e in
          (
            (λ h. let read = literal.1 (index.0 h) in (e, read.0, read.1)),
            λ (_, read, fits). index.1 (literal.0 (read, fits)),
          )
    ])
