-- ===== src/Parser/Total/Values.antt =====
-- How far `parseInstruction` and `parseValue` of src/parser.cpp go on in the tokens.
use psic.Prelude.{
  ℕ, zero, suc, ◌<◌, ◌≡◌, Bool, true, ◌&&◌, ◌||◌, not, [], ◌∷◌, Text, codes, arith, length, tail,
  Bool-cases, Option-cases, inl, inr, ◌==◌, text_eq, Option, none, some,
}
use psic.Source.{
  Result, ok, failed, out_of_fuel, Ensures, Ensures-if, Ensures-bind, holds, rejected,
}
use psic.Ast.{ValueNode, nil, cons}
use psic.Lexer.Token.{
  TokenType, Token, identifier, number, special_register, special_instruction, left_bracket,
  right_bracket, comma,
}
use psic.Lexer.Chars.{is_hex_digit_char}
use psic.Lexer.Cursor.{current_char, look_ahead_char}
use psic.Parser.State.{State, Parser, thrown, check_token_type, token_location}
use psic.Parser.Names.{is_instruction_keyword}
use psic.Parser.Literal.{
  decode_step, read_escape, hex_escape, simple_escape, decode, without_last, decode_string_escapes,
}
use psic.Parser.Value.{
  parse_instruction, literal_or, has_decimal_point, parse_number, parse_string, parse_array,
  parse_identifier_value, parse_value_with, parse_value_on, parse_value,
}
use psic.Parser.Progress.{
  Ends, Steps, Advances, pure-Steps, raise_error-Steps, weaken, expect_token_type-Advances,
  then-Steps, finally-Steps, while-Steps_below,
}
use psic.Parser.Total.Types.{consumes, parse_register-Advances}

check_left : (a b : Bool) → (a && b) ≡ true → a ≡ true
check_left a b h = ground arith

pub parse_instruction-Steps : Advances 1 parse_instruction
unfolding parse_instruction
parse_instruction-Steps s h =
    Ensures-if (check_token_type special_instruction s)
      (λ c. finally-Steps 1 s _ (consumes special_instruction s h c (cc)))
      λ _.
        Ensures-if (check_token_type identifier s && is_instruction_keyword s.here.text)
          (λ c. finally-Steps 1 s _ (consumes identifier s h (check_left _ _ c) (cc)))
          λ _. raise_error-Steps 1 _ s

literal_or-Advances :
    (message : Text) (token : Token) (o : Option ValueNode)
    → Advances 0 (literal_or message token o)
literal_or-Advances message token none s h = rejected _ _
literal_or-Advances message token (some v) s h = pure-Steps v s h

parse_number-Advances :
    (float_in_range : Text → Bool) (token : Token) → Advances 0 (parse_number float_in_range token)
unfolding parse_number
parse_number-Advances float_in_range token s h = elim (Bool-cases (has_decimal_point token.text)) [
  | inl e ↦ rw e (literal_or-Advances _ token _ s h)
  | inr e ↦ rw e (literal_or-Advances _ token _ s h)
]

-- A result that is not for want of fuel.
abbrev Settles : {A : Type 0} → Result A → Type 0
Settles m = Ensures (λ _. Unit {0}) m

thrown-Settles : {A : Type 0} (message : Text) (s : State) → Settles (thrown {A = A} message s)
unfolding thrown
thrown-Settles message s = rejected _ _

hex_escape-Settles : (s : State) (behind : Text) → Settles (hex_escape s behind)
unfolding hex_escape
hex_escape-Settles s behind =
    Ensures-if
      (is_hex_digit_char (current_char behind) && is_hex_digit_char (look_ahead_char behind))
      (λ _. holds tt) λ _. thrown-Settles _ s

read_escape-Settles : (s : State) (inner : Text) → Settles (read_escape s inner)
unfolding read_escape
read_escape-Settles s [] = thrown-Settles _ s
read_escape-Settles s (next ∷ behind) = elim (Option-cases (simple_escape next)) [
  | inl e ↦
      rw (e, read_escape)
        (Ensures-if (next == b'x') (λ _. hex_escape-Settles s behind) λ _. thrown-Settles _ s)
  | inr (b, e) ↦ rw (e, read_escape) (holds tt)
]

decode-Settles : (s : State) (skip : ℕ) (inner : Text) → Settles (decode s skip inner)
unfolding decode decode_step
decode-Settles s skip [] = holds tt
decode-Settles s (suc skip) (c ∷ inner) = decode-Settles s skip inner
decode-Settles s zero (c ∷ inner) =
    Ensures-bind (Ensures-if (not (c == b'\\')) (λ _. holds tt) λ _. read_escape-Settles s inner)
      λ e _. Ensures-bind (decode-Settles s e.0 inner) λ _ _. holds tt

parse_string-Advances : (token : Token) → Advances 0 (parse_string token)
unfolding parse_string decode_string_escapes
parse_string-Advances token s h = settled _ (decode-Settles s 0 (without_last (tail token.text)))
  where
    settled :
        (m : Result Text)
        → Settles m
        → Steps 0 s (elim m [
          | ok text ↦ ok (ValueNode.string text, s)
          | failed message _ ↦ failed message (token_location token)
          | out_of_fuel ↦ out_of_fuel
        ])
    settled m (holds _) = pure-Steps _ s h
    settled m (rejected message l) = rejected message _

-- `value` goes on from every state with fewer than `n` tokens ahead.
abbrev Below : ℕ → Parser ValueNode → Type 0
Below n value = (s : State) → Ends s → length s.ahead < n → Steps 1 s (value s)

parse_array-Steps :
    (n : ℕ) (value : Parser ValueNode) (s : State)
    → Below n value
    → Ends s
    → length s.ahead < n
    → Steps 0 s (parse_array value s)
unfolding parse_array
parse_array-Steps n value s ih h l =
    Ensures-if (check_token_type right_bracket s) (λ _. pure-Steps nil s h)
      λ _. then-Steps 0 0 s (weaken s (ih s h l)) λ x a.
        while-Steps_below n (check_token_type comma) _ (cons x.0 nil) x.1
          (λ vs t e m c.
            then-Steps 1 0 t (consumes comma t e c (cc))
              λ y b. finally-Steps 0 y.1 _ (weaken y.1 (ih y.1 b.ends (omega (arith, b.further)))))
          (omega (arith, a.further)) a.ends

identifier_value-Steps :
    (s : State)
    → Ends s
    → check_token_type identifier s ≡ true
    → Steps 1 s (parse_identifier_value s)
unfolding parse_identifier_value
identifier_value-Steps s h c =
    let here = consumes identifier s h c (cc) in
    Ensures-if (text_eq s.here.text (codes "true") || text_eq s.here.text (codes "false"))
      (λ _. finally-Steps 1 s _ here)
      λ _.
        Ensures-if (text_eq s.here.text (codes "null") || text_eq s.here.text (codes "nullptr"))
          (λ _. finally-Steps 1 s _ here) λ _. finally-Steps 1 s _ (parse_register-Advances s h)

parse_value_with-Steps :
    (float_in_range : Text → Bool) (n : ℕ) (value : Parser ValueNode) (s : State)
    → Below n value
    → Ends s
    → length s.ahead < suc n
    → Steps 1 s (parse_value_with float_in_range value s)
unfolding parse_value_with
parse_value_with-Steps float_in_range n value s ih h l =
    Ensures-if (check_token_type number s)
      (λ c.
        then-Steps 1 0 s (consumes number s h c (cc))
          λ x a. parse_number-Advances float_in_range x.0 x.1 a.ends)
      λ _.
        Ensures-if (check_token_type TokenType.string s)
          (λ c.
            then-Steps 1 0 s (consumes TokenType.string s h c (cc))
              λ x a. parse_string-Advances x.0 x.1 a.ends)
          λ _.
            Ensures-if (check_token_type special_register s)
              (λ c. finally-Steps 1 s _ (consumes special_register s h c (cc)))
              λ _.
                Ensures-if (check_token_type left_bracket s)
                  (λ c. then-Steps 1 0 s (consumes left_bracket s h c (cc)) λ x a.
                    then-Steps 0 0 x.1
                      (parse_array-Steps n value x.1 ih a.ends (omega (arith, a.further)))
                      λ y b.
                        finally-Steps 0 y.1 _
                          (weaken y.1 (expect_token_type-Advances right_bracket _ (cc) y.1 b.ends)))
                  λ _.
                    Ensures-if (check_token_type identifier s) (identifier_value-Steps s h)
                      λ _. raise_error-Steps 1 _ s

parse_value_on-Steps :
    (float_in_range : Text → Bool) (f : ℕ) (s : State)
    → Ends s
    → length s.ahead < f
    → Steps 1 s (parse_value_on float_in_range f s)
unfolding parse_value_on
parse_value_on-Steps float_in_range zero s h l = absurd (omega arith)
parse_value_on-Steps float_in_range (suc f) s h l =
    parse_value_with-Steps float_in_range f (parse_value_on float_in_range f) s
      (λ t e m. parse_value_on-Steps float_in_range f t e m) h l

pub parse_value-Advances : (float_in_range : Text → Bool) → Advances 1 (parse_value float_in_range)
unfolding parse_value
parse_value-Advances float_in_range s h =
    parse_value_on-Steps float_in_range (suc (length s.ahead)) s h (omega arith)
