-- ===== src/Parser/Total/Types.antt =====
-- How far `expectIndexNumber`, `parseType` and `parseRegister` of src/parser.cpp go on in the tokens.
use psic.Prelude.{
  ℕ, ◌+◌, ◌≡◌, ◌≢◌, Bool, true, false, ◌&&◌, ◌||◌, List, [], ◌++◌, Text, codes, String,
  if◌then◌else◌, arith, length, none, tail, all, ltb,
}
use psic.Source.{Ensures-if, rejected}
use psic.Ast.{AccessorNode}
use psic.Lexer.Token.{
  TokenType, Token, identifier, number, left_bracket, right_bracket, star, dot, colon, end_of_file,
}
use psic.Lexer.Chars.{is_digit_char, is_hex_digit_char, is_octal_digit_char}
use psic.Lexer.Read.{has_prefix}
use psic.Parser.State.{
  State, Parser, pure, ◌>>◌, check_token_type, check_token_type_ahead, check_keyword, consume_token,
  raise_error,
}
use psic.Parser.Types.{
  stoi, index_number, expect_index_number, Qualifiers, read_once, parse_qualifier, parse_qualifiers,
  parse_stars, parse_view, parse_alignment, parse_type, parse_accessor, parse_register,
  digits_value, int_max,
}
use psic.Parser.Progress.{
  Ends, Steps, Advances, not_at_end, pure-Steps, raise_error-Steps, weaken, consume_token-Steps,
  consume_token-Steps_one, expect_token_type-Advances, then-Steps, finally-Steps, while-Steps,
}

and_false : (a b : Bool) → (a && b) ≡ true → a ≡ true
and_false a b h = ground arith

pub keyword_here :
    (word : String) (s : State) → check_keyword word s ≡ true → s.here.type ≢ end_of_file
keyword_here word s h = not_at_end identifier s (and_false _ _ h) (cc)

stoi-Advances :
    (base : ℕ) (digits what : Text) (token : Token) → Advances 0 (stoi base digits what token)
unfolding stoi
stoi-Advances base digits what token s h =
    Ensures-if (ltb int_max (digits_value base 0 digits)) (λ _. rejected _ _) λ _. pure-Steps _ s h

if-Advances :
    {A : Type 0} (b : Bool) {p q : Parser A} (n : ℕ)
    → Advances n p
    → Advances n q
    → Advances n (if b then p else q)
if-Advances true n hp hq = hp
if-Advances false n hp hq = hq

raise-Advances : {A : Type 0} (n : ℕ) (message : Text) → Advances n (raise_error {A = A} message)
raise-Advances n message s h = raise_error-Steps n message s

index_number-Advances : (what : Text) (token : Token) → Advances 0 (index_number what token)
unfolding index_number
index_number-Advances what token =
    if-Advances (ltb 2 (length token.text) && has_prefix b'x' b'X' token.text) 0
      (if-Advances (all is_hex_digit_char digits) 0 (stoi-Advances 16 digits what token)
        (raise-Advances 0 plain))
      (if-Advances (ltb 2 (length token.text) && has_prefix b'o' b'O' token.text) 0
        (if-Advances (all is_octal_digit_char digits) 0 (stoi-Advances 8 digits what token)
          (raise-Advances 0 (what ++ codes " must be an octal whole number")))
        (if-Advances (all is_digit_char token.text) 0 (stoi-Advances 10 token.text what token)
          (raise-Advances 0 plain)))
  where
    digits : Text
    digits = tail (tail token.text)

    plain : Text
    plain = what ++ codes " must be a plain whole number (no '-' or '.')"

expect_index_number-Advances : (what : Text) → Advances 1 (expect_index_number what)
unfolding expect_index_number
expect_index_number-Advances what s h =
    then-Steps 1 0 s (expect_token_type-Advances number what (cc) s h)
      λ x a. index_number-Advances what x.0 x.1 a.ends

read_once-Steps :
    (already : Bool) (message : Text) (q : Qualifiers) (s : State)
    → Ends s
    → s.here.type ≢ end_of_file
    → Steps 1 s (read_once already message q s)
unfolding read_once
read_once-Steps already message q s h n =
    Ensures-if already (λ _. raise_error-Steps 1 message s)
      λ _. finally-Steps 1 s _ (consume_token-Steps_one s h n)

pub or_right : (a b : Bool) → (a || b) ≡ true → a ≡ false → b ≡ true
or_right a b h c = ground arith

parse_qualifier-Steps :
    (q : Qualifiers) (s : State)
    → Ends s
    → (check_keyword "const" s || check_keyword "volatile" s) ≡ true
    → Steps 1 s (parse_qualifier q s)
unfolding parse_qualifier
parse_qualifier-Steps q s h e =
    Ensures-if (check_keyword "const" s)
      (λ c.
        read_once-Steps q.is_const _ (record q { is_const = true }) s h (keyword_here "const" s c))
      λ c.
        read_once-Steps q.is_volatile _ (record q { is_volatile = true }) s h
          (keyword_here "volatile" s (or_right _ _ e c))

parse_qualifiers-Advances : Advances 0 parse_qualifiers
unfolding parse_qualifiers
parse_qualifiers-Advances s h =
    while-Steps _ parse_qualifier (record { is_const = false; is_volatile = false }) s
      parse_qualifier-Steps h

pub consumes :
    (t : TokenType) (s : State)
    → Ends s
    → check_token_type t s ≡ true
    → t ≢ end_of_file
    → Steps 1 s (consume_token s)
consumes t s h c n = consume_token-Steps_one s h (not_at_end t s c n)

parse_stars-Advances : Advances 0 parse_stars
unfolding parse_stars
parse_stars-Advances s h =
    while-Steps (check_token_type star) (λ n. consume_token >> pure (n + 1)) 0 s
      (λ n t e c. finally-Steps 1 t _ (consumes star t e c (cc))) h

parse_view-Advances : Advances 0 parse_view
unfolding parse_view
parse_view-Advances s h =
    Ensures-if (check_token_type left_bracket s && check_token_type_ahead right_bracket 1 s)
      (λ c. then-Steps 0 0 s (consume_token-Steps s h) λ x a.
        then-Steps 0 0 x.1 (consume_token-Steps x.1 a.ends) λ y b.
          Ensures-if (check_token_type star y.1) (λ _. raise_error-Steps 0 _ y.1)
            λ _. pure-Steps true y.1 b.ends)
      λ c. pure-Steps false s h

parse_alignment-Advances : Advances 0 parse_alignment
unfolding parse_alignment
parse_alignment-Advances s h =
    Ensures-if (check_token_type colon s)
      (λ c.
        then-Steps 0 0 s (consume_token-Steps s h)
          λ x a. finally-Steps 0 x.1 _ (weaken x.1 (expect_index_number-Advances _ x.1 a.ends)))
      λ c. pure-Steps none s h

pub parse_type-Advances : Advances 1 parse_type
unfolding parse_type
parse_type-Advances s h = then-Steps 0 1 s (parse_qualifiers-Advances s h) λ x a.
    then-Steps 1 0 x.1 (expect_token_type-Advances identifier _ (cc) x.1 a.ends) λ y b.
      then-Steps 0 0 y.1 (parse_stars-Advances y.1 b.ends) λ z c.
        then-Steps 0 0 z.1 (parse_view-Advances z.1 c.ends)
          λ w d. finally-Steps 0 w.1 _ (parse_alignment-Advances w.1 d.ends)

parse_accessor-Steps :
    (accessors : List AccessorNode) (s : State)
    → Ends s
    → (check_token_type left_bracket s || check_token_type dot s) ≡ true
    → Steps 1 s (parse_accessor accessors s)
unfolding parse_accessor
parse_accessor-Steps accessors s h e =
    Ensures-if (check_token_type left_bracket s)
      (λ c. then-Steps 1 0 s (consumes left_bracket s h c (cc)) λ x a.
        then-Steps 0 0 x.1 (weaken x.1 (expect_index_number-Advances _ x.1 a.ends)) λ y b.
          finally-Steps 0 y.1 _
            (weaken y.1 (expect_token_type-Advances right_bracket _ (cc) y.1 b.ends)))
      λ c. then-Steps 1 0 s (consumes dot s h (or_right _ _ e c) (cc)) λ x a.
        finally-Steps 0 x.1 _ (weaken x.1 (expect_token_type-Advances identifier _ (cc) x.1 a.ends))

pub parse_register-Advances : Advances 1 parse_register
unfolding parse_register
parse_register-Advances s h =
    then-Steps 1 0 s (expect_token_type-Advances identifier _ (cc) s h)
      λ x a. finally-Steps 0 x.1 _ (while-Steps _ parse_accessor [] x.1 parse_accessor-Steps a.ends)
