-- ===== src/Parser/Types.antt =====
-- src/parser.cpp: `expectIndexNumber`, `parseType` and `parseRegister`.
use psic.Prelude.{
  ℕ, ◌+◌, ◌*◌, Bool, true, false, ◌&&◌, ◌||◌, List, [], ◌∷◌, ◌++◌, Text, codes, ltb, if◌then◌else◌,
  Option, none, some, length, tail, all,
}
use psic.Source.{ok, failed}
use psic.Ast.{TypeNode, AccessorNode, index, field, RegNode}
use psic.Lexer.Token.{Token, identifier, number, left_bracket, right_bracket, star, dot, colon}
use psic.Lexer.Chars.{is_digit_char, is_hex_digit_char, is_octal_digit_char}
use psic.Lexer.Read.{has_prefix}
use psic.Parser.State.{
  Parser, pure, ◌>>=◌, ◌>>◌, when, check_token_type, check_token_type_ahead, check_keyword,
  consume_token, expect_token_type, raise_error, token_location, while,
}
use psic.Parser.Names.{is_primitive_type_name}
use psic.Parser.Literal.{hex_digit_value}

-- The number that `std::stoi` reads from digits of the base.
unfoldable pub digits_value : ℕ → ℕ → Text → ℕ
digits_value base value [] = value
digits_value base value (c ∷ digits) = digits_value base (value * base + hex_digit_value c) digits

-- `std::numeric_limits<int>::max()`.
abbrev pub int_max : ℕ
int_max = 0x7FFF_FFFF

-- `std::stoi`, whose `std::out_of_range` names the token.
unfoldable pub stoi : ℕ → Text → Text → Token → Parser ℕ
stoi base digits what token s =
    let value = digits_value base 0 digits in
    if ltb int_max value
    then failed (what ++ codes " is too large") (token_location token)
    else ok (value, s)

abbrev has_digits_behind_prefix : Text → Bool
has_digits_behind_prefix text = ltb 2 (length text)

-- The number that the token's text spells; an error other than that of `stoi` is raised where the
-- parser stands, behind the token.
unfoldable pub index_number : Text → Token → Parser ℕ
index_number what token =
    let text = token.text in
    let digits = tail (tail text) in
    if has_digits_behind_prefix text && has_prefix b'x' b'X' text
    then (if all is_hex_digit_char digits
        then stoi 16 digits what token
        else raise_error (what ++ codes " must be a plain whole number (no '-' or '.')"))
    else if has_digits_behind_prefix text && has_prefix b'o' b'O' text
    then (if all is_octal_digit_char digits
        then stoi 8 digits what token
        else raise_error (what ++ codes " must be an octal whole number"))
    else if all is_digit_char text
    then stoi 10 text what token
    else raise_error (what ++ codes " must be a plain whole number (no '-' or '.')")

unfoldable pub expect_index_number : Text → Parser ℕ
expect_index_number what = do token ← expect_token_type number what; index_number what token

-- The qualifiers that stand before a type: `const` and `volatile`, each at most once.
pub record Qualifiers : Type 0 where
  pub is_const : Bool
  pub is_volatile : Bool

-- A qualifier, if it has not been read before.
unfoldable pub read_once : Bool → Text → Qualifiers → Parser Qualifiers
read_once already message q s =
    if already then raise_error message s else (consume_token >> pure q) s

unfoldable pub parse_qualifier : Qualifiers → Parser Qualifiers
parse_qualifier q =
    when (check_keyword "const")
      (read_once q.is_const (codes "duplicate const qualifier") (record q { is_const = true }))
      (read_once q.is_volatile (codes "duplicate volatile qualifier")
        (record q { is_volatile = true }))

unfoldable pub parse_qualifiers : Parser Qualifiers
parse_qualifiers =
    while (λ s. check_keyword "const" s || check_keyword "volatile" s) parse_qualifier
      (record { is_const = false; is_volatile = false })

unfoldable pub parse_stars : Parser ℕ
parse_stars = while (check_token_type star) (λ n. consume_token >> pure (n + 1)) 0

unfoldable pub parse_view : Parser Bool
parse_view =
    when (λ s. check_token_type left_bracket s && check_token_type_ahead right_bracket 1 s)
      (do
        consume_token
        consume_token
        when (check_token_type star)
            (raise_error (
              codes "a view type cannot have pointer levels outside the view; put '*' before '[]'"))
            (pure true))
      (pure false)

unfoldable pub parse_alignment : Parser (Option ℕ)
parse_alignment =
    when (check_token_type colon)
      (do consume_token; n ← expect_index_number (codes "an alignment number"); pure (some n))
      (pure none)

unfoldable pub parse_type : Parser TypeNode
parse_type = do
  qualifiers ← parse_qualifiers
  base ← expect_token_type identifier (codes "a type name")
  stars ← parse_stars
  view ← parse_view
  align ← parse_alignment
  pure (record {
    base_name = base.text;
    pointer_level = stars;
    alignment = align;
    is_primitive = is_primitive_type_name base.text;
    is_view = view;
    is_const = qualifiers.is_const;
    is_volatile = qualifiers.is_volatile;
  })

unfoldable pub parse_accessor : List AccessorNode → Parser (List AccessorNode)
parse_accessor accessors =
    when (check_token_type left_bracket)
      (do
        consume_token
        n ← expect_index_number (codes "an array index")
        expect_token_type right_bracket (codes "']'")
        pure (accessors ++ (index n ∷ [])))
      (do
        consume_token
        name ← expect_token_type identifier (codes "a field name")
        pure (accessors ++ (field name.text ∷ [])))

unfoldable pub parse_register : Parser RegNode
parse_register = do
  name ← expect_token_type identifier (codes "a register name")
  accessors ←
      while (λ s. check_token_type left_bracket s || check_token_type dot s) parse_accessor []
  pure (record { name = name.text; accessors = accessors })
