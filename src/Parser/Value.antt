-- ===== src/Parser/Value.antt =====
-- src/parser.cpp: `parseInstruction` and `parseValue`.
use psic.Prelude.{
  ℕ, zero, suc, Bool, true, false, ◌&&◌, ◌||◌, not, [], ◌∷◌, Text, codes, text_eq, if◌then◌else◌,
  Option, none, some, length, tail, ◌==◌,
}
use mathlib.Core.Option
use psic.Source.{ok, failed, out_of_fuel}
use psic.Ast.{
  ValueNode, number_int, number_float, register, array, bool, null, Values, nil, cons, InstNode,
}
use psic.Ast
use psic.Lexer.Token.{
  Token, TokenType, identifier, number, special_register, special_instruction, left_bracket,
  right_bracket, comma,
}
use psic.Lexer.Read.{has_prefix}
use psic.Parser.State.{
  Parser, pure, ◌>>=◌, ◌>>◌, when, check_token_type, consume_token, expect_token_type, raise_error,
  token_location, while,
}
use psic.Parser.Names.{is_instruction_keyword}
use psic.Parser.Literal.{without_sign, parse_signed_integer_literal, decode_string_escapes}
use psic.Parser.Types.{parse_register}

unfoldable pub parse_instruction : Parser InstNode
parse_instruction =
    when (check_token_type special_instruction)
      (do token ← consume_token; pure (record { name = tail token.text; is_special = true }))
      (when (λ s. check_token_type identifier s && is_instruction_keyword s.here.text)
        (do token ← consume_token; pure (record { name = token.text; is_special = false }))
        (raise_error (codes "expected an instruction")))

abbrev pub contains_byte : ℕ → Text → Bool
contains_byte b [] = false
contains_byte b (c ∷ cs) = c == b || contains_byte b cs

-- A number without a base prefix that has a point in it.
unfoldable pub has_decimal_point : Text → Bool
has_decimal_point text =
    not (has_prefix b'x' b'X' (without_sign text))
    && not (has_prefix b'o' b'O' (without_sign text))
    && contains_byte b'.' text

-- The vector of an array with a value more.
unfoldable pub push_back : Values → ValueNode → Values
push_back nil v = cons v nil
push_back (cons w vs) v = cons w (push_back vs v)

-- The value that a token with no value behind it spells, or an error at the token.
abbrev pub literal_or : Text → Token → Option ValueNode → Parser ValueNode
literal_or message token none s = failed message (token_location token)
literal_or message token (some v) s = ok (v, s)

-- The stream reads every spelling that `float_in_range` accepts.
module _ (float_in_range : Text → Bool) where
  unfoldable pub parse_number : Token → Parser ValueNode
  parse_number token =
      if has_decimal_point token.text
      then literal_or (codes "floating-point literal is out of range") token
          (if float_in_range token.text then some (number_float token.text) else none)
      else literal_or (codes "integer literal is out of range") token
          (Option.map number_int (parse_signed_integer_literal token.text))

-- An error of the decoding is thrown anew with the place of the token.
unfoldable pub parse_string : Token → Parser ValueNode
parse_string token s = elim (decode_string_escapes s token.text) [
  | ok text ↦ ok (Ast.ValueNode.string text, s)
  | failed message _ ↦ failed message (token_location token)
  | out_of_fuel ↦ out_of_fuel
]

-- The values between the brackets; `value` parses one.
unfoldable pub parse_array : Parser ValueNode → Parser Values
parse_array value = when (check_token_type right_bracket) (pure nil) (do
  first ← value
  while (check_token_type comma) (λ vs. do consume_token; v ← value; pure (push_back vs v))
      (cons first nil))

unfoldable pub parse_identifier_value : Parser ValueNode
parse_identifier_value =
    when (λ s. text_eq s.here.text (codes "true") || text_eq s.here.text (codes "false"))
      (do token ← consume_token; pure (bool (text_eq token.text (codes "true"))))
      (when (λ s. text_eq s.here.text (codes "null") || text_eq s.here.text (codes "nullptr"))
        (consume_token >> pure null) (do reg ← parse_register; pure (register reg)))

module _ (float_in_range : Text → Bool) where
  -- The body of `parseValue`, with `value` for the calls of itself on the items of an array.
  unfoldable pub parse_value_with : Parser ValueNode → Parser ValueNode
  parse_value_with value =
      when (check_token_type number) (consume_token >>= parse_number float_in_range) (
        when (check_token_type TokenType.string) (consume_token >>= parse_string) (
          when (check_token_type special_register)
            (do token ← consume_token; pure (Ast.ValueNode.special_register (tail token.text)))
            (when (check_token_type left_bracket)
              (do
                consume_token
                values ← parse_array value
                expect_token_type right_bracket (codes "']'")
                pure (array values))
              (when (check_token_type identifier) parse_identifier_value (
                raise_error
                  (codes "expected a value (a number, string, register, array, or %register)"))))))

  -- The recursion, on fuel: each level of brackets takes a token.
  unfoldable pub parse_value_on : ℕ → Parser ValueNode
  parse_value_on zero s = out_of_fuel
  parse_value_on (suc f) s = parse_value_with (parse_value_on f) s

  unfoldable pub parse_value : Parser ValueNode
  parse_value s = parse_value_on (suc (length s.ahead)) s
