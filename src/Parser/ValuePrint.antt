-- ===== src/Parser/ValuePrint.antt =====
-- The tokens of a value, as src/parser.cpp reads them.
use psic.Prelude.{ℕ, ◌≡◌, Bool, true, false, List, [], ◌∷◌, ◌++◌, Text, codes}
use psic.Ast.{
  ValueNode, number_int, number_float, register, array, special_register, bool, null, Values, nil,
  cons,
}
use psic.Ast
use psic.Lexer.Token.{TokenType, Token, identifier, number, left_bracket, right_bracket, comma}
use psic.Parser.State.{is_reserved_word}
use psic.Parser.Value.{has_decimal_point}
use psic.Parser.Decimal.{decimal_integer, IsInt64}
use psic.Parser.Escapes.{quoted}
use psic.Parser.Print.{token, register_tokens}
use psic.Parser.RoundTrip.{AreAccessors}

module _ (line column : ℕ) where
  abbrev mutual
    pub value_tokens : ValueNode → List Token
    value_tokens (number_int z) = token line column number (decimal_integer z) ∷ []
    value_tokens (number_float text) = token line column number text ∷ []
    value_tokens (Ast.ValueNode.string text) = token line column TokenType.string (quoted text) ∷ []
    value_tokens (register r) = register_tokens line column r
    value_tokens (array vs) =
        token line column left_bracket (codes "[")
        ∷ (values_tokens vs ++ token line column right_bracket (codes "]") ∷ [])
    value_tokens (Ast.ValueNode.special_register name) =
        token line column TokenType.special_register (b'%' ∷ name) ∷ []
    value_tokens (bool true) = token line column identifier (codes "true") ∷ []
    value_tokens (bool false) = token line column identifier (codes "false") ∷ []
    value_tokens null = token line column identifier (codes "null") ∷ []

    pub values_tokens : Values → List Token
    values_tokens nil = []
    values_tokens (cons v vs) = value_tokens v ++ more_tokens vs

    pub more_tokens : Values → List Token
    more_tokens nil = []
    more_tokens (cons v vs) =
        token line column comma (codes ",") ∷ (value_tokens v ++ more_tokens vs)

  -- The values that the parser makes: integers of 64 bits, decimal spellings that the stream reads,
  -- and registers whose names are no reserved words and whose indices fit an `int`.
  module _ (float_in_range : Text → Bool) where
    abbrev mutual
      pub IsParsed : ValueNode → Type 0
      IsParsed (number_int z) = IsInt64 z
      IsParsed (number_float text) = (has_decimal_point text ≡ true) × (float_in_range text ≡ true)
      IsParsed (register r) =
          (is_reserved_word r.name ≡ false) × AreAccessors line column r.accessors
      IsParsed (array vs) = AreParsed vs
      IsParsed (Ast.ValueNode.string text) = Unit {0}
      IsParsed (Ast.ValueNode.special_register name) = Unit {0}
      IsParsed (bool b) = Unit {0}
      IsParsed null = Unit {0}

      pub AreParsed : Values → Type 0
      AreParsed nil = Unit {0}
      AreParsed (cons v vs) = IsParsed v × AreParsed vs
