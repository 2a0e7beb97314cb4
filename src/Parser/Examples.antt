-- ===== src/Parser/Examples.antt =====
-- The theorems about the parser at concrete inputs.
use psic.Ast.{RegNode, TypeNode, field, index, ValueNode, array, number_int, bool, null, cons, nil}
use psic.Lexer.Read.{has_prefix}
use psic.Lexer.Token.{Token, end_of_file, number, right_bracket}
use psic.Parser.Decimal.{decimal_integer, parse_signed_integer_literal-decimal_integer}
use psic.Parser.Escapes.{quoted, decode_string_escapes-quoted}
use psic.Parser.IndexNumbers.{expect_index_number_iff}
use psic.Parser.Literal.{
  parse_signed_integer_literal, is_negative, without_sign, base_and_digits, decode_string_escapes,
}
use psic.Parser.Names.{is_primitive_type_name}
use psic.Parser.Numbers.{read_in, parse_signed_integer_literal_lem}
use psic.Parser.Print.{before, register_tokens, type_tokens}
use psic.Parser.RoundTrip.{parse_register-register_tokens}
use psic.Parser.State.{State, same_type, is_reserved_word}
use psic.Parser.TypeRoundTrip.{IsParsedType, parse_type-type_tokens}
use psic.Parser.Types.{int_max, expect_index_number, parse_register, parse_type}
use psic.Parser.Value.{parse_value}
use psic.Parser.ValuePrint.{value_tokens, IsParsed}
use psic.Parser.ValueRoundTrip.{parse_value-value_tokens}
use psic.Prelude.{
  ◌≡◌, refl, [], ◌∷◌, Text, codes, negsuc, some, arith, ◌≤◌, ◌↔◌, pos, true, false, contains,
  text_eq, Bool,
}
use psic.Source.{ok}

abbrev smallest : Text
smallest = codes "-0x8000000000000000"

parse_signed_integer_literal_example :
    parse_signed_integer_literal smallest
    ≡ read_in (is_negative smallest) (base_and_digits (without_sign smallest))
parse_signed_integer_literal_example = parse_signed_integer_literal_lem smallest

decimal_integer_example :
    parse_signed_integer_literal (decimal_integer (negsuc 9223372036854775807))
    ≡ some (negsuc 9223372036854775807)
decimal_integer_example =
    parse_signed_integer_literal-decimal_integer (negsuc 9223372036854775807) (omega arith)

abbrev at_end : State
at_end = record {
  here = record { type = end_of_file; text = []; line = 1; column = 1 };
  ahead = [];
}

abbrev two_lines : Text
two_lines = codes "a\"b\\\n\u{1}"

decode_string_escapes_example : decode_string_escapes at_end (quoted two_lines) ≡ ok two_lines
decode_string_escapes_example = decode_string_escapes-quoted at_end two_lines

abbrev number_token : Text → Token
number_token text = record { type = number; text = text; line = 1; column = 3 }

abbrev bracket : Token
bracket = record { type = right_bracket; text = codes "]"; line = 1; column = 6 }

abbrev behind_number : State
behind_number = record { here = bracket; ahead = [] }

expect_index_number_iff_example :
    (expect_index_number
        (codes "an array index")
        (record { here = number_token (codes "0x7fffffff"); ahead = bracket ∷ [] })
      ≡ ok (2147483647, behind_number))
    ↔ ((is_negative (codes "0x7fffffff") ≡ false)
        × (parse_signed_integer_literal (codes "0x7fffffff") ≡ some (pos 2147483647))
        × (2147483647 ≤ int_max))
unfolding codes has_prefix
expect_index_number_iff_example =
    expect_index_number_iff (codes "an array index") (number_token (codes "0x7fffffff")) bracket []
      2147483647 refl refl

-- `a.b[3]`, with the end behind it.
abbrev register : RegNode
register = record { name = codes "a"; accessors = field (codes "b") ∷ index 3 ∷ [] }

parse_register_example :
    parse_register (before (register_tokens 1 1 register) at_end) ≡ ok (register, at_end)
unfolding is_reserved_word contains codes text_eq same_type
parse_register_example =
    parse_register-register_tokens 1 1 register at_end refl (refl, (omega arith, tt)) refl

-- `const i32**[]:16`.
abbrev pointers : TypeNode
pointers = record {
  base_name = codes "i32";
  pointer_level = 2;
  alignment = some 16;
  is_primitive = true;
  is_view = true;
  is_const = true;
  is_volatile = false;
}

pointers-IsParsedType : IsParsedType 1 1 pointers
unfolding is_reserved_word is_primitive_type_name contains codes text_eq
pointers-IsParsedType = record { free = refl; primitive = refl; aligned = omega arith }

parse_type_example : parse_type (before (type_tokens 1 1 pointers) at_end) ≡ ok (pointers, at_end)
unfolding same_type
parse_type_example =
    parse_type-type_tokens 1 1 pointers at_end pointers-IsParsedType (refl, refl, refl)

-- `[-5, "a", [a.b[3], true], null]`.
abbrev nested : ValueNode
nested = array (
    cons (number_int (negsuc 4)) (
      cons (ValueNode.string (codes "a"))
        (cons (array (cons (ValueNode.register register) (cons (bool true) nil))) (cons null nil))))

abbrev any_float : Text → Bool
any_float _ = true

nested-IsParsed : IsParsed 1 1 any_float nested
unfolding is_reserved_word contains codes text_eq
nested-IsParsed = (omega arith, (tt, (((refl, (refl, (omega arith, tt))), (tt, tt)), (tt, tt))))

parse_value_example :
    parse_value any_float (before (value_tokens 1 1 nested) at_end) ≡ ok (nested, at_end)
unfolding same_type
parse_value_example = parse_value-value_tokens 1 1 any_float nested at_end nested-IsParsed refl
