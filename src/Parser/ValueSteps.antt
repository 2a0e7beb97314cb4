-- ===== src/Parser/ValueSteps.antt =====
-- The body of `parseValue` of src/parser.cpp on the tokens of a value whose items are read.
use psic.Prelude.{
  ℤ, ℕ, zero, suc, ◌<◌, ◌≡◌, refl, ap, ◌∙◌, Bool, true, false, ◌||◌, List, [], ◌∷◌, ◌++◌, Text,
  codes, text_eq, text_eq_comm, contains, length, length-append, arith,
}
use psic.Source.{ok}
use psic.Ast.{
  ValueNode, number_int, number_float, register, array, special_register, bool, null, Values, nil,
  cons, RegNode,
}
use psic.Ast
use psic.Lexer.Token.{TokenType, Token, number, left_bracket, right_bracket, comma}
use psic.Parser.State.{
  State, Parser, pure, ◌>>=◌, same_type, check_token_type, consume_token, is_reserved_word, loop,
  while,
}
use psic.Parser.Decimal.{decimal_integer, IsInt64, parse_signed_integer_literal-decimal_integer}
use psic.Parser.Escapes.{quoted, decode_string_escapes-quoted}
use psic.Parser.Value.{
  push_back, parse_number, parse_string, parse_array, parse_identifier_value, parse_value_with,
}
use psic.Parser.Print.{before, token, register_tokens}
use psic.Parser.RoundTrip.{
  consume-before, expect-before, length-before, continues, parse_register-register_tokens,
}
use psic.Parser.Progress.{same_type_refl}
use psic.Parser.TypeRoundTrip.{before-append}
use psic.Parser.ValuePrint.{value_tokens, values_tokens, more_tokens, IsParsed}
use psic.Parser.ValueItems.{pushed, pushed-joined, has_decimal_point-decimal_integer}

module _ (line column : ℕ) (float_in_range : Text → Bool) where
  -- The parser reads each of the values from its tokens.
  abbrev pub Reads : Parser ValueNode → ValueNode → Type 0
  Reads value v =
      (s : State)
      → continues line column s ≡ false
      → value (before (value_tokens line column v) s) ≡ ok (v, s)

  abbrev pub ReadsAll : Parser ValueNode → Values → Type 0
  ReadsAll value nil = Unit {0}
  ReadsAll value (cons v vs) = Reads value v × ReadsAll value vs

  ends_item :
      (vs : Values) (s : State)
      → continues line column s ≡ false
      → continues line column (before (more_tokens line column vs) s) ≡ false
  unfolding same_type
  ends_item nil s e = e
  ends_item (cons v vs) s e = refl

  loop-items :
      (value : Parser ValueNode) (f : ℕ) (vs front : Values) (s : State)
      → ReadsAll value vs
      → check_token_type comma s ≡ false
      → continues line column s ≡ false
      → length (more_tokens line column vs) < f
      → loop f
          (check_token_type comma)
          (λ acc. consume_token >>= λ _. (value >>= λ v. pure (push_back acc v)))
          front
          (before (more_tokens line column vs) s)
        ≡ ok (pushed front vs, s)
  unfolding loop
  loop-items value zero vs front s reads stop over h = absurd (omega arith)
  loop-items value (suc f) nil front s reads stop over h = rw stop refl
  loop-items value (suc f) (cons v vs) front s reads stop over h =
      let more = more_tokens line column vs in
      let item = value_tokens line column v in
      let t = token line column comma (codes ",") in
      let shorter : length more < f = omega (arith, length-append item more) in
      rw
        (
          same_type_refl comma,
          consume-before t (item ++ more) s,
          before-append item more s,
          reads.0 (before more s) (ends_item vs s over),
        )
        (loop-items value f vs (push_back front v) s reads.1 stop over shorter)

  starts_value :
      (v : ValueNode) (ts : List Token) (s : State)
      → check_token_type right_bracket (before (value_tokens line column v ++ ts) s) ≡ false
  unfolding same_type
  starts_value (number_int z) ts s = refl
  starts_value (number_float text) ts s = refl
  starts_value (Ast.ValueNode.string text) ts s = refl
  starts_value (register r) ts s = refl
  starts_value (array vs) ts s = refl
  starts_value (Ast.ValueNode.special_register name) ts s = refl
  starts_value (bool true) ts s = refl
  starts_value (bool false) ts s = refl
  starts_value null ts s = refl

  parse_array-before :
      (value : Parser ValueNode) (vs : Values) (s : State)
      → ReadsAll value vs
      → check_token_type right_bracket s ≡ true
      → check_token_type comma s ≡ false
      → continues line column s ≡ false
      → parse_array value (before (values_tokens line column vs) s) ≡ ok (vs, s)
  unfolding parse_array while
  parse_array-before value nil s reads close stop over = rw close refl
  parse_array-before value (cons v vs) s reads close stop over =
      let more = more_tokens line column vs in
      let item = value_tokens line column v in
      let enough : length more < suc (length (before more s).ahead) =
        omega (arith, length-before more s) in
      rw
        (
          starts_value v more s,
          before-append item more s,
          reads.0 (before more s) (ends_item vs s over),
        )
        (loop-items value (suc (length (before more s).ahead)) vs (cons v nil) s reads.1 stop over
            enough
          ∙ ap (λ all_of. ok (all_of, s)) (pushed-joined (cons v nil) vs))

  abbrev pub ItemsRead : Parser ValueNode → ValueNode → Type 0
  ItemsRead value (array vs) = ReadsAll value vs
  ItemsRead value _ = Unit {0}

  number-before :
      (z : ℤ) (s : State)
      → IsInt64 z
      → parse_number float_in_range (token line column number (decimal_integer z)) s
        ≡ ok (number_int z, s)
  unfolding parse_number
  number-before z s h =
      rw (has_decimal_point-decimal_integer z, parse_signed_integer_literal-decimal_integer z h)
        refl

  string-before :
      (text : Text) (s : State)
      → parse_string (token line column TokenType.string (quoted text)) s
        ≡ ok (Ast.ValueNode.string text, s)
  unfolding parse_string
  string-before text s = rw (parse_string, decode_string_escapes-quoted s text) refl

  first_four :
      (a b c d e f : Bool)
      → (a || (b || (c || (d || (e || (f || false)))))) ≡ false
      → ((a || b) ≡ false) × ((c || d) ≡ false)
  first_four a b c d e f h = (ground arith, ground arith)

  not_literal :
      (name : Text)
      → is_reserved_word name ≡ false
      → ((text_eq name (codes "true") || text_eq name (codes "false")) ≡ false)
        × ((text_eq name (codes "null") || text_eq name (codes "nullptr")) ≡ false)
  unfolding is_reserved_word contains
  not_literal name h =
      rw
        (
          text_eq_comm name (codes "true"),
          text_eq_comm name (codes "false"),
          text_eq_comm name (codes "null"),
          text_eq_comm name (codes "nullptr"),
        )
        (first_four (text_eq (codes "true") name) (text_eq (codes "false") name)
          (text_eq (codes "null") name) (text_eq (codes "nullptr") name)
          (text_eq (codes "const") name) (text_eq (codes "volatile") name) h)

  register-before :
      (r : RegNode) (s : State)
      → IsParsed line column float_in_range (register r)
      → continues line column s ≡ false
      → parse_identifier_value (before (register_tokens line column r) s) ≡ ok (register r, s)
  unfolding parse_identifier_value
  register-before r s fine over =
      let plain = not_literal r.name fine.0 in
      rw (plain.0, plain.1, parse_register-register_tokens line column r s fine.0 fine.1 over) refl

  word-before :
      (b : Bool) (s : State)
      → (parse_identifier_value (before (value_tokens line column (bool b)) s) ≡ ok (bool b, s))
        × (parse_identifier_value (before (value_tokens line column null) s) ≡ ok (null, s))
  unfolding parse_identifier_value consume_token codes text_eq
  word-before true s = (refl, refl)
  word-before false s = (refl, refl)

  -- The body of the recursion, if its calls of itself read the items.
  pub parse_value_with-before :
      (value : Parser ValueNode) (v : ValueNode)
      → IsParsed line column float_in_range v
      → ItemsRead value v
      → Reads (parse_value_with float_in_range value) v
  unfolding parse_value_with same_type parse_number
  parse_value_with-before value (number_int z) fine items s over =
      rw (consume-before (token line column number (decimal_integer z)) [] s)
        (number-before z s fine)
  parse_value_with-before value (number_float text) fine items s over =
      rw (consume-before (token line column number text) [] s, fine.0, fine.1) refl
  parse_value_with-before value (Ast.ValueNode.string text) fine items s over =
      rw (consume-before (token line column TokenType.string (quoted text)) [] s)
        (string-before text s)
  parse_value_with-before value (register r) fine items s over = register-before r s fine over
  parse_value_with-before value (array vs) fine items s over =
      let close = token line column right_bracket (codes "]") in
      let opening = token line column left_bracket (codes "[") in
      let inner = values_tokens line column vs in
      let at_close = before (close ∷ []) s in
      rw
        (
          consume-before opening (inner ++ close ∷ []) s,
          before-append inner (close ∷ []) s,
          parse_array-before value vs at_close items refl refl refl,
          expect-before (codes "']'") close [] s refl,
        )
        refl
  parse_value_with-before value (Ast.ValueNode.special_register name) fine items s over =
      rw (consume-before (token line column TokenType.special_register (b'%' ∷ name)) [] s) refl
  parse_value_with-before value (bool true) fine items s over = (word-before true s).0
  parse_value_with-before value (bool false) fine items s over = (word-before false s).0
  parse_value_with-before value null fine items s over = (word-before true s).1
