-- ===== src/Parser/ValueRoundTrip.antt =====
-- `parseValue` of src/parser.cpp on the tokens of a value.
use psic.Prelude.{
  ℕ, zero, suc, ◌≤◌, ◌<◌, ◌≡◌, Bool, true, false, [], ◌∷◌, ◌++◌, Text, codes, length, length-append,
  arith,
}
use psic.Source.{ok}
use psic.Ast.{
  ValueNode, number_int, number_float, register, array, special_register, bool, null, Values, nil,
  cons, RegNode,
}
use psic.Ast
use psic.Lexer.Token.{right_bracket}
use psic.Parser.State.{State, Parser}
use psic.Parser.Value.{parse_value_on, parse_value}
use psic.Parser.Print.{before, token}
use psic.Parser.RoundTrip.{length-before, continues}
use psic.Parser.ValuePrint.{value_tokens, more_tokens, IsParsed, AreParsed}
use psic.Parser.ValueSteps.{Reads, ReadsAll, ItemsRead, parse_value_with-before}

module _ (line column : ℕ) (float_in_range : Text → Bool) where
  value_tokens-positive : (v : ValueNode) → 0 < length (value_tokens line column v)
  value_tokens-positive (number_int z) = omega arith
  value_tokens-positive (number_float text) = omega arith
  value_tokens-positive (Ast.ValueNode.string text) = omega arith
  value_tokens-positive (register r) = omega arith
  value_tokens-positive (array vs) = omega arith
  value_tokens-positive (Ast.ValueNode.special_register name) = omega arith
  value_tokens-positive (bool true) = omega arith
  value_tokens-positive (bool false) = omega arith
  value_tokens-positive null = omega arith

  -- A parser that reads every value of at most `f` tokens.
  abbrev ReadsUpTo : Parser ValueNode → ℕ → Type 0
  ReadsUpTo value f =
      (v : ValueNode)
      → IsParsed line column float_in_range v
      → length (value_tokens line column v) ≤ f
      → Reads line column float_in_range value v

  reads_more :
      (value : Parser ValueNode) (f : ℕ)
      → ReadsUpTo value f
      → (vs : Values) → AreParsed line column float_in_range vs
      → length (more_tokens line column vs) ≤ f
      → ReadsAll line column float_in_range value vs
  reads_more value f reads nil fine h = tt
  reads_more value f reads (cons v vs) fine h =
      let both = length-append (value_tokens line column v) (more_tokens line column vs) in
      (
        reads v fine.0 (omega (arith, both)),
        reads_more value f reads vs fine.1 (omega (arith, both)),
      )

  reads_items :
      (value : Parser ValueNode) (f : ℕ)
      → ReadsUpTo value f
      → (v : ValueNode) → IsParsed line column float_in_range v
      → length (value_tokens line column v) ≤ suc f
      → ItemsRead line column float_in_range value v
  reads_items value f reads (array nil) fine h = tt
  reads_items value f reads (array (cons v vs)) fine h =
      let item = value_tokens line column v in
      let more = more_tokens line column vs in
      let all_of =
        length-append (item ++ more) (token line column right_bracket (codes "]") ∷ []) in
      let both = length-append item more in
      (
        reads v fine.0 (omega (arith, both, all_of)),
        reads_more value f reads vs fine.1 (omega (arith, both, all_of)),
      )
  reads_items value f reads (number_int z) fine h = tt
  reads_items value f reads (number_float text) fine h = tt
  reads_items value f reads (Ast.ValueNode.string text) fine h = tt
  reads_items value f reads (register r) fine h = tt
  reads_items value f reads (Ast.ValueNode.special_register name) fine h = tt
  reads_items value f reads (bool b) fine h = tt
  reads_items value f reads null fine h = tt

  parse_value_on-ReadsUpTo : (f : ℕ) → ReadsUpTo (parse_value_on float_in_range f) f
  unfolding parse_value_on
  parse_value_on-ReadsUpTo zero v fine h s over = absurd (omega (arith, value_tokens-positive v))
  parse_value_on-ReadsUpTo (suc f) v fine h s over =
      let value = parse_value_on float_in_range f in
      parse_value_with-before line column float_in_range value v fine
        (reads_items value f (parse_value_on-ReadsUpTo f) v fine h) s over

  -- The tokens of a value, with arrays nested to any depth, and with whatever follows that is no left
  -- bracket and no dot, are read as that value, and nothing behind them is, if its integers have 64
  -- bits, its decimal spellings have a point and are read by the stream, the names in its registers
  -- are no reserved words and their indices fit an `int`.
  pub parse_value-value_tokens :
      (v : ValueNode) (s : State)
      → IsParsed line column float_in_range v
      → continues line column s ≡ false
      → parse_value float_in_range (before (value_tokens line column v) s) ≡ ok (v, s)
  unfolding parse_value
  parse_value-value_tokens v s fine over =
      let ts = value_tokens line column v in
      let enough : length ts ≤ suc (length (before ts s).ahead) =
        omega (arith, length-before ts s) in
      parse_value_on-ReadsUpTo (suc (length (before ts s).ahead)) v fine enough s over
