-- ===== src/Parser/ValueItems.antt =====
-- The items of an array and the spelling of an integer, for `parseValue` of src/parser.cpp.
use psic.Prelude.{
  ℤ, pos, negsuc, suc, ◌≡◌, refl, ap, sym, ◌∙◌, true, false, [], ◌∷◌, Text, arith, all,
}
use psic.Ast.{ValueNode, Values, nil, cons}
use psic.Parser.Literal.{digit_value}
use psic.Parser.Decimal.{decimal, Writes, decimal-Writes, decimal_integer}
use psic.Parser.Numbers.{is_digit_of}
use psic.Parser.Value.{contains_byte, has_decimal_point, push_back}

-- Values pushed back one after the other.
abbrev pub pushed : Values → Values → Values
pushed front nil = front
pushed front (cons v vs) = pushed (push_back front v) vs

abbrev pub joined : Values → Values → Values
joined nil vs = vs
joined (cons v front) vs = cons v (joined front vs)

joined-push_back :
    (front : Values) (v : ValueNode) (vs : Values)
    → joined (push_back front v) vs ≡ joined front (cons v vs)
unfolding push_back
joined-push_back nil v vs = refl
joined-push_back (cons w front) v vs = ap (cons w) (joined-push_back front v vs)

joined-nil : (front : Values) → joined front nil ≡ front
joined-nil nil = refl
joined-nil (cons w front) = ap (cons w) (joined-nil front)

pub pushed-joined : (front vs : Values) → pushed front vs ≡ joined front vs
pushed-joined front nil = sym (joined-nil front)
pushed-joined front (cons v vs) = pushed-joined (push_back front v) vs ∙ joined-push_back front v vs

-- Digits have no point among them.
contains_byte-digits : (cs : Text) → all (is_digit_of 10) cs ≡ true → contains_byte b'.' cs ≡ false
unfolding digit_value
contains_byte-digits [] h = refl
contains_byte-digits (c ∷ cs) h = ground (arith, contains_byte-digits cs)

no_point : (text : Text) → contains_byte b'.' text ≡ false → has_decimal_point text ≡ false
unfolding has_decimal_point
no_point text h = ground (arith, h)

pub has_decimal_point-decimal_integer : (z : ℤ) → has_decimal_point (decimal_integer z) ≡ false
unfolding decimal_integer Writes
has_decimal_point-decimal_integer (pos n) =
    no_point (decimal n) (contains_byte-digits (decimal n) (decimal-Writes n).1)
has_decimal_point-decimal_integer (negsuc n) =
    no_point (b'-' ∷ decimal (suc n))
      (contains_byte-digits (decimal (suc n)) (decimal-Writes (suc n)).1)
