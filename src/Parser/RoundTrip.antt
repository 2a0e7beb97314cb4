-- ===== src/Parser/RoundTrip.antt =====
-- `parseRegister` of src/parser.cpp on the tokens of a register.
use psic.Prelude.{
  length-append, and-eq-true, Bool-cases, inl, inr, ℕ, zero, suc, ◌+◌, ◌≤◌, ◌<◌, ◌≡◌, refl, ap, ◌∙◌,
  Bool, true, false, ◌&&◌, ◌||◌, List, [], ◌∷◌, ◌++◌, Text, codes, append-nil, append_assoc, length,
  arith, all, ltb, ◌*◌,
}
use psic.Source.{ok}
use psic.Ast.{AccessorNode, index, field, RegNode}
use psic.Lexer.Token.{Token, identifier, number, left_bracket, right_bracket, dot}
use psic.Lexer.Chars.{is_digit_char}
use psic.Parser.State.{
  State, same_type, check_token_type, consume_token, is_reserved_word, expect_token_type, loop,
  while,
}
use psic.Parser.Progress.{same_type_refl}
use psic.Parser.Literal.{digit_value, hex_digit_value}
use psic.Parser.Types.{
  digits_value, stoi, int_max, index_number, expect_index_number, parse_accessor, parse_register,
}
use psic.Parser.Numbers.{is_digit_of, digit, written}
use psic.Parser.Decimal.{decimal, Writes, decimal-Writes, not_prefix}
use psic.Parser.Print.{before, token, accessor_tokens, accessors_tokens, register_tokens}

pub consume-before :
    (t : Token) (ts : List Token) (s : State)
    → consume_token (before (t ∷ ts) s) ≡ ok (t, before ts s)
unfolding consume_token
consume-before t [] s = refl
consume-before t (u ∷ us) s = refl

pub length-before :
    (ts : List Token) (s : State) → length (before ts s).ahead ≡ length ts + length s.ahead
length-before [] s = omega arith
length-before (t ∷ ts) s = omega (arith, length-append ts (s.here ∷ s.ahead))

-- A token of its type that is no reserved word is passed over.
pub expect-before :
    (what : Text) (t : Token) (ts : List Token) (s : State)
    → (same_type t.type identifier && is_reserved_word t.text) ≡ false
    → expect_token_type t.type what (before (t ∷ ts) s) ≡ ok (t, before ts s)
unfolding expect_token_type
expect-before what t ts s free = rw (same_type_refl t.type, free) (consume-before t ts s)

decimal_digit :
    (c : ℕ) → is_digit_of 10 c ≡ true → (is_digit_char c ≡ true) × (hex_digit_value c ≡ digit c)
unfolding digit_value hex_digit_value is_digit_char
decimal_digit c h = (ground arith, ground arith)

decimal_digits :
    (cs : Text) (front : ℕ)
    → all (is_digit_of 10) cs ≡ true
    → (all is_digit_char cs ≡ true) × (digits_value 10 front cs ≡ written 10 cs front)
unfolding digits_value
decimal_digits [] front h = (refl, refl)
decimal_digits (c ∷ cs) front h =
    let (this, others) = and-eq-true (is_digit_of 10 c) (all (is_digit_of 10) cs) h in
    let (is_digit, same) = decimal_digit c this in
    let (are_digits, rest) = decimal_digits cs (front * 10 + digit c) others in
    (rw (is_digit, are_digits) refl, rw same rest)

-- The decimal spelling of an index is read as that index.
index_number-decimal :
    (what : Text) (t : Token) (n : ℕ) (s : State)
    → t.text ≡ decimal n
    → n ≤ int_max
    → index_number what t s ≡ ok (n, s)
unfolding index_number stoi Writes
index_number-decimal what t n s e h =
    let w = decimal-Writes n in
    let (are_digits, same) = decimal_digits (decimal n) 0 w.1 in
    let not_hex = not_prefix b'x' b'X' (decimal n) (omega arith) (omega arith) w.1 in
    let not_octal = not_prefix b'o' b'O' (decimal n) (omega arith) (omega arith) w.1 in
    let fits : ltb int_max n ≡ false = ground arith in
    elim (Bool-cases (ltb 2 (length (decimal n)))) [
      | inl long ↦ rw (e, long, not_hex, not_octal, are_digits, same, w.0, fits) refl
      | inr short ↦ rw (e, short, are_digits, same, w.0, fits) refl
    ]

module _ (line column : ℕ) where
  pub expect_index_number-before :
      (what : Text) (n : ℕ) (ts : List Token) (s : State)
      → n ≤ int_max
      → expect_index_number what (before (token line column number (decimal n) ∷ ts) s)
        ≡ ok (n, before ts s)
  unfolding expect_index_number same_type
  expect_index_number-before what n ts s h =
      let t = token line column number (decimal n) in
      rw (expect-before what t ts s refl) (index_number-decimal what t n (before ts s) refl h)

  -- The indices are in the range of `int` and the field names are no reserved words.
  abbrev pub IsAccessor : AccessorNode → Type 0
  IsAccessor (index n) = n ≤ int_max
  IsAccessor (field name) = is_reserved_word name ≡ false

  parse_accessor-before :
      (a : AccessorNode) (done : List AccessorNode) (ts : List Token) (s : State)
      → IsAccessor a
      → parse_accessor done (before (accessor_tokens line column a ++ ts) s)
        ≡ ok (done ++ a ∷ [], before ts s)
  unfolding parse_accessor same_type
  parse_accessor-before (index n) done ts s h =
      let open_ = token line column left_bracket (codes "[") in
      let close = token line column right_bracket (codes "]") in
      let digits = token line column number (decimal n) in
      rw
        (
          consume-before open_ (digits ∷ close ∷ ts) s,
          expect_index_number-before _ n (close ∷ ts) s h,
          expect-before (codes "']'") close ts s refl,
        )
        refl
  parse_accessor-before (field name) done ts s h =
      let point = token line column dot (codes ".") in
      let word = token line column identifier name in
      rw (consume-before point (word ∷ ts) s, expect-before (codes "a field name") word ts s h) refl

  abbrev pub AreAccessors : List AccessorNode → Type 0
  AreAccessors [] = Unit {0}
  AreAccessors (a ∷ rest) = IsAccessor a × AreAccessors rest

  -- Neither a bracket nor a dot is here.
  abbrev pub continues : State → Bool
  continues s = check_token_type left_bracket s || check_token_type dot s

  continues-accessor :
      (a : AccessorNode) (ts : List Token) (s : State)
      → continues (before (accessor_tokens line column a ++ ts) s) ≡ true
  unfolding same_type
  continues-accessor (index n) ts s = refl
  continues-accessor (field name) ts s = refl

  loop-accessors :
      (f : ℕ) (accessors done : List AccessorNode) (s : State)
      → AreAccessors accessors
      → continues s ≡ false
      → length accessors < f
      → loop f continues parse_accessor done (before (accessors_tokens line column accessors) s)
        ≡ ok (done ++ accessors, s)
  unfolding loop
  loop-accessors zero accessors done s fine over h = absurd (omega arith)
  loop-accessors (suc f) [] done s fine over h = rw (over, append-nil done) refl
  loop-accessors (suc f) (a ∷ rest) done s (this, others) over h =
      let ts = accessors_tokens line column rest in
      rw (continues-accessor a ts s, parse_accessor-before a done ts s this)
        (loop-accessors f rest (done ++ a ∷ []) s others over (omega arith)
          ∙ ap (λ d. ok (d, s)) (append_assoc done (a ∷ []) rest))

  length-accessors_tokens :
      (accessors : List AccessorNode)
      → length accessors ≤ length (accessors_tokens line column accessors)
  length-accessors_tokens [] = omega arith
  length-accessors_tokens (index n ∷ rest) = omega (arith, length-accessors_tokens rest)
  length-accessors_tokens (field name ∷ rest) = omega (arith, length-accessors_tokens rest)

  -- The tokens of a register, with whatever follows that is no left bracket and no dot, are read as
  -- that register, and nothing behind them is, if its names are no reserved words and its indices fit
  -- an `int`.
  pub parse_register-register_tokens :
      (r : RegNode) (s : State)
      → is_reserved_word r.name ≡ false
      → AreAccessors r.accessors
      → continues s ≡ false
      → parse_register (before (register_tokens line column r) s) ≡ ok (r, s)
  unfolding parse_register while same_type is_reserved_word
  parse_register-register_tokens r s free fine over =
      let ts = accessors_tokens line column r.accessors in
      let word = token line column identifier r.name in
      let enough : length r.accessors < suc (length (before ts s).ahead) =
        omega (arith, length-accessors_tokens r.accessors, length-before ts s) in
      rw
        (
          expect-before (codes "a register name") word ts s free,
          loop-accessors (suc (length (before ts s).ahead)) r.accessors [] s fine over enough,
        )
        refl
