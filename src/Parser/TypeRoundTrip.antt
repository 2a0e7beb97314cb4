-- ===== src/Parser/TypeRoundTrip.antt =====
-- `parseType` of src/parser.cpp on the tokens of a type.
use psic.Prelude.{
  text_eq_comm, ℕ, zero, suc, ◌+◌, ◌≤◌, ◌<◌, ◌≡◌, refl, ap, sym, ◌∙◌, Bool, true, false, ◌&&◌, ◌||◌,
  List, [], ◌∷◌, ◌++◌, Text, codes, text_eq, contains, Option, none, some, append-nil, append_assoc,
  length, arith,
}
use psic.Source.{ok}
use psic.Ast.{TypeNode}
use psic.Lexer.Token.{Token, identifier, number, left_bracket, star, colon}
use psic.Parser.State.{
  State, pure, ◌>>◌, same_type, check_token_type, check_keyword, consume_token, is_reserved_word,
  loop, while,
}
use psic.Parser.Progress.{same_type_refl}
use psic.Parser.Names.{is_primitive_type_name}
use psic.Parser.Types.{
  read_once, parse_qualifier, parse_qualifiers, parse_stars, parse_view, parse_alignment, int_max,
  parse_type,
}
use psic.Parser.Decimal.{decimal}
use psic.Parser.Print.{
  before, token, qualifier_tokens, star_tokens, view_tokens, alignment_tokens, type_tokens,
}
use psic.Parser.RoundTrip.{consume-before, expect-before, length-before, expect_index_number-before}

pub before-append : (ts us : List Token) (s : State) → before (ts ++ us) s ≡ before ts (before us s)
before-append [] us s = refl
before-append (t ∷ ts) [] s =
    ap (λ l. record { here = t; ahead = l ++ s.here ∷ s.ahead }) (append-nil ts)
before-append (t ∷ ts) (u ∷ us) s =
    ap (λ l. record { here = t; ahead = l }) (append_assoc ts (u ∷ us) (s.here ∷ s.ahead))

abbrev pub is_qualifier : State → Bool
is_qualifier s = check_keyword "const" s || check_keyword "volatile" s

module _ (line column : ℕ) where
  parse_qualifiers-before :
      (is_const is_volatile : Bool) (s : State)
      → is_qualifier s ≡ false
      → parse_qualifiers (before (qualifier_tokens line column is_const is_volatile) s)
        ≡ ok (record { is_const = is_const; is_volatile = is_volatile }, s)
  unfolding parse_qualifiers while loop parse_qualifier read_once consume_token same_type codes
      text_eq
  parse_qualifiers-before false false s e = rw e refl
  parse_qualifiers-before false true s e = rw e refl
  parse_qualifiers-before true false s e = rw e refl
  parse_qualifiers-before true true s e = rw e refl

  loop-stars :
      (f n done : ℕ) (s : State)
      → check_token_type star s ≡ false
      → n < f
      → loop f
          (check_token_type star)
          (λ m. consume_token >> pure (m + 1))
          done
          (before (star_tokens line column n) s)
        ≡ ok (done + n, s)
  unfolding loop
  loop-stars zero n done s e h = absurd (omega arith)
  loop-stars (suc f) zero done s e h = rw e (ap (λ m. ok (m, s)) (omega arith))
  loop-stars (suc f) (suc n) done s e h =
      let t = token line column star (codes "*") in
      let ts = star_tokens line column n in
      rw (same_type_refl star, consume-before t ts s)
        (loop-stars f n (done + 1) s e (omega arith) ∙ ap (λ m. ok (m, s)) (omega arith))

  length-star_tokens : (n : ℕ) → length (star_tokens line column n) ≡ n
  length-star_tokens zero = refl
  length-star_tokens (suc n) = omega (arith, length-star_tokens n)

  parse_stars-before :
      (n : ℕ) (s : State)
      → check_token_type star s ≡ false
      → parse_stars (before (star_tokens line column n) s) ≡ ok (n, s)
  unfolding parse_stars while
  parse_stars-before n s e =
      let ts = star_tokens line column n in
      let enough : n < suc (length (before ts s).ahead) =
        omega (arith, length-star_tokens n, length-before ts s) in
      loop-stars (suc (length (before ts s).ahead)) n 0 s e enough
      ∙ ap (λ m. ok (m, s)) (omega arith)

  -- Nothing that a type goes on with is here.
  abbrev pub EndsType : State → Type 0
  EndsType s =
      (check_token_type star s ≡ false)
      × (check_token_type left_bracket s ≡ false)
      × (check_token_type colon s ≡ false)

  parse_view-before :
      (is_view : Bool) (s : State)
      → check_token_type star s ≡ false
      → check_token_type left_bracket s ≡ false
      → parse_view (before (view_tokens line column is_view) s) ≡ ok (is_view, s)
  unfolding parse_view consume_token same_type
  parse_view-before true s no_star no_bracket = rw no_star refl
  parse_view-before false s no_star no_bracket = rw no_bracket refl

  abbrev pub FitsInt : Option ℕ → Type 0
  FitsInt none = Unit {0}
  FitsInt (some n) = n ≤ int_max

  parse_alignment-before :
      (alignment : Option ℕ) (s : State)
      → FitsInt alignment
      → check_token_type colon s ≡ false
      → parse_alignment (before (alignment_tokens line column alignment) s) ≡ ok (alignment, s)
  unfolding parse_alignment
  parse_alignment-before none s h e = rw e refl
  parse_alignment-before (some n) s h e =
      let t = token line column colon (codes ":") in
      let digits = token line column number (decimal n) in
      rw
        (
          same_type_refl colon,
          consume-before t (digits ∷ []) s,
          expect_index_number-before line column _ n [] s h,
        )
        refl

  alignment-ends :
      (alignment : Option ℕ) (s : State)
      → EndsType s
      → (check_token_type star (before (alignment_tokens line column alignment) s) ≡ false)
        × (check_token_type left_bracket (before (alignment_tokens line column alignment) s)
            ≡ false)
  unfolding same_type
  alignment-ends none s e = (e.0, e.1)
  alignment-ends (some n) s e = (refl, refl)

  view-ends :
      (is_view : Bool) (s : State)
      → check_token_type star s ≡ false
      → check_token_type star (before (view_tokens line column is_view) s) ≡ false
  unfolding same_type
  view-ends true s e = refl
  view-ends false s e = e

  last_two :
      (a b c d e f : Bool)
      → (a || (b || (c || (d || (e || (f || false)))))) ≡ false
      → (e ≡ false) × (f ≡ false)
  last_two a b c d e f h = (ground arith, ground arith)

  not_keyword :
      (name : Text)
      → is_reserved_word name ≡ false
      → (text_eq name (codes "const") ≡ false) × (text_eq name (codes "volatile") ≡ false)
  unfolding is_reserved_word contains
  not_keyword name h =
      let (c, v) =
        last_two (text_eq (codes "true") name) (text_eq (codes "false") name)
          (text_eq (codes "null") name) (text_eq (codes "nullptr") name)
          (text_eq (codes "const") name) (text_eq (codes "volatile") name) h in
      (text_eq_comm name (codes "const") ∙ c, text_eq_comm name (codes "volatile") ∙ v)

  -- The type is one that the parser makes: its name is no reserved word and decides whether it is a
  -- primitive type, and its alignment fits an `int`.
  pub record IsParsedType (t : TypeNode) : Type 0 where
    pub free : is_reserved_word t.base_name ≡ false
    pub primitive : t.is_primitive ≡ is_primitive_type_name t.base_name
    pub aligned : FitsInt t.alignment

  not_qualifier :
      (name : Text) (ts : List Token) (s : State)
      → is_reserved_word name ≡ false
      → is_qualifier (before (token line column identifier name ∷ ts) s) ≡ false
  not_qualifier name ts s h =
      let (c, v) = not_keyword name h in rw (same_type_refl identifier, c, v) refl

  -- The tokens of a type whose name is no reserved word and decides whether it is primitive and whose
  -- alignment fits an `int`, with whatever follows that is no star, no left bracket and no colon, are
  -- read as that type, and nothing behind them is.
  pub parse_type-type_tokens :
      (t : TypeNode) (s : State)
      → IsParsedType t
      → EndsType s
      → parse_type (before (type_tokens line column t) s) ≡ ok (t, s)
  unfolding parse_type
  parse_type-type_tokens t s p e =
      let a = alignment_tokens line column t.alignment in
      let v = view_tokens line column t.is_view in
      let stars = star_tokens line column t.pointer_level in
      let word = token line column identifier t.base_name in
      let behind = stars ++ (v ++ a) in
      let (no_star, no_bracket) = alignment-ends t.alignment s e in
      let viewed = before v (before a s) in
      let split : before behind s ≡ before stars viewed =
        before-append stars (v ++ a) s ∙ ap (before stars) (before-append v a s) in
      let free : (same_type identifier identifier && is_reserved_word t.base_name) ≡ false =
        rw (same_type_refl identifier) p.free in
      rw
        (
          before-append (qualifier_tokens line column t.is_const t.is_volatile) (word ∷ behind) s,
          parse_qualifiers-before t.is_const t.is_volatile (before (word ∷ behind) s)
              (not_qualifier t.base_name behind s p.free),
          expect-before (codes "a type name") word behind s free,
          split,
          parse_stars-before t.pointer_level viewed (view-ends t.is_view (before a s) no_star),
          parse_view-before t.is_view (before a s) no_star no_bracket,
          parse_alignment-before t.alignment s p.aligned e.2,
        )
        (ap (λ primitive. ok (record t { is_primitive = primitive }, s)) (sym p.primitive))
