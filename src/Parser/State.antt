-- ===== src/Parser/State.antt =====
-- src/parser.cpp: the position in the tokens, the looks at it, `consumeToken`, `expectTokenType` and
-- `raiseError`, and the loops of the parser.
use psic.Prelude.{
  ℕ, zero, suc, Bool, true, false, ◌&&◌, not, List, [], ◌∷◌, ◌++◌, Text, codes, text_eq, contains,
  String, if◌then◌else◌, length, get_or_last,
}
use psic.Source.{SourceLocation, Result, ok, failed, out_of_fuel}
use psic.Source
use psic.Lexer.Token.{TokenType, Token, identifier}

-- The current token and those behind it. The list of all tokens is never empty.
pub record State : Type 0 where
  pub here : Token
  pub ahead : List Token

abbrev pub Parser : Type 0 → Type 0
Parser A = State → Result (A × State)

abbrev pub pure : {A : Type 0} → A → Parser A
pure a s = ok (a, s)

infixl 5 ◌>>=◌ ◌>>◌
abbrev pub ◌>>=◌ : {A B : Type 0} → Parser A → (A → Parser B) → Parser B
◌>>=◌ p f s = Source.◌>>=◌ (p s) (λ r. f r.0 r.1)

abbrev pub ◌>>◌ : {A B : Type 0} → Parser A → Parser B → Parser B
◌>>◌ p q = p >>= λ _. q

-- A parser that depends on a look at the state.
abbrev pub when : {A : Type 0} → (State → Bool) → Parser A → Parser A → Parser A
when test p q s = if test s then p s else q s

abbrev pub look : {A : Type 0} → (State → A) → Parser A
look f s = ok (f s, s)

pub TokenType-discrete : Discrete TokenType
TokenType-discrete = hlevel

unfoldable pub same_type : TokenType → TokenType → Bool
unfolding TokenType-discrete
same_type a b = elim (TokenType-discrete a b) [ yes _ ↦ true | no _ ↦ false ]

-- `lookAheadToken`: past the end it gives the last token.
abbrev pub look_ahead_token : ℕ → State → Token
look_ahead_token n s = get_or_last s.here s.ahead n

abbrev pub check_token_type : TokenType → State → Bool
check_token_type t s = same_type s.here.type t

abbrev pub check_token_type_ahead : TokenType → ℕ → State → Bool
check_token_type_ahead t n s = same_type (look_ahead_token n s).type t

abbrev pub check_keyword : String → State → Bool
check_keyword word s = same_type s.here.type identifier && text_eq s.here.text (codes word)

-- The state one token on: it stays on the last one.
abbrev pub next : Token → List Token → State
next t [] = record { here = t; ahead = [] }
next t (u ∷ us) = record { here = u; ahead = us }

-- `consumeToken` stays on the last token.
unfoldable pub consume_token : Parser Token
consume_token s = ok (s.here, next s.here s.ahead)

abbrev pub token_location : Token → SourceLocation
token_location t = record { line = t.line; column = t.column }

-- The `LocatedSourceError` that `raiseError` throws.
unfoldable pub thrown : {A : Type 0} → Text → State → Result A
thrown message s =
    failed (message ++ (codes " (found '" ++ (s.here.text ++ codes "')"))) (token_location s.here)

abbrev pub raise_error : {A : Type 0} → Text → Parser A
raise_error message s = thrown message s

unfoldable pub is_reserved_word : Text → Bool
unfolding contains
is_reserved_word = contains ("true" ∷ "false" ∷ "null" ∷ "nullptr" ∷ "const" ∷ "volatile" ∷ [])

unfoldable pub raise_reserved : {A : Type 0} → Parser A
raise_reserved s =
    raise_error
      (codes "'" ++ (s.here.text ++ codes "' is a reserved word and can't be used as a name")) s

unfoldable pub expect_token_type : TokenType → Text → Parser Token
expect_token_type t what s =
    if not (check_token_type t s)
    then raise_error (codes "expected " ++ what) s
    else if same_type t identifier && is_reserved_word s.here.text
    then raise_reserved s
    else consume_token s

-- `while (test) a = body(a);`, on fuel.
unfoldable pub loop : {A : Type 0} → ℕ → (State → Bool) → (A → Parser A) → A → Parser A
loop zero test body a s = out_of_fuel
loop (suc f) test body a s =
    let again = (body a >>= loop f test body) s in if test s then again else ok (a, s)

-- The loop with a round for each token that is left.
unfoldable pub while : {A : Type 0} → (State → Bool) → (A → Parser A) → A → Parser A
while test body a s = loop (suc (length s.ahead)) test body a s
