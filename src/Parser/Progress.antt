-- ===== src/Parser/Progress.antt =====
-- How far the steps of src/parser.cpp go on in the tokens, and the rounds of its loops.
use psic.Prelude.{
  ℕ, zero, suc, ◌+◌, ◌≤◌, ◌<◌, ◌≡◌, refl, ◌≢◌, Bool, true, false, ◌&&◌, not, List, [], ◌∷◌, Text,
  arith, length, last_of,
}
use psic.Source
use psic.Source.{
  Result, ok, failed, Ensures, Ensures-if, Ensures-bind, Ensures-map, holds, rejected,
}
use psic.Lexer.Token.{TokenType, Token, identifier, end_of_file}
use psic.Parser.State.{
  State, Parser, pure, same_type, TokenType-discrete, check_token_type, next, consume_token, thrown,
  raise_error, raise_reserved, is_reserved_word, expect_token_type, loop, while,
}

-- The last token is the end-of-file token.
abbrev pub Ends : State → Type 0
Ends s = (last_of s.here s.ahead).type ≡ end_of_file

-- `t` is at least `n` tokens further than `s`, in the same tokens.
pub record After (n : ℕ) (s t : State) : Type 0 where
  pub ends : Ends t
  pub further : n + length t.ahead ≤ length s.ahead

-- The parser throws, or goes on by at least `n` tokens.
abbrev pub Steps : {A : Type 0} → ℕ → State → Result (A × State) → Type 0
Steps n s m = Ensures (λ r. After n s r.1) m

abbrev pub Advances : {A : Type 0} → ℕ → Parser A → Type 0
Advances n p = (s : State) → Ends s → Steps n s (p s)

pub same_type→eq : (a b : TokenType) → same_type a b ≡ true → a ≡ b
unfolding same_type
same_type→eq a b h = go (TokenType-discrete a b) h
  where
    go : (d : Dec (a ≡ b)) → (elim d [ yes _ ↦ true | no _ ↦ false ]) ≡ true → a ≡ b
    go (yes e) h = e
    go (no n) h = cc

pub same_type_refl : (a : TokenType) → same_type a a ≡ true
unfolding same_type
same_type_refl a = go (TokenType-discrete a a)
  where
    go : (d : Dec (a ≡ a)) → (elim d [ yes _ ↦ true | no _ ↦ false ]) ≡ true
    go (yes e) = refl
    go (no n) = absurd (n refl)

-- A token of another type is here: the end is further on.
pub not_at_end :
    (t : TokenType) (s : State)
    → check_token_type t s ≡ true
    → t ≢ end_of_file
    → s.here.type ≢ end_of_file
not_at_end t s h n e = n (cc (same_type→eq s.here.type t h))

module _ {A : Type 0} where
  pub pure-Steps : (a : A) (s : State) → Ends s → Steps 0 s (pure a s)
  pure-Steps a s h = holds (record { ends = h; further = omega arith })

  pub raise_error-Steps :
      (n : ℕ) (message : Text) (s : State) → Steps n s (raise_error {A = A} message s)
  unfolding thrown
  raise_error-Steps n message s = rejected _ _

  pub raise_reserved-Steps : (n : ℕ) (s : State) → Steps n s (raise_reserved {A = A} s)
  unfolding raise_reserved
  raise_reserved-Steps n s = raise_error-Steps n _ s

  pub weaken : (s : State) {m : Result (A × State)} → Steps 1 s m → Steps 0 s m
  weaken s = Ensures-map λ r h. record { ends = h.ends; further = omega (arith, h.further) }

pub consume_token-Steps : (s : State) → Ends s → Steps 0 s (consume_token s)
unfolding consume_token
consume_token-Steps s h = go s.here s.ahead h
  where
    go :
        (t : Token) (ts : List Token)
        → (last_of t ts).type ≡ end_of_file
        → Steps 0 (record { here = t; ahead = ts }) (pure t (next t ts))
    go t [] e = holds (record { ends = e; further = omega arith })
    go t (u ∷ us) e = holds (record { ends = e; further = omega arith })

pub consume_token-Steps_one :
    (s : State) → Ends s → s.here.type ≢ end_of_file → Steps 1 s (consume_token s)
unfolding consume_token
consume_token-Steps_one s h = go s.here s.ahead h
  where
    go :
        (t : Token) (ts : List Token)
        → (last_of t ts).type ≡ end_of_file
        → t.type ≢ end_of_file
        → Steps 1 (record { here = t; ahead = ts }) (ok (t, next t ts))
    go t [] e n = absurd (n e)
    go t (u ∷ us) e n = holds (record { ends = e; further = omega arith })

not-eq-false : (b : Bool) → not b ≡ false → b ≡ true
not-eq-false b h = ground arith

pub expect_token_type-Advances :
    (t : TokenType) (what : Text) → t ≢ end_of_file → Advances 1 (expect_token_type t what)
unfolding expect_token_type
expect_token_type-Advances t what n s h =
    Ensures-if (not (check_token_type t s)) (λ _. raise_error-Steps 1 _ s)
      λ e.
        Ensures-if (same_type t identifier && is_reserved_word s.here.text)
          (λ _. raise_reserved-Steps 1 s)
          λ _. consume_token-Steps_one s h (not_at_end t s (not-eq-false _ e) n)

module _ {A B : Type 0} where
  -- The rest of a parser behind a step.
  pub then-Steps :
      (n m : ℕ) (s : State) {r : Result (A × State)} {g : A × State → Result (B × State)}
      → Steps n s r
      → ((x : A × State) → After n s x.1 → Steps m x.1 (g x))
      → Steps (n + m) s (Source.◌>>=◌ r g)
  then-Steps n m s h g = Ensures-bind h λ x a.
      Ensures-map (λ y b. record { ends = b.ends; further = omega (arith, a.further, b.further) })
        (g x a)

  -- A last step that reads nothing and cannot fail.
  pub finally-Steps :
      (n : ℕ) (s : State) (f : A × State → B) {r : Result (A × State)}
      → Steps n s r
      → Steps n s (Source.◌>>=◌ r λ x. ok (f x, x.1))
  finally-Steps n s f h =
      Ensures-bind h λ x a. holds (record { ends = a.ends; further = a.further })

module _ {A : Type 0} where
  -- Each round of the loop goes on, so the fuel of a round for each token is enough. The body is
  -- called with fewer than `n` tokens ahead.
  loop-Steps :
      (n f : ℕ) (test : State → Bool) (body : A → Parser A) (a : A) (s : State)
      → ((a : A) (t : State) → Ends t → length t.ahead < n → test t ≡ true → Steps 1 t (body a t))
      → length s.ahead < f
      → length s.ahead < n
      → Ends s
      → Steps 0 s (loop f test body a s)
  unfolding loop
  loop-Steps n zero test body a s h l m e = absurd (omega arith)
  loop-Steps n (suc f) test body a s h l m e =
      Ensures-if (test s)
        (λ t. weaken s (
          then-Steps 1 0 s (h a s e m t) λ x after.
            loop-Steps n f test body x.0 x.1 h (omega (arith, after.further))
              (omega (arith, after.further)) after.ends))
        λ _. pure-Steps a s e

  pub while-Steps_below :
      (n : ℕ) (test : State → Bool) (body : A → Parser A) (a : A) (s : State)
      → ((a : A) (t : State) → Ends t → length t.ahead < n → test t ≡ true → Steps 1 t (body a t))
      → length s.ahead < n
      → Ends s
      → Steps 0 s (while test body a s)
  unfolding while
  while-Steps_below n test body a s h m e =
      loop-Steps n (suc (length s.ahead)) test body a s h (omega arith) m e

  pub while-Steps :
      (test : State → Bool) (body : A → Parser A) (a : A) (s : State)
      → ((a : A) (t : State) → Ends t → test t ≡ true → Steps 1 t (body a t))
      → Ends s
      → Steps 0 s (while test body a s)
  while-Steps test body a s h e =
      while-Steps_below (suc (length s.ahead)) test body a s (λ b t k m. h b t k) (omega arith) e
