-- ===== src/Lexer/Sound.antt =====
-- `tokenize` of src/lexer.cpp against the grammar: a description of a source as gaps and tokens,
-- each token with the place where it begins.
use psic.Prelude.{
  ℕ, zero, suc, ◌<◌, ◌≡◌, ap, ◌∙◌, ◌≢◌, [], ◌∷◌, ◌++◌, List, Text, arith, length, append-nil,
}
use psic.Source.{
  Result, ok, out_of_fuel, Ensures, Ensures-bind, Ensures-both, Ensures-ok, Ensures-ne-out_of_fuel,
  holds,
}
use psic.Lexer.Token.{TokenType, Token, end_of_file}
use psic.Lexer.Cursor.{Cursor, start, advance}
use psic.Lexer.Read.{Read}
use psic.Lexer.Tokenize.{token_at, tokenize_from, tokenize_loop, tokenize}
use psic.Lexer.Gaps.{IsGap, Passes, skip-Passes}
use psic.Lexer.Progress.{read_lexeme-IsLexed, length-append_text}
use psic.Lexer.Grammar.{IsToken}
use psic.Lexer.Shapes.{read_lexeme-IsToken}

-- The source from `k` on is a gap, a token, and so on, and at last a gap and the end.
pub data Lexes : Text → Cursor → List Token → Type 0 where
  finished :
      {src : Text} {k : Cursor} {ts : List Token}
      → IsGap [] src
      → ts ≡ token_at (advance src [] k) end_of_file [] ∷ []
      → Lexes src k ts
  token :
      (gap text rest : Text) (t : TokenType) (later : List Token) {src : Text} {k : Cursor}
      {ts : List Token}
      → src ≡ gap ++ (text ++ rest)
      → IsGap (text ++ rest) gap
      → IsToken rest t text
      → Lexes rest (advance text rest (advance gap (text ++ rest) k)) later
      → ts ≡ token_at (advance gap (text ++ rest) k) t text ∷ later
      → Lexes src k ts

abbrev Again : (Text → Cursor → Result (List Token)) → ℕ → Type 0
Again again f = (src : Text) (k : Cursor) → length src < f → Ensures (Lexes src k) (again src k)

-- Behind the gap `p`: the end, or a token and the next round.
tokenize_from-Lexes :
    (again : Text → Cursor → Result (List Token)) (f : ℕ)
    → Again again f
    → (src : Text) (k : Cursor) (rest : Text) (k' : Cursor) → Passes IsGap src k (rest, k')
    → length src < suc f
    → Ensures (Lexes src k) (tokenize_from again rest k')
unfolding tokenize_from
tokenize_from-Lexes again f ih src k [] k' p h =
    let whole : src ≡ p.passed = p.splits ∙ append-nil p.passed in
    holds (finished (rw whole p.fits) (rw (whole, ← p.moved)))
tokenize_from-Lexes again f ih src k (c ∷ cs) k' p h =
    Ensures-bind (Ensures-both (read_lexeme-IsLexed c cs k') (read_lexeme-IsToken c cs k'))
      λ l read.
        let r = l.1 in
        let (consumes, reads) = read.0 in
        let splits = consumes.splits in
        Ensures-bind (ih r.rest r.cursor (shorter r splits reads)) λ later lexes. holds (
          token p.passed r.text r.rest l.0 later (p.splits ∙ ap (λ t. p.passed ++ t) splits)
            (rw (← splits) p.fits) read.1 (rw (← splits, ← p.moved, ← consumes.moved) lexes)
            (rw (← splits, ← p.moved)))
  where
    shorter : (r : Read) → c ∷ cs ≡ r.text ++ r.rest → 0 < length r.text → length r.rest < f
    shorter r e reads = omega (
      arith,
      ap length e,
      ap length p.splits,
      length-append_text r.text r.rest,
      length-append_text p.passed (c ∷ cs),
    )

tokenize_loop-Lexes :
    (f : ℕ) (src : Text) (k : Cursor)
    → length src < f
    → Ensures (Lexes src k) (tokenize_loop f src k)
unfolding tokenize_loop
tokenize_loop-Lexes zero src k h = absurd (omega arith)
tokenize_loop-Lexes (suc f) src k h =
    Ensures-bind (skip-Passes (suc (length src)) src k (omega arith))
      λ e p. tokenize_from-Lexes (tokenize_loop f) f (tokenize_loop-Lexes f) src k e.0 e.1 p h

-- The loop has enough fuel on every source: `tokenize` returns tokens or throws.
pub tokenize-ne-out_of_fuel : (src : Text) → tokenize src ≢ out_of_fuel
unfolding tokenize
tokenize-ne-out_of_fuel src =
    Ensures-ne-out_of_fuel (tokenize_loop-Lexes (suc (length src)) src start (omega arith))

-- What `tokenize` returns is the source cut into gaps and tokens of the grammar, in order and with
-- nothing left over, each token with the line and column that the cursor has where it begins, and
-- with the end-of-file token last.
pub tokenize-Lexes : (src : Text) {ts : List Token} → tokenize src ≡ ok ts → Lexes src start ts
unfolding tokenize
tokenize-Lexes src = Ensures-ok (tokenize_loop-Lexes (suc (length src)) src start (omega arith))
