-- ===== src/Lexer/Gaps.antt =====
-- What `skipWhitespaceAndComments` of src/lexer.cpp passes over: blanks and comments, as far as
-- they reach.
use psic.Prelude.{
  ℕ, zero, suc, ◌<◌, ◌≤◌, ◌≡◌, refl, ap, ◌∙◌, ◌≢◌, inl, inr, Bool, true, false, ◌&&◌, ◌||◌, not,
  Bool-cases, [], ◌∷◌, ◌++◌, Text, arith, ◌==◌, length, append_assoc, length-append, all, tail,
}
use psic.Source.{Ensures, Ensures-if, Ensures-bind, Ensures-map, holds, rejected}
use psic.Lexer.Chars.{is_blank_char}
use psic.Lexer.Cursor.{Cursor, current_char, read_char, read_byte, advance}
use psic.Lexer.Skip.{skip_line_comment, skip_block_comment, skip_whitespace_and_comments}
use psic.Lexer.Consumes.{advance-append}

abbrev pub is_line_end : ℕ → Bool
is_line_end c = c == b'\n' || c == b'\r'

-- The end of the source, or the end of a line.
abbrev pub AtLineEnd : Text → Type 0
AtLineEnd [] = Unit {0}
AtLineEnd (c ∷ _) = is_line_end c ≡ true

-- The bytes of a block comment behind `/*`: they end in the first `*/`.
pub data IsBlockBody : Text → Type 0 where
  close : {c d : ℕ} → c ≡ b'*' → d ≡ b'/' → IsBlockBody (c ∷ d ∷ [])
  inner :
      {c : ℕ} {body : Text}
      → (c == b'*' && current_char body == b'/') ≡ false
      → IsBlockBody body
      → IsBlockBody (c ∷ body)

-- No blank and no comment begins the text.
abbrev pub StartsToken : Text → Type 0
StartsToken [] = Unit {0}
StartsToken (c ∷ cs) =
    (is_blank_char c ≡ false)
    × ((c == b'/' && current_char cs == b'/') ≡ false)
    × ((c == b'/' && current_char cs == b'*') ≡ false)

-- A text of blanks and comments that goes as far as it can before `behind`.
pub data IsGap (behind : Text) : Text → Type 0 where
  empty : StartsToken behind → IsGap behind []
  blank : {c : ℕ} {gap : Text} → is_blank_char c ≡ true → IsGap behind gap → IsGap behind (c ∷ gap)
  line_comment :
      {c d : ℕ} (body gap : Text) {whole : Text}
      → c ≡ b'/'
      → d ≡ b'/'
      → all (λ b. not (is_line_end b)) body ≡ true
      → AtLineEnd (gap ++ behind)
      → IsGap behind gap
      → whole ≡ c ∷ d ∷ (body ++ gap)
      → IsGap behind whole
  block_comment :
      {c d : ℕ} (body gap : Text) {whole : Text}
      → c ≡ b'/'
      → d ≡ b'*'
      → IsBlockBody body
      → IsGap behind gap
      → whole ≡ c ∷ d ∷ (body ++ gap)
      → IsGap behind whole

-- A loop passes over `passed` and leaves the rest and the cursor `e`.
pub record Passes (P : Text → Text → Type 0) (src : Text) (k : Cursor) (e : Text × Cursor)
    : Type 0 where
  pub passed : Text
  pub fits : P e.0 passed
  pub splits : src ≡ passed ++ e.0
  pub moved : e.1 ≡ advance passed e.0 k

abbrev LineBody : Text → Text → Type 0
LineBody behind body = (all (λ b. not (is_line_end b)) body ≡ true) × AtLineEnd behind

skip_line_comment-Passes :
    (src : Text) (k : Cursor) → Passes LineBody src k (skip_line_comment src k)
unfolding skip_line_comment advance
skip_line_comment-Passes [] k = record {
  passed = [];
  fits = (refl, tt);
  splits = refl;
  moved = refl;
}
skip_line_comment-Passes (c ∷ cs) k = elim (Bool-cases (is_line_end c)) [
  | inl e ↦ rw e (record { passed = []; fits = (refl, e); splits = refl; moved = refl })
  | inr e ↦ rw e (longer e (skip_line_comment-Passes cs (read_byte c cs k)))
]
  where
    longer :
        {e : Text × Cursor}
        → is_line_end c ≡ false
        → Passes LineBody cs (read_byte c cs k) e
        → Passes LineBody (c ∷ cs) k e
    longer inside p = record {
      passed = c ∷ p.passed;
      fits = (rw (inside, p.fits.0), p.fits.1);
      splits = ap (◌∷◌ c) p.splits;
      moved = rw (← p.splits) p.moved;
    }

current_char-append :
    {body : Text} (behind : Text)
    → IsBlockBody body
    → current_char (body ++ behind) ≡ current_char body
current_char-append behind (close p q) = refl
current_char-append behind (inner p b) = refl

abbrev BlockBody : Text → Text → Type 0
BlockBody behind body = IsBlockBody body

block_closed :
    (c : ℕ) (cs : Text) (k : Cursor)
    → (c == b'*' && current_char cs == b'/') ≡ true
    → Passes BlockBody (c ∷ cs) k (tail cs, read_char cs (read_byte c cs k))
unfolding advance
block_closed c [] k h = ground arith
block_closed c (d ∷ cs) k h = record {
  passed = c ∷ d ∷ [];
  fits = close (ground arith) (ground arith);
  splits = refl;
  moved = refl;
}

block_longer :
    (c : ℕ) (cs : Text) (k : Cursor) (e : Text × Cursor)
    → (c == b'*' && current_char cs == b'/') ≡ false
    → Passes BlockBody cs (read_byte c cs k) e
    → Passes BlockBody (c ∷ cs) k e
unfolding advance
block_longer c cs k e open_still p = record {
  passed = c ∷ p.passed;
  fits = inner (rw (← current_char-append e.0 p.fits, ← p.splits) open_still) p.fits;
  splits = ap (◌∷◌ c) p.splits;
  moved = rw (← p.splits) p.moved;
}

skip_block_comment-Passes :
    (at_start : Cursor) (src : Text) (k : Cursor)
    → Ensures (Passes BlockBody src k) (skip_block_comment at_start src k)
unfolding skip_block_comment
skip_block_comment-Passes at_start [] k = rejected _ _
skip_block_comment-Passes at_start (c ∷ cs) k =
    Ensures-if (c == b'*' && current_char cs == b'/') (λ h. holds (block_closed c cs k h))
      λ h. Ensures-map (λ e p. block_longer c cs k e h p) (skip_block_comment-Passes at_start cs _)

-- The two bytes `c` and `d`, then what a comment's loop passes over, then a gap.
after_comment :
    (P : Text → Text → Type 0) (c d : ℕ) (s : Text) (k : Cursor) (mid e : Text × Cursor)
    (body : Passes P s (read_byte d s (read_byte c (d ∷ s) k)) mid)
    → ((gap : Text) → mid.0 ≡ gap ++ e.0 → IsGap e.0 gap → IsGap e.0 (c ∷ d ∷ (body.passed ++ gap)))
    → Passes IsGap mid.0 mid.1 e
    → Passes IsGap (c ∷ d ∷ s) k e
unfolding advance
after_comment P c d s k mid e body f p =
    let whole : s ≡ body.passed ++ (p.passed ++ e.0) =
      body.splits ∙ ap (λ t. body.passed ++ t) p.splits in
    record {
      passed = c ∷ d ∷ (body.passed ++ p.passed);
      fits = f p.passed p.splits p.fits;
      splits = rw (append_assoc, ← whole);
      moved = p.moved ∙ rw (advance-append, append_assoc, ← whole, ← p.splits, ← body.moved);
    }

after_line :
    (c d : ℕ) (s : Text) (k : Cursor) (mid e : Text × Cursor)
    → c ≡ b'/'
    → d ≡ b'/'
    → Passes LineBody s (read_byte d s (read_byte c (d ∷ s) k)) mid
    → Passes IsGap mid.0 mid.1 e
    → Passes IsGap (c ∷ d ∷ s) k e
after_line c d s k mid e hc hd body =
    after_comment LineBody c d s k mid e body
      λ gap q g. line_comment body.passed gap hc hd body.fits.0 (rw q at body.fits.1) g refl

after_block :
    (c d : ℕ) (s : Text) (k : Cursor) (mid e : Text × Cursor)
    → c ≡ b'/'
    → d ≡ b'*'
    → Passes BlockBody s (read_byte d s (read_byte c (d ∷ s) k)) mid
    → Passes IsGap mid.0 mid.1 e
    → Passes IsGap (c ∷ d ∷ s) k e
after_block c d s k mid e hc hd body =
    after_comment BlockBody c d s k mid e body
      λ gap q g. block_comment body.passed gap hc hd body.fits g refl

after_blank :
    (c : ℕ) (cs : Text) (k : Cursor) (e : Text × Cursor)
    → is_blank_char c ≡ true
    → Passes IsGap cs (read_byte c cs k) e
    → Passes IsGap (c ∷ cs) k e
unfolding advance
after_blank c cs k e h p = record {
  passed = c ∷ p.passed;
  fits = blank h p.fits;
  splits = ap (◌∷◌ c) p.splits;
  moved = rw (← p.splits) p.moved;
}

and-false-ne-true : (b : Bool) → (b && false) ≢ true
and-false-ne-true b h = ground arith

length-Passes :
    {P : Text → Text → Type 0} (src : Text) (k : Cursor) (e : Text × Cursor)
    → Passes P src k e
    → length e.0 ≤ length src
length-Passes src k e p = rw p.splits (omega (arith, length-append p.passed e.0))

-- The loop has the fuel that it needs, and passes over a gap.
pub skip-Passes :
    (f : ℕ) (src : Text) (k : Cursor)
    → length src < f
    → Ensures (Passes IsGap src k) (skip_whitespace_and_comments f src k)
unfolding skip_whitespace_and_comments advance
skip-Passes zero src k h = absurd (omega arith)
skip-Passes (suc f) [] k h =
    holds (record { passed = []; fits = empty tt; splits = refl; moved = refl })
skip-Passes (suc f) (c ∷ []) k h =
    Ensures-if (is_blank_char c)
      (λ b. Ensures-map (λ e. after_blank c [] k e b) (skip-Passes f [] _ (omega arith)))
      λ h₁.
        Ensures-if (c == b'/' && false) (λ b. absurd (and-false-ne-true _ b))
          λ h₂.
            Ensures-if (c == b'/' && false) (λ b. absurd (and-false-ne-true _ b))
              λ h₃.
                holds
                  (record { passed = []; fits = empty (h₁, h₂, h₃); splits = refl; moved = refl })
skip-Passes (suc f) (c ∷ d ∷ s) k h =
    let k' = read_byte d s (read_byte c (d ∷ s) k) in
    let line = skip_line_comment-Passes s k' in
    let line_end = skip_line_comment s k' in
    Ensures-if (is_blank_char c)
      (λ b. Ensures-map (λ e. after_blank c (d ∷ s) k e b) (skip-Passes f (d ∷ s) _ (omega arith)))
      λ h₁.
        Ensures-if (c == b'/' && d == b'/')
          (λ b.
            Ensures-map (λ e. after_line c d s k line_end e (ground arith) (ground arith) line)
              (skip-Passes f line_end.0 line_end.1
                (omega (arith, length-Passes s k' line_end line))))
          λ h₂.
            Ensures-if (c == b'/' && d == b'*')
              (λ b. Ensures-bind (skip_block_comment-Passes k s k') λ mid body.
                Ensures-map (λ e. after_block c d s k mid e (ground arith) (ground arith) body)
                  (skip-Passes f mid.0 mid.1 (omega (arith, length-Passes s k' mid body))))
              λ h₃.
                holds
                  (record { passed = []; fits = empty (h₁, h₂, h₃); splits = refl; moved = refl })
