-- ===== src/Frontend/Lines.antt =====
-- `sourceLineAt` of src/compiler.cpp against the lines of a text, and against the line counter of
-- src/lexer.cpp.
use psic.Prelude.{
  ℕ, zero, suc, ◌+◌, ◌-◌, ◌≤◌, ◌<◌, ◌≡◌, refl, ap, sym, ◌∙◌, Bool, false, ◌&&◌, ◌||◌, List, [], ◌∷◌,
  ◌++◌, Text, ◌==◌, if◌then◌else◌, Option, none, some, arith, length, append-nil, append_assoc,
}
use psic.Lexer.Cursor.{Cursor, start, read_byte, advance, current_char}
use psic.Lexer.Consumes.{advance-append}
use psic.Lexer.Lines.{count, count_crlf, line_number}
use psic.Frontend.SourceLine.{line_from, source_line_at}

-- A character more at the front of the first line.
abbrev onto : Text → List Text → List Text
onto current [] = current ∷ []
onto current (line ∷ more) = (current ++ line) ∷ more

-- The lines of a text, where a return, a newline and the two together each end one.
abbrev pub lines_from : Bool → Text → List Text
lines_from after_return [] = [] ∷ []
lines_from after_return (c ∷ cs) =
    let more = lines_from (c == b'\r') cs in
    if after_return && c == b'\n'
    then more
    else if c == b'\n' || c == b'\r'
    then [] ∷ more
    else onto (c ∷ []) more

abbrev pub lines : Text → List Text
lines = lines_from false

abbrev pub nth : List Text → ℕ → Option Text
nth [] n = none
nth (line ∷ more) zero = some line
nth (line ∷ more) (suc n) = nth more n

onto-append : (xs ys : Text) (ls : List Text) → onto (xs ++ ys) ls ≡ onto xs (onto ys ls)
onto-append xs ys [] = refl
onto-append xs ys (l ∷ ls) = ap (λ t. t ∷ ls) (append_assoc xs ys l)

onto-nil :
    (after_return : Bool) (src : Text)
    → onto [] (lines_from after_return src) ≡ lines_from after_return src
onto-nil after_return [] = refl
onto-nil after_return (c ∷ cs) =
    ground (arith, onto-nil (c == b'\r') cs, onto-append [] (c ∷ []) (lines_from (c == b'\r') cs))

-- The loop finds the line `n` lines on.
line_from-nth :
    (n line : ℕ) (current : Text) (after_return : Bool) (src : Text)
    → line_from (line + n) line current after_return src
      ≡ nth (onto current (lines_from after_return src)) n
unfolding line_from
line_from-nth zero line current after_return [] = ground (arith, append-nil current)
line_from-nth (suc n) line current after_return [] = ground arith
line_from-nth zero line current after_return (c ∷ cs) =
    let more = lines_from (c == b'\r') cs in
    ground (
      arith,
      append-nil current,
      onto-append current (c ∷ []) more,
      line_from-nth zero line current (c == b'\r') cs,
      line_from-nth zero line (current ++ c ∷ []) (c == b'\r') cs,
    )
line_from-nth (suc n) line current after_return (c ∷ cs) =
    let more = lines_from (c == b'\r') cs in
    let on : line + 1 + n ≡ line + suc n = omega arith in
    ground (
      arith,
      onto-append current (c ∷ []) more,
      onto-nil (c == b'\r') cs,
      line_from-nth (suc n) line current (c == b'\r') cs,
      line_from-nth (suc n) line (current ++ c ∷ []) (c == b'\r') cs,
      rw on at (line_from-nth n (line + 1) [] (c == b'\r') cs),
    )

-- Line 0 is none; line `n + 1` is the one that `n` line ends stand before, if there is one: the lines
-- are cut at returns, newlines, and the two together.
pub source_line_at_lem :
    (src : Text) (n : ℕ)
    → (source_line_at src 0 ≡ none) × (source_line_at src (suc n) ≡ nth (lines src) n)
unfolding source_line_at
source_line_at_lem src n =
    let one : 1 + n ≡ suc n = omega arith in
    (refl, ground (arith, rw one at (line_from-nth n 1 [] false src), onto-nil false src))

-- How many lines there are, in the numbers that the line counter is given in.
length-onto_twice :
    (current front : Text) (ls : List Text)
    → length (onto current (onto front ls)) ≡ length (onto front ls)
length-onto_twice current front [] = refl
length-onto_twice current front (l ∷ ls) = refl

length-onto :
    (current : Text) (after_return : Bool) (src : Text)
    → length (onto current (lines_from after_return src)) ≡ length (lines_from after_return src)
length-onto current after_return src =
    rw (onto-nil after_return src) at (length-onto_twice current [] (lines_from after_return src))

length-lines_from :
    (after_return : Bool) (src : Text)
    → length (lines_from after_return src)
        + count_crlf src
        + (if after_return && current_char src == b'\n' then 1 else 0)
      ≡ 1 + count b'\r' src + count b'\n' src
length-lines_from after_return [] = ground arith
length-lines_from after_return (c ∷ cs) =
    ground (arith, length-lines_from (c == b'\r') cs, length-onto (c ∷ []) (c == b'\r') cs)

nth-some : (ls : List Text) (n : ℕ) → n < length ls → (line : Text) × (nth ls n ≡ some line)
nth-some [] n h = absurd (omega arith)
nth-some (l ∷ ls) zero h = (l, refl)
nth-some (l ∷ ls) (suc n) h = nth-some ls n (omega arith)

advance-line-le : (taken behind : Text) (k : Cursor) → k.line ≤ (advance taken behind k).line
unfolding advance
advance-line-le [] behind k = omega arith
advance-line-le (c ∷ cs) behind k =
    let first : k.line ≤ (read_byte c (cs ++ behind) k).line = unfold read_byte in ground arith in
    omega (arith, first, advance-line-le cs behind (read_byte c (cs ++ behind) k))

advance-line-lines :
    (taken rest : Text) → (advance taken rest start).line ≤ length (lines (taken ++ rest))
advance-line-lines taken rest =
    let later = advance-line-le rest [] (advance taken rest start) in
    let whole = line_number (taken ++ rest) [] in
    let split = advance-append taken rest [] start in
    let joint = ap (λ t. (advance rest [] (advance taken t start)).line) (append-nil rest) in
    omega
      (arith, later, whole, ap (λ k. k.line) split, joint, length-lines_from false (taken ++ rest))

-- Wherever the lexer stands in a source, the line that it has counted is a line of that source: a
-- diagnostic at the place of a token or of a lexical error finds a line to show.
pub source_line_at-advance :
    (taken rest : Text)
    → (line : Text) × (source_line_at (taken ++ rest) (advance taken rest start).line ≡ some line)
source_line_at-advance taken rest =
    let line = (advance taken rest start).line in
    let begun : 1 ≤ line = advance-line-le taken rest start in
    let before : suc (line - 1) ≡ line = omega arith in
    let (found, e) =
      nth-some (lines (taken ++ rest)) (line - 1) (omega (arith, advance-line-lines taken rest)) in
    (
      found,
      ap (source_line_at (taken ++ rest)) (sym before)
          ∙ (source_line_at_lem (taken ++ rest) (line - 1)).1
          ∙ e,
    )
