-- ===== src/Frontend/SourceLine.antt =====
-- src/compiler.cpp: `sourceLineAt`, which finds the line that a diagnostic shows.
use psic.Prelude.{
  ℕ, ◌+◌, Bool, false, ◌&&◌, ◌||◌, not, [], ◌∷◌, ◌++◌, Text, ◌==◌, if◌then◌else◌, Option, none,
  some,
}

-- The loop, with the number of the line and what it has of it. The flag says that a carriage return
-- stands before, so that a newline here is part of the same line end.
unfoldable pub line_from : ℕ → ℕ → Text → Bool → Text → Option Text
line_from requested line current after_return [] = if line == requested then some current else none
line_from requested line current after_return (c ∷ cs) =
    let joined = after_return && c == b'\n' in
    let ends = (c == b'\n' || c == b'\r') && not joined in
    if ends && line == requested
    then some current
    else line_from requested (if ends then line + 1 else line)
        (if ends then [] else if joined then current else current ++ c ∷ []) (c == b'\r') cs

-- `none` is the result `false`.
unfoldable pub source_line_at : Text → ℕ → Option Text
unfolding line_from
source_line_at source requested =
    if requested == 0 then none else line_from requested 1 [] false source
