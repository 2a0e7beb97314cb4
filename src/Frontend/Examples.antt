-- ===== src/Frontend/Examples.antt =====
-- The theorems about the lexer and the parser together at concrete inputs.
use psic.Prelude.{refl, ◌≡◌, ◌≢◌, ◌↔◌, Bool, true, false, [], ◌∷◌, ◌++◌, Text, codes, none, some}
use psic.Source.{SourceLocation, ok, out_of_fuel}
use psic.Ast.{TypeNode, ProgramNode, func, glob, null}
use psic.Lexer.Cursor.{start, advance}
use psic.Lexer.Read.{read_string}
use psic.Lexer.Token.{end_of_file}
use psic.Parser.State.{State}
use psic.Parser.Literal.{decode_string_escapes}
use psic.Parser.Escapes.{quoted}
use psic.Frontend.Parse.{parse_source}
use psic.Frontend.Entry.{accepted, validate_jit_entry_signature}
use psic.Frontend.Total.{parse_source-ne-out_of_fuel}
use psic.Frontend.Strings.{taken, read_string-quoted}
use psic.Frontend.SourceLine.{source_line_at}
use psic.Frontend.Lines.{nth, lines, source_line_at_lem, source_line_at-advance}
use psic.Frontend.Callable.{NoneOr, first_named, validate_jit_entry_signature_iff}

abbrev at_end : State
at_end = record {
  here = record { type = end_of_file; text = []; line = 1; column = 1 };
  ahead = [];
}

abbrev any_float : Text → Bool
any_float _ = true

abbrev sample : Text
sample = codes "func i32 main { const i32* p = [1, -2]; a.b[3] = volatile load p; ret \"\\x41\"; }"

parse_source-ne-out_of_fuel_example : parse_source any_float sample ≢ out_of_fuel
parse_source-ne-out_of_fuel_example = parse_source-ne-out_of_fuel any_float sample

read_string-quoted_example :
    (read_string (quoted (codes "a\"\n") ++ codes " ;") start
      ≡ taken (quoted (codes "a\"\n")) (codes " ;") start)
    × (decode_string_escapes at_end (quoted (codes "a\"\n")) ≡ ok (codes "a\"\n"))
read_string-quoted_example = read_string-quoted (codes "a\"\n") (codes " ;") start at_end

abbrev here : SourceLocation
here = record { line = 1; column = 1 }

abbrev i32 : TypeNode
i32 = record {
  base_name = codes "i32";
  pointer_level = 0;
  alignment = none;
  is_primitive = true;
  is_view = false;
  is_const = false;
  is_volatile = false;
}

-- A global, and a function that can be called.
abbrev callable : ProgramNode
callable =
    record { location = here; decl = glob i32 (codes "main") null }
    ∷ record { location = here; decl = func i32 (codes "main") [] (some []) }
    ∷ []

validate_jit_entry_signature_example :
    (validate_jit_entry_signature (codes "main") callable ≡ accepted)
    ↔ NoneOr (first_named (codes "main") callable)
validate_jit_entry_signature_example = validate_jit_entry_signature_iff (codes "main") callable

-- Three lines, and the cursor behind the first two line ends.
source_line_at_example :
    (source_line_at (codes "a\r\nbc\nd") 0 ≡ none)
    × (source_line_at (codes "a\r\nbc\nd") 2 ≡ nth (lines (codes "a\r\nbc\nd")) 1)
source_line_at_example = source_line_at_lem (codes "a\r\nbc\nd") 1

source_line_at-advance_example :
    (line : Text) × (source_line_at
        (codes "a\r\nbc\n" ++ codes "d")
        (advance (codes "a\r\nbc\n") (codes "d") start).line
      ≡ some line)
source_line_at-advance_example = source_line_at-advance (codes "a\r\nbc\n") (codes "d")

second-line : source_line_at (codes "a\r\nbc\nd") 2 ≡ some (codes "bc")
unfolding source_line_at codes
second-line = refl
