-- ===== src/Frontend/Total.antt =====
-- Whether the lexer and the parser of src/compiler.cpp together end.
use psic.Prelude.{◌≡◌, refl, ◌≢◌, Bool, Text, List}
use psic.Source.{Result, ok, failed, out_of_fuel, Ensures, Ensures-ne-out_of_fuel, rejected, ◌>>=◌}
use psic.Lexer.Token.{Token}
use psic.Lexer.Tokenize.{tokenize}
use psic.Lexer.Sound.{tokenize-ne-out_of_fuel}
use psic.Lexer.Stream.{tokenize-IsStream}
use psic.Parser.Declaration.{parse}
use psic.Parser.Total.Program.{parse-Settles}
use psic.Frontend.Parse.{parse_source}

parse_source-Settles :
    (float_in_range : Text → Bool) (source : Text)
    → Ensures (λ _. Unit {0}) (parse_source float_in_range source)
unfolding parse_source
parse_source-Settles float_in_range source = go (tokenize source) refl
  where
    go :
        (m : Result (List Token))
        → tokenize source ≡ m
        → Ensures (λ _. Unit {0}) (m >>= parse float_in_range)
    go (ok ts) e = parse-Settles float_in_range ts (tokenize-IsStream source e)
    go (failed message l) e = rejected message l
    go out_of_fuel e = absurd (tokenize-ne-out_of_fuel source e)

-- On every source the lexer and the parser return a program or throw an error with a place: none
-- of their loops and recursions runs on.
pub parse_source-ne-out_of_fuel :
    (float_in_range : Text → Bool) (source : Text)
    → parse_source float_in_range source ≢ out_of_fuel
parse_source-ne-out_of_fuel float_in_range source =
    Ensures-ne-out_of_fuel (parse_source-Settles float_in_range source)
