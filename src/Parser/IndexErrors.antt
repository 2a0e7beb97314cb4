-- ===== src/Parser/IndexErrors.antt =====
-- Where the errors of `expectIndexNumber` of src/parser.cpp stand, for an index of a register.
use psic.Prelude.{ℕ, ◌≡◌, ◌∷◌, ◌++◌, Text}
use psic.Lexer.Token.{Token}
use psic.Parser.State.{State}
use psic.Parser.Decimal.{decimal}

-- The spellings of negative integers and of decimal fractions.
pub data IsNoIndex (text : Text) : Type 0 where
  negative : (n : ℕ) → text ≡ b'-' ∷ decimal n → IsNoIndex text
  fraction : (n m : ℕ) → text ≡ decimal n ++ b'.' ∷ decimal m → IsNoIndex text
