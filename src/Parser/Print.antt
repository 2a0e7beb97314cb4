-- ===== src/Parser/Print.antt =====
-- The tokens of a register and of a type, as src/parser.cpp reads them.
use psic.Prelude.{
  ℕ, zero, suc, Bool, true, false, List, [], ◌∷◌, ◌++◌, Text, codes, if◌then◌else◌, Option, none,
  some,
}
use psic.Ast.{TypeNode, AccessorNode, index, field, RegNode}
use psic.Lexer.Token.{
  TokenType, Token, identifier, number, left_bracket, right_bracket, star, dot, colon,
}
use psic.Parser.State.{State}
use psic.Parser.Decimal.{decimal}

-- The state with tokens in front of the current one.
abbrev pub before : List Token → State → State
before [] s = s
before (t ∷ ts) s = record { here = t; ahead = ts ++ s.here ∷ s.ahead }

-- Tokens that stand at one place; the parser uses the place for its errors only.
module _ (line column : ℕ) where
  abbrev pub token : TokenType → Text → Token
  token type text = record { type = type; text = text; line = line; column = column }

  abbrev pub accessor_tokens : AccessorNode → List Token
  accessor_tokens (index n) =
      token left_bracket (codes "[")
      ∷ token number (decimal n)
      ∷ token right_bracket (codes "]")
      ∷ []
  accessor_tokens (field name) = token dot (codes ".") ∷ token identifier name ∷ []

  abbrev pub accessors_tokens : List AccessorNode → List Token
  accessors_tokens [] = []
  accessors_tokens (a ∷ as') = accessor_tokens a ++ accessors_tokens as'

  abbrev pub register_tokens : RegNode → List Token
  register_tokens r = token identifier r.name ∷ accessors_tokens r.accessors

  -- The tokens in front of the name of a type, and those behind it.
  abbrev pub qualifier_tokens : Bool → Bool → List Token
  qualifier_tokens is_const is_volatile =
      (if is_const then token identifier (codes "const") ∷ [] else [])
      ++ (if is_volatile then token identifier (codes "volatile") ∷ [] else [])

  abbrev pub star_tokens : ℕ → List Token
  star_tokens zero = []
  star_tokens (suc n) = token star (codes "*") ∷ star_tokens n

  abbrev pub view_tokens : Bool → List Token
  view_tokens true = token left_bracket (codes "[") ∷ token right_bracket (codes "]") ∷ []
  view_tokens false = []

  abbrev pub alignment_tokens : Option ℕ → List Token
  alignment_tokens none = []
  alignment_tokens (some n) = token colon (codes ":") ∷ token number (decimal n) ∷ []

  abbrev pub type_tokens : TypeNode → List Token
  type_tokens t =
      qualifier_tokens t.is_const t.is_volatile
      ++ (token identifier t.base_name
          ∷ (star_tokens t.pointer_level
              ++ (view_tokens t.is_view ++ alignment_tokens t.alignment)))
