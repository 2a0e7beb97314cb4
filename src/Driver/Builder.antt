-- ===== src/Driver/Builder.antt =====
-- src/compiler.cpp: `ModuleBuilder`, which puts a source together.
use psic.Prelude.{
  ℕ, ◌==◌, Bool, false, Text, List, [], ◌∷◌, ◌++◌, codes, text_eq, if◌then◌else◌, Option,
}
use psic.Target.Pick.{Triple, is_empty}
use psic.Logging.State.{Log}
use psic.Driver.Options.{CompileOptions, CompileResult}
use psic.Driver.Backend.{Backend}
use psic.Driver.Compile.{compile}

pub record ModuleBuilder : Type 0 where
  pub name : Text
  pub source : Text

abbrev pub new_builder : Text → ModuleBuilder
new_builder name = record { name = name; source = [] }

-- `!source.empty() && source.back() == '\n'`.
abbrev pub ends_line : Text → Bool
ends_line [] = false
ends_line (c ∷ []) = c == b'\n'
ends_line (_ ∷ c ∷ cs) = ends_line (c ∷ cs)

abbrev add : Text → ModuleBuilder → ModuleBuilder
add text builder = record builder { source = builder.source ++ text }

abbrev end_line : ModuleBuilder → ModuleBuilder
end_line builder = if ends_line builder.source then builder else add (codes "\n") builder

unfoldable pub declaration : Text → ModuleBuilder → ModuleBuilder
declaration text builder = end_line (add text builder)

-- ` {`, the body on lines of its own, and `}`.
abbrev pub block : Text → Text
block body = codes " {\n" ++ (body ++ codes "\n}\n")

unfoldable pub function : Text → Text → Text → Text → ModuleBuilder → ModuleBuilder
function result name parameters body builder =
    let head = codes "func " ++ (result ++ (codes " " ++ name)) in
    let arguments = if is_empty parameters then [] else codes " " ++ parameters in
    add (head ++ (arguments ++ block body)) builder

unfoldable pub entry : Text → Text → ModuleBuilder → ModuleBuilder
entry name body builder = add (codes "entry " ++ (name ++ block body)) builder

-- The name of the builder stands in for the name that the options have by default.
unfoldable pub compile_built :
    Backend
    → (Text → Triple)
    → (Text → Bool)
    → ℕ
    → ModuleBuilder
    → CompileOptions
    → Log
    → Option (CompileResult × Log)
compile_built backend triple float_in_range v builder options =
    compile backend triple float_in_range v builder.source (
      if text_eq options.module_name (codes "module")
      then record options { module_name = builder.name }
      else options)

-- One call of the builder.
pub data Piece : Type 0 where
  declares : Text → Piece
  defines : Text → Text → Text → Text → Piece
  enters : Text → Text → Piece

unfoldable pub build : List Piece → ModuleBuilder → ModuleBuilder
unfolding declaration function entry
build [] builder = builder
build (declares text ∷ pieces) builder = build pieces (declaration text builder)
build (defines result name parameters body ∷ pieces) builder =
    build pieces (function result name parameters body builder)
build (enters name body ∷ pieces) builder = build pieces (entry name body builder)
