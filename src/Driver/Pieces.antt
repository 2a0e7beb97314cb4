-- ===== src/Driver/Pieces.antt =====
-- The source that a `ModuleBuilder` of src/compiler.cpp puts together.
use psic.Prelude.{
  ◌≡◌, refl, true, Text, List, [], ◌∷◌, ◌++◌, codes, append_assoc, ap, ◌∙◌, Bool-cases, inl, inr,
  if◌then◌else◌,
}
use psic.Target.Pick.{is_empty}
use psic.Driver.Builder.{
  ModuleBuilder, ends_line, declaration, function, entry, block, Piece, declares, defines, enters,
  build,
}

ends_line-append : (s t : Text) → ends_line t ≡ true → ends_line (s ++ t) ≡ true
ends_line-append s [] h = absurd (cc)
ends_line-append [] (c ∷ t) h = h
ends_line-append (a ∷ []) (c ∷ t) h = h
ends_line-append (a ∷ b ∷ s) (c ∷ t) h = ends_line-append (b ∷ s) (c ∷ t) h

-- What is added behind the source, which ends a line.
abbrev pub Extends : ModuleBuilder → ModuleBuilder → Type 0
Extends before after =
    (added : Text) × (after.source ≡ before.source ++ added) × (ends_line after.source ≡ true)

declaration-Extends :
    (text : Text) (before : ModuleBuilder) → Extends before (declaration text before)
unfolding declaration codes
declaration-Extends text before = elim (Bool-cases (ends_line (before.source ++ text))) [
  | inl e ↦ rw e (text, refl, e)
  | inr e ↦ rw e (
    text ++ codes "\n",
    append_assoc before.source text (codes "\n"),
    ends_line-append (before.source ++ text) (codes "\n") refl,
  )
]

block-ends_line : (body : Text) → ends_line (block body) ≡ true
unfolding codes
block-ends_line body =
    ends_line-append (codes " {\n") (body ++ codes "\n}\n")
      (ends_line-append body (codes "\n}\n") refl)

function-Extends :
    (result name parameters body : Text) (before : ModuleBuilder)
    → Extends before (function result name parameters body before)
unfolding function
function-Extends result name parameters body before =
    let arguments = if is_empty parameters then [] else codes " " ++ parameters in
    let head = codes "func " ++ (result ++ (codes " " ++ name)) in
    (
      _,
      refl,
      ends_line-append before.source (head ++ (arguments ++ block body)) (
          ends_line-append head (arguments ++ block body)
            (ends_line-append arguments (block body) (block-ends_line body))),
    )

entry-Extends :
    (name body : Text) (before : ModuleBuilder) → Extends before (entry name body before)
unfolding entry
entry-Extends name body before = (
  _,
  refl,
  ends_line-append before.source (codes "entry " ++ (name ++ block body)) (
      ends_line-append (codes "entry ") (name ++ block body)
        (ends_line-append name (block body) (block-ends_line body))),
)

Extends-trans : (a b c : ModuleBuilder) → Extends a b → Extends b c → Extends a c
Extends-trans a b c (s, e, h) (t, f, k) =
    (s ++ t, f ∙ ap (λ u. u ++ t) e ∙ append_assoc a.source s t, k)

-- Calls of a builder, one or more, keep the source before them as it is, and leave one that ends a line,
-- so that no call adds to a line of another.
pub build-Extends :
    (piece : Piece) (pieces : List Piece) (before : ModuleBuilder)
    → (added : Text) × ((build (piece ∷ pieces) before).source ≡ before.source ++ added)
      × (ends_line (build (piece ∷ pieces) before).source ≡ true)
unfolding build
build-Extends (declares text) [] before = declaration-Extends text before
build-Extends (defines result name parameters body) [] before =
    function-Extends result name parameters body before
build-Extends (enters name body) [] before = entry-Extends name body before
build-Extends (declares text) (next ∷ pieces) before =
    let after = declaration text before in
    Extends-trans before after (build (next ∷ pieces) after) (declaration-Extends text before)
      (build-Extends next pieces after)
build-Extends (defines result name parameters body) (next ∷ pieces) before =
    let after = function result name parameters body before in
    Extends-trans before after (build (next ∷ pieces) after)
      (function-Extends result name parameters body before) (build-Extends next pieces after)
build-Extends (enters name body) (next ∷ pieces) before =
    let after = entry name body before in
    Extends-trans before after (build (next ∷ pieces) after) (entry-Extends name body before)
      (build-Extends next pieces after)
