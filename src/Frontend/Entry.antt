-- ===== src/Frontend/Entry.antt =====
-- src/compiler.cpp: `validateJitEntrySignature` on the parsed program.
use psic.Prelude.{
  Bool, true, false, ◌&&◌, ◌||◌, not, List, [], ◌∷◌, ◌++◌, Text, codes, text_eq, ◌==◌,
  if◌then◌else◌, Option, none, some,
}
use psic.Source.{SourceLocation}
use psic.Ast.{TypeNode, ArgNode, entry, func, DeclarationNode, ProgramNode, BlockNode}

-- What the function returns: `true`, or `false` with an error and its place.
pub data EntryCheck : Type 0 where
  accepted : EntryCheck
  refused : Text → SourceLocation → EntryCheck

abbrev is_empty {ℓ} : {A : Type ℓ} → List A → Bool
is_empty [] = true
is_empty (_ ∷ _) = false

abbrev pub has_body : Option BlockNode → Bool
has_body none = false
has_body (some _) = true

-- The result types that the JIT can call.
unfoldable pub returns_void_or_i32 : TypeNode → Bool
returns_void_or_i32 t =
    t.pointer_level == 0
    && not t.is_view
    && (text_eq t.base_name (codes "void") || text_eq t.base_name (codes "i32"))

-- The checks of a function that has the name of the entry.
unfoldable pub check_function :
    Text → SourceLocation → TypeNode → List ArgNode → Option BlockNode → EntryCheck
check_function name location result args body =
    if not (has_body body)
    then refused (codes "JIT entry '" ++ (name ++ codes "' must have a definition")) location
    else if not (is_empty args)
    then refused (codes "JIT entry must take no arguments") location
    else if not (returns_void_or_i32 result)
    then refused (codes "JIT entry function must return void or i32") location
    else accepted

-- The verdict on one declaration; `none` goes on with the loop.
unfoldable pub check_declaration : Text → DeclarationNode → Option EntryCheck
check_declaration name d = elim d.decl [
  | entry n _ ↦ if text_eq n name then some accepted else none
  | func result n args body ↦
      if not (text_eq n name) then none else some (check_function name d.location result args body)
  | _ ↦ none
]

unfoldable pub validate_jit_entry_signature : Text → ProgramNode → EntryCheck
validate_jit_entry_signature name [] = accepted
validate_jit_entry_signature name (d ∷ ds) = elim (check_declaration name d) [
  | some verdict ↦ verdict
  | none ↦ validate_jit_entry_signature name ds
]
