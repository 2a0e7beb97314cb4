-- ===== src/Frontend/Callable.antt =====
-- What `validateJitEntrySignature` of src/compiler.cpp accepts.
use psic.Prelude.{
  ◌≡◌, ◌↔◌, ◌⊎◌, refl, Bool, true, false, List, [], ◌∷◌, Text, codes, text_eq, text_eq_iff,
  if◌then◌else◌, Option, none, some, arith, Bool-cases, inl, inr,
}
use psic.Source.{SourceLocation}
use psic.Ast.{
  TypeNode, ArgNode, DeclNode, entry, struct, func, glob, constant, DeclarationNode, ProgramNode,
  BlockNode,
}
use psic.Frontend.Entry.{
  EntryCheck, accepted, has_body, returns_void_or_i32, check_function, check_declaration,
  validate_jit_entry_signature,
}

-- Whether the declaration is an entry or a function with the name.
abbrev pub has_name : Text → DeclNode → Bool
has_name name (entry n _) = text_eq n name
has_name name (func _ n _ _) = text_eq n name
has_name name _ = false

abbrev pub first_named : Text → ProgramNode → Option DeclarationNode
first_named name [] = none
first_named name (d ∷ ds) = if has_name name d.decl then some d else first_named name ds

-- A function is defined, without arguments, and returns `void` or `i32`; anything else is fine.
abbrev pub IsCallable : DeclNode → Type 0
IsCallable (func result n args body) =
    (has_body body ≡ true)
    × (args ≡ [])
    × (result.pointer_level ≡ 0)
    × (result.is_view ≡ false)
    × ((result.base_name ≡ codes "void") ⊎ (result.base_name ≡ codes "i32"))
IsCallable _ = Unit

returns_void_or_i32_iff :
    (t : TypeNode)
    → (returns_void_or_i32 t ≡ true) ↔ (
        (t.pointer_level ≡ 0)
        × (t.is_view ≡ false)
        × ((t.base_name ≡ codes "void") ⊎ (t.base_name ≡ codes "i32")))
unfolding returns_void_or_i32
returns_void_or_i32_iff t =
    ground (arith, text_eq_iff t.base_name (codes "void"), text_eq_iff t.base_name (codes "i32"))

check_function_iff :
    (name : Text) (l : SourceLocation) (result : TypeNode) (n : Text) (args : List ArgNode)
    (body : Option BlockNode)
    → (check_function name l result args body ≡ accepted) ↔ IsCallable (func result n args body)
unfolding check_function
check_function_iff name l result n args none = (λ h. absurd (cc), λ h. absurd (cc))
check_function_iff name l result n (a ∷ more) (some b) = (λ h. absurd (cc), λ h. absurd (cc))
check_function_iff name l result n [] (some b) = elim (Bool-cases (returns_void_or_i32 result)) [
  | inl e ↦ (
    λ _. let r = (returns_void_or_i32_iff result).0 e in (refl, refl, r.0, r.1, r.2),
    λ _. rw e refl,
  )
  | inr e ↦ (
    λ h. absurd (ground (arith, e, h)),
    λ h. absurd (ground (arith, e, (returns_void_or_i32_iff result).1 (h.2, h.3, h.4))),
  )
]

-- The checks of a declaration with the name.
check_declaration_iff :
    (name : Text) (l : SourceLocation) (decl : DeclNode) (rest : EntryCheck)
    → has_name name decl ≡ true
    → (elim (check_declaration name (record { location = l; decl = decl })) [
      | some verdict ↦ verdict
      | none ↦ rest
    ]
        ≡ accepted)
      ↔ IsCallable decl
unfolding check_declaration
check_declaration_iff name l (entry n block) rest h = rw h (λ _. tt, λ _. refl)
check_declaration_iff name l (func result n args body) rest h =
    rw h (check_function_iff name l result n args body)
check_declaration_iff name l (struct _ _) rest h = absurd (cc)
check_declaration_iff name l (glob _ _ _) rest h = absurd (cc)
check_declaration_iff name l (constant _ _ _) rest h = absurd (cc)

check_declaration-other :
    (name : Text) (l : SourceLocation) (decl : DeclNode)
    → has_name name decl ≡ false
    → check_declaration name (record { location = l; decl = decl }) ≡ none
unfolding check_declaration
check_declaration-other name l (entry n block) h = rw h refl
check_declaration-other name l (func result n args body) h = rw h refl
check_declaration-other name l (struct _ _) h = refl
check_declaration-other name l (glob _ _ _) h = refl
check_declaration-other name l (constant _ _ _) h = refl

abbrev pub NoneOr : Option DeclarationNode → Type 0
NoneOr none = Unit
NoneOr (some d) = IsCallable d.decl

-- A program is accepted if and only if it has no entry and no function with the name, or the first
-- of them is an entry, or a function with a body, without arguments, that returns `void` or `i32`.
pub validate_jit_entry_signature_iff :
    (name : Text) (p : ProgramNode)
    → (validate_jit_entry_signature name p ≡ accepted) ↔ NoneOr (first_named name p)
unfolding validate_jit_entry_signature
validate_jit_entry_signature_iff name [] = (λ _. tt, λ _. refl)
validate_jit_entry_signature_iff name (d ∷ ds) = elim (Bool-cases (has_name name d.decl)) [
  | inl e ↦
      rw e (check_declaration_iff name d.location d.decl (validate_jit_entry_signature name ds) e)
  | inr e ↦
      rw (e, validate_jit_entry_signature, check_declaration-other name d.location d.decl e)
        (validate_jit_entry_signature_iff name ds)
]
