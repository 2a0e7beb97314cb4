-- ===== src/Validation/Misplaced.antt =====
-- Where `validateProgram` of src/validation.cpp locates an error of the flow analysis of a body.
use psic.Prelude.{◌≡◌, refl, ◌∙◌, subst, Text, List, [], ◌∷◌, ◌++◌, Option, none, some}
use psic.Source.{SourceLocation, failed}
use psic.Ast.{TypeNode, ArgNode, BlockNode, DeclNode, entry, func, DeclarationNode, ProgramNode}
use psic.Target.Pick.{Checked, value, runtime_error}
use psic.Validation.Command.{PointerModel}
use psic.Validation.Checked.{◌>>◌}
use psic.Validation.Environment.{Map, Names, TypeEnvironment}
use psic.Validation.Closure.{alias_closure}
use psic.Validation.Block.{validate_block}
use psic.Validation.Cycles.{validate_struct_cycles, visited}
use psic.Validation.Program.{
  Validation, valid, located_error, at, check_declarations, check_symbol, declared_name,
  validate_declaration, structs_of, argument_types, validate_body, validate_bodies, last_location,
  validate_program, environment_of, empty_environment,
}
use psic.Validation.ClosureErrors.{alias_closure-elsewhere}

block-elsewhere :
    (env : TypeEnvironment) (model : PointerModel) (return_type : Option TypeNode)
    (there here : SourceLocation) (locals : Map TypeNode) (block : BlockNode) (m : Text)
    (l : SourceLocation)
    → alias_closure there env locals block ≡ failed m l
    → validate_block model env return_type here locals block ≡ failed m here
unfolding validate_block
block-elsewhere env model return_type there here locals block m l h =
    rw (alias_closure-elsewhere env there here locals block m l h) refl

-- Where the declarations pass, what comes behind the loop over them decides.
at-passed :
    (place : SourceLocation) (r : Checked (Unit {0})) (v w next : Validation)
    → (v ≡ valid → w ≡ next)
    → at place r v ≡ valid
    → at place r w ≡ next
at-passed place (value x) v w next f h = f h
at-passed place (runtime_error m) v w next f h = absurd (cc)

check_declarations-next :
    (env : TypeEnvironment) (symbols : Names) (program : ProgramNode) (next : Validation)
    → check_declarations env symbols program valid ≡ valid
    → check_declarations env symbols program next ≡ next
unfolding check_declarations
check_declarations-next env symbols [] next h = refl
check_declarations-next env symbols (d ∷ program) next h =
    let name = declared_name d.decl in
    at-passed d.location (validate_declaration env d.decl >> check_symbol symbols name) _ _ next
      (check_declarations-next env (name ∷ symbols) program next) h

last_location-append :
    (active : SourceLocation) (front : ProgramNode) (last : DeclarationNode)
    → last_location active (front ++ last ∷ []) ≡ last.location
last_location-append active [] last = refl
last_location-append active (d ∷ front) last = last_location-append d.location front last

-- The body of a declaration, with the locals that its arguments are.
pub data HasBody (locals : Map TypeNode) (body : BlockNode) : DeclNode → Type 0 where
  entry_body : (name : Text) → locals ≡ [] → HasBody locals body (entry name body)
  func_body :
      (return_type : TypeNode) (name : Text) (arguments : List ArgNode)
      → locals ≡ argument_types arguments []
      → HasBody locals body (func return_type name arguments (some body))

body-elsewhere :
    (model : PointerModel) (env : TypeEnvironment) (there here l : SourceLocation)
    (locals : Map TypeNode) (body : BlockNode) (decl : DeclNode) (m : Text)
    → HasBody locals body decl
    → alias_closure there env locals body ≡ failed m l
    → validate_body model env here decl ≡ failed m here
unfolding validate_body
body-elsewhere model env there here l locals body decl m (entry_body name e) h =
    block-elsewhere env model none there here [] body m l
      (subst (λ k. alias_closure there env k body ≡ failed m l) e h)
body-elsewhere model env there here l locals body decl m (func_body return_type name arguments e)
      h =
    block-elsewhere env model (some return_type) there here (argument_types arguments []) body m l
      (subst (λ k. alias_closure there env k body ≡ failed m l) e h)

abbrev pub environment_in : ProgramNode → TypeEnvironment
environment_in program = environment_of program empty_environment

-- A program of a first declaration, others, and a last one.
abbrev pub between : DeclarationNode → ProgramNode → DeclarationNode → ProgramNode
between first middle last = first ∷ (middle ++ last ∷ [])

-- If the declarations of a program pass their checks and no struct contains itself, and the flow
-- analysis of the body of the first declaration fails, from any place, then the program is rejected with
-- the message of the analysis at the place of its last declaration, wherever the body stands.
pub validate_program-misplaced :
    (model : PointerModel) (first last : DeclarationNode) (middle : ProgramNode)
    (locals : Map TypeNode) (body : BlockNode) (there l : SourceLocation) (m : Text) (names : Names)
    → HasBody locals body first.decl
    → check_declarations
        (environment_in (between first middle last))
        []
        (between first middle last)
        valid
      ≡ valid
    → validate_struct_cycles (structs_of (between first middle last)) ≡ visited names
    → alias_closure there (environment_in (between first middle last)) locals body ≡ failed m l
    → validate_program model (between first middle last) ≡ located_error m last.location
unfolding validate_program validate_bodies
validate_program-misplaced model first last middle locals body there l m names has passed acyclic
      h =
    let program = between first middle last in
    let env = environment_in program in
    check_declarations-next env [] program _ passed
    ∙ rw
        (
          acyclic,
          last_location-append first.location middle last,
          body-elsewhere model env there last.location l locals body first.decl m has h,
        )
        refl
