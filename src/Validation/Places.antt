-- ===== src/Validation/Places.antt =====
-- Where the errors of `validateProgram` are located, and that the pass always ends.
use psic.Prelude.{◌≡◌, refl, ◌≢◌, ◌⊎◌, inl, inr, Text, [], ◌∷◌, none, some, subst, sym}
use psic.Source.{SourceLocation, Result}
use psic.Ast.{DeclNode, entry, func, DeclarationNode, ProgramNode, BlockNode}
use psic.Target.Pick.{Checked, value, runtime_error}
use psic.Validation.Environment.{TypeEnvironment, Names}
use psic.Validation.Command.{PointerModel}
use psic.Validation.Cycles.{Structs, Visit}
use psic.Validation.Visits.{Outcome, fine, cyclic}
use psic.Validation.VisitEnds.{validate_struct_cycles-Outcome}
use psic.Validation.Program.{
  Validation, valid, located_error, plain_error, out_of_fuel, at, check_declarations, declared_name,
  environment_of, empty_environment, structs_of, validate_body, validate_bodies, validate_program,
  last_location, after_cycles, after_block, argument_types,
}
use psic.Validation.BlockPlaces.{
  IsPlace, Placed, left_at, error_at, Placed-map, validate_block-Placed,
}

abbrev body_of : DeclNode → BlockNode
body_of (entry name body) = body
body_of (func return_type name arguments (some body)) = body
body_of _ = []

-- The place of a declaration, or of a command in the body of one.
abbrev pub IsProgramPlace : SourceLocation → ProgramNode → Type 0
IsProgramPlace l [] = ⊥
IsProgramPlace l (d ∷ program) =
    (l ≡ d.location) ⊎ (IsPlace l (body_of d.decl) ⊎ IsProgramPlace l program)

-- What is so of where an error is located, if there is one that has a place, of a pass that ends.
data Ends (P : SourceLocation → Type 0) : Validation → Type 0 where
  no_error : Ends P valid
  error_in : {l : SourceLocation} (m : Text) → P l → Ends P (located_error m l)
  error_without_place : (m : Text) → Ends P (plain_error m)

Ends-map :
    {P Q : SourceLocation → Type 0} {v : Validation}
    → ((l : SourceLocation) → P l → Q l)
    → Ends P v
    → Ends Q v
Ends-map g no_error = no_error
Ends-map g (error_in {l} m p) = error_in m (g l p)
Ends-map g (error_without_place m) = error_without_place m

at-Ends :
    {P : SourceLocation → Type 0} (location : SourceLocation) (r : Checked (Unit {0}))
    {next : Validation}
    → P location
    → Ends P next
    → Ends P (at location r next)
at-Ends location (value tt) p e = e
at-Ends location (runtime_error m) p e = error_in m p

check_declarations-Ends :
    {P : SourceLocation → Type 0} (env : TypeEnvironment) (symbols : Names) (program : ProgramNode)
    (next : Validation)
    → ((l : SourceLocation) → IsProgramPlace l program → P l)
    → Ends P next
    → Ends P (check_declarations env symbols program next)
unfolding check_declarations
check_declarations-Ends env symbols [] next p e = e
check_declarations-Ends env symbols (d ∷ program) next p e =
    at-Ends d.location _ (p d.location (inl refl)) (
      check_declarations-Ends env (declared_name d.decl ∷ symbols) program next
        (λ l q. p l (inr (inr q))) e)

validate_body-Placed :
    (model : PointerModel) (env : TypeEnvironment) (active : SourceLocation) (d : DeclNode)
    → Placed (λ l. (l ≡ active) ⊎ IsPlace l (body_of d)) (validate_body model env active d)
unfolding validate_body
validate_body-Placed model env active (entry name body) =
    validate_block-Placed model env none active [] body
validate_body-Placed model env active (func type name arguments (some body)) =
    validate_block-Placed model env (some type) active (argument_types arguments []) body
validate_body-Placed model env active _ = left_at (inl refl)

after_block-Ends :
    {P : SourceLocation → Type 0} {r : Result SourceLocation} {next : SourceLocation → Validation}
    → Placed P r
    → ((l : SourceLocation) → P l → Ends P (next l))
    → Ends P (after_block r next)
after_block-Ends (left_at {l} p) g = g l p
after_block-Ends (error_at m p) g = error_in m p

validate_bodies-Ends :
    {P : SourceLocation → Type 0} (model : PointerModel) (env : TypeEnvironment)
    (active : SourceLocation) (program : ProgramNode)
    → P active
    → ((l : SourceLocation) → IsProgramPlace l program → P l)
    → Ends P (validate_bodies model env active program)
unfolding validate_bodies
validate_bodies-Ends model env active [] a p = no_error
validate_bodies-Ends {P} model env active (d ∷ program) a p =
    after_block-Ends (Placed-map here (validate_body-Placed model env active d.decl))
      (λ l q. validate_bodies-Ends model env l program q (λ k q'. p k (inr (inr q'))))
  where
    here : (l : SourceLocation) → (l ≡ active) ⊎ IsPlace l (body_of d.decl) → P l
    here l (inl e) = subst P (sym e) a
    here l (inr q) = p l (inr (inl q))

after_cycles-Ends :
    {P : SourceLocation → Type 0} {Q : Names → Type 0} {structs : Structs} {v : Visit}
    {next : Validation}
    → Outcome structs Q v
    → Ends P next
    → Ends P (after_cycles v next)
after_cycles-Ends (fine q) e = e
after_cycles-Ends (cyclic m name c) e = error_without_place m

-- `activeLocation` behind the first loop.
last_location-IsProgramPlace :
    (l : SourceLocation) (d : DeclarationNode) (program : ProgramNode)
    → IsProgramPlace (last_location l (d ∷ program)) (d ∷ program)
last_location-IsProgramPlace l d [] = inl refl
last_location-IsProgramPlace l d (d' ∷ program) =
    inr (inr (last_location-IsProgramPlace d.location d' program))

validate_program-Ends :
    (model : PointerModel) (program : ProgramNode)
    → Ends (λ l. IsProgramPlace l program) (validate_program model program)
unfolding validate_program check_declarations validate_bodies
validate_program-Ends model [] =
    after_cycles-Ends (validate_struct_cycles-Outcome (structs_of [])) no_error
validate_program-Ends model (d ∷ program) =
    let env = environment_of (d ∷ program) empty_environment in
    check_declarations-Ends env [] (d ∷ program) _ (λ l q. q)
      (after_cycles-Ends (validate_struct_cycles-Outcome (structs_of (d ∷ program))) (
        validate_bodies-Ends model env _ (d ∷ program)
          (last_location-IsProgramPlace (record { line = 0; column = 0 }) d program) (λ l q. q)))

-- For every program, the pass ends: the rounds of the analysis, the visits of structs and the checks
-- of the bodies all finish.
pub validate_program-ne-out_of_fuel :
    (model : PointerModel) (program : ProgramNode) → validate_program model program ≢ out_of_fuel
validate_program-ne-out_of_fuel model program h = go h (validate_program-Ends model program)
  where
    go : {P : SourceLocation → Type 0} {v : Validation} → v ≡ out_of_fuel → Ends P v → ⊥
    go e no_error = cc
    go e (error_in m p) = cc
    go e (error_without_place m) = cc

-- If a program is rejected with a located error then the place is that of a declaration of the
-- program or of a command in the body of one.
pub validate_program-IsProgramPlace :
    (model : PointerModel) (program : ProgramNode) (m : Text) (l : SourceLocation)
    → validate_program model program ≡ located_error m l
    → IsProgramPlace l program
validate_program-IsProgramPlace model program m l h = go h (validate_program-Ends model program)
  where
    go :
        {v : Validation}
        → v ≡ located_error m l
        → Ends (λ k. IsProgramPlace k program) v
        → IsProgramPlace l program
    go e no_error = absurd (cc)
    go e (error_in m' p) = subst (λ k. IsProgramPlace k program) (cc) p
    go e (error_without_place m') = absurd (cc)
