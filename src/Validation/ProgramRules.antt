-- ===== src/Validation/ProgramRules.antt =====
-- What holds of a program that `validateProgram` accepts, and that it always ends.
use psic.Prelude.{◌≡◌, refl, not, Text, List, [], ◌∷◌, arith}
use psic.Source.{SourceLocation}
use psic.Ast.{ProgramNode}
use psic.Target.Pick.{Checked, value, runtime_error}
use psic.Validation.Checked.{◌>>◌, Passes, then-Passes, require-Passes}
use psic.Validation.Environment.{TypeEnvironment, Names, member}
use psic.Validation.Command.{PointerModel}
use psic.Validation.Missing.{member-Adds}
use psic.Validation.Cycles.{Structs, Visit, validate_struct_cycles, visited, recursive}
use psic.Validation.Acyclic.{IsAcyclic}
use psic.Validation.CycleFree.{validate_struct_cycles_iff}
use psic.Validation.Accepted.{IsDistinct}
use psic.Validation.Names.{Fresh, Fresh-cons}
use psic.Validation.Program.{
  Validation, valid, at, check_symbol, validate_declaration, check_declarations, declared_name,
  environment_of, empty_environment, structs_of, validate_program, after_cycles,
}

abbrev pub program_names : ProgramNode → List Text
program_names [] = []
program_names (d ∷ program) = declared_name d.decl ∷ program_names program

-- Every declaration passes its own check.
abbrev pub AllPass : TypeEnvironment → ProgramNode → Type 0
AllPass env [] = Unit {0}
AllPass env (d ∷ program) = Passes (validate_declaration env d.decl) × AllPass env program

at-valid :
    (location : SourceLocation) (r : Checked (Unit {0})) (next : Validation)
    → at location r next ≡ valid
    → Passes r × (next ≡ valid)
at-valid location (value tt) next h = (refl, h)
at-valid location (runtime_error m) next h = cc

check_declarations-valid :
    (env : TypeEnvironment) (symbols : Names) (program : ProgramNode) (next : Validation)
    → check_declarations env symbols program next ≡ valid
    → Fresh (member symbols) (program_names program) × AllPass env program × (next ≡ valid)
unfolding check_declarations member
check_declarations-valid env symbols [] next h = ((tt, λ u e. refl), tt, h)
check_declarations-valid env symbols (d ∷ program) next h =
    let name = declared_name d.decl in
    let here =
      at-valid d.location (validate_declaration env d.decl >> check_symbol symbols name) _ h in
    let parts =
      (then-Passes (validate_declaration env d.decl) (check_symbol symbols name)).0 here.0 in
    let unused = (require-Passes (not (member symbols name)) _).0 parts.1 in
    let ih = check_declarations-valid env (name ∷ symbols) program next here.1 in
    (
      Fresh-cons name (member symbols) (member (name ∷ symbols)) (program_names program)
          (member-Adds name symbols) (ground (arith, unused)) ih.0,
      (parts.0, ih.1),
      ih.2,
    )

after_cycles-valid :
    (structs : Structs) (next : Validation)
    → after_cycles (validate_struct_cycles structs) next ≡ valid
    → IsAcyclic structs × (next ≡ valid)
after_cycles-valid structs next h = go (validate_struct_cycles structs) refl h
  where
    go :
        (v : Visit)
        → validate_struct_cycles structs ≡ v
        → after_cycles v next ≡ valid
        → IsAcyclic structs × (next ≡ valid)
    go (visited names) e k = ((validate_struct_cycles_iff structs).0.0 (names, e), k)
    go (recursive m) e k = cc
    go Visit.out_of_fuel e k = cc

-- If a program is accepted then no two declarations have the same name, every declaration passes
-- its own check, and no struct contains itself by value.
pub validate_program-parts :
    (model : PointerModel) (program : ProgramNode)
    → validate_program model program ≡ valid
    → IsDistinct (program_names program)
      × AllPass (environment_of program empty_environment) program
      × IsAcyclic (structs_of program)
unfolding validate_program
validate_program-parts model program h =
    let env = environment_of program empty_environment in
    let declarations = check_declarations-valid env [] program _ h in
    let cycles = after_cycles-valid (structs_of program) _ declarations.2 in
    (declarations.0.0, declarations.1, cycles.0)
