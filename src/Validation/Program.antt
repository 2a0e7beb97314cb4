-- ===== src/Validation/Program.antt =====
-- src/validation.cpp: `validateProgram`.
use psic.Prelude.{
  ◌==◌, Bool, true, false, not, ◌||◌, if◌then◌else◌, String, Text, contains, List, [], ◌∷◌, map,
  codes, Option, none, some,
}
use psic.Source.{SourceLocation, Result, ok, failed}
use psic.Ast.{
  TypeNode, ArgNode, ValueNode, DeclNode, entry, struct, func, glob, constant, ProgramNode,
  BlockNode,
}
use psic.Target.Pick.{Checked, value, runtime_error}
use psic.Validation.Checked.{◌>>◌, require, for_each, surrounded}
use psic.Validation.Types.{validate_type}
use psic.Validation.Environment.{Map, TypeEnvironment, Names, member, insert, emplace}
use psic.Validation.Command.{PointerModel, is_array, is_string}
use psic.Validation.Convert.{validate_value_for_type}
use psic.Validation.Block.{validate_block}
use psic.Validation.Cycles.{Structs, Visit, validate_struct_cycles, visited, recursive}

abbrev is_backing : ValueNode → Bool
is_backing v = is_array v || is_string v

abbrev pub empty_environment : TypeEnvironment
empty_environment = record {
  globals = [];
  constant_objects = [];
  immutable_global_backing = [];
  returns = [];
  parameters = [];
  structs = [];
}

abbrev with_backing : Text → ValueNode → TypeEnvironment → TypeEnvironment
with_backing name v env =
    if is_backing v
    then record env { immutable_global_backing = insert name env.immutable_global_backing }
    else env

-- What one declaration adds to the environment.
unfoldable pub declare : DeclNode → TypeEnvironment → TypeEnvironment
declare (entry name body) env = env
declare (struct type fields) env = record env {
  structs = emplace type.base_name fields env.structs;
}
declare (func return_type name arguments body) env = record env {
  returns = emplace name return_type env.returns;
  parameters = emplace name (map (λ a. a.type) arguments) env.parameters;
}
declare (glob type name v) env =
    with_backing name v (record env { globals = emplace name type env.globals })
declare (constant type name v) env = with_backing name v (record env {
  globals = emplace name type env.globals;
  constant_objects = insert name env.constant_objects;
})

unfoldable pub environment_of : ProgramNode → TypeEnvironment → TypeEnvironment
environment_of [] env = env
environment_of (d ∷ declarations) env = environment_of declarations (declare d.decl env)

abbrev pub builtin_types : List String
builtin_types =
    "void" ∷ "bool" ∷ "i8" ∷ "i16" ∷ "i32" ∷ "i64" ∷ "u8" ∷ "u16" ∷ "u32" ∷ "u64" ∷ "f32" ∷ "f64"
    ∷ "i8x16" ∷ "i16x8" ∷ "i32x4" ∷ "i64x2" ∷ "f32x4" ∷ "f64x2" ∷ "i32x8" ∷ "i64x4" ∷ "f32x8"
    ∷ "f64x4" ∷ []

-- The name of a declaration, and its rules by themselves.
abbrev pub declared_name : DeclNode → Text
declared_name (entry name body) = name
declared_name (struct type fields) = type.base_name
declared_name (func return_type name arguments body) = name
declared_name (glob type name v) = name
declared_name (constant type name v) = name

-- Arguments of valid types and of names of their own; `args` are the names before.
unfoldable pub check_arguments : Names → List ArgNode → Checked (Unit {0})
check_arguments args [] = value tt
check_arguments args (arg ∷ arguments) = do
  validate_type arg.type false
  require (not (member args arg.name)) (surrounded "duplicate argument '" arg.name "'")
  check_arguments (arg.name ∷ args) arguments

abbrev check_external : Option BlockNode → List ArgNode → Checked (Unit {0})
check_external (some body) arguments = value tt
check_external none arguments =
    for_each
      (λ arg.
        require (not arg.type.is_view)
          (codes "bounded views cannot be passed to external function declarations"))
      arguments

unfoldable pub check_fields : Names → List ArgNode → Checked (Unit {0})
check_fields names [] = value tt
check_fields names (f ∷ fields) = do
  validate_type f.type false
  require (not f.type.is_view) (codes "bounded views cannot be stored in structures")
  require (not (member names f.name)) (surrounded "duplicate field '" f.name "'")
  check_fields (f.name ∷ names) fields

unfoldable pub validate_declaration : TypeEnvironment → DeclNode → Checked (Unit {0})
validate_declaration env (entry name body) = value tt
validate_declaration env (func return_type name arguments body) = do
  validate_type return_type true
  require (not return_type.is_view) (codes "bounded views cannot be returned from a function")
  check_arguments [] arguments
  check_external body arguments
validate_declaration env (struct type fields) = do
  require (not (contains builtin_types type.base_name))
      (surrounded "struct cannot redefine builtin type '" type.base_name "'")
  require (type.pointer_level == 0) (codes "struct name cannot be a pointer type")
  check_fields [] fields
validate_declaration env (glob type name v) = do
  validate_type type false
  require (not type.is_view) (codes "bounded views cannot have global storage")
  validate_value_for_type [] env (codes "global initializer") v type
validate_declaration env (constant type name v) = do
  validate_type type false
  require (not type.is_view) (codes "bounded views cannot have constant storage")
  validate_value_for_type [] env (codes "constant initializer") v type

-- `symbols.insert(name).second`.
abbrev pub check_symbol : Names → Text → Checked (Unit {0})
check_symbol symbols name =
    require (not (member symbols name)) (surrounded "duplicate declaration '" name "'")

-- The outcome of the pass: no error, a `LocatedValidationError`, or another `std::runtime_error`.
pub data Validation : Type 0 where
  valid : Validation
  located_error : Text → SourceLocation → Validation
  plain_error : Text → Validation
  out_of_fuel : Validation

abbrev pub at : SourceLocation → Checked (Unit {0}) → Validation → Validation
at location (value _) next = next
at location (runtime_error message) next = located_error message location

-- The loop over the declarations; `next` is what comes behind it.
unfoldable pub check_declarations : TypeEnvironment → Names → ProgramNode → Validation → Validation
check_declarations env symbols [] next = next
check_declarations env symbols (d ∷ declarations) next =
    let name = declared_name d.decl in
    let rest = check_declarations env (name ∷ symbols) declarations next in
    at d.location (validate_declaration env d.decl >> check_symbol symbols name) rest

-- The structs of the program; one that is declared again replaces the one before.
unfoldable pub structs_of : ProgramNode → Structs
structs_of [] = []
structs_of (d ∷ declarations) =
    let rest = structs_of declarations in
    elim d.decl [ struct type fields ↦ emplace type.base_name fields rest | _ ↦ rest ]

abbrev pub argument_types : List ArgNode → Map TypeNode → Map TypeNode
argument_types [] locals = locals
argument_types (arg ∷ arguments) locals =
    argument_types arguments (emplace arg.name arg.type locals)

abbrev pub after_block : Result SourceLocation → (SourceLocation → Validation) → Validation
after_block (ok active) next = next active
after_block (failed message location) next = located_error message location
after_block Result.out_of_fuel next = out_of_fuel

-- The block of a declaration that has one.
unfoldable pub validate_body :
    PointerModel → TypeEnvironment → SourceLocation → DeclNode → Result SourceLocation
validate_body model env active (entry name body) = validate_block model env none active [] body
validate_body model env active (func return_type name arguments (some body)) =
    validate_block model env (some return_type) active (argument_types arguments []) body
validate_body model env active _ = ok active

-- The second loop; `active` is `activeLocation`.
unfoldable pub validate_bodies :
    PointerModel → TypeEnvironment → SourceLocation → ProgramNode → Validation
validate_bodies model env active [] = valid
validate_bodies model env active (d ∷ declarations) =
    after_block (validate_body model env active d.decl)
      (λ after. validate_bodies model env after declarations)

abbrev pub last_location : SourceLocation → ProgramNode → SourceLocation
last_location active [] = active
last_location active (d ∷ declarations) = last_location d.location declarations

abbrev pub after_cycles : Visit → Validation → Validation
after_cycles (visited names) next = next
after_cycles (recursive message) next = plain_error message
after_cycles Visit.out_of_fuel next = out_of_fuel

unfoldable pub validate_program : PointerModel → ProgramNode → Validation
validate_program model program =
    let env = environment_of program empty_environment in
    check_declarations env [] program (
      after_cycles (validate_struct_cycles (structs_of program)) (
        validate_bodies model env (last_location (record { line = 0; column = 0 }) program)
          program))
