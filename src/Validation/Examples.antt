-- ===== src/Validation/Examples.antt =====
-- The theorems about blocks and programs at concrete inputs, and runs of the validation.
use psic.Prelude.{pos, ◌≡◌, refl, ◌≢◌, true, [], ◌∷◌, codes, none, some, arith, text_eq, contains}
use psic.Source.{ok, failed, out_of_fuel}
use psic.Ast.{TypeNode, BlockNode, entry, glob, number_int}
use psic.Target.Pick.{value}
use psic.Validation.Command.{normalized_instruction_name}
use psic.Validation.Types.{is_floating_type, is_integer_type, validate_type}
use psic.Validation.Environment.{
  has, find, member, emplace, accessed_through, accessed_type, find_field, register_type, root_type,
  TypeEnvironment,
}
use psic.Validation.Aliases.{
  command_may_name_immutable_backing, may_name_immutable_backing, accessor_target_is_local_storage,
  command_may_point_into_local_storage, may_contain_local_pointer, may_point_into_local_storage,
}
use psic.Validation.Closure.{
  alias_closure, round, close, command_step, target_step, plain_step, common_reference,
}
use psic.Validation.ClosureEnds.{alias_closure-ne-out_of_fuel, alias_closure-IsClosed}
use psic.Validation.Misplaced.{entry_body, validate_program-misplaced}
use psic.Validation.Block.{
  validate_block, validate_commands, check_command, check_prefixes, check_target, check_constness,
  check_indexes, check_root, check_declaration, check_effect, check_escape, check_referenced,
  flow_after,
}
use psic.Validation.Cycles.{validate_struct_cycles, visit_all, visited}
use psic.Validation.Acyclic.{IsAcyclic}
use psic.Validation.Infer.{infer_value_type, is_pointer_difference_command}
use psic.Validation.Places.{
  validate_program-ne-out_of_fuel, IsProgramPlace, validate_program-IsProgramPlace,
}
use psic.Validation.Fixed.{locals_behind}
use psic.Validation.Dangling.{validate_block-rejects-returns_pointer}
use psic.Validation.Program.{
  Validation, valid, located_error, validate_program, empty_environment, validate_declaration,
  check_declarations, structs_of, validate_body, validate_bodies, environment_of, declare,
}
use psic.Validation.Flow.{
  store_step, memcpy_step, load_step, aggregate_step, add_aggregate_reference, add_contents,
  add_immutable, add_reference, add_storage,
}
use psic.Validation.Convert.{
  check_pointer_conversion, check_number, validate_single, validate_value_for_type,
}
use psic.Validation.Plain.{check_assignment}
use psic.Validation.Accepted.{IsDistinct, block_labels, block_locals}
use psic.Validation.Names.{Apart, validate_block-IsDistinct}
use psic.Validation.ProgramRules.{program_names, AllPass, validate_program-parts}
use psic.Validation.Samples.{
  dangling_program, i32, at_line, desktop, i32_pointer, declares_x, indexes_x, dangling,
  misplaced_program, plain_program, x_local, dangling_flow,
}

x-is_local : has (locals_behind [] x_local) (codes "x") ≡ true
unfolding has find text_eq codes
x-is_local = refl

rejects-returns_pointer_example :
    validate_block desktop empty_environment (some i32_pointer) (at_line 1) x_local dangling
    ≢ ok (at_line 3)
rejects-returns_pointer_example =
    validate_block-rejects-returns_pointer desktop empty_environment (some i32_pointer) (at_line 1)
      (at_line 3) (at_line 2) (at_line 3) i32_pointer (codes "p") (codes "x") x_local [] [] []
      x-is_local (omega arith)

alias_closure-ne-out_of_fuel_example :
    alias_closure (at_line 1) empty_environment x_local dangling ≢ out_of_fuel
alias_closure-ne-out_of_fuel_example =
    alias_closure-ne-out_of_fuel (at_line 1) empty_environment x_local dangling

dangling-flow : alias_closure (at_line 1) empty_environment x_local dangling ≡ ok dangling_flow
unfolding alias_closure close round command_step store_step memcpy_step load_step target_step
    plain_step aggregate_step text_eq codes contains normalized_instruction_name member find has
    emplace common_reference command_may_name_immutable_backing may_name_immutable_backing
    accessor_target_is_local_storage command_may_point_into_local_storage may_contain_local_pointer
    may_point_into_local_storage accessed_through accessed_type find_field register_type root_type
    add_aggregate_reference add_contents add_immutable add_reference add_storage infer_value_type
    is_pointer_difference_command is_floating_type is_integer_type
dangling-flow = refl

alias_closure-IsClosed_example :
    round empty_environment x_local dangling dangling_flow ≡ value dangling_flow
alias_closure-IsClosed_example =
    alias_closure-IsClosed (at_line 1) empty_environment x_local dangling dangling_flow
      dangling-flow

-- The body indexes a number, at line 3; the last declaration stands at line 9.
abbrev misplaced_body : BlockNode
misplaced_body = declares_x ∷ indexes_x ∷ []

abbrev misplaced_environment : TypeEnvironment
misplaced_environment = environment_of misplaced_program empty_environment

index-failed :
    alias_closure (at_line 3) misplaced_environment [] misplaced_body
    ≡ failed (codes "index accessor requires a pointer") (at_line 3)
unfolding alias_closure close round command_step store_step memcpy_step load_step target_step
    plain_step aggregate_step text_eq codes contains normalized_instruction_name member find has
    emplace common_reference command_may_name_immutable_backing may_name_immutable_backing
    accessor_target_is_local_storage command_may_point_into_local_storage may_contain_local_pointer
    may_point_into_local_storage accessed_through accessed_type find_field register_type root_type
    add_aggregate_reference add_contents add_immutable add_reference add_storage infer_value_type
    is_pointer_difference_command is_floating_type is_integer_type environment_of declare
index-failed = refl

misplaced-passed : check_declarations misplaced_environment [] misplaced_program valid ≡ valid
unfolding check_declarations validate_declaration validate_type validate_value_for_type contains
    codes text_eq member environment_of declare is_integer_type check_number validate_single has
    find infer_value_type check_pointer_conversion
misplaced-passed = refl

misplaced-acyclic : validate_struct_cycles (structs_of misplaced_program) ≡ visited []
unfolding validate_struct_cycles visit_all structs_of
misplaced-acyclic = refl

validate_program-misplaced_example :
    validate_program desktop misplaced_program
    ≡ located_error (codes "index accessor requires a pointer") (at_line 9)
validate_program-misplaced_example =
    validate_program-misplaced desktop
      (record { location = at_line 1; decl = entry (codes "main") misplaced_body })
      (record { location = at_line 9; decl = glob i32 (codes "g") (number_int (pos 0)) }) [] []
      misplaced_body (at_line 3) (at_line 3) (codes "index accessor requires a pointer") []
      (entry_body (codes "main") refl) misplaced-passed misplaced-acyclic index-failed

block-valid :
    validate_block desktop empty_environment none (at_line 1) [] (declares_x ∷ []) ≡ ok (at_line 2)
unfolding may_name_immutable_backing command_may_name_immutable_backing may_contain_local_pointer
    command_may_point_into_local_storage validate_block common_reference plain_step target_step
    command_step round close alias_closure normalized_instruction_name check_pointer_conversion
    check_number validate_single find has emplace member root_type accessed_type accessed_through
    register_type store_step memcpy_step load_step aggregate_step infer_value_type validate_type
    is_integer_type validate_value_for_type contains codes text_eq validate_commands check_command
    check_prefixes check_target check_constness check_indexes check_root check_declaration
    check_effect check_assignment check_escape check_referenced flow_after
block-valid = refl

plain-valid : validate_program desktop plain_program ≡ valid
unfolding may_name_immutable_backing command_may_name_immutable_backing may_contain_local_pointer
    command_may_point_into_local_storage validate_block common_reference plain_step target_step
    command_step round close alias_closure normalized_instruction_name check_pointer_conversion
    check_number validate_single find has emplace member root_type accessed_type accessed_through
    register_type store_step memcpy_step load_step aggregate_step infer_value_type validate_type
    is_integer_type validate_value_for_type contains codes text_eq validate_commands check_command
    check_prefixes check_target check_constness check_indexes check_root check_declaration
    check_effect check_assignment check_escape check_referenced flow_after visit_all
    validate_struct_cycles validate_declaration check_declarations structs_of validate_body
    validate_bodies validate_program environment_of declare
plain-valid = refl

misplaced-located :
    validate_program desktop misplaced_program
    ≡ located_error (codes "index accessor requires a pointer") (at_line 9)
unfolding may_name_immutable_backing command_may_name_immutable_backing may_contain_local_pointer
    command_may_point_into_local_storage validate_block common_reference plain_step target_step
    command_step round close alias_closure normalized_instruction_name check_pointer_conversion
    check_number validate_single find has emplace member root_type accessed_type accessed_through
    register_type store_step memcpy_step load_step aggregate_step infer_value_type validate_type
    is_integer_type validate_value_for_type contains codes text_eq visit_all validate_struct_cycles
    validate_declaration check_declarations structs_of validate_body validate_bodies
    validate_program
misplaced-located = refl

validate_block-IsDistinct_example :
    IsDistinct (block_labels (declares_x ∷ []))
    × IsDistinct (block_locals (declares_x ∷ []))
    × Apart (has {A = TypeNode} []) (block_locals (declares_x ∷ []))
validate_block-IsDistinct_example =
    validate_block-IsDistinct desktop empty_environment none (at_line 1) (at_line 2) []
      (declares_x ∷ []) block-valid

validate_program-parts_example :
    IsDistinct (program_names plain_program)
    × AllPass (environment_of plain_program empty_environment) plain_program
    × IsAcyclic (structs_of plain_program)
validate_program-parts_example = validate_program-parts desktop plain_program plain-valid

validate_program-IsProgramPlace_example : IsProgramPlace (at_line 9) misplaced_program
validate_program-IsProgramPlace_example =
    validate_program-IsProgramPlace desktop misplaced_program
      (codes "index accessor requires a pointer") (at_line 9) misplaced-located

validate_program-ne-out_of_fuel_example :
    validate_program desktop dangling_program ≢ Validation.out_of_fuel
validate_program-ne-out_of_fuel_example = validate_program-ne-out_of_fuel desktop dangling_program
