-- ===== src/Driver/SampleRuns.antt =====
-- Runs of the passes, the driver and the JIT on the sample sources.
use psic.Prelude.{false, ◌≡◌, refl, [], true, codes, text_eq, contains, some, none, pos}
use psic.Source.{ok, SourceLocation, failed}
use psic.Frontend.Parse.{parse_source}
use psic.Lexer.Cursor.{read_byte}
use psic.Lexer.Skip.{skip_whitespace_and_comments}
use psic.Lexer.Tokenize.{tokenize, read_lexeme}
use psic.Lexer.Read.{read_identifier, read_number, read_string, read_special_token}
use psic.Parser.Declaration.{
  parse, parse_program, parse_declaration, parse_decl, parse_entry_declaration,
}
use psic.Parser.Command.{
  parse_volatile, parse_declaration_head, parse_assignment_head, parse_head, parse_equals,
  parse_operands, parse_body, parse_initializer, parse_full_command, parse_command, parse_block,
}
use psic.Parser.Types.{
  read_once, parse_qualifier, parse_qualifiers, parse_stars, parse_view, parse_alignment,
  parse_type, parse_accessor, parse_register,
}
use psic.Parser.Value.{
  parse_instruction, has_decimal_point, parse_number, parse_identifier_value, parse_value_with,
  parse_value_on, parse_value,
}
use psic.Parser.Literal.{digit_value, accumulate, base_and_digits, parse_signed_integer_literal}
use psic.Parser.State.{
  consume_token, thrown, is_reserved_word, raise_reserved, expect_token_type, loop, while,
  same_type,
}
use psic.Parser.Names.{is_instruction_keyword, is_primitive_type_name, token_starts_instruction}
use psic.Validation.Command.{normalized_instruction_name}
use psic.Validation.Types.{is_integer_type, validate_type}
use psic.Validation.Environment.{
  has, find, member, emplace, accessed_through, accessed_type, register_type, root_type,
}
use psic.Validation.Aliases.{
  command_may_name_immutable_backing, may_name_immutable_backing,
  command_may_point_into_local_storage, may_contain_local_pointer,
}
use psic.Validation.Closure.{
  alias_closure, round, close, command_step, target_step, plain_step, common_reference,
}
use psic.Validation.Block.{
  validate_block, validate_commands, check_command, check_prefixes, check_target, check_constness,
  check_indexes, check_root, check_declaration, check_effect, check_escape, check_referenced,
  flow_after,
}
use psic.Validation.Cycles.{validate_struct_cycles, visit_all}
use psic.Validation.Infer.{infer_value_type}
use psic.Validation.Program.{
  valid, validate_program, validate_declaration, check_declarations, structs_of, validate_body,
  validate_bodies, environment_of, declare,
}
use psic.Validation.Flow.{store_step, memcpy_step, load_step, aggregate_step}
use psic.Validation.Convert.{
  check_pointer_conversion, check_number, validate_single, validate_value_for_type,
}
use psic.Validation.Plain.{check_assignment}
use psic.Driver.Samples.{
  any_float, source, broken_source, program, desktop, on_linux, desktop_options, desktop_selected,
  backend, jit, jit_options, fresh, warns, no_target, desktop_triple,
}
use psic.Target.Model.{same_os, wasm32, free_standing}
use psic.Target.Pick.{
  value, pick_architecture, pick_operating_system, architecture_of_triple, os_of_triple,
}
use psic.Target.Resolve.{
  TargetOptions, TargetConfig, resolve_target, resolve_os, resolve_picked, check_os, check_pair,
  default_os,
}
use psic.Logging.State.{Log}
use psic.Logging.Report.{
  stream_destroyed, log_warning, emit_diagnostic, emit_or, reset_errors, had_errors,
  strip_trailing_newline,
}
use psic.Logging.Scopes.{run, called, open_capture}
use psic.Frontend.Entry.{accepted, validate_jit_entry_signature}
use psic.Driver.Options.{CompileResult, validate_options}
use psic.Driver.Compile.{
  finish, new_vector, with_program, select_triple, select_target, emit, generate, compile_selected,
  compile,
}
use psic.Driver.Jit.{JitResult, configured, execution, build_jit}

pub source-parses : parse_source any_float source ≡ ok program
unfolding parse_source tokenize skip_whitespace_and_comments read_lexeme read_identifier read_number
    read_string read_special_token read_byte codes text_eq contains parse parse_program
    parse_declaration parse_decl parse_entry_declaration parse_volatile parse_declaration_head
    parse_assignment_head parse_head parse_equals parse_operands parse_body parse_initializer
    parse_full_command parse_command parse_block read_once parse_qualifier parse_qualifiers
    parse_stars parse_view parse_alignment parse_type parse_accessor parse_register
    parse_instruction has_decimal_point parse_number parse_identifier_value parse_value_with
    parse_value_on parse_value digit_value accumulate base_and_digits parse_signed_integer_literal
    consume_token thrown is_reserved_word raise_reserved expect_token_type loop while same_type
    is_instruction_keyword is_primitive_type_name token_starts_instruction
source-parses = refl

abbrev pub at_brace : SourceLocation
at_brace = record { line = 3; column = 1 }

pub broken :
    parse_source any_float broken_source ≡ failed (codes "expected ';' (found '}')") at_brace
unfolding parse_source tokenize skip_whitespace_and_comments read_lexeme read_identifier read_number
    read_string read_special_token read_byte codes text_eq contains parse parse_program
    parse_declaration parse_decl parse_entry_declaration parse_volatile parse_declaration_head
    parse_assignment_head parse_head parse_equals parse_operands parse_body parse_initializer
    parse_full_command parse_command parse_block read_once parse_qualifier parse_qualifiers
    parse_stars parse_view parse_alignment parse_type parse_accessor parse_register
    parse_instruction has_decimal_point parse_number parse_identifier_value parse_value_with
    parse_value_on parse_value digit_value accumulate base_and_digits parse_signed_integer_literal
    consume_token thrown is_reserved_word raise_reserved expect_token_type loop while same_type
    is_instruction_keyword is_primitive_type_name token_starts_instruction
broken = refl

pub program-valid : validate_program desktop program ≡ valid
unfolding may_name_immutable_backing command_may_name_immutable_backing may_contain_local_pointer
    command_may_point_into_local_storage validate_block common_reference plain_step target_step
    command_step round close alias_closure normalized_instruction_name check_pointer_conversion
    check_number validate_single find has emplace member root_type accessed_type accessed_through
    register_type store_step memcpy_step load_step aggregate_step infer_value_type validate_type
    is_integer_type validate_value_for_type contains codes text_eq validate_commands check_command
    check_prefixes check_target check_constness check_indexes check_root check_declaration
    check_effect check_assignment check_escape check_referenced flow_after visit_all
    validate_struct_cycles validate_declaration check_declarations structs_of validate_body
    validate_bodies validate_program environment_of declare
program-valid = refl

pub desktop-selects : select_target backend on_linux desktop_options ≡ value desktop_selected
unfolding select_target select_triple validate_options resolve_target resolve_os resolve_picked
    same_os codes text_eq pick_architecture pick_operating_system check_os check_pair default_os
    architecture_of_triple os_of_triple
desktop-selects = refl

-- The log when the code generation has ended.
abbrev generated_log : Log
generated_log = run warns (reset_errors (open_capture 0 (new_vector 0 fresh)))

abbrev pub compiled : CompileResult × Log
compiled =
    finish 0 source desktop_options fresh desktop_triple true (codes "module") [] generated_log

pub source-compiles :
    compile backend on_linux any_float 0 source desktop_options fresh ≡ some compiled
unfolding compile compile_selected generate emit run called stream_destroyed log_warning
    emit_diagnostic emit_or reset_errors open_capture had_errors strip_trailing_newline codes
source-compiles = rw (desktop-selects, source-parses, with_program, program-valid) refl

-- WebAssembly, which has no operating system by default.
abbrev pub web : TargetOptions
web = record no_target { architecture = codes "wasm32" }

abbrev pub web_target : TargetConfig
web_target = record { architecture = wasm32; operating_system = free_standing }

pub web-resolves : resolve_target on_linux web ≡ value web_target
unfolding resolve_target resolve_os resolve_picked same_os codes text_eq pick_architecture
    pick_operating_system check_os check_pair default_os
web-resolves = refl

main-accepted : validate_jit_entry_signature (codes "main") program ≡ accepted
unfolding validate_jit_entry_signature psic.Frontend.Entry.check_declaration codes text_eq
main-accepted = refl

native : configured jit on_linux jit_options.compile ≡ desktop_options
unfolding configured codes
native = refl

abbrev pub ran : JitResult × Log
ran = (
  record {
    success = true;
    exit_code = pos 7;
    target_triple = desktop_triple;
    diagnostics = compiled.0.diagnostics;
    jit_module = none;
  },
  compiled.1,
)

pub main-runs : build_jit jit on_linux backend any_float 0 false source jit_options fresh ≡ some ran
unfolding build_jit execution run codes
main-runs = rw (native, source-compiles, source-parses, main-accepted) refl
