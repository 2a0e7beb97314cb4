-- ===== src/Validation/Block.antt =====
-- src/validation.cpp: `validateBlock`, one command after another.
use psic.Prelude.{
  ltb, Bool, true, false, not, ◌&&◌, ◌||◌, if◌then◌else◌, String, Text, List, [], ◌∷◌, codes,
  Option, none, some,
}
use psic.Source.{SourceLocation, Result, ok, failed, out_of_fuel}
use psic.Ast.{TypeNode, RegNode, ValueNode, register, CommandNode, BlockNode}
use psic.Target.Pick.{Checked, value}
use psic.Validation.Checked.{◌>>=◌, ◌>>◌, require, when, for_each, surrounded}
use psic.Validation.Types.{validate_type}
use psic.Validation.Environment.{
  Map, TypeEnvironment, Names, member, insert, find, has, register_type,
}
use psic.Validation.Command.{
  PointerModel, normalized_instruction_name, has_instruction, instruction_name, is_special,
  has_declared_type, declared, target_register, targets_register, has_no_target, no_values,
  no_accessors, register_with,
}
use psic.Validation.Operands.{validate_instruction}
use psic.Validation.Primary.{validate_primary_operand_types}
use psic.Validation.Casts.{validate_explicit_cast}
use psic.Validation.Aliases.{
  Flow, and_then, has_index, command_may_name_immutable_backing, accessor_target_is_local_storage,
  command_may_point_into_local_storage,
}
use psic.Validation.Closure.{located_then, locals_after, alias_closure}
use psic.Validation.System.{one_of, check_system}
use psic.Validation.Access.{
  check_bits, check_view, check_memory, check_ports, check_bare, viewlen_names, viewload_names,
  viewstore_names, viewslice_names,
}
use psic.Validation.Atomics.{is_atomic, check_atomic}
use psic.Validation.Plain.{check_plain, check_assignment}

abbrev pub plain_name : CommandNode → List String → Bool
plain_name command names = not (is_special command) && one_of names (instruction_name command)

-- The rules before the target is looked at.
unfoldable pub check_prefixes : CommandNode → Checked (Unit {0})
check_prefixes command = do
  require
      (not command.volatile_access
        || has_instruction command && plain_name command ("store" ∷ "load" ∷ []))
      (codes "volatile instruction prefix requires load or store")
  when (has_declared_type command && (declared command).is_const) (
      require (has_instruction command || not (no_values command.values))
        (codes "a const declaration requires an initializer"))

-- A target that is not declared here.
abbrev pub assigns : CommandNode → Bool
assigns command = targets_register command && not (has_declared_type command)

module _ (model : PointerModel) (locals : Map TypeNode) (env : TypeEnvironment) (flow : Flow) where
  unfoldable pub check_constness : CommandNode → Checked (Unit {0})
  check_constness command = when (assigns command) (
      register_type (target_register command) locals env >>= λ target.
      require (not target.is_const || ltb 0 target.pointer_level)
        (codes "cannot assign to a const value"))

  abbrev not_indexed : Bool → Checked (Unit {0})
  not_indexed b =
      require (not b) (codes "indexed pointer access requires an integral pointer representation")

  unfoldable pub check_indexes : CommandNode → Checked (Unit {0})
  check_indexes command = when (not model.integral) (do
    not_indexed (targets_register command && has_index (target_register command))
    for_each (λ v. not_indexed (register_with has_index v)) command.values)

  abbrev global_is_pointer : Text → Bool
  global_is_pointer root = elim (find env.globals root) [
    | none ↦ false
    | some global ↦ ltb 0 global.pointer_level
  ]

  abbrev immutable_storage_error : Text → Text
  immutable_storage_error root =
      surrounded "cannot modify immutable global array or string storage through '" root "'"

  -- What is assigned to is no constant object and not in immutable storage.
  unfoldable pub check_root : RegNode → Checked (Unit {0})
  check_root target = do
    when (not (has locals target.name)) (do
      when (member env.constant_objects target.name) (
          require (global_is_pointer target.name && has_index target)
            (surrounded "cannot assign to read-only constant object '" target.name "'"))
      require (not (has_index target && member env.immutable_global_backing target.name))
          (immutable_storage_error target.name))
    require (not (has_index target && member flow.immutable_aliases target.name))
        (immutable_storage_error target.name)

  abbrev is_view_slice : CommandNode → Bool
  is_view_slice command =
      is_special command
      && one_of viewslice_names (normalized_instruction_name (instruction_name command))

  unfoldable pub check_declaration : CommandNode → Checked (Unit {0})
  check_declaration command = do
    validate_type (declared command) false
    when (declared command).is_view (
        require
          (not (no_values command.values)
            && (not (has_instruction command) || is_view_slice command))
          (codes
            "a bounded view must be initialized from an array literal, another bounded view, or #viewslice"))
    require (not (has locals (target_register command).name))
        (surrounded "duplicate local declaration '" (target_register command).name "'")

  abbrev bit_operations : List String
  bit_operations = "clz" ∷ "ctz" ∷ "popcnt" ∷ "bswap" ∷ "bitreverse" ∷ []

  abbrev is_view_access : Text → Bool
  is_view_access special =
      one_of viewlen_names special
      || one_of viewload_names special
      || one_of viewstore_names special
      || one_of viewslice_names special

  unfoldable pub check_special : Text → CommandNode → Checked (Unit {0})
  check_special special command = do
    check_system model locals env special command
    when (one_of bit_operations special) (check_bits model locals env special command)
    when (is_view_access special) (check_view model locals env special command)
    when (one_of viewstore_names special)
        (require (has_no_target command) (codes "'#viewstore' does not produce a result"))
    when (is_atomic special) (check_atomic model locals env flow special command)
    check_bare model locals env special command
    when (one_of ("memcpy" ∷ "memset" ∷ []) special)
        (check_memory model locals env flow special command)
    check_ports model locals env special command

  -- The labels seen so far, and those after an instruction.
  unfoldable pub check_instruction : Option TypeNode → CommandNode → Names → Checked Names
  check_instruction return_type command labels = do
    after ← validate_instruction command labels
    validate_primary_operand_types locals env model command
    validate_explicit_cast locals env model command
    when (is_special command)
        (check_special (normalized_instruction_name (instruction_name command)) command)
    check_plain model locals env flow return_type command
    value after

  unfoldable pub check_escape : CommandNode → Checked (Unit {0})
  check_escape command =
      let escapes = command_may_point_into_local_storage locals env flow command in
      let target = target_register command in
      do
        and_then (assigns command && not (has locals target.name)) escapes >>= λ global.
            require (not global)
              (codes "cannot store a pointer or address derived from local storage in a global")
        and_then (targets_register command && not (no_accessors target)) escapes >>= λ through.
            require
              (not through
                || accessor_target_is_local_storage locals env target flow.local_storage_aliases)
              (codes
                "cannot store a pointer or address derived from local storage through an accessor unless the destination is proven local")

  unfoldable pub check_referenced : RegNode → Checked (Unit {0})
  check_referenced referenced = do
    type ← register_type referenced locals env
    require (not type.is_const || ltb 0 type.pointer_level && no_accessors referenced)
        (codes "cannot take a writable reference to const storage")
    require (has locals referenced.name || not (member env.constant_objects referenced.name)) (
        surrounded "cannot take a writable reference to read-only constant object '" referenced.name
          "'")
    require (not (has_index referenced && member env.immutable_global_backing referenced.name))
        (codes "cannot take a writable reference to immutable global array or string storage")
    require (not (has_index referenced && member flow.immutable_aliases referenced.name))
        (codes "cannot take a writable reference to storage that may be immutable")
    require (not type.is_view) (codes "bounded view storage cannot be exposed through ref")

  abbrev pub check_reference : Bool → List ValueNode → Checked (Unit {0})
  check_reference true (register referenced ∷ values) = check_referenced referenced
  check_reference _ values = value tt

  -- The rules on the target of a command.
  unfoldable pub check_target : CommandNode → Checked (Unit {0})
  check_target command = do
    check_constness command
    check_indexes command
    when (assigns command) (check_root (target_register command))
    when (has_declared_type command) (check_declaration command)

  unfoldable pub check_effect : Option TypeNode → CommandNode → Names → Checked Names
  check_effect return_type command labels =
      if has_instruction command
      then check_instruction return_type command labels
      else check_assignment model locals env flow command >> value labels

  -- All checks of one command that is not empty.
  unfoldable pub check_command : Option TypeNode → CommandNode → Names → Checked Names
  check_command return_type command labels = do
    check_prefixes command
    check_target command
    after ← check_effect return_type command labels
    check_escape command
    check_reference (has_instruction command && plain_name command ("ref" ∷ [])) command.values
    value after

  -- The alias that an assignment to a local adds.
  unfoldable pub flow_after : CommandNode → Flow
  flow_after command =
      let target = target_register command in
      if targets_register command
        && no_accessors target
        && (has_declared_type command || has locals target.name)
        && command_may_name_immutable_backing locals env command flow.immutable_aliases
      then record flow { immutable_aliases = insert target.name flow.immutable_aliases }
      else flow

module _ (model : PointerModel) (env : TypeEnvironment) (return_type : Option TypeNode) where
  -- The loop over the commands; the result is the value that `activeLocation` is left with.
  unfoldable pub validate_commands :
      SourceLocation → Map TypeNode → Flow → Names → BlockNode → Result SourceLocation
  validate_commands active locals flow labels [] = ok active
  validate_commands active locals flow labels (command ∷ commands) =
      let skip = validate_commands command.location locals flow labels commands in
      if command.is_empty
      then skip
      else located_then command.location
          (check_command model locals env flow return_type command labels)
          (λ after.
            validate_commands command.location (locals_after command locals)
              (flow_after model locals env flow command) after commands)

  abbrev pub after_closure : Result Flow → (Flow → Result SourceLocation) → Result SourceLocation
  after_closure (ok flow) next = next flow
  after_closure (failed message location) next = failed message location
  after_closure out_of_fuel next = out_of_fuel

  unfoldable pub validate_block : SourceLocation → Map TypeNode → BlockNode → Result SourceLocation
  validate_block active locals block =
      after_closure (alias_closure active env locals block)
        (λ flow. validate_commands active locals flow [] block)
