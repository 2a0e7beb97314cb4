-- ===== src/Validation/Flow.antt =====
-- src/validation.cpp: the closure of the alias sets in `validateBlock`, one command at a time.
use psic.Prelude.{
  ltb, Bool, true, false, not, ◌&&◌, ◌||◌, if◌then◌else◌, Text, contains, List, [], ◌∷◌, none, some,
}
use psic.Ast.{TypeNode, RegNode, ValueNode, Values, nil, cons, register, array, CommandNode}
use psic.Target.Pick.{Checked, value}
use psic.Validation.Checked.{◌>>=◌, is}
use psic.Validation.Types.{is_integer_type, is_floating_type}
use psic.Validation.Environment.{Map, TypeEnvironment, member, find, has, register_type}
use psic.Validation.Command.{
  normalized_instruction_name, has_instruction, instruction_name, is_special, target_register,
  targets_register, no_accessors,
}
use psic.Validation.Aliases.{
  Flow, and_then, or_else, may_name_immutable_backing, command_may_name_immutable_backing,
  may_contain_local_pointer, accessor_target_is_local_storage, command_may_point_into_local_storage,
}

-- `insert`, which sets the flag when the name is new.
unfoldable pub add_immutable : Text → Flow → Flow
add_immutable name flow =
    if member flow.immutable_aliases name
    then flow
    else record flow { immutable_aliases = name ∷ flow.immutable_aliases; added = true }

unfoldable pub add_storage : Text → Flow → Flow
add_storage name flow =
    if member flow.local_storage_aliases name
    then flow
    else record flow { local_storage_aliases = name ∷ flow.local_storage_aliases; added = true }

unfoldable pub add_contents : Text → Flow → Flow
add_contents name flow = if member flow.local_aggregate_contents name then flow else record flow {
  local_aggregate_contents = name ∷ flow.local_aggregate_contents;
  added = true;
}

unfoldable pub add_aggregate_reference : Text → Flow → Flow
add_aggregate_reference name flow =
    if member flow.local_aggregate_references name then flow else record flow {
      local_aggregate_references = name ∷ flow.local_aggregate_references;
      added = true;
    }

-- `emplace` of a reference.
unfoldable pub add_reference : Text → Text → Flow → Flow
add_reference name local flow =
    if has flow.local_references name
    then flow
    else record flow { local_references = (name, local) ∷ flow.local_references; added = true }

abbrev pub add_if : Bool → (Flow → Flow) → Flow → Flow
add_if true add flow = add flow
add_if false add flow = flow

-- The flow after a condition that may throw.
abbrev pub add_when : Checked Bool → (Flow → Flow) → Flow → Checked Flow
add_when condition add flow = condition >>= λ b. value (add_if b add flow)

-- What a step adds to the local that a register refers to.
abbrev pub with_reference : (Text → Flow → Checked Flow) → Text → Flow → Checked Flow
with_reference add name flow = elim (find flow.local_references name) [
  | none ↦ value flow
  | some local ↦ add local flow
]

abbrev pub name_of : CommandNode → Text
name_of command = normalized_instruction_name (instruction_name command)

abbrev pub is_number_type : TypeNode → Bool
is_number_type type = is_integer_type type || is_floating_type type

-- An instruction that hands its operand's reference to its result.
abbrev pub keeps_reference : CommandNode → Bool
keeps_reference command =
    not (has_instruction command)
    || contains ("ptrcast" ∷ "ptrtoint" ∷ "inttoptr" ∷ "trunc" ∷ "sext" ∷ "zext" ∷ "add" ∷ [])
        (name_of command)

module _ (env : TypeEnvironment) (visible : Map TypeNode) where
  mutual
    -- `initializerContainsLocalAddress`.
    pub initializer_contains_local_address : Flow → ValueNode → Checked Bool
    initializer_contains_local_address flow (array items) = items_contain_local_address flow items
    initializer_contains_local_address flow v = may_contain_local_pointer visible env flow v

    pub items_contain_local_address : Flow → Values → Checked Bool
    items_contain_local_address flow nil = value false
    items_contain_local_address flow (cons item items) =
        let rest = items_contain_local_address flow items in
        initializer_contains_local_address flow item >>= λ b. or_else b rest

  -- What is stored through `destination` is in the local that it refers to.
  abbrev pub store_into : Text → ValueNode → Text → Flow → Checked Flow
  store_into destination stored local flow =
      let named =
        add_if (may_name_immutable_backing visible env stored flow.immutable_aliases)
          (add_immutable local) flow in
      add_when (may_contain_local_pointer visible env named stored)
        (λ f.
          add_if (member named.local_aggregate_references destination) (add_contents local)
            (add_storage local f))
        named

  abbrev pub stores : CommandNode → Bool
  stores command =
      not (is_special command) && is (name_of command) "store"
      || is_special command && is (name_of command) "atomicstore"

  abbrev pub store_operands : Bool → List ValueNode → Flow → Checked Flow
  store_operands true (register destination ∷ stored ∷ []) flow =
      if no_accessors destination && member flow.local_storage_aliases destination.name
      then with_reference (store_into destination.name stored) destination.name flow
      else value flow
  store_operands _ values flow = value flow

  unfoldable pub store_step : CommandNode → Flow → Checked Flow
  store_step command flow =
      store_operands (has_instruction command && stores command) command.values flow

  -- The register, or the local that it refers to, holds the address of a local.
  abbrev pub source_contains_address : Flow → Text → Bool
  source_contains_address flow source =
      member flow.local_aggregate_contents source || elim (find flow.local_references source) [
        | none ↦ false
        | some local ↦ member flow.local_aggregate_contents local
      ]

  abbrev pub copy_operands : Bool → List ValueNode → Flow → Checked Flow
  copy_operands true (register destination ∷ register source ∷ _ ∷ []) flow =
      and_then (source_contains_address flow source.name)
        (may_contain_local_pointer visible env flow (register destination))
      >>= λ b.
          if b
          then with_reference (λ local f. value (add_contents local f)) destination.name
              (add_contents destination.name flow)
          else value flow
  copy_operands _ values flow = value flow

  unfoldable pub memcpy_step : CommandNode → Flow → Checked Flow
  memcpy_step command flow =
      copy_operands (is_special command && is (name_of command) "memcpy") command.values flow

  abbrev pub load_operands : Bool → Text → List ValueNode → Flow → Checked Flow
  load_operands true target (register source ∷ []) flow =
      if no_accessors source
      then with_reference
          (λ local f. value (add_if (member f.immutable_aliases local) (add_immutable target) f))
          source.name flow
      else value flow
  load_operands _ target values flow = value flow

  unfoldable pub load_step : CommandNode → Flow → Checked Flow
  load_step command flow =
      load_operands
        (targets_register command
          && no_accessors (target_register command)
          && has_instruction command
          && (is (name_of command) "load" || is (name_of command) "atomicload"))
        (target_register command).name command.values flow

  -- The target is an element or a field of a local, and a pointer.
  abbrev pub element_is_pointer : RegNode → Checked Bool
  element_is_pointer target =
      and_then (has visible target.name)
        (register_type target visible env >>= λ type. value (ltb 0 type.pointer_level))

  abbrev pub add_element_name : CommandNode → Bool → Flow → Flow
  add_element_name command points flow =
      add_if
        (points && command_may_name_immutable_backing visible env command flow.immutable_aliases)
        (add_immutable (target_register command).name) flow

  -- Whether the address of a local is stored in storage of a local.
  abbrev pub stores_address_in_local : CommandNode → Flow → Checked Bool
  stores_address_in_local command flow =
      and_then
        (accessor_target_is_local_storage visible env (target_register command)
          flow.local_storage_aliases)
        (command_may_point_into_local_storage visible env flow command)

  abbrev pub add_element_address : CommandNode → Flow → Checked Flow
  add_element_address command flow =
      add_when (stores_address_in_local command flow)
        (λ f.
          add_contents (target_register command).name
            (add_storage (target_register command).name f))
        flow

  -- A target with accessors: an element or a field of a local.
  unfoldable pub aggregate_step : CommandNode → Flow → Checked Flow
  aggregate_step command flow = element_is_pointer (target_register command) >>= λ points.
      add_element_address command (add_element_name command points flow)
