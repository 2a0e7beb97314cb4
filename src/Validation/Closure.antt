-- ===== src/Validation/Closure.antt =====
-- src/validation.cpp: the rest of a round over the commands in `validateBlock`, that of a target
-- without accessors, and the `do` loop around the rounds.
use psic.Prelude.{
  ℕ, zero, suc, ◌*◌, ◌==◌, ltb, Bool, false, not, ◌&&◌, ◌||◌, if◌then◌else◌, Text, List, [], ◌∷◌,
  ◌++◌, Option, none, some, text_eq, length,
}
use psic.Source.{SourceLocation, Result, ok, failed, out_of_fuel}
use psic.Ast.{TypeNode, RegNode, ValueNode, register, CommandNode, BlockNode}
use psic.Target.Pick.{Checked, value, runtime_error, is_empty}
use psic.Validation.Checked.{◌>>=◌, is}
use psic.Validation.Environment.{Map, TypeEnvironment, member, find, has, emplace}
use psic.Validation.Command.{
  has_declared_type, declared, target_register, targets_register, operand, no_accessors,
  register_with, is_array,
}
use psic.Validation.Aliases.{
  Flow, and_then, any, has_index, command_may_name_immutable_backing,
  command_may_point_into_local_storage,
}
use psic.Validation.Flow.{
  add_immutable, add_storage, add_contents, add_aggregate_reference, add_reference, add_if,
  add_when, name_of, is_number_type, keeps_reference, initializer_contains_local_address,
  store_step, memcpy_step, load_step, aggregate_step,
}

-- The local that all operands with a reference refer to, or the empty name. `local` is the one that
-- the operands before refer to.
unfoldable pub common_reference : Flow → Text → List ValueNode → Text
common_reference flow local [] = local
common_reference flow local (register reg ∷ values) =
    let rest = common_reference flow local values in
    if not (no_accessors reg) then rest else elim (find flow.local_references reg.name) [
      | none ↦ rest
      | some other ↦
          if is_empty local
          then common_reference flow other values
          else if text_eq local other
          then rest
          else []
    ]
common_reference flow local (_ ∷ values) = common_reference flow local values

module _ (env : TypeEnvironment) (visible : Map TypeNode) where
  -- An array that holds the address of a local is the first operand.
  abbrev pub array_condition : CommandNode → Flow → Checked Bool
  array_condition command flow =
      and_then (is_array (operand command.values 0))
        (initializer_contains_local_address env visible flow (operand command.values 0))

  abbrev pub array_step : Text → CommandNode → Flow → Checked Flow
  array_step target command flow =
      add_when (array_condition command flow) (add_contents target) flow

  abbrev pub copies_contents : Flow → CommandNode → Bool
  copies_contents flow command =
      any (register_with (λ reg. member flow.local_aggregate_contents reg.name)) command.values

  abbrev pub copies_aggregate_reference : Flow → CommandNode → Bool
  copies_aggregate_reference flow command =
      keeps_reference command
      && any (register_with (λ reg. member flow.local_aggregate_references reg.name)) command.values

  -- `ref` of storage that a struct or an indexed local holds.
  abbrev pub references_aggregate : Flow → RegNode → Bool
  references_aggregate flow referenced = elim (find visible referenced.name) [
    | none ↦ false
    | some root ↦
        root.pointer_level == 0 && has env.structs root.base_name
        || ltb 0 root.pointer_level
          && has_index referenced
          && member flow.local_storage_aliases referenced.name
  ]

  abbrev pub takes_reference : CommandNode → Bool
  takes_reference command =
      is (name_of command) "ref"
      && register_with (λ reg. has visible reg.name) (operand command.values 0)

  -- The name of the local that the result refers to, empty for none.
  abbrev pub referenced_local : Flow → CommandNode → Text
  referenced_local flow command =
      if takes_reference command
      then (elim (operand command.values 0) [ register reg ↦ reg.name | _ ↦ [] ])
      else if keeps_reference command
      then common_reference flow [] command.values
      else []

  abbrev pub reference_step : Text → CommandNode → Flow → Flow
  reference_step target command flow =
      let local = referenced_local flow command in
      add_if (not (is_empty local)) (add_reference target local) (
        add_if
          (takes_reference command
            && register_with (references_aggregate flow) (operand command.values 0))
          (add_aggregate_reference target) flow)

  abbrev pub names_step : Text → CommandNode → Flow → Flow
  names_step target command flow =
      let copied =
        add_if (copies_aggregate_reference flow command) (add_aggregate_reference target) flow in
      add_if (command_may_name_immutable_backing visible env command copied.immutable_aliases)
        (add_immutable target) copied

  -- A target of a type that can hold an address is not known to hold one yet, and may get one.
  abbrev pub storage_condition : Text → TypeNode → CommandNode → Flow → Checked Bool
  storage_condition target type command flow =
      and_then
        ((ltb 0 type.pointer_level || is_number_type type || is (name_of command) "ptrtoint")
          && not (member flow.local_storage_aliases target))
        (command_may_point_into_local_storage visible env flow command)

  abbrev pub storage_step : Text → TypeNode → CommandNode → Flow → Checked Flow
  storage_step target type command flow =
      add_when (storage_condition target type command flow) (add_storage target) flow

  unfoldable pub plain_step : CommandNode → TypeNode → Flow → Checked Flow
  plain_step command type flow =
      let target = (target_register command).name in
      array_step target command flow >>= λ arrayed.
      let copied = add_if (copies_contents arrayed command) (add_contents target) arrayed in
      storage_step target type command
        (names_step target command (reference_step target command copied))

  abbrev pub target_type : CommandNode → Option TypeNode
  target_type command =
      if has_declared_type command
      then some (declared command)
      else find visible (target_register command).name

  unfoldable pub target_step : CommandNode → Flow → Checked Flow
  target_step command flow =
      if not (targets_register command)
      then value flow
      else if not (no_accessors (target_register command))
      then aggregate_step env visible command flow
      else elim (target_type command) [
        | none ↦ value flow
        | some type ↦ plain_step command type flow
      ]

  unfoldable pub command_step : CommandNode → Flow → Checked Flow
  command_step command flow = store_step env visible command flow >>= λ stored.
      memcpy_step env visible command stored >>= λ copied.
      load_step env visible command copied >>= λ loaded. target_step command loaded

-- `localsAfterCommand`.
abbrev pub locals_after : CommandNode → Map TypeNode → Map TypeNode
locals_after command locals =
    if has_declared_type command
    then emplace (target_register command).name (declared command) locals
    else locals

unfoldable pub round : TypeEnvironment → Map TypeNode → BlockNode → Flow → Checked Flow
round env visible [] flow = value flow
round env visible (command ∷ commands) flow = command_step env visible command flow >>= λ f.
    round env (locals_after command visible) commands f

-- An error of a pass, thrown while `activeLocation` has a value.
abbrev pub located : {A : Type 0} → SourceLocation → Checked A → Result A
located active (value a) = ok a
located active (runtime_error message) = failed message active

abbrev pub located_then : {A B : Type 0} → SourceLocation → Checked A → (A → Result B) → Result B
located_then active (value a) next = next a
located_then active (runtime_error message) next = failed message active

-- Rounds until one adds nothing. `activeLocation` keeps the value that it had before the block.
unfoldable pub close :
    ℕ → SourceLocation → TypeEnvironment → Map TypeNode → BlockNode → Flow → Result Flow
close zero active env locals block flow = out_of_fuel
close (suc fuel) active env locals block flow =
    located_then active (round env locals block (record flow { added = false })) (λ next.
      let rest = close fuel active env locals block next in if next.added then rest else ok next)

abbrev pub register_names : List ValueNode → List Text
register_names [] = []
register_names (register reg ∷ values) = reg.name ∷ register_names values
register_names (_ ∷ values) = register_names values

-- The names of the registers of a block: all that an alias set can get.
abbrev pub block_names : BlockNode → List Text
block_names [] = []
block_names (command ∷ commands) =
    (target_register command).name ∷ (register_names command.values ++ block_names commands)

abbrev pub start_flow : Flow
start_flow = record {
  immutable_aliases = [];
  local_storage_aliases = [];
  local_aggregate_contents = [];
  local_aggregate_references = [];
  local_references = [];
  added = false;
}

abbrev pub enough_rounds : BlockNode → ℕ
enough_rounds block = suc (5 * length (block_names block))

unfoldable pub alias_closure :
    SourceLocation → TypeEnvironment → Map TypeNode → BlockNode → Result Flow
alias_closure active env locals block =
    close (enough_rounds block) active env locals block start_flow
