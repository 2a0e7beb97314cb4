-- ===== src/Validation/Aliases.antt =====
-- src/validation.cpp: which values may name immutable storage or hold the address of a local.
use psic.Prelude.{
  ℕ, ◌+◌, ◌==◌, ltb, Bool, true, false, not, ◌&&◌, ◌||◌, if◌then◌else◌, String, Text, contains,
  List, [], ◌∷◌, none, some,
}
use psic.Ast.{TypeNode, AccessorNode, index, field, RegNode, ValueNode, register, CommandNode}
use psic.Target.Pick.{Checked, value}
use psic.Validation.Checked.{◌>>=◌, is}
use psic.Validation.Types.{is_integer_type, is_floating_type}
use psic.Validation.Environment.{Map, TypeEnvironment, Names, member, find, has, register_type}
use psic.Validation.Command.{
  normalized_instruction_name, has_instruction, instruction_name, has_declared_type, declared,
  operand, no_values, no_accessors, register_with, is_register, is_array, is_string,
}
use psic.Validation.Infer.{is_pointer_difference_command}

-- `b && c`, where `c` may throw and is asked only when `b` holds.
abbrev pub and_then : Bool → Checked Bool → Checked Bool
and_then true c = c
and_then false c = value false

-- `b || c`.
abbrev pub or_else : Bool → Checked Bool → Checked Bool
or_else true c = value true
or_else false c = c

-- `std::any_of`, which stops at the first element that satisfies the test.
module _ {A : Type 0} where
  abbrev pub any : (A → Bool) → List A → Bool
  any p [] = false
  any p (x ∷ xs) = p x || any p xs

  abbrev pub any_of : (A → Checked Bool) → List A → Checked Bool
  any_of p [] = value false
  any_of p (x ∷ xs) = p x >>= λ b. or_else b (any_of p xs)

abbrev pub is_index : AccessorNode → Bool
is_index (index _) = true
is_index (field _) = false

abbrev pub has_index : RegNode → Bool
has_index reg = any is_index reg.accessors

-- What the analysis has found: names of locals, and the local that a reference was taken of. `added`
-- is `addedLocalAlias`, whether a round over the commands has found anything.
pub record Flow : Type 0 where
  pub immutable_aliases : Names
  pub local_storage_aliases : Names
  pub local_aggregate_contents : Names
  pub local_aggregate_references : Names
  pub local_references : Map Text
  pub added : Bool

abbrev count_indexes : List AccessorNode → ℕ
count_indexes [] = 0
count_indexes (a ∷ accessors) = (if is_index a then 1 else 0) + count_indexes accessors

abbrev first_is_index : List AccessorNode → Bool
first_is_index [] = false
first_is_index (a ∷ accessors) = is_index a

module _ (locals : Map TypeNode) (env : TypeEnvironment) where
  unfoldable pub may_name_immutable_backing : ValueNode → Names → Bool
  may_name_immutable_backing v immutable_aliases =
      is_string v
      || register_with
          (λ reg.
            member immutable_aliases reg.name
            || no_accessors reg
              && not (has locals reg.name)
              && member env.immutable_global_backing reg.name)
          v

  abbrev keeps_backing : List String
  keeps_backing = "ptrcast" ∷ "ptrtoint" ∷ "inttoptr" ∷ "add" ∷ "ref" ∷ []

  unfoldable pub command_may_name_immutable_backing : CommandNode → Names → Bool
  command_may_name_immutable_backing command immutable_aliases =
      if no_values command.values
      then false
      else if not (has_instruction command)
      then may_name_immutable_backing (operand command.values 0) immutable_aliases
      else contains keeps_backing (normalized_instruction_name (instruction_name command))
        && any (λ v. may_name_immutable_backing v immutable_aliases) command.values

  unfoldable pub may_point_into_local_storage : Names → ValueNode → Bool
  may_point_into_local_storage local_storage_aliases v =
      register_with
        (λ reg. no_accessors reg && has locals reg.name && member local_storage_aliases reg.name) v

  unfoldable pub accessor_target_is_local_storage : RegNode → Names → Bool
  accessor_target_is_local_storage target local_storage_aliases = elim (find locals target.name) [
    | none ↦ false
    | some root ↦
        count_indexes target.accessors == 0
        || first_is_index target.accessors
          && count_indexes target.accessors == 1
          && ltb 0 root.pointer_level
          && member local_storage_aliases target.name
  ]

  abbrev reads_address : Flow → RegNode → TypeNode → Bool
  reads_address flow reg accessed =
      ltb 0 accessed.pointer_level
      || member flow.local_aggregate_contents reg.name
        && (is_integer_type accessed
            || is_floating_type accessed
            || has env.structs accessed.base_name)

  unfoldable pub may_contain_local_pointer : Flow → ValueNode → Checked Bool
  may_contain_local_pointer flow (register reg) =
      if no_accessors reg
      then value (may_point_into_local_storage flow.local_storage_aliases (register reg))
      else and_then (has locals reg.name && member flow.local_storage_aliases reg.name)
          (register_type reg locals env >>= λ accessed. value (reads_address flow reg accessed))
  may_contain_local_pointer flow v = value false

  abbrev carries_address : List String
  carries_address =
      "ptrcast" ∷ "ptrtoint" ∷ "inttoptr" ∷ "trunc" ∷ "sext" ∷ "zext" ∷ "sitofp" ∷ "uitofp"
      ∷ "fptosi" ∷ "fptoui" ∷ "fpext" ∷ "fptrunc" ∷ "add" ∷ "sub" ∷ "mul" ∷ "div" ∷ "mod" ∷ "and"
      ∷ "or" ∷ "xor" ∷ "lsh" ∷ "rsh" ∷ "not" ∷ "bswap" ∷ "bitreverse" ∷ []

  -- `ref` of a register.
  abbrev reference_is_local : Flow → RegNode → Bool
  reference_is_local flow referenced =
      has locals referenced.name
      && (not (has_index referenced) || member flow.local_storage_aliases referenced.name)

  abbrev is_number_type : TypeNode → Bool
  is_number_type type = is_integer_type type || is_floating_type type

  -- The local that the register refers to holds the address of a local.
  abbrev refers_to_address : Flow → TypeNode → ValueNode → Bool
  refers_to_address flow result = register_with (λ reg. elim (find flow.local_references reg.name) [
    | none ↦ false
    | some local ↦
        member flow.local_storage_aliases local
        && (ltb 0 result.pointer_level || is_number_type result)
  ])

  abbrev load_may_point : Flow → TypeNode → ValueNode → Checked Bool
  load_may_point flow result source =
      and_then
        (ltb 0 result.pointer_level
          || is_number_type result
            && register_with
                (λ reg. not (no_accessors reg) && member flow.local_aggregate_contents reg.name)
                source)
        (may_contain_local_pointer flow source)
      >>= λ tainted. or_else tainted (value (refers_to_address flow result source))

  abbrev is_load : Text → Bool
  is_load name = is name "load" || is name "atomicload"

  abbrev instruction_may_point : Flow → CommandNode → Text → Checked Bool
  instruction_may_point flow command name =
      if is name "ref" && is_register (operand command.values 0)
      then value (register_with (reference_is_local flow) (operand command.values 0))
      else if is_load name
      then and_then (has_declared_type command)
          (load_may_point flow (declared command) (operand command.values 0))
      else and_then (is name "sub") (is_pointer_difference_command locals env command.values)
        >>= λ difference.
            and_then (not difference && contains carries_address name)
              (any_of (may_contain_local_pointer flow) command.values)

  unfoldable pub command_may_point_into_local_storage : Flow → CommandNode → Checked Bool
  command_may_point_into_local_storage flow command =
      if no_values command.values
      then value false
      else if not (has_instruction command)
      then (may_contain_local_pointer flow (operand command.values 0) >>= λ b.
          value (b || is_array (operand command.values 0)))
      else instruction_may_point flow command
          (normalized_instruction_name (instruction_name command))
