-- ===== src/Validation/Command.antt =====
-- src/validation.cpp: what the checks ask of a command and of its operands.
use psic.Prelude.{
  ℕ, zero, suc, ◌==◌, Bool, true, false, ◌&&◌, if◌then◌else◌, Text, List, [], ◌∷◌, map, none, some,
}
use psic.Ast.{
  TypeNode, RegNode, ValueNode, string, register, array, null, CommandNode, no_target, to_register,
}
use psic.Target.Model.{Architecture, OperatingSystem}
use psic.Validation.Types.{plain_type}
use psic.Validation.Environment.{is_some}

-- src/target_model.hpp: `PointerModel`.
pub record PointerModel : Type 0 where
  pub bits : ℕ
  pub integral : Bool
  pub architecture : Architecture
  pub operating_system : OperatingSystem
  pub effective_target_features : Text

unfoldable pub normalized_instruction_name : Text → Text
normalized_instruction_name = map (λ c. if c == b'.' then b'_' else c)

-- `text.rfind(prefix, 0) == 0`.
unfoldable pub is_prefix : Text → Text → Bool
is_prefix [] text = true
is_prefix (c ∷ prefix) [] = false
is_prefix (c ∷ prefix) (d ∷ text) = c == d && is_prefix prefix text

abbrev pub no_type : TypeNode
no_type = plain_type [] 0

-- The members of a command that a missing instruction, type or target leaves at their initial values.
module _ (command : CommandNode) where
  abbrev pub has_instruction : Bool
  has_instruction = is_some command.instruction

  abbrev pub instruction_name : Text
  instruction_name = elim command.instruction [ none ↦ [] | some i ↦ i.name ]

  abbrev pub is_special : Bool
  is_special = elim command.instruction [ none ↦ false | some i ↦ i.is_special ]

  abbrev pub has_declared_type : Bool
  has_declared_type = is_some command.declared_type

  abbrev pub declared : TypeNode
  declared = elim command.declared_type [ none ↦ no_type | some type ↦ type ]

  abbrev pub target_register : RegNode
  target_register = elim command.target [
    | to_register reg ↦ reg
    | _ ↦ record { name = []; accessors = [] }
  ]

  abbrev pub targets_register : Bool
  targets_register = elim command.target [ to_register _ ↦ true | _ ↦ false ]

  abbrev pub has_no_target : Bool
  has_no_target = elim command.target [ no_target ↦ true | _ ↦ false ]

-- `command.values[i]`. The code asks for operands that are there.
abbrev pub operand : List ValueNode → ℕ → ValueNode
operand [] i = null
operand (v ∷ values) zero = v
operand (v ∷ values) (suc i) = operand values i

abbrev pub no_values : List ValueNode → Bool
no_values [] = true
no_values (_ ∷ _) = false

abbrev pub no_accessors : RegNode → Bool
no_accessors reg = elim reg.accessors [ [] ↦ true | _ ∷ _ ↦ false ]

-- `value.kind == ValueKind::Register` and a condition on the register.
abbrev pub register_with : (RegNode → Bool) → ValueNode → Bool
register_with p (register reg) = p reg
register_with p _ = false

abbrev pub is_register : ValueNode → Bool
is_register = register_with (λ _. true)

abbrev pub is_array : ValueNode → Bool
is_array (array _) = true
is_array _ = false

abbrev pub is_string : ValueNode → Bool
is_string (string _) = true
is_string _ = false
