-- ===== src/Validation/InferCommand.antt =====
-- src/validation.cpp: `inferCommandType`.
use psic.Prelude.{
  ◌+◌, ◌==◌, ltb, ◌-◌, Bool, true, false, not, ◌&&◌, ◌||◌, if◌then◌else◌, String, Text, contains,
  List, [], ◌∷◌, length, Option, none, some, codes,
}
use psic.Ast.{TypeNode, RegNode, ValueNode, register, CommandNode}
use psic.Target.Pick.{Checked, value}
use psic.Validation.Checked.{◌>>=◌, is}
use psic.Validation.Types.{plain_type, pointer_difference_result_type}
use psic.Validation.Environment.{Map, TypeEnvironment, find, has, register_type}
use psic.Validation.Command.{
  PointerModel, normalized_instruction_name, is_prefix, instruction_name, is_special,
  has_declared_type, declared, target_register, targets_register,
}
use psic.Validation.Infer.{ValueType, known_type, unknown_type, is_pointer, infer_value_type}

module _ (locals : Map TypeNode) (env : TypeEnvironment) where
  -- The type behind the pointer that the first operand is.
  abbrev pub below_pointer : TypeNode → TypeNode
  below_pointer type =
      if ltb 0 type.pointer_level
      then record type { pointer_level = type.pointer_level - 1 }
      else type

  abbrev first_type : List ValueNode → ValueType → Checked ValueType
  first_type [] otherwise = value otherwise
  first_type (v ∷ values) otherwise = infer_value_type locals env v

  abbrev declared_or_unknown : CommandNode → ValueType
  declared_or_unknown command = record {
    type = declared command;
    is_null = false;
    known = has_declared_type command;
  }

  -- `viewlen`, `view_len` and `viewload` are in this list, so the rules the code writes for them
  -- further down are never reached.
  abbrev typed_by_declaration : List String
  typed_by_declaration =
      "ptrcast" ∷ "inttoptr" ∷ "atomicload" ∷ "vsplat" ∷ "viewlen" ∷ "view_len" ∷ "viewload"
      ∷ "view_load" ∷ "trunc" ∷ "sext" ∷ "zext" ∷ "fpext" ∷ "fptrunc" ∷ "sitofp" ∷ "uitofp"
      ∷ "fptosi" ∷ "fptoui" ∷ []

  -- The type behind the pointer that a register holds, the operand of an atomic instruction.
  abbrev atomic_type : Bool → List ValueNode → Checked ValueType
  atomic_type true (register reg ∷ values) =
      register_type reg locals env >>= λ type. value (known_type (below_pointer type))
  atomic_type _ values = first_type values unknown_type

  unfoldable pub infer_special_type : CommandNode → Checked ValueType
  infer_special_type command =
      let name = normalized_instruction_name (instruction_name command) in
      if contains typed_by_declaration name
      then value (declared_or_unknown command)
      else if is name "ptrtoint"
      then value (declared_or_unknown command)
      else atomic_type (is_prefix (codes "atomic") name || is name "cas") command.values

  -- The result of `add` and `sub` where an operand is a pointer.
  abbrev pub pointer_result : PointerModel → Bool → ValueType → ValueType → Option ValueType
  pointer_result model adds left right =
      if adds && is_pointer left && not (is_pointer right)
      then some (known_type left.type)
      else if adds && not (is_pointer left) && is_pointer right
      then some (known_type right.type)
      else if not adds && is_pointer left && is_pointer right
      then elim (pointer_difference_result_type model.bits) [
        | some name ↦ some (known_type (plain_type name 0))
        | none ↦ some unknown_type
      ]
      else none

  -- `callee_return` is asked behind an operand that names the callee.
  unfoldable pub callee_return : RegNode → Option TypeNode
  callee_return callee =
      if has locals callee.name || has env.globals callee.name
      then none
      else find env.returns callee.name

  abbrev call_type : CommandNode → Option TypeNode → Checked ValueType
  call_type command (some result) = value (known_type result)
  call_type command none =
      if has_declared_type command
      then value (known_type (declared command))
      else if targets_register command
      then (register_type (target_register command) locals env >>= λ type. value (known_type type))
      else value (known_type (plain_type (codes "void") 0))

  abbrev comparisons : List String
  comparisons = "eq" ∷ "neq" ∷ "gt" ∷ "lt" ∷ "gte" ∷ "lte" ∷ []

  -- The type of a command that no rule of its own covers.
  abbrev fallback_type : CommandNode → Checked ValueType
  fallback_type command =
      first_type command.values
        (if has_declared_type command then known_type (declared command) else unknown_type)

  -- The rules for `eq` to `lte`, for `call`, and for all others.
  abbrev later_type : CommandNode → Text → List ValueNode → Checked ValueType
  later_type command op (register callee ∷ values) =
      if contains comparisons op && length values == 1
      then value (known_type (plain_type (codes "bool") 0))
      else if is op "call"
      then call_type command (callee_return callee)
      else fallback_type command
  later_type command op values =
      if contains comparisons op && length values == 2
      then value (known_type (plain_type (codes "bool") 0))
      else fallback_type command

  abbrev arithmetic_type : PointerModel → CommandNode → Text → List ValueNode → Checked ValueType
  arithmetic_type model command op (a ∷ b ∷ []) = do
    left ← infer_value_type locals env a
    right ← infer_value_type locals env b
    elim (pointer_result model (is op "add") left right) [
      | some type ↦ value type
      | none ↦ later_type command op (a ∷ b ∷ [])
    ]
  arithmetic_type model command op values = later_type command op values

  abbrev reference_type : Bool → List ValueNode → Option RegNode
  reference_type true (register reg ∷ values) = some reg
  reference_type _ values = none

  unfoldable pub infer_plain_type : PointerModel → CommandNode → Checked ValueType
  infer_plain_type model command =
      let op = instruction_name command in
      elim (reference_type (is op "ref") command.values) [
        | some reg ↦ register_type reg locals env >>= λ type.
            value (known_type (record type { pointer_level = type.pointer_level + 1 }))
        | none ↦
            if is op "load"
            then value (declared_or_unknown command)
            else if is op "add" || is op "sub"
            then arithmetic_type model command op command.values
            else later_type command op command.values
      ]

  unfoldable pub infer_command_type : PointerModel → CommandNode → Checked ValueType
  infer_command_type model command =
      if is_special command then infer_special_type command else infer_plain_type model command
