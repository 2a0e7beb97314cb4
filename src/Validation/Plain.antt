-- ===== src/Validation/Plain.antt =====
-- src/validation.cpp: the checks of `validateBlock` on `ret`, `store`, `load` and `call`, and on the
-- results of instructions.
use psic.Prelude.{
  ltb, Bool, true, false, not, ◌&&◌, ◌||◌, if◌then◌else◌, Text, List, [], ◌∷◌, codes, Option, none,
  some,
}
use psic.Ast.{TypeNode, RegNode, ValueNode, register, CommandNode}
use psic.Target.Pick.{Checked, value}
use psic.Validation.Checked.{◌>>=◌, ◌>>◌, require, when, for_each, is, surrounded}
use psic.Validation.Types.{same_type}
use psic.Validation.Environment.{Map, TypeEnvironment, find, has, register_type}
use psic.Validation.Command.{
  PointerModel, instruction_name, is_special, has_declared_type, declared, target_register,
  targets_register, operand, no_values, no_accessors,
}
use psic.Validation.Infer.{ValueType, infer_value_type}
use psic.Validation.InferCommand.{infer_command_type}
use psic.Validation.Aliases.{Flow, may_contain_local_pointer}
use psic.Validation.Convert.{check_pointer_conversion, validate_value_for_type}
use psic.Validation.System.{one_of}
use psic.Validation.Access.{keeps_address, is_modifiable}
use psic.Validation.Atomics.{may_be_pointer, pointee}

module _ (model : PointerModel) (locals : Map TypeNode) (env : TypeEnvironment) (flow : Flow) where
  abbrev infer : ValueNode → Checked ValueType
  infer = infer_value_type locals env

  -- The value does not hold the address of a local.
  abbrev pub no_local_address : Text → ValueNode → Checked (Unit {0})
  no_local_address message v =
      may_contain_local_pointer locals env flow v >>= λ b. require (not b) message

  abbrev check_return_type : Option TypeNode → ValueNode → Checked (Unit {0})
  check_return_type none v = value tt
  check_return_type (some type) v = validate_value_for_type locals env (codes "return") v type

  unfoldable pub check_return : Option TypeNode → List ValueNode → Checked (Unit {0})
  check_return return_type [] = value tt
  check_return return_type (v ∷ values) = do
    no_local_address (codes "cannot return a pointer or address derived from local storage") v
    check_return_type return_type v

  unfoldable pub check_stored_type : ValueType → ValueType → Checked (Unit {0})
  check_stored_type pointer stored =
      if not pointer.is_null && ltb 0 (pointee pointer).pointer_level
      then check_pointer_conversion stored (pointee pointer) (codes "store")
      else require
          (stored.known
            && not stored.is_null
            && (pointer.is_null || same_type stored.type (pointee pointer)))
          (codes "pointer type mismatch in store: value must match the pointer's pointee type")

  unfoldable pub check_store : List ValueNode → Checked (Unit {0})
  check_store (destination ∷ source ∷ []) = do
    require model.integral
        (codes "'store' requires an integral pointer representation for address-range checks")
    require (is_modifiable locals env flow destination)
        (codes "'store' cannot modify immutable global array or string storage")
    keeps_address locals env flow source destination
        (codes "cannot store a pointer or address derived from local storage in memory")
    pointer ← infer destination
    require (may_be_pointer pointer) (codes "'store' requires a pointer operand")
    stored ← infer source
    check_stored_type pointer stored
  check_store _ = value tt

  unfoldable pub check_load : TypeNode → List ValueNode → Checked (Unit {0})
  check_load result [] = value tt
  check_load result (source ∷ values) = do
    require model.integral
        (codes "'load' requires an integral pointer representation for address-range checks")
    pointer ← infer source
    require (may_be_pointer pointer) (codes "'load' requires a pointer operand")
    require (pointer.is_null || same_type (pointee pointer) result)
        (codes "'load' result type must match the pointer's pointee type")

  abbrev check_indirect_argument : ValueNode → Checked (Unit {0})
  check_indirect_argument v = infer v >>= λ t.
      require (not t.known || not t.type.is_view)
        (codes "bounded views cannot be passed to an indirect call")

  unfoldable pub check_indirect_call : RegNode → List ValueNode → Checked (Unit {0})
  check_indirect_call callee arguments = do
    type ← register_type callee locals env
    require (ltb 0 type.pointer_level) (codes "indirect call requires a function pointer")
    require (no_accessors callee) (codes "indirect call requires a plain function pointer register")
    for_each check_indirect_argument arguments

  abbrev same_length : List ValueNode → List TypeNode → Bool
  same_length [] [] = true
  same_length (v ∷ values) (t ∷ types) = same_length values types
  same_length _ _ = false

  abbrev check_arguments : Text → List ValueNode → List TypeNode → Checked (Unit {0})
  check_arguments callee (v ∷ values) (t ∷ types) = do
    validate_value_for_type locals env (surrounded "argument to '" callee "'") v t
    check_arguments callee values types
  check_arguments callee _ _ = value tt

  -- The parameters of a function that no local or global hides.
  abbrev parameters_of : Text → Option (List TypeNode)
  parameters_of callee =
      if has locals callee || has env.globals callee then none else find env.parameters callee

  unfoldable pub check_callee : RegNode → List ValueNode → Checked (Unit {0})
  check_callee callee arguments = elim (parameters_of callee.name) [
    | none ↦ check_indirect_call callee arguments
    | some parameters ↦ do
      require (same_length arguments parameters)
          (surrounded "incorrect argument count in call to '" callee.name "'")
      check_arguments callee.name arguments parameters
  ]

  abbrev after_first : List ValueNode → List ValueNode
  after_first [] = []
  after_first (_ ∷ values) = values

  abbrev check_named_callee : List ValueNode → Checked (Unit {0})
  check_named_callee (register callee ∷ arguments) = check_callee callee arguments
  check_named_callee _ = value tt

  unfoldable pub check_call : List ValueNode → Checked (Unit {0})
  check_call values = do
    for_each
        (no_local_address
          (codes "cannot pass a pointer or address derived from local storage to a call"))
        (after_first values)
    check_named_callee values

  abbrev pub result_type : CommandNode → Checked TypeNode
  result_type command =
      if has_declared_type command
      then value (declared command)
      else register_type (target_register command) locals env

  abbrev check_inferred : CommandNode → TypeNode → Checked (Unit {0})
  check_inferred command target = infer_command_type locals env model command >>= λ result.
      when result.known (
        check_pointer_conversion result target
          (surrounded "result assigned to '" (target_register command).name "'"))

  unfoldable pub check_result : CommandNode → Checked (Unit {0})
  check_result command = when (targets_register command && not (no_values command.values)) (
      result_type command >>= λ target.
      when
        (not
          (is_special command && one_of ("ptrcast" ∷ "inttoptr" ∷ []) (instruction_name command)))
        (check_inferred command target))

  unfoldable pub check_plain : Option TypeNode → CommandNode → Checked (Unit {0})
  check_plain return_type command =
      let op = instruction_name command in
      do
        when (is op "ret") (check_return return_type command.values)
        when (is op "store") (check_store command.values)
        when (is op "load") (check_load (declared command) command.values)
        when (is op "call") (check_call command.values)
        check_result command

  unfoldable pub check_assignment : CommandNode → Checked (Unit {0})
  check_assignment command = do
    require (has_declared_type command || not (no_values command.values))
        (codes "assignment requires a value")
    when (targets_register command && not (no_values command.values)) (
        result_type command >>= λ target.
        validate_value_for_type locals env
          (surrounded "assignment to '" (target_register command).name "'")
          (operand command.values 0) target)
