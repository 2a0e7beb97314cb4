-- ===== src/Validation/Primary.antt =====
-- src/validation.cpp: `validatePrimaryOperandTypes`, the types of the operands of the instructions
-- that are not special.
use psic.Prelude.{
  ◌==◌, Bool, not, ◌&&◌, ◌||◌, if◌then◌else◌, Text, contains, List, [], ◌∷◌, ◌++◌, codes,
}
use psic.Ast.{TypeNode, ValueNode, CommandNode}
use psic.Target.Pick.{Checked, value}
use psic.Validation.Checked.{◌>>=◌, ◌>>◌, require, when, is, surrounded}
use psic.Validation.Types.{
  same_type, compatible_pointer_types, is_integer_type, is_floating_type, is_integer_vector_type,
  pointer_difference_result_type,
}
use psic.Validation.Environment.{Map, TypeEnvironment, is_some}
use psic.Validation.Command.{PointerModel, has_instruction, instruction_name, is_special}
use psic.Validation.Infer.{ValueType, is_pointer, infer_value_type}
use psic.Validation.Operands.{quoted}

abbrev pub equalities : Text → Bool
equalities op = contains ("eq" ∷ "neq" ∷ []) op

abbrev pub takes_pointers : Text → Bool
takes_pointers op = contains ("add" ∷ "sub" ∷ "eq" ∷ "neq" ∷ "gt" ∷ "lt" ∷ "gte" ∷ "lte" ∷ []) op

abbrev pub is_numeric_op : Text → Bool
is_numeric_op op =
    contains
      ("add" ∷ "sub" ∷ "mul" ∷ "div" ∷ "mod" ∷ "eq" ∷ "neq" ∷ "gt" ∷ "lt" ∷ "gte" ∷ "lte" ∷ []) op

abbrev pub is_integer_binary_op : Text → Bool
is_integer_binary_op op = contains ("and" ∷ "or" ∷ "xor" ∷ "lsh" ∷ "rsh" ∷ "land" ∷ "lor" ∷ []) op

abbrev pub is_integer : ValueType → Bool
is_integer v = v.known && is_integer_type v.type

abbrev pub is_numeric : ValueType → Bool
is_numeric v = v.known && (is_integer_type v.type || is_floating_type v.type)

-- What one operand of a binary instruction may be.
unfoldable pub accepts_operand : Text → ValueType → Bool
accepts_operand op v =
    not v.known
    || takes_pointers op && is_pointer v
    || equalities op && v.is_null
    || (if is_numeric_op op then is_numeric v else is_integer v)

-- `pointer.pointerLevel != 1 || pointer.baseName != "void"`.
abbrev pub is_complete_pointer : TypeNode → Bool
is_complete_pointer type = not (type.pointer_level == 1) || not (is type.base_name "void")

-- `leftPointer != rightPointer`.
abbrev pub differ : Bool → Bool → Bool
differ a b = if a then not b else b

unfoldable pub check_pointer_addition : PointerModel → ValueType → ValueType → Checked (Unit {0})
check_pointer_addition model left right = do
  require model.integral (codes "pointer addition is unavailable for a non-integral pointer target")
  require (differ (is_pointer left) (is_pointer right))
      (codes "pointer addition requires exactly one pointer operand")
  require (is_integer (if is_pointer left then right else left))
      (codes "pointer arithmetic requires an integer offset")
  require (is_complete_pointer (if is_pointer left then left else right).type)
      (codes "pointer arithmetic requires a complete object type")

unfoldable pub check_pointer_subtraction : PointerModel → ValueType → ValueType → Checked (Unit {0})
check_pointer_subtraction model left right = do
  require (is_pointer left && is_pointer right && same_type left.type right.type)
      (codes "pointer subtraction requires a pointer left operand and matching pointer types")
  require (is_some (pointer_difference_result_type model.bits)) (
      codes
        "pointer subtraction requires a target pointer width with a matching signed PSI integer type")
  require model.integral
      (codes "pointer subtraction is unavailable for a non-integral pointer target")
  require (is_complete_pointer left.type)
      (codes "pointer arithmetic requires a complete object type")

-- The comparison of two values of which one is a pointer, for equality and for order.
unfoldable pub comparable : ValueType → ValueType → Bool
comparable left right =
    is_pointer left
      && (if is_pointer right then compatible_pointer_types left.type right.type else right.is_null)
    || is_pointer right && left.is_null

unfoldable pub check_pointer_order : PointerModel → ValueType → ValueType → Checked (Unit {0})
check_pointer_order model left right = do
  require (is_pointer left && is_pointer right && same_type left.type right.type)
      (codes "pointer comparison requires matching pointer types")
  require model.integral
      (codes "ordered pointer comparisons are unavailable for a non-integral pointer target")

unfoldable pub check_pointer_operands :
    PointerModel → Text → ValueType → ValueType → Checked (Unit {0})
check_pointer_operands model op left right =
    require (takes_pointers op) (surrounded "pointer operands are not valid for '" op "'")
    >> (if is op "add"
        then check_pointer_addition model left right
        else if is op "sub"
        then check_pointer_subtraction model left right
        else if equalities op
        then require (comparable left right)
            (codes "pointer equality requires matching pointer types or a null pointer")
        else check_pointer_order model left right)

abbrev operand_error : Text → Text
operand_error op =
    quoted op "' requires "
    ++ codes (if is_numeric_op op then "scalar numeric" else "integer")
    ++ codes " operands"

unfoldable pub check_binary : PointerModel → Text → ValueType → ValueType → Checked (Unit {0})
check_binary model op left right = do
  require (accepts_operand op left) (operand_error op)
  require (accepts_operand op right) (operand_error op)
  when (is_pointer left || is_pointer right) (check_pointer_operands model op left right)
  when (is_numeric left && is_numeric right) (
      require (not (differ (is_integer_type left.type) (is_integer_type right.type)))
        (quoted op "' cannot mix integer and floating-point operands"))

module _ (locals : Map TypeNode) (env : TypeEnvironment) where
  abbrev check_two : PointerModel → Text → List ValueNode → Checked (Unit {0})
  check_two model op (a ∷ b ∷ []) = do
    left ← infer_value_type locals env a
    right ← infer_value_type locals env b
    check_binary model op left right
  check_two model op _ = value tt

  abbrev check_first : Text → List ValueNode → Checked (Unit {0})
  check_first op [] = value tt
  check_first op (v ∷ values) = do
    when (is op "not" || is op "lnot") (
        infer_value_type locals env v >>= λ t.
        require
          (not t.known || is_integer_type t.type || is op "not" && is_integer_vector_type t.type)
          (quoted op "' requires an integer operand"))
    when (is op "cjmp") (
        infer_value_type locals env v >>= λ t.
        require (not t.known || is_integer_type t.type) (codes "'cjmp' needs an integer condition"))

  unfoldable pub validate_primary_operand_types : PointerModel → CommandNode → Checked (Unit {0})
  validate_primary_operand_types model command =
      let op = instruction_name command in
      if not (has_instruction command) || is_special command
      then value tt
      else if is_numeric_op op || is_integer_binary_op op
      then check_two model op command.values
      else check_first op command.values
