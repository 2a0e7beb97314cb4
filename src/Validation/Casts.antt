-- ===== src/Validation/Casts.antt =====
-- src/validation.cpp: `validateExplicitCast`.
use psic.Prelude.{
  ℕ, ◌==◌, ltb, Bool, not, ◌&&◌, ◌||◌, if◌then◌else◌, String, Text, contains, List, [], ◌∷◌, ◌++◌,
  codes, length,
}
use psic.Ast.{TypeNode, CommandNode}
use psic.Target.Pick.{Checked, value}
use psic.Validation.Checked.{◌>>=◌, ◌>>◌, require, is, surrounded}
use psic.Validation.Types.{
  is_integer_type, is_signed_integer_type, is_unsigned_integer_type, is_floating_type,
  integer_width,
}
use psic.Validation.Environment.{Map, TypeEnvironment}
use psic.Validation.Command.{
  PointerModel, normalized_instruction_name, instruction_name, is_special, has_declared_type,
  declared, operand,
}
use psic.Validation.Infer.{ValueType, is_pointer, infer_value_type}

abbrev pub casts : List String
casts =
    "ptrcast" ∷ "ptrtoint" ∷ "inttoptr" ∷ "trunc" ∷ "sext" ∷ "zext" ∷ "fpext" ∷ "fptrunc" ∷ "sitofp"
    ∷ "uitofp" ∷ "fptosi" ∷ "fptoui" ∷ []

abbrev pub is_pointer_level_0 : TypeNode → Bool
is_pointer_level_0 type = type.pointer_level == 0

abbrev pub float_width : TypeNode → ℕ
float_width type = if is type.base_name "f32" then 32 else 64

unfoldable pub check_ptrcast : ValueType → TypeNode → Checked (Unit {0})
check_ptrcast source result = do
  require (source.is_null || is_pointer source) (codes "'#ptrcast' requires a pointer operand")
  require (ltb 0 result.pointer_level) (codes "'#ptrcast' requires a pointer result type")

unfoldable pub check_ptrtoint : PointerModel → ValueType → TypeNode → Checked (Unit {0})
check_ptrtoint model source result = do
  require (source.is_null || is_pointer source) (codes "'#ptrtoint' requires a pointer operand")
  require (is_integer_type result) (codes "'#ptrtoint' requires an integer result type")
  require model.integral (codes "'#ptrtoint' is unavailable for a non-integral pointer target")
  require (integer_width result == model.bits)
      (codes "'#ptrtoint' result width must match the target pointer width")

unfoldable pub check_inttoptr : PointerModel → ValueType → TypeNode → Checked (Unit {0})
check_inttoptr model source result = do
  require (source.known && is_pointer_level_0 source.type && is_integer_type source.type)
      (codes "'#inttoptr' requires an integer operand")
  require (ltb 0 result.pointer_level) (codes "'#inttoptr' requires a pointer result type")
  require model.integral (codes "'#inttoptr' is unavailable for a non-integral pointer target")
  require (integer_width source.type == model.bits)
      (codes "'#inttoptr' operand width must match the target pointer width")

unfoldable pub check_integer_to_float : Bool → ValueType → TypeNode → Checked (Unit {0})
check_integer_to_float signed source result =
    require
      (source.known
        && (if signed then is_signed_integer_type source.type else is_integer_type source.type)
        && is_pointer_level_0 result
        && is_floating_type result)
      (codes (
        if signed
        then "'#sitofp' requires a signed integer source and floating-point result"
        else "'#uitofp' requires an integer source and floating-point result"))

unfoldable pub check_float_to_integer : Bool → ValueType → TypeNode → Checked (Unit {0})
check_float_to_integer signed source result =
    require
      (source.known
        && is_floating_type source.type
        && is_pointer_level_0 result
        && (if signed then is_signed_integer_type result else is_unsigned_integer_type result))
      (codes (
        if signed
        then "'#fptosi' requires a floating-point source and signed integer result"
        else "'#fptoui' requires a floating-point source and unsigned integer result"))

abbrev pub scalars_only : Text → ValueType → TypeNode → Checked (Unit {0})
scalars_only name source result =
    require (source.known && is_pointer_level_0 source.type && is_pointer_level_0 result)
      (surrounded "'#" name "' requires scalar source and result types")

-- `trunc`, `sext` and `zext`: all but `trunc` widen.
unfoldable pub check_integer_resize : Text → ValueType → TypeNode → Checked (Unit {0})
check_integer_resize name source result = do
  scalars_only name source result
  require (is_integer_type source.type && is_integer_type result)
      (surrounded "'#" name "' requires integer types")
  require
      (if is name "trunc"
        then ltb (integer_width result) (integer_width source.type)
        else ltb (integer_width source.type) (integer_width result))
      (surrounded "'#" name "' requires "
        ++ codes (if is name "trunc" then "a narrower result" else "a wider result"))

-- `fpext` and `fptrunc`.
unfoldable pub check_float_resize : Text → ValueType → TypeNode → Checked (Unit {0})
check_float_resize name source result = do
  scalars_only name source result
  require (is_floating_type source.type && is_floating_type result)
      (surrounded "'#" name "' requires floating-point types")
  require
      (if is name "fpext"
        then ltb (float_width source.type) (float_width result)
        else ltb (float_width result) (float_width source.type))
      (surrounded "'#" name "' requires "
        ++ codes (if is name "fpext" then "a wider result" else "a narrower result"))

unfoldable pub check_cast : PointerModel → Text → ValueType → TypeNode → Checked (Unit {0})
check_cast model name source result =
    if is name "ptrcast"
    then check_ptrcast source result
    else if is name "ptrtoint"
    then check_ptrtoint model source result
    else if is name "inttoptr"
    then check_inttoptr model source result
    else if is name "sitofp" || is name "uitofp"
    then check_integer_to_float (is name "sitofp") source result
    else if is name "fptosi" || is name "fptoui"
    then check_float_to_integer (is name "fptosi") source result
    else if is name "trunc" || is name "sext" || is name "zext"
    then check_integer_resize name source result
    else check_float_resize name source result

module _ (locals : Map TypeNode) (env : TypeEnvironment) where
  abbrev check_cast_command : PointerModel → CommandNode → Text → Checked (Unit {0})
  check_cast_command model command name = do
    require (has_declared_type command)
        (surrounded "'#" name "' requires an explicitly typed result")
    require (length command.values == 1) (surrounded "'#" name "' requires exactly one operand")
    source ← infer_value_type locals env (operand command.values 0)
    check_cast model name source (declared command)

  unfoldable pub validate_explicit_cast : PointerModel → CommandNode → Checked (Unit {0})
  validate_explicit_cast model command =
      let name = normalized_instruction_name (instruction_name command) in
      if not (is_special command) || not (contains casts name)
      then value tt
      else check_cast_command model command name
