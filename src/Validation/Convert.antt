-- ===== src/Validation/Convert.antt =====
-- src/validation.cpp: `checkPointerConversion` and `validateValueForType`.
use psic.Prelude.{
  ℕ, zero, suc, ◌==◌, ◌-◌, ltb, Bool, false, not, ◌&&◌, ◌||◌, if◌then◌else◌, Text, [], ◌∷◌, ◌++◌,
  codes,
}
use psic.Ast.{TypeNode, ValueNode, Values, nil, cons, number_int, number_float, array}
use psic.Target.Pick.{Checked, value, runtime_error}
use psic.Validation.Checked.{◌>>=◌, ◌>>◌, require, when, is}
use psic.Validation.Types.{same_type, compatible_pointer_types, is_integer_type, is_floating_type}
use psic.Validation.Environment.{Map, TypeEnvironment}
use psic.Validation.Command.{is_string}
use psic.Validation.Infer.{ValueType, is_pointer, infer_value_type}

-- `std::string(level, '*')`.
abbrev stars : ℕ → Text
stars zero = []
stars (suc level) = b'*' ∷ stars level

abbrev mismatch : Text → TypeNode → Text
mismatch context target =
    codes "pointer type mismatch in "
    ++ context
    ++ codes ": expected "
    ++ target.base_name
    ++ stars target.pointer_level

unfoldable pub check_pointer_conversion : ValueType → TypeNode → Text → Checked (Unit {0})
check_pointer_conversion source target context =
    if ltb 0 target.pointer_level
    then (do
      require (source.is_null || is_pointer source) (mismatch context target)
      when (not source.is_null)
          (require (compatible_pointer_types source.type target) (mismatch context target)))
    else if is_pointer source
    then runtime_error
        (codes "pointer value requires an explicit pointer conversion in " ++ context)
    else if source.is_null
    then runtime_error (codes "null pointer value requires a pointer destination in " ++ context)
    else value tt

abbrev pub is_initializer_context : Text → Bool
is_initializer_context context =
    is context "global initializer" || is context "constant initializer"

unfoldable pub check_number : TypeNode → ValueNode → Checked (Unit {0})
check_number target (number_int n) = do
  require (target.pointer_level == 0 && not target.is_view)
      (codes "numeric literal requires a scalar numeric destination")
  require (is_integer_type target) (codes "integer literal requires an integer destination")
check_number target (number_float s) = do
  require (target.pointer_level == 0 && not target.is_view)
      (codes "numeric literal requires a scalar numeric destination")
  require (is_floating_type target)
      (codes "floating-point literal requires a floating-point destination")
check_number target _ = value tt

-- The type of the elements of an array that a pointer or a view stands for.
abbrev pub element_type : TypeNode → TypeNode
element_type target =
    if target.is_view
    then record target { is_view = false }
    else record target { pointer_level = target.pointer_level - 1 }

module _ (locals : Map TypeNode) (env : TypeEnvironment) (context : Text) where
  -- A value that is no array.
  unfoldable pub validate_single : ValueNode → TypeNode → Checked (Unit {0})
  validate_single v target = do
    source ← infer_value_type locals env v
    when (target.is_view || source.type.is_view) (
        require (target.is_view && source.known && same_type source.type target) (
          codes
            "bounded views can only be initialized or assigned from the same view element type"))
    check_number target v
    when (is_initializer_context context && target.pointer_level == 0 && is_string v)
        (runtime_error (codes "string initializer requires a pointer type"))
    check_pointer_conversion source target context

  unfoldable mutual
    pub validate_value_for_type : ValueNode → TypeNode → Checked (Unit {0})
    validate_value_for_type (array items) target = do
      require (ltb 0 target.pointer_level || target.is_view)
          (codes "array initializer requires a pointer or bounded view type")
      validate_items items (element_type target)
    validate_value_for_type v target = validate_single v target

    pub validate_items : Values → TypeNode → Checked (Unit {0})
    validate_items nil target = value tt
    validate_items (cons item items) target =
        validate_value_for_type item target >> validate_items items target
