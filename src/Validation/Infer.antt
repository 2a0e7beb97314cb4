-- ===== src/Validation/Infer.antt =====
-- src/validation.cpp: `ValueType` and `inferValueType`.
use psic.Prelude.{ltb, Bool, true, false, not, ◌&&◌, if◌then◌else◌, List, [], ◌∷◌, codes}
use psic.Ast.{
  TypeNode, RegNode, ValueNode, number_int, number_float, string, register, array, special_register,
  bool, null,
}
use psic.Target.Pick.{Checked, value}
use psic.Validation.Checked.{◌>>=◌}
use psic.Validation.Types.{plain_type}
use psic.Validation.Environment.{Map, TypeEnvironment, has, register_type}
use psic.Validation.Command.{no_type, no_accessors}

pub record ValueType : Type 0 where
  pub type : TypeNode
  pub is_null : Bool
  pub known : Bool

abbrev pub known_type : TypeNode → ValueType
known_type type = record { type = type; is_null = false; known = true }

abbrev pub null_type : ValueType
null_type = record { type = no_type; is_null = true; known = true }

abbrev pub unknown_type : ValueType
unknown_type = record { type = no_type; is_null = false; known = false }

-- `left.known && left.type.pointerLevel > 0`.
abbrev pub is_pointer : ValueType → Bool
is_pointer v = v.known && ltb 0 v.type.pointer_level

module _ (locals : Map TypeNode) (env : TypeEnvironment) where
  -- A plain name of a function that no local or global hides.
  abbrev pub names_function : RegNode → Bool
  names_function reg =
      no_accessors reg
      && not (has locals reg.name)
      && not (has env.globals reg.name)
      && has env.parameters reg.name

  unfoldable pub infer_value_type : ValueNode → Checked ValueType
  infer_value_type (number_int n) = value (known_type (plain_type (codes "i64") 0))
  infer_value_type (number_float s) = value (known_type (plain_type (codes "f64") 0))
  infer_value_type (bool b) = value (known_type (plain_type (codes "bool") 0))
  infer_value_type (string s) = value (known_type (plain_type (codes "i8") 1))
  infer_value_type null = value null_type
  infer_value_type (register reg) =
      if names_function reg
      then value (known_type (plain_type (codes "void") 1))
      else register_type reg locals env >>= λ type. value (known_type type)
  infer_value_type (array items) = value unknown_type
  infer_value_type (special_register name) = value unknown_type

  unfoldable pub is_pointer_difference_command : List ValueNode → Checked Bool
  is_pointer_difference_command (a ∷ b ∷ []) = do
    left ← infer_value_type a
    right ← infer_value_type b
    value (is_pointer left && is_pointer right)
  is_pointer_difference_command _ = value false
