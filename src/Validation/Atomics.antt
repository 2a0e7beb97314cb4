-- ===== src/Validation/Atomics.antt =====
-- src/validation.cpp: the checks of `validateBlock` on the atomic instructions.
use psic.Prelude.{
  ℕ, ◌-◌, ltb, Bool, not, ◌&&◌, ◌||◌, if◌then◌else◌, String, Text, contains, List, [], ◌∷◌, codes,
}
use psic.Ast.{TypeNode, ValueNode, CommandNode}
use psic.Target.Pick.{Checked, value}
use psic.Validation.Checked.{◌>>=◌, ◌>>◌, require, when, is, surrounded}
use psic.Validation.Types.{same_type, is_atomic_integer_type, is_atomic_load_store_type}
use psic.Validation.Environment.{Map, TypeEnvironment}
use psic.Validation.Command.{
  PointerModel, is_prefix, no_type, has_declared_type, declared, targets_register, has_no_target,
  operand,
}
use psic.Validation.Infer.{ValueType, known_type, is_pointer, infer_value_type}
use psic.Validation.Aliases.{Flow}
use psic.Validation.Convert.{check_pointer_conversion}
use psic.Validation.System.{one_of, sharp, count_is}
use psic.Validation.Access.{keeps_address, is_modifiable, has_result_with}

abbrev pub atomic_instructions : List String
atomic_instructions =
    "atomicload" ∷ "atomicstore" ∷ "atomicadd" ∷ "atomicsub" ∷ "atomicand" ∷ "atomicor"
    ∷ "atomicxor" ∷ "atomicnand" ∷ "atomicxchg" ∷ "atomicmax" ∷ "atomicmin" ∷ "atomicumax"
    ∷ "atomicumin" ∷ "atomicfadd" ∷ "atomicfsub" ∷ []

abbrev pub is_compare_exchange : Text → Bool
is_compare_exchange special = one_of ("cas" ∷ "atomic_cas" ∷ []) special

-- A read-modify-write instruction.
abbrev pub is_atomic_rmw : Text → Bool
is_atomic_rmw special =
    is_prefix (codes "atomic") special
    && not (is special "atomicload")
    && not (is special "atomicstore")
    && not (is_compare_exchange special)

abbrev pub is_atomic : Text → Bool
is_atomic special =
    is special "atomicload"
    || is special "atomicstore"
    || is_compare_exchange special
    || is_atomic_rmw special

-- A null pointer, or a known one.
abbrev pub may_be_pointer : ValueType → Bool
may_be_pointer v = v.is_null || is_pointer v

-- The type that a pointer points to; nothing is known of what the null pointer points to.
abbrev pub pointee : ValueType → TypeNode
pointee v =
    if v.is_null then no_type else record v.type { pointer_level = v.type.pointer_level - 1 }

-- The pointer points to a pointer.
abbrev to_pointer : ValueType → Bool
to_pointer pointer = not pointer.is_null && ltb 0 (pointee pointer).pointer_level

-- A value for which only the type behind the pointer matters.
abbrev matches_pointee : ValueType → TypeNode → Bool
matches_pointee pointer type =
    pointer.is_null || ltb 0 (pointee pointer).pointer_level || same_type type (pointee pointer)

abbrev is_float_rmw : Text → Bool
is_float_rmw special = one_of ("atomicfadd" ∷ "atomicfsub" ∷ []) special

abbrev expected_operands : Text → ℕ
expected_operands special =
    if is special "atomicload" then 1 else if is_compare_exchange special then 3 else 2

module _ (model : PointerModel) (locals : Map TypeNode) (env : TypeEnvironment) (flow : Flow) where
  abbrev infer : ValueNode → Checked ValueType
  infer = infer_value_type locals env

  unfoldable pub check_atomic_load : ValueType → CommandNode → Checked (Unit {0})
  check_atomic_load pointer command = do
    require (has_result_with command is_atomic_load_store_type)
        (codes "'#atomicload' supports scalar integers, f32/f64, and pointer types")
    when (to_pointer pointer) (
        check_pointer_conversion (known_type (declared command)) (pointee pointer)
          (codes "'#atomicload' result"))
    require
        (has_declared_type command
          && (pointer.is_null
              || ltb 0 (pointee pointer).pointer_level
              || same_type (pointee pointer) (declared command)))
        (codes "'#atomicload' result type must match the pointer's pointee type")

  abbrev check_stored : ValueType → ValueType → CommandNode → Checked (Unit {0})
  check_stored pointer stored command = do
    keeps_address locals env flow (operand command.values 1) (operand command.values 0)
        (codes "cannot store a pointer or address derived from local storage in memory")
    require
        (stored.known
          && (is_atomic_load_store_type stored.type
              || stored.is_null && ltb 0 (pointee pointer).pointer_level))
        (codes "'#atomicstore' supports scalar integers, f32/f64, and pointer types")

  abbrev check_modified : Text → ValueType → Checked (Unit {0})
  check_modified special stored =
      require
        (stored.known
          && (if is_float_rmw special
              then is stored.type.base_name "f32" || is stored.type.base_name "f64"
              else is_atomic_integer_type stored.type))
        (codes (
          if is_float_rmw special
          then "floating atomic RMW requires f32 or f64"
          else "integer atomic RMW requires an i/u8, i/u16, i/u32, or i/u64 value"))

  abbrev check_atomic_result : Text → CommandNode → Checked (Unit {0})
  check_atomic_result special command =
      if is special "atomicstore"
      then require (has_no_target command) (codes "'#atomicstore' does not produce a result")
      else require (targets_register command && has_declared_type command)
          (codes "atomic read-modify-write instructions require a typed result destination")

  -- `atomicstore` and the read-modify-write instructions.
  unfoldable pub check_atomic_write : Text → ValueType → CommandNode → Checked (Unit {0})
  check_atomic_write special pointer command = do
    check_atomic_result special command
    stored ← infer (operand command.values 1)
    when (is special "atomicstore") (check_stored pointer stored command)
    when (is_atomic_rmw special) (check_modified special stored)
    when (to_pointer pointer)
        (check_pointer_conversion stored (pointee pointer) (sharp special "' value operand"))
    require
        (stored.known
          && (if stored.is_null
              then ltb 0 (pointee pointer).pointer_level
              else matches_pointee pointer stored.type))
        (surrounded "pointer type mismatch in '#" special "' value operand")
    when (is_atomic_rmw special) (
        require (same_type stored.type (declared command))
          (codes "atomic read-modify-write result type must match its value operand"))

  abbrev check_exchanged : ValueNode → Checked ValueType
  check_exchanged v = do
    t ← infer v
    require (t.known && is_atomic_integer_type t.type)
        (codes "'#cas' operands must be scalar integer values")
    value t

  unfoldable pub check_compare_exchange : ValueType → CommandNode → Checked (Unit {0})
  check_compare_exchange pointer command = do
    require (targets_register command && has_declared_type command)
        (codes "'#cas' requires a typed result destination")
    expected ← infer (operand command.values 1)
    require (expected.known && is_atomic_integer_type expected.type)
        (codes "'#cas' requires an i/u8, i/u16, i/u32, or i/u64 expected value")
    require (same_type expected.type (declared command))
        (codes "'#cas' result type must match its expected value")
    compared ← check_exchanged (operand command.values 1)
    when (to_pointer pointer)
        (check_pointer_conversion compared (pointee pointer) (codes "'#cas' comparison value"))
    require (matches_pointee pointer compared.type)
        (codes "pointer type mismatch in '#cas' comparison value")
    check_exchanged (operand command.values 2)
    value tt

  unfoldable pub check_atomic : Text → CommandNode → Checked (Unit {0})
  check_atomic special command = do
    require model.integral (
        codes
          "atomic operations require an integral pointer representation so alignment can be checked")
    require (not (is_atomic_rmw special) || contains atomic_instructions special)
        (surrounded "unsupported atomic instruction '#" special "'")
    require (count_is command (expected_operands special))
        (surrounded "incorrect operand count for '#" special "'")
    pointer ← infer (operand command.values 0)
    require (may_be_pointer pointer) (sharp special "' requires a pointer operand")
    when (not (is special "atomicload")) (
        require (is_modifiable locals env flow (operand command.values 0))
          (sharp special "' cannot modify immutable global array or string storage"))
    if is special "atomicload"
        then check_atomic_load pointer command
        else (if is_compare_exchange special
            then check_compare_exchange pointer command
            else check_atomic_write special pointer command)
