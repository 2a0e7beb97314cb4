-- ===== src/Validation/Access.antt =====
-- src/validation.cpp: the checks of `validateBlock` on the bit operations, the bounded views, the
-- block copies and the ports.
use psic.Prelude.{
  ℕ, ◌==◌, ltb, Bool, false, not, ◌&&◌, ◌||◌, if◌then◌else◌, String, Text, List, [], ◌∷◌, ◌++◌,
  codes,
}
use psic.Ast.{TypeNode, ValueNode, register, CommandNode}
use psic.Parser.Decimal.{decimal}
use psic.Target.Pick.{Checked, value, runtime_error}
use psic.Validation.Checked.{◌>>=◌, ◌>>◌, require, when, is}
use psic.Validation.Types.{integer_width, same_type}
use psic.Validation.Environment.{Map, TypeEnvironment, register_type}
use psic.Validation.Command.{
  PointerModel, has_declared_type, declared, targets_register, has_no_target, operand, no_values,
  no_accessors, register_with,
}
use psic.Validation.Infer.{ValueType, infer_value_type}
use psic.Validation.Primary.{is_integer}
use psic.Validation.Aliases.{Flow, may_name_immutable_backing, may_contain_local_pointer, and_then}
use psic.Validation.System.{one_of, sharp, count_is}

module _ (locals : Map TypeNode) (env : TypeEnvironment) (flow : Flow) where
  -- `source` may hold the address of a local, and `destination` does not.
  unfoldable pub address_escapes : ValueNode → ValueNode → Checked Bool
  address_escapes source destination =
      may_contain_local_pointer locals env flow source >>= λ tainted.
      and_then tainted
        (may_contain_local_pointer locals env flow destination >>= λ local. value (not local))

  -- The address of a local may be stored in storage of a local only.
  abbrev pub keeps_address : ValueNode → ValueNode → Text → Checked (Unit {0})
  keeps_address source destination message =
      address_escapes source destination >>= λ b. require (not b) message

  abbrev pub is_modifiable : ValueNode → Bool
  is_modifiable v = not (may_name_immutable_backing locals env v flow.immutable_aliases)

-- A result of a declared type that satisfies a condition.
abbrev pub has_result_with : CommandNode → (TypeNode → Bool) → Bool
has_result_with command p =
    targets_register command && has_declared_type command && p (declared command)

abbrev pub viewlen_names : List String
viewlen_names = "viewlen" ∷ "view_len" ∷ []

abbrev pub viewload_names : List String
viewload_names = "viewload" ∷ "view_load" ∷ []

abbrev pub viewstore_names : List String
viewstore_names = "viewstore" ∷ "view_store" ∷ []

abbrev pub viewslice_names : List String
viewslice_names = "viewslice" ∷ "view_slice" ∷ []

abbrev names_plain_register : ValueNode → Bool
names_plain_register = register_with no_accessors

module _ (model : PointerModel) (locals : Map TypeNode) (env : TypeEnvironment) where
  abbrev infer : ValueNode → Checked ValueType
  infer = infer_value_type locals env

  abbrev pub requires_integer : ValueNode → Text → Checked (Unit {0})
  requires_integer v message = infer v >>= λ t. require (is_integer t) message

  unfoldable pub check_bits : Text → CommandNode → Checked (Unit {0})
  check_bits special command = do
    require (count_is command 1) (sharp special "' requires exactly one operand")
    source ← infer (operand command.values 0)
    require (is_integer source) (sharp special "' requires a scalar integer operand")
    let width = integer_width source.type
    when (is special "bswap") (
        require (width == 16 || width == 32 || width == 64)
          (codes "'#bswap' requires a 16-, 32-, or 64-bit integer operand"))

  -- `registerType` of an operand that is a register.
  abbrev operand_type : ValueNode → Checked TypeNode
  operand_type (register reg) = register_type reg locals env
  operand_type v = runtime_error []

  abbrev check_view_length : CommandNode → Checked (Unit {0})
  check_view_length command =
      require (has_result_with command (λ t. is t.base_name "u64" && t.pointer_level == 0))
        (codes "'#viewlen' requires a u64 result")

  abbrev check_view_slice : TypeNode → CommandNode → Checked (Unit {0})
  check_view_slice view command = do
    start ← infer (operand command.values 1)
    count ← infer (operand command.values 2)
    require (is_integer start && is_integer count)
        (codes "'#viewslice' start and count must be integers")
    require (has_result_with command (same_type view))
        (codes "'#viewslice' result must have the source view's element type")

  abbrev check_view_access : Text → TypeNode → CommandNode → Checked (Unit {0})
  check_view_access special element command = do
    requires_integer (operand command.values 1) (sharp special "' index must be an integer")
    if one_of viewload_names special
        then require (has_result_with command (same_type element))
            (codes "'#viewload' result type must match the view element type")
        else (do
          require (has_no_target command) (codes "'#viewstore' does not produce a result")
          stored ← infer (operand command.values 2)
          require (stored.known && same_type element stored.type)
              (codes "'#viewstore' value type must match the view element type"))

  abbrev view_operands : Text → ℕ
  view_operands special =
      if one_of viewlen_names special then 1 else if one_of viewload_names special then 2 else 3

  unfoldable pub check_view : Text → CommandNode → Checked (Unit {0})
  check_view special command = do
    when (not (one_of viewlen_names special)) (
        require model.integral
          (codes "bounded-view slicing and access require an integral pointer representation"))
    require (count_is command (view_operands special))
        (sharp special "' requires " ++ decimal (view_operands special) ++ codes " operand(s)")
    require (names_plain_register (operand command.values 0))
        (sharp special "' requires a plain bounded-view register")
    view ← operand_type (operand command.values 0)
    require view.is_view (sharp special "' requires a bounded view")
    if one_of viewlen_names special
        then check_view_length command
        else (if one_of viewslice_names special
            then check_view_slice view command
            else check_view_access special (record view { is_view = false }) command)

  abbrev check_pointer_operand : Text → ValueNode → Checked (Unit {0})
  check_pointer_operand special v = infer v >>= λ pointer.
      require (pointer.known && (pointer.is_null || ltb 0 pointer.type.pointer_level))
        (sharp special "' pointer operand must be a pointer")

  unfoldable pub check_memory : Flow → Text → CommandNode → Checked (Unit {0})
  check_memory flow special command = do
    require model.integral
        (sharp special "' requires an integral pointer representation to check byte-range overflow")
    require (count_is command 3) (sharp special "' requires 3 operands")
    check_pointer_operand special (operand command.values 0)
    when (is special "memcpy") (check_pointer_operand special (operand command.values 1))
    require (is_modifiable locals env flow (operand command.values 0))
        (sharp special "' cannot modify immutable global array or string storage")
    when (is special "memcpy") (
        keeps_address locals env flow (operand command.values 1) (operand command.values 0) (
          codes
            "cannot copy bytes from local storage to a destination that may outlive the function"))
    requires_integer (operand command.values 2) (sharp special "' size must be an integer")
    when (is special "memset") (
        requires_integer (operand command.values 1)
          (codes "'#memset' byte value must be an integer"))

  abbrev port_result : Text → String
  port_result special = if is special "inb" then "u8" else if is special "inw" then "u16" else "u32"

  abbrev is_input : Text → Bool
  is_input special = one_of ("inb" ∷ "inw" ∷ "inl" ∷ []) special

  abbrev is_output : Text → Bool
  is_output special = one_of ("outb" ∷ "outw" ∷ "outl" ∷ []) special

  unfoldable pub check_ports : Text → CommandNode → Checked (Unit {0})
  check_ports special command = do
    when (is_input special) (do
      require (count_is command 1) (codes "'#inb' requires one port operand")
      require
          (has_declared_type command
            && is (declared command).base_name (port_result special)
            && (declared command).pointer_level == 0)
          (sharp special "' requires an explicitly declared "
            ++ codes (port_result special)
            ++ codes " result"))
    when (is_output special)
        (require (count_is command 2) (codes "'#outb' requires port and value operands"))
    when (is_input special || is_output special)
        (requires_integer (operand command.values 0) (sharp special "' port must be an integer"))
    when (is_output special)
        (requires_integer (operand command.values 1) (codes "'#outb' value must be an integer"))

  -- The instructions without operands, and those without a result.
  unfoldable pub check_bare : Text → CommandNode → Checked (Unit {0})
  check_bare special command = do
    when (one_of ("trap" ∷ "nop" ∷ "cpu_relax" ∷ "hlt" ∷ "cli" ∷ "sti" ∷ []) special)
        (require (no_values command.values) (sharp special "' takes no operands"))
    when
        (one_of
          ("trap" ∷ "nop" ∷ "cpu_relax" ∷ "hlt" ∷ "cli" ∷ "sti" ∷ "memcpy" ∷ "memset" ∷ "outb"
            ∷ "outw" ∷ "outl" ∷ [])
          special)
        (require (has_no_target command) (sharp special "' does not produce a result"))
