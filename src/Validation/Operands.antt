-- ===== src/Validation/Operands.antt =====
-- src/validation.cpp: `validateInstruction` and `validatePrimaryOperandTypes`.
use psic.Prelude.{
  ℕ, ◌==◌, leb, Bool, not, ◌&&◌, ◌||◌, if◌then◌else◌, String, Text, contains, List, [], ◌∷◌, ◌++◌,
  length, Option, none, some, codes,
}
use psic.Ast.{ValueNode, register, CommandNode}
use psic.Parser.Decimal.{decimal}
use psic.Target.Pick.{Checked, value, runtime_error}
use psic.Validation.Checked.{◌>>◌, require, when, is, surrounded}
use psic.Validation.Environment.{Names, member}
use psic.Validation.Command.{
  instruction_name, is_special, has_declared_type, has_no_target, operand, no_accessors,
}

abbrev pub binary_instructions : List String
binary_instructions =
    "add" ∷ "sub" ∷ "mul" ∷ "div" ∷ "mod" ∷ "eq" ∷ "gt" ∷ "lt" ∷ "neq" ∷ "gte" ∷ "lte" ∷ "and"
    ∷ "or" ∷ "xor" ∷ "lsh" ∷ "rsh" ∷ "land" ∷ "lor" ∷ []

abbrev pub unary_instructions : List String
unary_instructions = "not" ∷ "lnot" ∷ "load" ∷ "ref" ∷ "jmp" ∷ "label" ∷ []

unfoldable pub expected_operand_count : Text → Option ℕ
expected_operand_count op =
    if contains binary_instructions op || is op "store" || is op "cjmp"
    then some 2
    else if contains unary_instructions op
    then some 1
    else none

-- An instruction that may have no result.
abbrev pub cannot_have_target : Text → Bool
cannot_have_target op = contains ("ret" ∷ "store" ∷ "jmp" ∷ "cjmp" ∷ "label" ∷ []) op

abbrev pub needs_named_operand : Text → Bool
needs_named_operand op = contains ("label" ∷ "jmp" ∷ "cjmp" ∷ "call" ∷ "ref" ∷ []) op

abbrev pub quoted : Text → String → Text
quoted op rest = surrounded "'" op rest

abbrev check_count : Text → ℕ → Option ℕ → Checked (Unit {0})
check_count op count none = value tt
check_count op count (some expected) =
    require (count == expected) (quoted op "' requires " ++ decimal expected ++ codes " operand(s)")

-- The operand that names a label, a function or storage, and the labels seen after it.
unfoldable pub check_named_operand : Text → ValueNode → Names → Checked Names
check_named_operand op (register reg) labels = do
  require (is op "ref" || no_accessors reg) (quoted op "' requires a plain name")
  require (not (is op "label") || not (member labels reg.name))
      (surrounded "duplicate label '" reg.name "'")
  value (if is op "label" then reg.name ∷ labels else labels)
check_named_operand op _ labels = runtime_error (quoted op "' requires a named operand")

-- The rules on the numbers of operands and results of an instruction.
unfoldable pub check_shape : CommandNode → Checked (Unit {0})
check_shape command =
    let op = instruction_name command in
    let count = length command.values in
    do
      check_count op count (expected_operand_count op)
      when (is op "ret") (require (leb count 1) (codes "'ret' takes at most one operand"))
      when (is op "call") (require (leb 1 count) (codes "'call' requires a function name"))
      when (cannot_have_target op)
          (require (has_no_target command) (quoted op "' cannot have a result target"))
      when (not (cannot_have_target op) && not (is op "call"))
          (require (not (has_no_target command)) (quoted op "' requires a result target"))
      when (is op "load")
          (require (has_declared_type command) (codes "'load' requires an explicit result type"))

abbrev pub check_name : Text → List ValueNode → Names → Checked Names
check_name op values labels =
    if needs_named_operand op
    then check_named_operand op (operand values (if is op "cjmp" then 1 else 0)) labels
    else value labels

unfoldable pub validate_instruction : CommandNode → Names → Checked Names
validate_instruction command labels =
    if is_special command
    then value labels
    else check_shape command >> check_name (instruction_name command) command.values labels
