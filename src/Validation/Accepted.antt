-- ===== src/Validation/Accepted.antt =====
-- What holds of a block that `validateBlock` accepts: its labels and its locals have names of their
-- own.
use psic.Prelude.{
  ◌≡◌, refl, inl, inr, Bool, true, false, not, ◌||◌, ◌&&◌, Text, codes, text_eq, text_eq_iff,
  contains, List, [], ◌∷◌, ◌++◌, arith, Bool-cases, if◌then◌else◌, sym, subst,
}
use psic.Ast.{ValueNode, register, CommandNode, BlockNode}
use psic.Target.Pick.{value}
use psic.Validation.Checked.{is, then-value, value-inj, require-then}
use psic.Validation.Environment.{Names, member}
use psic.Validation.Command.{
  instruction_name, is_special, has_declared_type, target_register, operand, no_accessors,
}
use psic.Validation.Operands.{
  validate_instruction, check_shape, check_name, check_named_operand, needs_named_operand,
}

-- No name stands twice.
abbrev pub IsDistinct : List Text → Type 0
IsDistinct [] = Unit {0}
IsDistinct (x ∷ names) = (member names x ≡ false) × IsDistinct names

-- The label that a command sets.
abbrev pub is_label : CommandNode → Bool
is_label command = not (is_special command) && is (instruction_name command) "label"

abbrev pub register_name : ValueNode → List Text
register_name (register reg) = reg.name ∷ []
register_name _ = []

abbrev pub label_of : CommandNode → List Text
label_of command = if is_label command then register_name (operand command.values 0) else []

abbrev pub local_of : CommandNode → List Text
local_of command = if has_declared_type command then (target_register command).name ∷ [] else []

abbrev pub block_labels : BlockNode → List Text
block_labels [] = []
block_labels (command ∷ block) =
    if command.is_empty then block_labels block else label_of command ++ block_labels block

abbrev pub block_locals : BlockNode → List Text
block_locals [] = []
block_locals (command ∷ block) =
    if command.is_empty then block_locals block else local_of command ++ block_locals block

-- The new names are none of those before.
abbrev pub IsFresh : List Text → Names → Type 0
IsFresh [] names = Unit {0}
IsFresh (x ∷ fresh) names = (member names x ≡ false) × IsFresh fresh names

check_named_operand-labels :
    (op : Text) (v : ValueNode) (labels after : Names)
    → check_named_operand op v labels ≡ value after
    → (after ≡ (if is op "label" then register_name v else []) ++ labels)
      × IsFresh (if is op "label" then register_name v else []) labels
unfolding check_named_operand
check_named_operand-labels op (register reg) labels after h =
    let plain = require-then (is op "ref" || no_accessors reg) _ h in
    let fresh = require-then (not (is op "label") || not (member labels reg.name)) _ plain.1 in
    let same = value-inj fresh.1 in
    elim (Bool-cases (is op "label")) [
      | inl e ↦ rw e (ground (arith, same, e), (ground (arith, fresh.0, e), tt))
      | inr e ↦ rw e (ground (arith, same, e), tt)
    ]
check_named_operand-labels op _ labels after h = cc

is_label-needs : (op : Text) → is op "label" ≡ true → needs_named_operand op ≡ true
unfolding contains
is_label-needs op h = ground (arith, h)

is_label-not-cjmp : (op : Text) → is op "label" ≡ true → is op "cjmp" ≡ false
unfolding codes text_eq
is_label-not-cjmp op h =
    subst (λ x. is x "cjmp" ≡ false) (sym ((text_eq_iff op (codes "label")).0 h)) refl

abbrev new_labels : Text → List ValueNode → List Text
new_labels op values = if is op "label" then register_name (operand values 0) else []

check_name-labels :
    (op : Text) (values : List ValueNode) (labels after : Names)
    → check_name op values labels ≡ value after
    → (after ≡ new_labels op values ++ labels) × IsFresh (new_labels op values) labels
check_name-labels op values labels after h = elim (Bool-cases (is op "label")) [
  | inl e ↦
      check_named_operand-labels op (operand values 0) labels after
        (rw (is_label-needs op e, is_label-not-cjmp op e) at h)
  | inr e ↦ elim (Bool-cases (needs_named_operand op)) [
    | inl n ↦
        let named =
          check_named_operand-labels op (operand values (if is op "cjmp" then 1 else 0)) labels
            after (rw n at h) in
        rw e (rw e at named)
    | inr n ↦ rw e (sym (value-inj (rw n at h)), tt)
  ]
]

-- What an instruction that passes adds to the labels.
pub validate_instruction-labels :
    (command : CommandNode) (labels after : Names)
    → validate_instruction command labels ≡ value after
    → (after ≡ label_of command ++ labels) × IsFresh (label_of command) labels
unfolding validate_instruction
validate_instruction-labels command labels after h = elim (Bool-cases (is_special command)) [
  | inl s ↦ rw s (sym (value-inj (rw s at h)), tt)
  | inr s ↦
      let name =
        (then-value (check_shape command)
            (check_name (instruction_name command) command.values labels) after).0
          (rw s at h) in
      rw s (check_name-labels (instruction_name command) command.values labels after name.1)
]
