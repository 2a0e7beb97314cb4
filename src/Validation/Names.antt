-- ===== src/Validation/Names.antt =====
-- The labels and the locals of a block that `validateBlock` accepts have names of their own.
use psic.Prelude.{
  ◌≡◌, refl, inl, inr, Bool, true, false, not, ◌&&◌, Text, codes, text_eq, text_eq_iff, List, [],
  ◌∷◌, ◌++◌, arith, Bool-cases, sym, subst, Option, none, some,
}
use psic.Source.{SourceLocation, ok}
use psic.Ast.{TypeNode, InstNode, ValueNode, register, CommandNode, BlockNode}
use psic.Target.Pick.{value}
use psic.Validation.Checked.{
  is, Passes, value-inj, then-Passes, require-Passes, then-value, when-then,
}
use psic.Validation.Types.{validate_type}
use psic.Validation.Environment.{Map, TypeEnvironment, Names, member, has, emplace, is_some}
use psic.Validation.Command.{
  PointerModel, has_instruction, has_declared_type, declared, target_register, operand,
}
use psic.Validation.Missing.{Adds, member-Adds, has-Adds}
use psic.Validation.Aliases.{Flow}
use psic.Validation.Closure.{locals_after}
use psic.Validation.Block.{check_effect, check_declaration, flow_after, validate_block}
use psic.Validation.Trace.{
  Accepts, end, skip, pass, if-false, validate_block-Accepts, check_command-parts,
  check_target-parts, check_effect-parts,
}
use psic.Validation.Accepted.{
  IsDistinct, IsFresh, is_label, label_of, block_labels, block_locals, register_name,
  validate_instruction-labels,
}
use psic.Validation.Plain.{check_assignment}

-- No name that satisfies `p` is in the list.
abbrev pub Apart : (Text → Bool) → List Text → Type 0
Apart p names = (u : Text) → p u ≡ true → member names u ≡ false

abbrev pub Fresh : (Text → Bool) → List Text → Type 0
Fresh p names = IsDistinct names × Apart p names

-- A name that is new for `p`, in front of names that are new for `p` and it.
pub Fresh-cons :
    (x : Text) (p q : Text → Bool) (rest : List Text)
    → Adds x p q
    → p x ≡ false
    → Fresh q rest
    → Fresh p (x ∷ rest)
unfolding member
Fresh-cons x p q rest a n (d, r) = (
  (r x (ground (arith, a x, text_eq_iff x x)), d),
  λ u e. elim (Bool-cases (text_eq x u)) [
    | inl same ↦
        absurd (ground (arith, n, subst (λ y. p y ≡ true) (sym ((text_eq_iff x u).0 same)) e))
    | inr differs ↦ rw differs (r u (ground (arith, a u, e)))
  ],
)

data Short : List Text → Type 0 where
  no_name : Short []
  one_name : (x : Text) → Short (x ∷ [])

register_name-Short : (v : ValueNode) → Short (register_name v)
register_name-Short (register reg) = one_name reg.name
register_name-Short _ = no_name

label_of-Short : (command : CommandNode) → Short (label_of command)
label_of-Short command = elim (Bool-cases (is_label command)) [
  | inl e ↦ rw e (register_name-Short (operand command.values 0))
  | inr e ↦ rw e no_name
]

Fresh-labels :
    (new labels after rest : List Text)
    → Short new
    → after ≡ new ++ labels
    → IsFresh new labels
    → Fresh (member after) rest
    → Fresh (member labels) (new ++ rest)
Fresh-labels [] labels after rest no_name e f r = subst (λ x. Fresh (member x) rest) e r
Fresh-labels (x ∷ []) labels after rest (one_name _) e f r =
    Fresh-cons x (member labels) (member (x ∷ labels)) rest (member-Adds x labels) f.0
      (subst (λ y. Fresh (member y) rest) e r)
Fresh-labels (x ∷ (_ ∷ _)) labels after rest short e f r = elim short [ ]

-- A command without an instruction sets no label.
no_instruction-label :
    (o : Option InstNode)
    → is_some o ≡ false
    → (not (elim o [ none ↦ false | some i ↦ i.is_special ])
        && is (elim o [ none ↦ [] | some i ↦ i.name ]) "label")
      ≡ false
unfolding text_eq codes
no_instruction-label none e = refl
no_instruction-label (some i) e = cc

module _ (model : PointerModel) (env : TypeEnvironment) (return_type : Option TypeNode) where
  effect-labels :
      (locals : Map TypeNode) (flow : Flow) (command : CommandNode) (labels after : Names)
      → check_effect model locals env flow return_type command labels ≡ value after
      → (after ≡ label_of command ++ labels) × IsFresh (label_of command) labels
  unfolding check_effect
  effect-labels locals flow command labels after h = elim (Bool-cases (has_instruction command)) [
    | inl e ↦
        validate_instruction-labels command labels after
          (check_effect-parts model locals env flow return_type command labels after e h).0
    | inr e ↦
        let passed = if-false (has_instruction command) _ e h in
        let kept =
          (then-value (check_assignment model locals env flow command) (value labels) after).0
            passed in
        rw (no_instruction-label command.instruction e) (sym (value-inj kept.1), tt)
  ]

  labels-Fresh :
      (locals : Map TypeNode) (flow : Flow) (labels : Names) (block : BlockNode)
      → Accepts model env return_type locals flow labels block
      → Fresh (member labels) (block_labels block)
  unfolding member
  labels-Fresh locals flow labels [] end = (tt, λ u e. refl)
  labels-Fresh locals flow labels (command ∷ commands) (skip e rest) =
      rw e (labels-Fresh locals flow labels commands rest)
  labels-Fresh locals flow labels (command ∷ commands) (pass {after = after} e passed rest) =
      let parts =
        check_command-parts model locals env flow return_type command labels after passed in
      let added = effect-labels locals flow command labels after parts.2 in
      rw e (
        Fresh-labels (label_of command) labels after (block_labels commands)
          (label_of-Short command) added.0 added.1
          (labels-Fresh (locals_after command locals) (flow_after model locals env flow command)
            after commands rest))

  new_local :
      (locals : Map TypeNode) (flow : Flow) (command : CommandNode)
      → Passes (check_declaration model locals env flow command)
      → has locals (target_register command).name ≡ false
  unfolding check_declaration
  new_local locals flow command h =
      let type = (then-Passes (validate_type (declared command) false) _).0 h in
      let view = when-then (declared command).is_view type.1 in
      let unused = (require-Passes (not (has locals (target_register command).name)) _).0 view.1 in
      ground (arith, unused)

  emplace-Adds :
      (name : Text) (type : TypeNode) (locals : Map TypeNode)
      → has locals name ≡ false
      → Adds name (has locals) (has (emplace name type locals))
  unfolding emplace
  emplace-Adds name type locals e u = rw e (has-Adds name type locals u)

  locals-Fresh :
      (locals : Map TypeNode) (flow : Flow) (labels : Names) (block : BlockNode)
      → Accepts model env return_type locals flow labels block
      → Fresh (has locals) (block_locals block)
  unfolding member
  locals-Fresh locals flow labels [] end = (tt, λ u e. refl)
  locals-Fresh locals flow labels (command ∷ commands) (skip e rest) =
      rw e (locals-Fresh locals flow labels commands rest)
  locals-Fresh locals flow labels (command ∷ commands) (pass {after = after} e passed rest) =
      let parts =
        check_command-parts model locals env flow return_type command labels after passed in
      let target =
        check_target-parts model locals env flow return_type command labels after parts.1 in
      let ih = locals-Fresh (locals_after command locals) _ after commands rest in
      elim (Bool-cases (has_declared_type command)) [
        | inr d ↦ rw (e, d) (rw d at ih)
        | inl d ↦
            let unused = new_local locals flow command (target.3 d) in
            let x = (target_register command).name in
            rw (e, d)
              (Fresh-cons x (has locals) (has (emplace x (declared command) locals))
                (block_locals commands) (emplace-Adds x (declared command) locals unused) unused
                (rw d at ih))
      ]

-- If a block is accepted then its labels have names of their own, and so have its locals, none of which
-- has the name of an argument.
pub validate_block-IsDistinct :
    (model : PointerModel) (env : TypeEnvironment) (return_type : Option TypeNode)
    (active left : SourceLocation) (arguments : Map TypeNode) (block : BlockNode)
    → validate_block model env return_type active arguments block ≡ ok left
    → IsDistinct (block_labels block)
      × IsDistinct (block_locals block)
      × Apart (has arguments) (block_locals block)
validate_block-IsDistinct model env return_type active left arguments block h =
    let accepted = validate_block-Accepts model env return_type active arguments block left h in
    let labels = labels-Fresh model env return_type arguments accepted.0 [] block accepted.2 in
    let locals = locals-Fresh model env return_type arguments accepted.0 [] block accepted.2 in
    (labels.0, locals.0, locals.1)
