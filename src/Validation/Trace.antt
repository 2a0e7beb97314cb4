-- ===== src/Validation/Trace.antt =====
-- The run of `validateBlock` over the commands of a block as a relation, and what each check that
-- passes consists of.
use psic.Prelude.{
  ◌≡◌, refl, inl, inr, Bool, true, false, Bool-cases, if◌then◌else◌, [], ◌∷◌, Option, ◌∙◌, ap, ◌&&◌,
}
use psic.Source.{SourceLocation, Result, ok, failed, out_of_fuel}
use psic.Ast.{TypeNode, CommandNode, BlockNode}
use psic.Target.Pick.{Checked, value, runtime_error}
use psic.Validation.Checked.{
  Passes, then-value, bind-value, value-inj, when-then, when-Passes, then-Passes,
}
use psic.Validation.Environment.{Map, TypeEnvironment, Names}
use psic.Validation.Command.{
  PointerModel, normalized_instruction_name, has_instruction, instruction_name, is_special,
  has_declared_type, target_register,
}
use psic.Validation.Operands.{validate_instruction}
use psic.Validation.Primary.{validate_primary_operand_types}
use psic.Validation.Casts.{validate_explicit_cast}
use psic.Validation.Plain.{check_plain}
use psic.Validation.Aliases.{Flow}
use psic.Validation.Closure.{locals_after, located_then, alias_closure}
use psic.Validation.Block.{
  check_command, check_prefixes, check_target, check_effect, check_instruction, check_escape,
  check_declaration, check_special, check_constness, check_indexes, check_root, assigns, flow_after,
  validate_commands, validate_block, after_closure, check_reference, plain_name,
}

pub if-true :
    {A : Type 0} (b : Bool) {x z : A} (y : A) → b ≡ true → (if b then x else y) ≡ z → x ≡ z
if-true true y e h = h
if-true false y e h = cc

pub if-false :
    {A : Type 0} (b : Bool) (x : A) {y z : A} → b ≡ false → (if b then x else y) ≡ z → y ≡ z
if-false true x e h = cc
if-false false x e h = h

module _ (model : PointerModel) (env : TypeEnvironment) (return_type : Option TypeNode) where
  -- The commands pass one after another, from the locals, the alias sets and the labels on.
  pub data Accepts : Map TypeNode → Flow → Names → BlockNode → Type 0 where
    end : {locals : Map TypeNode} {flow : Flow} {labels : Names} → Accepts locals flow labels []
    skip :
        {locals : Map TypeNode} {flow : Flow} {labels : Names} {command : CommandNode}
        {commands : BlockNode}
        → command.is_empty ≡ true
        → Accepts locals flow labels commands
        → Accepts locals flow labels (command ∷ commands)
    pass :
        {locals : Map TypeNode} {flow : Flow} {labels after : Names} {command : CommandNode}
        {commands : BlockNode}
        → command.is_empty ≡ false
        → check_command model locals env flow return_type command labels ≡ value after
        → Accepts
            (locals_after command locals)
            (flow_after model locals env flow command)
            after
            commands
        → Accepts locals flow labels (command ∷ commands)

  located_then-ok :
      {A B : Type 0} (active : SourceLocation) (r : Checked A) (next : A → Result B) (b : B)
      → located_then active r next ≡ ok b
      → (a : A) × (r ≡ value a) × (next a ≡ ok b)
  located_then-ok active (value a) next b h = (a, refl, h)
  located_then-ok active (runtime_error m) next b h = cc

  pub validate_commands-Accepts :
      (active : SourceLocation) (locals : Map TypeNode) (flow : Flow) (labels : Names)
      (block : BlockNode) (left : SourceLocation)
      → validate_commands model env return_type active locals flow labels block ≡ ok left
      → Accepts locals flow labels block
  unfolding validate_commands
  validate_commands-Accepts active locals flow labels [] left h = end
  validate_commands-Accepts active locals flow labels (command ∷ commands) left h =
      elim (Bool-cases command.is_empty) [
        | inl e ↦ skip e (
            validate_commands-Accepts command.location locals flow labels commands left
              (if-true command.is_empty _ e h))
        | inr e ↦
            let passed =
              located_then-ok command.location
                (check_command model locals env flow return_type command labels) _ left
                (if-false command.is_empty _ e h) in
            pass e passed.1 (
              validate_commands-Accepts command.location (locals_after command locals)
                (flow_after model locals env flow command) passed.0 commands left passed.2)
      ]

  pub validate_block-Accepts :
      (active : SourceLocation) (locals : Map TypeNode) (block : BlockNode) (left : SourceLocation)
      → validate_block model env return_type active locals block ≡ ok left
      → (flow : Flow) × (alias_closure active env locals block ≡ ok flow)
        × Accepts locals flow [] block
  unfolding validate_block
  validate_block-Accepts active locals block left h =
      go (alias_closure active env locals block) refl h
    where
      go :
          (r : Result Flow)
          → alias_closure active env locals block ≡ r
          → after_closure model env return_type r
              (λ flow. validate_commands model env return_type active locals flow [] block)
            ≡ ok left
          → (flow : Flow) × (alias_closure active env locals block ≡ ok flow)
            × Accepts locals flow [] block
      go (ok flow) e k = (flow, e, validate_commands-Accepts active locals flow [] block left k)
      go (failed m l) e k = cc
      go out_of_fuel e k = cc

module _ (model : PointerModel) (locals : Map TypeNode) (env : TypeEnvironment) (flow : Flow)
    (return_type : Option TypeNode) (command : CommandNode) (labels after : Names) where
  pub check_command-parts :
      check_command model locals env flow return_type command labels ≡ value after
      → Passes (check_prefixes command)
        × Passes (check_target model locals env flow command)
        × (check_effect model locals env flow return_type command labels ≡ value after)
        × Passes (check_escape model locals env flow command)
  unfolding check_command
  check_command-parts h =
      let prefixes = (then-value (check_prefixes command) _ after).0 h in
      let target = (then-value (check_target model locals env flow command) _ after).0 prefixes.1 in
      let effect =
        bind-value (check_effect model locals env flow return_type command labels) _ after
          target.1 in
      let escape = (then-value (check_escape model locals env flow command) _ after).0 effect.2 in
      let same =
        value-inj
          ((then-value
              (check_reference model locals env flow
                (has_instruction command && plain_name command ("ref" ∷ [])) command.values)
              (value effect.0) after).0
            escape.1).1 in
      (prefixes.0, target.0, effect.1 ∙ ap value same, escape.0)

  pub check_target-parts :
      Passes (check_target model locals env flow command)
      → Passes (check_constness model locals env flow command)
        × Passes (check_indexes model locals env flow command)
        × (assigns command ≡ true
            → Passes (check_root model locals env flow (target_register command)))
        × (has_declared_type command ≡ true
            → Passes (check_declaration model locals env flow command))
  unfolding check_target
  check_target-parts h =
      let constness = (then-Passes (check_constness model locals env flow command) _).0 h in
      let indexes = (then-Passes (check_indexes model locals env flow command) _).0 constness.1 in
      let root = when-then (assigns command) indexes.1 in
      (constness.0, indexes.0, root.0, (when-Passes (has_declared_type command) _).0 root.1)

  -- The checks of a command that is an instruction.
  pub check_effect-parts :
      has_instruction command ≡ true
      → check_effect model locals env flow return_type command labels ≡ value after
      → (validate_instruction command labels ≡ value after)
        × Passes (validate_primary_operand_types locals env model command)
        × Passes (validate_explicit_cast locals env model command)
        × (is_special command ≡ true
            → Passes (
                check_special model locals env flow
                  (normalized_instruction_name (instruction_name command))
                  command))
        × Passes (check_plain model locals env flow return_type command)
  unfolding check_effect check_instruction
  check_effect-parts e h =
      let labelled =
        bind-value (validate_instruction command labels) _ after
          (if-true (has_instruction command) _ e h) in
      let primary =
        (then-value (validate_primary_operand_types locals env model command) _ after).0
          labelled.2 in
      let cast =
        (then-value (validate_explicit_cast locals env model command) _ after).0 primary.1 in
      let special = when-then (is_special command) cast.1 in
      let plain =
        (then-value (check_plain model locals env flow return_type command) (value labelled.0)
            after).0
          special.1 in
      (labelled.1 ∙ ap value (value-inj plain.1), primary.0, cast.0, special.0, plain.0)
