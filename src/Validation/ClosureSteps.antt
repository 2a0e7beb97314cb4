-- ===== src/Validation/ClosureSteps.antt =====
-- A round over the commands of a block adds names of the block only, and so the rounds end.
use psic.Prelude.{
  ◌≡◌, refl, ◌⊎◌, inl, inr, true, Text, not, ◌&&◌, ◌++◌, List, [], ◌∷◌, arith, Bool-cases,
  Option-cases,
}
use psic.Ast.{TypeNode, ValueNode, register, CommandNode, BlockNode}
use psic.Target.Pick.{is_empty}
use psic.Validation.Checked.{returns}
use psic.Validation.Environment.{Map, TypeEnvironment, Names, member, find}
use psic.Validation.Command.{
  no_accessors, target_register, register_with, operand, targets_register,
}
use psic.Validation.Aliases.{Flow}
use psic.Validation.Flow.{add_if, add_reference, add_contents}
use psic.Validation.Aliases.{command_may_name_immutable_backing}
use psic.Validation.Closure.{
  register_names, common_reference, referenced_local, takes_reference, reference_step,
  references_aggregate, plain_step, array_condition, copies_contents, copies_aggregate_reference,
  storage_condition, names_step, array_step, storage_step, target_type, target_step, command_step,
  round, block_names, locals_after,
}
use psic.Validation.Grows.{
  StepChecked, Step, RefersWithin, none-Grows, add_immutable-Grows, add_storage-Grows,
  add_contents-Grows, add_if-Grows, add_when-Grows, bind-Grows, Grows-trans, seq-Grows,
  add_reference-Grows, add_aggregate_reference-Grows,
}
use psic.Validation.FlowSteps.{
  Covers, after, aggregate_step-Grows, store_step-Grows, memcpy_step-Grows, load_step-Grows,
}
use psic.Validation.Missing.{member-head, member-tail}

-- No name, or one of the names.
abbrev NoneOrOf : List Text → Text → Type 0
NoneOrOf names local = (is_empty local ≡ true) ⊎ (member names local ≡ true)

common_reference-NoneOrOf :
    (names : List Text) (flow : Flow) (local : Text) (values : List ValueNode)
    → RefersWithin names flow.local_references
    → NoneOrOf names local
    → NoneOrOf names (common_reference flow local values)
unfolding common_reference
common_reference-NoneOrOf names flow local [] w h = h
common_reference-NoneOrOf names flow local (register reg ∷ values) w h =
    let rest = common_reference-NoneOrOf names flow local values w h in
    elim (Option-cases (find flow.local_references reg.name)) [
      | inl e ↦ ground (arith, e, rest)
      | inr (other, e) ↦
          let from_other =
            common_reference-NoneOrOf names flow other values w (inr (w reg.name other e)) in
          ground (arith, e, rest, from_other)
    ]
common_reference-NoneOrOf names flow local (v ∷ values) w h =
    common_reference-NoneOrOf names flow local values w h

first_operand-NoneOrOf :
    (names : List Text) (values : List ValueNode)
    → Covers names values
    → NoneOrOf names (elim (operand values 0) [ register reg ↦ reg.name | _ ↦ [] ])
first_operand-NoneOrOf names (register reg ∷ values) c =
    inr (c reg.name (member-head reg.name (register_names values)))
first_operand-NoneOrOf names _ c = inl refl

module _ (names : List Text) (env : TypeEnvironment) (visible : Map TypeNode) where
  referenced_local-NoneOrOf :
      (flow : Flow) (command : CommandNode)
      → RefersWithin names flow.local_references
      → Covers names command.values
      → NoneOrOf names (referenced_local env visible flow command)
  referenced_local-NoneOrOf flow command w c =
      let first = first_operand-NoneOrOf names command.values c in
      let common = common_reference-NoneOrOf names flow [] command.values w (inl refl) in
      ground (arith, first, common)

  add_reference_if-Grows :
      (x local : Text)
      → member names x ≡ true
      → NoneOrOf names local
      → Step names (add_if (not (is_empty local)) (add_reference x local))
  add_reference_if-Grows x local m (inl e) f w = rw e (none-Grows names f w)
  add_reference_if-Grows x local m (inr m') f w =
      add_if-Grows names (not (is_empty local)) (add_reference-Grows names x local m m') f w

  reference_step-Grows :
      (command : CommandNode) (x : Text)
      → member names x ≡ true
      → Covers names command.values
      → Step names (reference_step env visible x command)
  reference_step-Grows command x m c f w =
      let d =
        add_if-Grows names
          (takes_reference env visible command
            && register_with (references_aggregate env visible f) (operand command.values 0))
          (add_aggregate_reference-Grows names x m) f w in
      Grows-trans names d (
        add_reference_if-Grows x (referenced_local env visible f command) m
          (referenced_local-NoneOrOf f command w c) _ d.1)

  -- The steps that cannot throw.
  abbrev pub pure_steps : Text → CommandNode → Flow → Flow
  pure_steps x command f =
      let copied = add_if (copies_contents env visible f command) (add_contents x) f in
      names_step env visible x command (reference_step env visible x command copied)

  pub pure_steps-Grows :
      (command : CommandNode) (x : Text)
      → member names x ≡ true
      → Covers names command.values
      → Step names (pure_steps x command)
  pure_steps-Grows command x m c =
      seq-Grows names
        (λ g.
          add_if-Grows names (copies_contents env visible g command) (add_contents-Grows names x m)
            g)
        (seq-Grows names (reference_step-Grows command x m c) (
          seq-Grows names
            (λ g.
              add_if-Grows names (copies_aggregate_reference env visible g command)
                (add_aggregate_reference-Grows names x m) g)
            (λ g.
              add_if-Grows names
                (command_may_name_immutable_backing visible env command g.immutable_aliases)
                (add_immutable-Grows names x m) g)))

  pub array_step-Grows :
      (command : CommandNode) (x : Text)
      → member names x ≡ true
      → StepChecked names (array_step env visible x command)
  array_step-Grows command x m f =
      add_when-Grows names (array_condition env visible command f) (add_contents-Grows names x m) f

  pub storage_step-Grows :
      (command : CommandNode) (type : TypeNode) (x : Text)
      → member names x ≡ true
      → StepChecked names (storage_step env visible x type command)
  storage_step-Grows command type x m f =
      add_when-Grows names (storage_condition env visible x type command f)
        (add_storage-Grows names x m) f

  plain_step-Grows :
      (command : CommandNode) (type : TypeNode)
      → member names (target_register command).name ≡ true
      → Covers names command.values
      → StepChecked names (plain_step env visible command type)
  unfolding plain_step
  plain_step-Grows command type m c =
      let x = (target_register command).name in
      bind-Grows names (array_step-Grows command x m) (λ f w.
        after names env visible (pure_steps-Grows command x m c) w
          (storage_step-Grows command type x m))

  pub target_step-Grows :
      (command : CommandNode)
      → member names (target_register command).name ≡ true
      → Covers names command.values
      → StepChecked names (target_step env visible command)
  unfolding target_step
  target_step-Grows command m c f w = elim (Bool-cases (targets_register command)) [
    | inr e ↦ rw e (returns (none-Grows names f w))
    | inl e ↦ rw e (elim (Bool-cases (no_accessors (target_register command))) [
      | inr e' ↦ rw e' (aggregate_step-Grows names env visible command m f w)
      | inl e' ↦ rw e' (elim (Option-cases (target_type env visible command)) [
        | inl e'' ↦ rw e'' (returns (none-Grows names f w))
        | inr (type, e'') ↦ rw e'' (plain_step-Grows command type m c f w)
      ])
    ])
  ]

  pub command_step-Grows :
      (command : CommandNode)
      → member names (target_register command).name ≡ true
      → Covers names command.values
      → StepChecked names (command_step env visible command)
  unfolding command_step
  command_step-Grows command m c = bind-Grows names (store_step-Grows names env visible command) (
      bind-Grows names (memcpy_step-Grows names env visible command c) (
        bind-Grows names (load_step-Grows names env visible command m)
          (target_step-Grows command m c)))

-- All names of the registers of a block are among the names.
abbrev pub CoversBlock : List Text → BlockNode → Type 0
CoversBlock names block = (u : Text) → member (block_names block) u ≡ true → member names u ≡ true

pub member-append :
    (xs ys : Names) (u : Text)
    → ((member xs u ≡ true) ⊎ (member ys u ≡ true))
    → member (xs ++ ys) u ≡ true
unfolding member
member-append [] ys u (inl h) = cc
member-append [] ys u (inr h) = h
member-append (x ∷ xs) ys u h = ground (arith, h, member-append xs ys u)

pub round-Grows :
    (names : List Text) (env : TypeEnvironment) (visible : Map TypeNode) (block : BlockNode)
    → CoversBlock names block
    → StepChecked names (round env visible block)
unfolding round
round-Grows names env visible [] c = λ f w. returns (none-Grows names f w)
round-Grows names env visible (command ∷ block) c =
    let x = (target_register command).name in
    let registers = register_names command.values in
    bind-Grows names
      (command_step-Grows names env visible command (c x (member-head x _))
        (λ u m. c u (member-tail x _ u (member-append registers (block_names block) u (inl m)))))
      (round-Grows names env (locals_after command visible) block
        (λ u m. c u (member-tail x _ u (member-append registers (block_names block) u (inr m)))))
